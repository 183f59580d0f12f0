-- ===== src/Protocol/Messages/ServerE.antt =====
-- The message classes `BranchLevel` to `PrivateRoomOperators` of protocol/messages.py.
use aioslsk.Base.{none, some}
use aioslsk.Protocol.Value.{uint32, end}
use aioslsk.Protocol.Value.{uint, string, boolean, array}
use aioslsk.Protocol.Message.{MessageKind}
use aioslsk.Protocol.Messages.Notation.{plain, required}

abbrev pub branch_level : MessageKind
branch_level = record {
  name = "BranchLevel";
  request = some (plain uint32 0x7e (required "level" (uint uint32) end));
  response = none;
}

abbrev pub branch_root : MessageKind
branch_root = record {
  name = "BranchRoot";
  request = some (plain uint32 0x7f (required "username" string end));
  response = none;
}

abbrev pub child_depth : MessageKind
child_depth = record {
  name = "ChildDepth";
  request = some (plain uint32 0x81 (required "depth" (uint uint32) end));
  response = none;
}

abbrev pub reset_distributed : MessageKind
reset_distributed = record {
  name = "ResetDistributed";
  request = none;
  response = some (plain uint32 0x82 end);
}

abbrev pub private_room_members : MessageKind
private_room_members = record {
  name = "PrivateRoomMembers";
  request = none;
  response =
      some (plain uint32 0x85 (required "room" string (required "usernames" (array string) end)));
}

abbrev pub private_room_grant_membership : MessageKind
private_room_grant_membership = record {
  name = "PrivateRoomGrantMembership";
  request = some (plain uint32 0x86 (required "room" string (required "username" string end)));
  response = some (plain uint32 0x86 (required "room" string (required "username" string end)));
}

abbrev pub private_room_revoke_membership : MessageKind
private_room_revoke_membership = record {
  name = "PrivateRoomRevokeMembership";
  request = some (plain uint32 0x87 (required "room" string (required "username" string end)));
  response = some (plain uint32 0x87 (required "room" string (required "username" string end)));
}

abbrev pub private_room_drop_membership : MessageKind
private_room_drop_membership = record {
  name = "PrivateRoomDropMembership";
  request = some (plain uint32 0x88 (required "room" string end));
  response = none;
}

abbrev pub private_room_drop_ownership : MessageKind
private_room_drop_ownership = record {
  name = "PrivateRoomDropOwnership";
  request = some (plain uint32 0x89 (required "room" string end));
  response = none;
}

abbrev pub private_room_membership_granted : MessageKind
private_room_membership_granted = record {
  name = "PrivateRoomMembershipGranted";
  request = none;
  response = some (plain uint32 0x8b (required "room" string end));
}

abbrev pub private_room_membership_revoked : MessageKind
private_room_membership_revoked = record {
  name = "PrivateRoomMembershipRevoked";
  request = none;
  response = some (plain uint32 0x8c (required "room" string end));
}

abbrev pub toggle_private_room_invites : MessageKind
toggle_private_room_invites = record {
  name = "TogglePrivateRoomInvites";
  request = some (plain uint32 0x8d (required "enable" boolean end));
  response = some (plain uint32 0x8d (required "enabled" boolean end));
}

abbrev pub new_password : MessageKind
new_password = record {
  name = "NewPassword";
  request = some (plain uint32 0x8e (required "password" string end));
  response = none;
}

abbrev pub private_room_grant_operator : MessageKind
private_room_grant_operator = record {
  name = "PrivateRoomGrantOperator";
  request = some (plain uint32 0x8f (required "room" string (required "username" string end)));
  response = some (plain uint32 0x8f (required "room" string (required "username" string end)));
}

abbrev pub private_room_revoke_operator : MessageKind
private_room_revoke_operator = record {
  name = "PrivateRoomRevokeOperator";
  request = some (plain uint32 0x90 (required "room" string (required "username" string end)));
  response = some (plain uint32 0x90 (required "room" string (required "username" string end)));
}

abbrev pub private_room_operator_granted : MessageKind
private_room_operator_granted = record {
  name = "PrivateRoomOperatorGranted";
  request = none;
  response = some (plain uint32 0x91 (required "room" string end));
}

abbrev pub private_room_operator_revoked : MessageKind
private_room_operator_revoked = record {
  name = "PrivateRoomOperatorRevoked";
  request = none;
  response = some (plain uint32 0x92 (required "room" string end));
}

abbrev pub private_room_operators : MessageKind
private_room_operators = record {
  name = "PrivateRoomOperators";
  request = none;
  response =
      some (plain uint32 0x94 (required "room" string (required "usernames" (array string) end)));
}
