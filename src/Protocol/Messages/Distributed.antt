-- ===== src/Protocol/Messages/Distributed.antt =====
-- The message classes `DistributedPing` to `DistributedServerSearchRequest` of protocol/messages.py.
use aioslsk.Base.{none, some}
use aioslsk.Protocol.Value.{uint8, uint32, end}
use aioslsk.Protocol.Value.{uint, string}
use aioslsk.Protocol.Message.{MessageKind}
use aioslsk.Protocol.Messages.Notation.{plain, required}

abbrev pub distributed_ping : MessageKind
distributed_ping = record {
  name = "DistributedPing";
  request = some (plain uint8 0x0 end);
  response = none;
}

abbrev pub distributed_init : MessageKind
distributed_init = record {
  name = "DistributedInit";
  request = some (
      plain uint8 0x1 (
        required "unknown1" (uint uint32) (
          required "unknown2" (uint uint32)
            (required "unknown3" (uint uint8) (required "port" (uint uint32) end)))));
  response = none;
}

abbrev pub distributed_search_request : MessageKind
distributed_search_request = record {
  name = "DistributedSearchRequest";
  request = some (
      plain uint8 0x3 (
        required "unknown" (uint uint32) (
          required "username" string
            (required "ticket" (uint uint32) (required "query" string end)))));
  response = none;
}

abbrev pub distributed_branch_level : MessageKind
distributed_branch_level = record {
  name = "DistributedBranchLevel";
  request = some (plain uint8 0x4 (required "level" (uint uint32) end));
  response = none;
}

abbrev pub distributed_branch_root : MessageKind
distributed_branch_root = record {
  name = "DistributedBranchRoot";
  request = some (plain uint8 0x5 (required "username" string end));
  response = none;
}

abbrev pub distributed_child_depth : MessageKind
distributed_child_depth = record {
  name = "DistributedChildDepth";
  request = some (plain uint8 0x7 (required "depth" (uint uint32) end));
  response = none;
}

abbrev pub distributed_server_search_request : MessageKind
distributed_server_search_request = record {
  name = "DistributedServerSearchRequest";
  request = some (
      plain uint32 0x5d (
        required "distributed_code" (uint uint8) (
          required "unknown" (uint uint32) (
            required "username" string
              (required "ticket" (uint uint32) (required "query" string end))))));
  response = none;
}
