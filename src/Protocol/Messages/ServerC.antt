-- ===== src/Protocol/Messages/ServerC.antt =====
-- The message classes `AdminMessage` to `AcceptChildren` of protocol/messages.py.
use aioslsk.Base.{none, some}
use aioslsk.Protocol.Value.{uint8, uint32, end}
use aioslsk.Protocol.Value.{uint, string, ipaddr, boolean, array, dataclass}
use aioslsk.Protocol.Message.{MessageKind}
use aioslsk.Protocol.Messages.Notation.{plain, required}
use aioslsk.Protocol.Messages.Classes.{user_stats}

abbrev pub admin_message : MessageKind
admin_message = record {
  name = "AdminMessage";
  request = none;
  response = some (plain uint32 0x42 (required "message" string end));
}

abbrev pub get_user_list : MessageKind
get_user_list = record {
  name = "GetUserList";
  request = some (plain uint32 0x43 end);
  response = some (
      plain uint32 0x43 (
        required "users" (array string) (
          required "users_status" (array (uint uint32)) (
            required "users_stats" (array (dataclass user_stats)) (
              required "users_slots_free" (array (uint uint32))
                (required "users_countries" (array string) end))))));
}

abbrev pub tunneled_message : MessageKind
tunneled_message = record {
  name = "TunneledMessage";
  request = some (
      plain uint32 0x44 (
        required "username" string (
          required "ticket" (uint uint32)
            (required "code" (uint uint32) (required "message" string end)))));
  response = some (
      plain uint32 0x44 (
        required "username" string (
          required "ticket" (uint uint32) (
            required "code" (uint uint32) (
              required "ip" ipaddr
                (required "port" (uint uint32) (required "message" string end)))))));
}

abbrev pub privileged_users : MessageKind
privileged_users = record {
  name = "PrivilegedUsers";
  request = none;
  response = some (plain uint32 0x45 (required "users" (array string) end));
}

abbrev pub toggle_parent_search : MessageKind
toggle_parent_search = record {
  name = "ToggleParentSearch";
  request = some (plain uint32 0x47 (required "enable" boolean end));
  response = none;
}

abbrev pub parent_ip : MessageKind
parent_ip = record {
  name = "ParentIP";
  request = some (plain uint32 0x49 (required "ip" ipaddr end));
  response = none;
}

abbrev pub unknown80 : MessageKind
unknown80 = record { name = "Unknown80"; request = some (plain uint32 0x50 end); response = none }

abbrev pub parent_min_speed : MessageKind
parent_min_speed = record {
  name = "ParentMinSpeed";
  request = none;
  response = some (plain uint32 0x53 (required "speed" (uint uint32) end));
}

abbrev pub parent_speed_ratio : MessageKind
parent_speed_ratio = record {
  name = "ParentSpeedRatio";
  request = none;
  response = some (plain uint32 0x54 (required "ratio" (uint uint32) end));
}

abbrev pub parent_inactivity_timeout : MessageKind
parent_inactivity_timeout = record {
  name = "ParentInactivityTimeout";
  request = none;
  response = some (plain uint32 0x56 (required "timeout" (uint uint32) end));
}

abbrev pub search_inactivity_timeout : MessageKind
search_inactivity_timeout = record {
  name = "SearchInactivityTimeout";
  request = none;
  response = some (plain uint32 0x57 (required "timeout" (uint uint32) end));
}

abbrev pub min_parents_in_cache : MessageKind
min_parents_in_cache = record {
  name = "MinParentsInCache";
  request = none;
  response = some (plain uint32 0x58 (required "amount" (uint uint32) end));
}

abbrev pub distributed_distribute_interval : MessageKind
distributed_distribute_interval = record {
  name = "DistributedDistributeInterval";
  request = none;
  response = some (plain uint32 0x59 (required "interval" (uint uint32) end));
}

abbrev pub distributed_alive_interval : MessageKind
distributed_alive_interval = record {
  name = "DistributedAliveInterval";
  request = none;
  response = some (plain uint32 0x5a (required "interval" (uint uint32) end));
}

abbrev pub add_privileged_user : MessageKind
add_privileged_user = record {
  name = "AddPrivilegedUser";
  request = none;
  response = some (plain uint32 0x5b (required "username" string end));
}

abbrev pub check_privileges : MessageKind
check_privileges = record {
  name = "CheckPrivileges";
  request = some (plain uint32 0x5c end);
  response = some (plain uint32 0x5c (required "time_left" (uint uint32) end));
}

abbrev pub server_search_request : MessageKind
server_search_request = record {
  name = "ServerSearchRequest";
  request = none;
  response = some (
      plain uint32 0x5d (
        required "distributed_code" (uint uint8) (
          required "unknown" (uint uint32) (
            required "username" string
              (required "ticket" (uint uint32) (required "query" string end))))));
}

abbrev pub accept_children : MessageKind
accept_children = record {
  name = "AcceptChildren";
  request = some (plain uint32 0x64 (required "accept" boolean end));
  response = none;
}
