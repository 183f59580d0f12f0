-- ===== src/Protocol/Messages/ServerA.antt =====
-- The message classes `Login` to `FileSearch` of protocol/messages.py.
use aioslsk.Base.{true, false, none, some}
use aioslsk.Protocol.Value.{null, bool, uint16, uint32, end}
use aioslsk.Protocol.Value.{uint, string, ipaddr, boolean, array, dataclass}
use aioslsk.Protocol.Message.{MessageKind}
use aioslsk.Protocol.Messages.Notation.{plain, required, optional, only_if, only_unless, special}
use aioslsk.Protocol.Messages.Classes.{user_stats}

abbrev pub login : MessageKind
login = record {
  name = "Login";
  request = some (
      plain uint32 0x1 (
        required "username" string (
          required "password" string (
            required "client_version" (uint uint32)
              (required "md5hash" string (required "minor_version" (uint uint32) end))))));
  response = some (
      plain uint32 0x1 (
        required "success" boolean (
          only_if "greeting" string "success" (
            only_if "ip" ipaddr "success" (
              only_if "md5hash" string "success" (
                only_if "privileged" boolean "success"
                  (only_unless "reason" string "success" end)))))));
}

abbrev pub set_listen_port : MessageKind
set_listen_port = record {
  name = "SetListenPort";
  request = some (
      plain uint32 0x2 (
        required "port" (uint uint32) (
          optional "obfuscated_port_amount" (uint uint32)
            (optional "obfuscated_port" (uint uint32) end))));
  response = none;
}

abbrev pub get_peer_address : MessageKind
get_peer_address = record {
  name = "GetPeerAddress";
  request = some (plain uint32 0x3 (required "username" string end));
  response = some (
      plain uint32 0x3 (
        required "username" string (
          required "ip" ipaddr (
            required "port" (uint uint32) (
              optional "obfuscated_port_amount" (uint uint32)
                (optional "obfuscated_port" (uint uint16) end))))));
}

abbrev pub add_user : MessageKind
add_user = record {
  name = "AddUser";
  request = some (plain uint32 0x5 (required "username" string end));
  response = some (
      plain uint32 0x5 (
        required "username" string (
          required "exists" boolean (
            only_if "status" (uint uint32) "exists" (
              only_if "user_stats" (dataclass user_stats) "exists"
                (special "country_code" string (some "exists") none true (some null) end))))));
}

abbrev pub remove_user : MessageKind
remove_user = record {
  name = "RemoveUser";
  request = some (plain uint32 0x6 (required "username" string end));
  response = none;
}

abbrev pub get_user_status : MessageKind
get_user_status = record {
  name = "GetUserStatus";
  request = some (plain uint32 0x7 (required "username" string end));
  response = some (
      plain uint32 0x7 (
        required "username" string
          (required "status" (uint uint32) (required "privileged" boolean end))));
}

abbrev pub ignore_user : MessageKind
ignore_user = record {
  name = "IgnoreUser";
  request = some (plain uint32 0xb (required "username" string end));
  response = some (plain uint32 0xb (required "username" string end));
}

abbrev pub unignore_user : MessageKind
unignore_user = record {
  name = "UnignoreUser";
  request = some (plain uint32 0xc (required "username" string end));
  response = some (plain uint32 0xc (required "username" string end));
}

abbrev pub room_chat_message : MessageKind
room_chat_message = record {
  name = "RoomChatMessage";
  request = some (plain uint32 0xd (required "room" string (required "message" string end)));
  response = some (
      plain uint32 0xd
        (required "room" string (required "username" string (required "message" string end))));
}

abbrev pub join_room : MessageKind
join_room = record {
  name = "JoinRoom";
  request = some (
      plain uint32 0xe (
        required "room" string
          (special "is_private" (uint uint32) none none true (some (bool false)) end)));
  response = some (
      plain uint32 0xe (
        required "room" string (
          required "users" (array string) (
            required "users_status" (array (uint uint32)) (
              required "users_stats" (array (dataclass user_stats)) (
                required "users_slots_free" (array (uint uint32)) (
                  required "users_countries" (array string)
                    (optional "owner" string (optional "operators" (array string) end)))))))));
}

abbrev pub leave_room : MessageKind
leave_room = record {
  name = "LeaveRoom";
  request = some (plain uint32 0xf (required "room" string end));
  response = some (plain uint32 0xf (required "room" string end));
}

abbrev pub user_joined_room : MessageKind
user_joined_room = record {
  name = "UserJoinedRoom";
  request = none;
  response = some (
      plain uint32 0x10 (
        required "room" string (
          required "username" string (
            required "status" (uint uint32) (
              required "user_stats" (dataclass user_stats)
                (required "slots_free" (uint uint32) (required "country_code" string end)))))));
}

abbrev pub user_left_room : MessageKind
user_left_room = record {
  name = "UserLeftRoom";
  request = none;
  response = some (plain uint32 0x11 (required "room" string (required "username" string end)));
}

abbrev pub connect_to_peer : MessageKind
connect_to_peer = record {
  name = "ConnectToPeer";
  request = some (
      plain uint32 0x12
        (required "ticket" (uint uint32) (required "username" string (required "typ" string end))));
  response = some (
      plain uint32 0x12 (
        required "username" string (
          required "typ" string (
            required "ip" ipaddr (
              required "port" (uint uint32) (
                required "ticket" (uint uint32) (
                  required "privileged" boolean (
                    optional "obfuscated_port_amount" (uint uint32)
                      (optional "obfuscated_port" (uint uint32) end)))))))));
}

abbrev pub private_chat_message : MessageKind
private_chat_message = record {
  name = "PrivateChatMessage";
  request = some (plain uint32 0x16 (required "username" string (required "message" string end)));
  response = some (
      plain uint32 0x16 (
        required "chat_id" (uint uint32) (
          required "timestamp" (uint uint32) (
            required "username" string (
              required "message" string
                (special "is_direct" boolean none none true (some (bool false)) end))))));
}

abbrev pub private_chat_message_ack : MessageKind
private_chat_message_ack = record {
  name = "PrivateChatMessageAck";
  request = some (plain uint32 0x17 (required "chat_id" (uint uint32) end));
  response = none;
}

abbrev pub file_search_room : MessageKind
file_search_room = record {
  name = "FileSearchRoom";
  request = some (
      plain uint32 0x19 (
        required "ticket" (uint uint32)
          (required "room_id" (uint uint32) (required "query" string end))));
  response = none;
}

abbrev pub file_search : MessageKind
file_search = record {
  name = "FileSearch";
  request =
      some (plain uint32 0x1a (required "ticket" (uint uint32) (required "query" string end)));
  response = some (
      plain uint32 0x1a (
        required "username" string
          (required "ticket" (uint uint32) (required "query" string end))));
}
