-- ===== src/Protocol/Messages/ServerB.antt =====
-- The message classes `SetStatus` to `ExactFileSearch` of protocol/messages.py.
use aioslsk.Base.{none, some}
use aioslsk.Protocol.Value.{uint8, uint32, uint64, end}
use aioslsk.Protocol.Value.{uint, string, array, dataclass}
use aioslsk.Protocol.Message.{MessageKind}
use aioslsk.Protocol.Messages.Notation.{plain, required}
use aioslsk.Protocol.Messages.Classes.{user_stats, recommendation}

abbrev pub set_status : MessageKind
set_status = record {
  name = "SetStatus";
  request = some (plain uint32 0x1c (required "status" (uint uint32) end));
  response = none;
}

abbrev pub ping : MessageKind
ping = record {
  name = "Ping";
  request = some (plain uint32 0x20 end);
  response = some (plain uint32 0x20 end);
}

abbrev pub send_connect_ticket : MessageKind
send_connect_ticket = record {
  name = "SendConnectTicket";
  request =
      some (plain uint32 0x21 (required "username" string (required "ticket" (uint uint32) end)));
  response =
      some (plain uint32 0x21 (required "username" string (required "ticket" (uint uint32) end)));
}

abbrev pub send_download_speed : MessageKind
send_download_speed = record {
  name = "SendDownloadSpeed";
  request =
      some (plain uint32 0x22 (required "username" string (required "speed" (uint uint32) end)));
  response = none;
}

abbrev pub shared_folders_files : MessageKind
shared_folders_files = record {
  name = "SharedFoldersFiles";
  request = some (
      plain uint32 0x23 (
        required "shared_folder_count" (uint uint32)
          (required "shared_file_count" (uint uint32) end)));
  response = none;
}

abbrev pub get_user_stats : MessageKind
get_user_stats = record {
  name = "GetUserStats";
  request = some (plain uint32 0x24 (required "username" string end));
  response = some (
      plain uint32 0x24
        (required "username" string (required "user_stats" (dataclass user_stats) end)));
}

abbrev pub kicked : MessageKind
kicked = record { name = "Kicked"; request = none; response = some (plain uint32 0x29 end) }

abbrev pub user_search : MessageKind
user_search = record {
  name = "UserSearch";
  request = some (
      plain uint32 0x2a (
        required "username" string
          (required "ticket" (uint uint32) (required "query" string end))));
  response = none;
}

abbrev pub deprecated_get_item_recommendations : MessageKind
deprecated_get_item_recommendations = record {
  name = "DeprecatedGetItemRecommendations";
  request = some (plain uint32 0x32 (required "item" string end));
  response =
      some (
        plain uint32 0x32 (required "item" string (required "recommendations" (array string) end)));
}

abbrev pub add_interest : MessageKind
add_interest = record {
  name = "AddInterest";
  request = some (plain uint32 0x33 (required "interest" string end));
  response = none;
}

abbrev pub remove_interest : MessageKind
remove_interest = record {
  name = "RemoveInterest";
  request = some (plain uint32 0x34 (required "interest" string end));
  response = none;
}

abbrev pub get_recommendations : MessageKind
get_recommendations = record {
  name = "GetRecommendations";
  request = some (plain uint32 0x36 end);
  response = some (
      plain uint32 0x36 (
        required "recommendations" (array (dataclass recommendation))
          (required "unrecommendations" (array (dataclass recommendation)) end)));
}

abbrev pub get_interests : MessageKind
get_interests = record {
  name = "GetInterests";
  request = some (plain uint32 0x37 end);
  response = some (plain uint32 0x37 (required "interests" (array string) end));
}

abbrev pub get_global_recommendations : MessageKind
get_global_recommendations = record {
  name = "GetGlobalRecommendations";
  request = some (plain uint32 0x38 end);
  response = some (
      plain uint32 0x38 (
        required "recommendations" (array (dataclass recommendation))
          (required "unrecommendations" (array (dataclass recommendation)) end)));
}

abbrev pub get_user_interests : MessageKind
get_user_interests = record {
  name = "GetUserInterests";
  request = some (plain uint32 0x39 (required "username" string end));
  response = some (
      plain uint32 0x39 (
        required "username" string
          (required "interests" (array string) (required "hated_interests" (array string) end))));
}

abbrev pub execute_command : MessageKind
execute_command = record {
  name = "ExecuteCommand";
  request = some (
      plain uint32 0x3a (required "command_type" string (required "arguments" (array string) end)));
  response = none;
}

abbrev pub room_list : MessageKind
room_list = record {
  name = "RoomList";
  request = some (plain uint32 0x40 end);
  response = some (
      plain uint32 0x40 (
        required "rooms" (array string) (
          required "rooms_user_count" (array (uint uint32)) (
            required "rooms_private_owned" (array string) (
              required "rooms_private_owned_user_count" (array (uint uint32)) (
                required "rooms_private" (array string) (
                  required "rooms_private_user_count" (array (uint uint32))
                    (required "rooms_private_operated" (array string) end))))))));
}

abbrev pub exact_file_search : MessageKind
exact_file_search = record {
  name = "ExactFileSearch";
  request = some (
      plain uint32 0x41 (
        required "ticket" (uint uint32) (
          required "filename" string (
            required "pathname" string (
              required "filesize" (uint uint64)
                (required "checksum" (uint uint32) (required "unknown" (uint uint8) end)))))));
  response = some (
      plain uint32 0x41 (
        required "username" string (
          required "ticket" (uint uint32) (
            required "filename" string (
              required "pathname" string
                (required "filesize" (uint uint64) (required "checksum" (uint uint32) end)))))));
}
