-- ===== src/Protocol/Messages/Classes.antt =====
-- The dataclasses of protocol/primitives.py that messages contain.
use aioslsk.Protocol.Value.{uint8, uint32, uint64, Fields, end}
use aioslsk.Protocol.Value.{uint, int32, string, ipaddr, attribute, file_data, array}
use aioslsk.Protocol.Messages.Notation.{required}

abbrev pub attribute_fields : Fields
attribute_fields = required "key" (uint uint32) (required "value" (uint uint32) end)

abbrev pub similar_user : Fields
similar_user = required "username" string (required "score" (uint uint32) end)

abbrev pub recommendation : Fields
recommendation = required "recommendation" string (required "score" int32 end)

abbrev pub room_ticker : Fields
room_ticker = required "username" string (required "ticker" string end)

abbrev pub potential_parent : Fields
potential_parent =
    required "username" string (required "ip" ipaddr (required "port" (uint uint32) end))

abbrev pub user_stats : Fields
user_stats = required "avg_speed" (uint uint32) (
    required "uploads" (uint uint64) (
      required "shared_file_count" (uint uint32)
        (required "shared_folder_count" (uint uint32) end)))

abbrev pub file_data_fields : Fields
file_data_fields = required "unknown" (uint uint8) (
    required "filename" string (
      required "filesize" (uint uint64)
        (required "extension" string (required "attributes" (array attribute) end))))

abbrev pub directory_data_fields : Fields
directory_data_fields = required "name" string (required "files" (array file_data) end)
