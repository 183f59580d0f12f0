-- ===== src/Protocol/Messages/Peer.antt =====
-- The message classes `PeerSharesRequest` to `PeerUploadQueueNotification` of protocol/messages.py.
use aioslsk.Base.{true, false, none, some}
use aioslsk.Protocol.Value.{pos, null, int, bool, uint32, uint64, end}
use aioslsk.Protocol.Value.{uint, string, bytearr, boolean, file_data, directory_data, array}
use aioslsk.Protocol.Message.{MessageKind}
use aioslsk.Protocol.Messages.Notation.{plain, compressed, required, optional, only_if, special}

abbrev pub peer_shares_request : MessageKind
peer_shares_request = record {
  name = "PeerSharesRequest";
  request = some (plain uint32 0x4 (optional "ticket" (uint uint32) end));
  response = none;
}

abbrev pub peer_shares_reply : MessageKind
peer_shares_reply = record {
  name = "PeerSharesReply";
  request = some (
      compressed uint32 0x5 (
        required "directories" (array directory_data) (
          special "unknown" (uint uint32) none none false (some (int (pos 0)))
            (optional "locked_directories" (array directory_data) end))));
  response = none;
}

abbrev pub peer_search_reply : MessageKind
peer_search_reply = record {
  name = "PeerSearchReply";
  request = some (
      compressed uint32 0x9 (
        required "username" string (
          required "ticket" (uint uint32) (
            required "results" (array file_data) (
              required "has_slots_free" boolean (
                required "avg_speed" (uint uint32) (
                  required "queue_size" (uint uint32) (
                    special "unknown" (uint uint32) none none false (some (int (pos 0)))
                      (optional "locked_results" (array file_data) end)))))))));
  response = none;
}

abbrev pub peer_user_info_request : MessageKind
peer_user_info_request = record {
  name = "PeerUserInfoRequest";
  request = some (plain uint32 0xf end);
  response = none;
}

abbrev pub peer_user_info_reply : MessageKind
peer_user_info_reply = record {
  name = "PeerUserInfoReply";
  request = some (
      plain uint32 0x10 (
        required "description" string (
          required "has_picture" boolean (
            only_if "picture" bytearr "has_picture" (
              special "upload_slots" (uint uint32) none none false (some (int (pos 0))) (
                special "queue_size" (uint uint32) none none false (some (int (pos 0))) (
                  special "has_slots_free" boolean none none false (some (bool false))
                    (optional "upload_permissions" (uint uint32) end))))))));
  response = none;
}

abbrev pub peer_directory_contents_request : MessageKind
peer_directory_contents_request = record {
  name = "PeerDirectoryContentsRequest";
  request =
      some (plain uint32 0x24 (required "ticket" (uint uint32) (required "directory" string end)));
  response = none;
}

abbrev pub peer_directory_contents_reply : MessageKind
peer_directory_contents_reply = record {
  name = "PeerDirectoryContentsReply";
  request = some (
      compressed uint32 0x25 (
        required "ticket" (uint uint32)
          (required "directory" string (required "directories" (array directory_data) end))));
  response = none;
}

abbrev pub peer_transfer_request : MessageKind
peer_transfer_request = record {
  name = "PeerTransferRequest";
  request = some (
      plain uint32 0x28 (
        required "direction" (uint uint32) (
          required "ticket" (uint uint32)
            (required "filename" string (optional "filesize" (uint uint64) end)))));
  response = none;
}

abbrev pub peer_transfer_reply : MessageKind
peer_transfer_reply = record {
  name = "PeerTransferReply";
  request = some (
      plain uint32 0x29 (
        required "ticket" (uint uint32) (
          required "allowed" boolean (
            special "filesize" (uint uint64) (some "allowed") none true (some null)
              (special "reason" string none (some "allowed") true (some null) end)))));
  response = none;
}

abbrev pub peer_transfer_queue : MessageKind
peer_transfer_queue = record {
  name = "PeerTransferQueue";
  request = some (plain uint32 0x2b (required "filename" string end));
  response = none;
}

abbrev pub peer_place_in_queue_reply : MessageKind
peer_place_in_queue_reply = record {
  name = "PeerPlaceInQueueReply";
  request =
      some (plain uint32 0x2c (required "filename" string (required "place" (uint uint32) end)));
  response = none;
}

abbrev pub peer_upload_failed : MessageKind
peer_upload_failed = record {
  name = "PeerUploadFailed";
  request = some (plain uint32 0x2e (required "filename" string end));
  response = none;
}

abbrev pub peer_transfer_queue_failed : MessageKind
peer_transfer_queue_failed = record {
  name = "PeerTransferQueueFailed";
  request = some (plain uint32 0x32 (required "filename" string (required "reason" string end)));
  response = none;
}

abbrev pub peer_place_in_queue_request : MessageKind
peer_place_in_queue_request = record {
  name = "PeerPlaceInQueueRequest";
  request = some (plain uint32 0x33 (required "filename" string end));
  response = none;
}

abbrev pub peer_upload_queue_notification : MessageKind
peer_upload_queue_notification = record {
  name = "PeerUploadQueueNotification";
  request = some (plain uint32 0x34 end);
  response = none;
}
