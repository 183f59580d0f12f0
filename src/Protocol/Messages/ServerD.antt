-- ===== src/Protocol/Messages/ServerD.antt =====
-- The message classes `PotentialParents` to `PrivilegesNotificationAck` of protocol/messages.py.
use aioslsk.Base.{none, some}
use aioslsk.Protocol.Value.{uint32, end}
use aioslsk.Protocol.Value.{uint, string, boolean, array, dataclass}
use aioslsk.Protocol.Message.{MessageKind}
use aioslsk.Protocol.Messages.Notation.{plain, required}
use aioslsk.Protocol.Messages.Classes.{potential_parent, similar_user, recommendation, room_ticker}

abbrev pub potential_parents : MessageKind
potential_parents = record {
  name = "PotentialParents";
  request = none;
  response = some (plain uint32 0x66 (required "entries" (array (dataclass potential_parent)) end));
}

abbrev pub wishlist_search : MessageKind
wishlist_search = record {
  name = "WishlistSearch";
  request =
      some (plain uint32 0x67 (required "ticket" (uint uint32) (required "query" string end)));
  response = none;
}

abbrev pub wishlist_interval : MessageKind
wishlist_interval = record {
  name = "WishlistInterval";
  request = none;
  response = some (plain uint32 0x68 (required "interval" (uint uint32) end));
}

abbrev pub get_similar_users : MessageKind
get_similar_users = record {
  name = "GetSimilarUsers";
  request = some (plain uint32 0x6e end);
  response = some (plain uint32 0x6e (required "users" (array (dataclass similar_user)) end));
}

abbrev pub get_item_recommendations : MessageKind
get_item_recommendations = record {
  name = "GetItemRecommendations";
  request = some (plain uint32 0x6f (required "item" string end));
  response = some (
      plain uint32 0x6f (
        required "item" string
          (required "recommendations" (array (dataclass recommendation)) end)));
}

abbrev pub get_item_similar_users : MessageKind
get_item_similar_users = record {
  name = "GetItemSimilarUsers";
  request = some (plain uint32 0x70 (required "item" string end));
  response =
      some (plain uint32 0x70 (required "item" string (required "usernames" (array string) end)));
}

abbrev pub room_tickers : MessageKind
room_tickers = record {
  name = "RoomTickers";
  request = none;
  response = some (
      plain uint32 0x71
        (required "room" string (required "tickers" (array (dataclass room_ticker)) end)));
}

abbrev pub room_ticker_added : MessageKind
room_ticker_added = record {
  name = "RoomTickerAdded";
  request = none;
  response = some (
      plain uint32 0x72
        (required "room" string (required "username" string (required "ticker" string end))));
}

abbrev pub room_ticker_removed : MessageKind
room_ticker_removed = record {
  name = "RoomTickerRemoved";
  request = none;
  response = some (plain uint32 0x73 (required "room" string (required "username" string end)));
}

abbrev pub set_room_ticker : MessageKind
set_room_ticker = record {
  name = "SetRoomTicker";
  request = some (plain uint32 0x74 (required "room" string (required "ticker" string end)));
  response = none;
}

abbrev pub add_hated_interest : MessageKind
add_hated_interest = record {
  name = "AddHatedInterest";
  request = some (plain uint32 0x75 (required "hated_interest" string end));
  response = none;
}

abbrev pub remove_hated_interest : MessageKind
remove_hated_interest = record {
  name = "RemoveHatedInterest";
  request = some (plain uint32 0x76 (required "hated_interest" string end));
  response = none;
}

abbrev pub room_search : MessageKind
room_search = record {
  name = "RoomSearch";
  request = some (
      plain uint32 0x78
        (required "room" string (required "ticket" (uint uint32) (required "query" string end))));
  response = none;
}

abbrev pub send_upload_speed : MessageKind
send_upload_speed = record {
  name = "SendUploadSpeed";
  request = some (plain uint32 0x79 (required "speed" (uint uint32) end));
  response = none;
}

abbrev pub get_user_privileges : MessageKind
get_user_privileges = record {
  name = "GetUserPrivileges";
  request = some (plain uint32 0x7a (required "username" string end));
  response =
      some (plain uint32 0x7a (required "username" string (required "privileged" boolean end)));
}

abbrev pub give_user_privileges : MessageKind
give_user_privileges = record {
  name = "GiveUserPrivileges";
  request =
      some (plain uint32 0x7b (required "username" string (required "days" (uint uint32) end)));
  response = none;
}

abbrev pub privileges_notification : MessageKind
privileges_notification = record {
  name = "PrivilegesNotification";
  request = some (
      plain uint32 0x7c
        (required "notification_id" (uint uint32) (required "username" string end)));
  response = none;
}

abbrev pub privileges_notification_ack : MessageKind
privileges_notification_ack = record {
  name = "PrivilegesNotificationAck";
  request = some (plain uint32 0x7d (required "notification_id" (uint uint32) end));
  response = none;
}
