-- ===== src/Protocol/Messages/ServerF.antt =====
-- The message classes `PrivateChatMessageUsers` to `CannotCreateRoom` of protocol/messages.py.
use aioslsk.Base.{none, some}
use aioslsk.Protocol.Value.{uint32, end}
use aioslsk.Protocol.Value.{uint, string, array}
use aioslsk.Protocol.Message.{MessageKind}
use aioslsk.Protocol.Messages.Notation.{plain, required}

abbrev pub private_chat_message_users : MessageKind
private_chat_message_users = record {
  name = "PrivateChatMessageUsers";
  request =
      some
        (plain uint32 0x95 (required "usernames" (array string) (required "message" string end)));
  response = none;
}

abbrev pub enable_public_chat : MessageKind
enable_public_chat = record {
  name = "EnablePublicChat";
  request = some (plain uint32 0x96 end);
  response = none;
}

abbrev pub disable_public_chat : MessageKind
disable_public_chat = record {
  name = "DisablePublicChat";
  request = some (plain uint32 0x97 end);
  response = none;
}

abbrev pub public_chat_message : MessageKind
public_chat_message = record {
  name = "PublicChatMessage";
  request = none;
  response = some (
      plain uint32 0x98
        (required "room" string (required "username" string (required "message" string end))));
}

abbrev pub get_related_searches : MessageKind
get_related_searches = record {
  name = "GetRelatedSearches";
  request = some (plain uint32 0x99 (required "query" string end));
  response = some (
      plain uint32 0x99 (required "query" string (required "related_searches" (array string) end)));
}

abbrev pub excluded_search_phrases : MessageKind
excluded_search_phrases = record {
  name = "ExcludedSearchPhrases";
  request = none;
  response = some (plain uint32 0xa0 (required "phrases" (array string) end));
}

abbrev pub cannot_connect : MessageKind
cannot_connect = record {
  name = "CannotConnect";
  request =
      some (plain uint32 0x3e9 (required "ticket" (uint uint32) (required "username" string end)));
  response = some (plain uint32 0x3e9 (required "ticket" (uint uint32) end));
}

abbrev pub cannot_create_room : MessageKind
cannot_create_room = record {
  name = "CannotCreateRoom";
  request = none;
  response = some (plain uint32 0x3eb (required "room" string end));
}
