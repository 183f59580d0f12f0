-- ===== src/Protocol/Messages/PeerInit.antt =====
-- The message classes `PeerPierceFirewall` to `PeerInit` of protocol/messages.py.
use aioslsk.Base.{none, some}
use aioslsk.Protocol.Value.{uint8, uint32, end}
use aioslsk.Protocol.Value.{uint, string, peer_init_ticket}
use aioslsk.Protocol.Message.{MessageKind}
use aioslsk.Protocol.Messages.Notation.{plain, required}

abbrev pub peer_pierce_firewall : MessageKind
peer_pierce_firewall = record {
  name = "PeerPierceFirewall";
  request = some (plain uint8 0x0 (required "ticket" (uint uint32) end));
  response = none;
}

abbrev pub peer_init : MessageKind
peer_init = record {
  name = "PeerInit";
  request = some (
      plain uint8 0x1 (
        required "username" string
          (required "typ" string (required "ticket" peer_init_ticket end))));
  response = none;
}
