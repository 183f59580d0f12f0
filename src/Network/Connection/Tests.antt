-- ===== src/Network/Connection/Tests.antt =====
-- A connection on which a login is answered, obfuscated to show the key at work.
use aioslsk.Base.{◌≡◌, refl, arith, true, some, List, [], ◌∷◌}
use aioslsk.Protocol.Value.{Values}
use aioslsk.Protocol.Message.{MessageClass}
use aioslsk.Protocol.Messages.{classes}
use aioslsk.Protocol.Messages.Sample.{small, small_laws, login_response, logged_in, logged_in_fits}
use aioslsk.Network.Connection.{
  Connection, server_connection, connected, awaiting_init, peer, eof, disconnect, Stream,
  at_failure, reader_loop, dispatcher,
}
use aioslsk.Network.Connection.Reader.{reader_loop-returns}
use aioslsk.Network.Connection.Arrival.{Outgoing, Sendable, send_all, at_end, reader_loop-send_all}

abbrev open_end : Connection
open_end = record {
  kind = server_connection;
  state = connected;
  obfuscated = true;
  reader = true;
  writer = true;
  reader_task = true;
  queued_messages = [];
  connection_state = awaiting_init;
  connection_type = peer;
  state_changes = [];
}

abbrev answer : Outgoing
answer = record {
  message_class = login_response;
  values = logged_in;
  generated = 0x99 ∷ 0xab ∷ 0xcd ∷ 0xef ∷ [];
}

answer-Sendable : Sendable small (dispatcher open_end) answer
unfolding dispatcher classes
answer-Sendable = record {
  index = 0;
  known = refl;
  fits = logged_in_fits;
  key_length = refl;
  key_bytes = omega arith;
}

reader_loop-send_all_example :
    reader_loop small
      (λ m c. c)
      3
      (at_end (send_all small (answer ∷ answer ∷ []) open_end))
      open_end
    ≡ some (disconnect eof open_end, (login_response, logged_in) ∷ (login_response, logged_in) ∷ [])
reader_loop-send_all_example =
    reader_loop-send_all small (λ m c. c) small_laws (λ m c. refl) (answer ∷ answer ∷ []) 3 open_end
      open_end refl refl refl refl refl (answer-Sendable, (answer-Sendable, tt)) (omega arith)

-- A stream that breaks off in its first message.
abbrev broken : Stream
broken = record { coming = 1 ∷ 2 ∷ 3 ∷ 4 ∷ 5 ∷ []; ending = at_failure }

reader_loop-returns_example :
    (r : Connection × List (MessageClass × Values)) × (reader_loop small
        (λ m c. disconnect eof c)
        7
        broken
        open_end
      ≡ some r)
reader_loop-returns_example =
    reader_loop-returns small (λ m c. disconnect eof c) 7 broken open_end (omega arith)
