-- ===== src/Network/Connection/Arrival.antt =====
-- Two ends of a connection of network/connection.py: `send_message` at one, the reader loop at the
-- other.
use aioslsk.Base.{ℕ, zero, suc, ◌<◌, ◌≤◌, ◌≡◌, refl, sym, ap, ◌∙◌, arith}
use aioslsk.Base.{Bool, true, false, none, some, List, [], ◌∷◌, ◌++◌, length, All, get_elem?}
use aioslsk.Base.Result.{ok, ok-eq-ok}
use aioslsk.Protocol.Struct.{IsByte}
use aioslsk.Protocol.Value.{Values}
use aioslsk.Protocol.Platform.{Platform, Laws}
use aioslsk.Protocol.Message.{MessageClass, serialize_message}
use aioslsk.Protocol.Message.RoundTrip.{FitsMessage}
use aioslsk.Protocol.Messages.{Dispatcher, classes, dispatch_message}
use aioslsk.Protocol.Messages.RoundTrip.{dispatch_message-serialize_message}
use aioslsk.Protocol.Obfuscation.RoundTrip.{decode-encode}
use mathlib.Core.Path.{subst}
use aioslsk.Network.Connection.{
  Connection, connected, is_closing, closing?, incomplete, nothing, eof, disconnect, Stream, Ending,
  at_eof, read_data, readexactly, read_message, received, read_with, receive_message, dispatcher,
  drains, decode_message_data, reader_loop, send_message, encode_message_data,
}
use aioslsk.Network.Connection.Frames.{Arrives, encode_message_data-Arrives}

-- A message that is handed to `send_message`, with the random key that masks it.
pub record Outgoing : Type 0 where
  pub message_class : MessageClass
  pub values : Values
  pub generated : List ℕ

abbrev pub contents_of : List Outgoing → List (MessageClass × Values)
contents_of [] = []
contents_of (o ∷ os) = (o.message_class, o.values) ∷ contents_of os

-- A message that the entry point knows, with values that fit, and a key of four bytes.
pub record Sendable (platform : Platform) (d : Dispatcher) (o : Outgoing) : Type 0 where
  pub index : ℕ
  pub known : get_elem? (classes d) index ≡ some o.message_class
  pub fits : FitsMessage platform o.message_class o.values
  pub key_length : length o.generated ≡ 4
  pub key_bytes : All IsByte o.generated

module _ (platform : Platform) where
  -- What is written when the messages are sent one after the other.
  unfoldable pub send_all : List Outgoing → Connection → List ℕ
  send_all [] c = []
  send_all (o ∷ os) c =
      let (c', bytes, _) = send_message platform drains o.generated o.message_class o.values c in
      bytes ++ send_all os c'

send_message-open :
    (platform : Platform) (o : Outgoing) (c : Connection) (sent : List ℕ)
    → c.state ≡ connected
    → c.writer ≡ true
    → encode_message_data platform c.obfuscated o.generated o.message_class o.values ≡ ok sent
    → send_message platform drains o.generated o.message_class o.values c ≡ (c, sent, false)
unfolding send_message
send_message-open platform o c sent s w e = simp (s, e, w)

record Delivers (platform : Platform) (obfuscated : Bool) (d : Dispatcher) (o : Outgoing)
    : Type 0 where
  sent : List ℕ
  plain : List ℕ
  encoded : encode_message_data platform obfuscated o.generated o.message_class o.values ≡ ok sent
  arrives : Arrives obfuscated sent plain
  dispatched : dispatch_message platform d plain ≡ ok (o.message_class, o.values)

encodes :
    (obfuscated : Bool) (platform : Platform) (o : Outgoing) (plain : List ℕ)
    → length o.generated ≡ 4
    → All IsByte o.generated
    → serialize_message platform o.message_class o.values ≡ ok plain
    → (sent : List ℕ) × (encode_message_data platform obfuscated o.generated o.message_class
          o.values
        ≡ ok sent)
unfolding encode_message_data
encodes false platform o plain four good e = (plain, rw e)
encodes true platform o plain four good e =
    let (sent, encoded, _, _) = decode-encode plain none o.generated four good in
    (sent, rw e encoded)

module _ (platform : Platform) (laws : Laws platform) (obfuscated : Bool) (d : Dispatcher) where
  Sendable-Delivers : (o : Outgoing) → Sendable platform d o → Delivers platform obfuscated d o
  Sendable-Delivers o s =
      let (plain, e, dispatched) =
        dispatch_message-serialize_message platform laws d s.index o.message_class o.values s.known
          s.fits in
      let (sent, encoded) = encodes obfuscated platform o plain s.key_length s.key_bytes e in
      let (plain', e', arrives) =
        encode_message_data-Arrives o.generated s.key_length s.key_bytes platform o.message_class
          o.values sent obfuscated encoded in
      let same : plain' ≡ plain = ok-eq-ok (sym e' ∙ e) in
      record {
        sent = sent;
        plain = plain';
        encoded = encoded;
        arrives = arrives;
        dispatched = ap (dispatch_message platform d) same ∙ dispatched;
      }

read_with-data :
    (bytes : List ℕ) (s : Stream) (c : Connection)
    → 4 ≤ length bytes
    → read_with (read_data bytes s) c ≡ (c, received bytes s)
unfolding read_with
read_with-data [] s c h = absurd (omega arith)
read_with-data (b ∷ bs) s c h = refl

receive_message-Arrives :
    (sent plain more : List ℕ) (ending : Ending) (c : Connection)
    → c.reader ≡ true
    → Arrives c.obfuscated sent plain
    → receive_message (record { coming = sent ++ more; ending = ending }) c
      ≡ (c, received sent (record { coming = more; ending = ending }))
unfolding receive_message
receive_message-Arrives sent plain more ending c r a =
    simp (r, a.reads more ending)
      (read_with-data sent (record { coming = more; ending = ending }) c a.fills)

decode_message_data-Delivers :
    (platform : Platform) (o : Outgoing) (c : Connection)
    (delivery : Delivers platform c.obfuscated (dispatcher c) o)
    → decode_message_data platform c delivery.sent ≡ ok (o.message_class, o.values)
unfolding decode_message_data
decode_message_data-Delivers platform o c delivery = rw delivery.arrives.decodes delivery.dispatched

abbrev pub at_end : List ℕ → Stream
at_end bytes = record { coming = bytes; ending = at_eof }

nothing_read : (obfuscated : Bool) → read_message obfuscated (at_end []) ≡ incomplete []
unfolding read_message readexactly
nothing_read true = refl
nothing_read false = refl

receive_message-eof :
    (c : Connection) → c.reader ≡ true → receive_message (at_end []) c ≡ (disconnect eof c, nothing)
unfolding receive_message
receive_message-eof c r = simp (r, nothing_read c.obfuscated)

module _ (platform : Platform) (handle : MessageClass × Values → Connection → Connection) where
  reader_loop-eof :
      (fuel : ℕ) (c : Connection)
      → c.state ≡ connected
      → c.reader ≡ true
      → reader_loop platform handle (suc fuel) (at_end []) c ≡ some (disconnect eof c, [])
  unfolding reader_loop
  reader_loop-eof fuel c s r =
      let open_still : is_closing c ≡ false = ap closing? s in
      let got = receive_message-eof c r in
      rw (open_still, reader_loop)
        (rw (ap (λ p. p.1) got, reader_loop) (ap (λ p. some (p.0, [])) got))

  reader_loop-Delivers :
      (fuel : ℕ) (o : Outgoing) (more : List ℕ) (c c' : Connection)
      (ms : List (MessageClass × Values))
      (delivery : Delivers platform c.obfuscated (dispatcher c) o)
      → c.state ≡ connected
      → c.reader ≡ true
      → handle (o.message_class, o.values) c ≡ c
      → reader_loop platform handle fuel (at_end more) c ≡ some (c', ms)
      → reader_loop platform handle (suc fuel) (at_end (delivery.sent ++ more)) c
        ≡ some (c', (o.message_class, o.values) ∷ ms)
  unfolding reader_loop
  reader_loop-Delivers fuel o more c c' ms delivery s r q h =
      let got =
        receive_message-Arrives delivery.sent delivery.plain more at_eof c r delivery.arrives in
      let open_still : is_closing c ≡ false = ap closing? s in
      let s' : Stream = at_end (delivery.sent ++ more) in
      let same : (receive_message s' c).0 ≡ c = ap (λ p. p.0) got in
      let decoded : decode_message_data platform (receive_message s' c).0 delivery.sent
          ≡ ok (o.message_class, o.values) =
        rw same (decode_message_data-Delivers platform o c delivery) in
      let kept : handle (o.message_class, o.values) (receive_message s' c).0 ≡ c = rw same q in
      rw (open_still, reader_loop)
        (rw (ap (λ p. p.1) got, reader_loop)
          (rw (decoded, reader_loop) (rw (kept, reader_loop) (rw (h, reader_loop)))))

  module _ (laws : Laws platform)
      (quiet : (m : MessageClass × Values) (c : Connection) → handle m c ≡ c) where
    -- Between two open ends that agree on obfuscation, at each of which only messages are sent that
    -- the entry point of the receiver knows and whose values fit: the reader loop handles exactly
    -- the messages that were sent, in their order, and then closes its end, if the handlers leave
    -- the connection alone and there are more rounds than messages.
    pub reader_loop-send_all :
        (os : List Outgoing) (fuel : ℕ) (sender receiver : Connection)
        → sender.state ≡ connected
        → sender.writer ≡ true
        → receiver.state ≡ connected
        → receiver.reader ≡ true
        → sender.obfuscated ≡ receiver.obfuscated
        → All (Sendable platform (dispatcher receiver)) os
        → length os < fuel
        → reader_loop platform handle fuel (at_end (send_all platform os sender)) receiver
          ≡ some (disconnect eof receiver, contents_of os)
    unfolding send_all
    reader_loop-send_all os zero s r a b c d e g h = absurd (omega arith)
    reader_loop-send_all [] (suc fuel) s r a b c d e g h = reader_loop-eof fuel r c d
    reader_loop-send_all (o ∷ os) (suc fuel) s r a b c d e (g, gs) h =
        let delivery = Sendable-Delivers platform laws r.obfuscated (dispatcher r) o g in
        let sends = send_message-open platform o s delivery.sent a b (
          subst
            (λ b.
              encode_message_data platform b o.generated o.message_class o.values
              ≡ ok delivery.sent)
            (sym e) delivery.encoded) in
        rw sends (
          reader_loop-Delivers fuel o (send_all platform os s) r (disconnect eof r) (contents_of os)
            delivery c d (quiet (o.message_class, o.values) r)
            (reader_loop-send_all os fuel s r a b c d e gs (omega arith)))
