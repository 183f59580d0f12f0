-- ===== src/Network/Connection/Frames.antt =====
-- One message on the wire: `send_message` and `_read_message` of network/connection.py.
use aioslsk.Base.{
  ℕ, ◌+◌, ◌^◌, ◌<◌, ◌≤◌, ◌≡◌, refl, sym, ap, ◌∙◌, arith, ltb, ltb→lt, ltb-le, if◌then◌else◌,
}
use aioslsk.Base.{
  Bool, true, false, Bool-cases, inl, inr, none, List, [], ◌++◌, length, take, drop, All,
}
use aioslsk.Base.{
  length-append, take-append_length, drop-append_length, length-drop, take-append-drop, length-take,
}
use aioslsk.Base.Result.{ok, err, >>=-succeeds, ok-eq-ok, struct_error}
use aioslsk.Protocol.Struct.{to_le, pack, length-to_le, IsByte}
use aioslsk.Protocol.Value.{uint32, size, Values}
use aioslsk.Protocol.Platform.{Platform}
use aioslsk.Protocol.Primitives.RoundTrip.{read_uint-to_le}
use aioslsk.Protocol.Message.{MessageClass, serialize_message, contents}
use aioslsk.Protocol.Obfuscation.{encode, decode}
use aioslsk.Protocol.Obfuscation.RoundTrip.{decode-encode}
use aioslsk.Protocol.Obfuscation.Prefix.{decode-take}
use mathlib.Core.Path.{subst}
use mathlib.Core.List.{append_assoc, append-nil}
use aioslsk.Network.Connection.{
  Ending, read_data, readexactly, header_size, header_length, read_message, encode_message_data,
}

readexactly-append :
    (n : ℕ) (a more : List ℕ) (ending : Ending)
    → n ≡ length a
    → readexactly n (record { coming = a ++ more; ending = ending })
      ≡ read_data a (record { coming = more; ending = ending })
unfolding readexactly
readexactly-append n a more ending e =
    let long : length a ≤ length (a ++ more) = omega (arith, length-append {0} a more) in
    rw (
      e,
      ltb-le (length (a ++ more)) (length a) long,
      take-append_length a more,
      drop-append_length a more,
    )

-- A header that says the length of the message behind it.
pub read_message-append :
    (obfuscated : Bool) (header message more : List ℕ) (ending : Ending) (p : ℕ)
    → header_size obfuscated ≡ length header
    → header_length obfuscated header ≡ ok (p, length message)
    → read_message obfuscated (record { coming = (header ++ message) ++ more; ending = ending })
      ≡ read_data (header ++ message) (record { coming = more; ending = ending })
unfolding read_message
read_message-append obfuscated header message more ending p h e =
    let first = readexactly-append (header_size obfuscated) header (message ++ more) ending h in
    let second = readexactly-append (length message) message more ending refl in
    rw (append_assoc, first, e, second)

pack-eq-ok :
    (width n : ℕ) (b : List ℕ) → pack width n ≡ ok b → (b ≡ to_le width n) × (n < 256 ^ width)
unfolding pack
pack-eq-ok width n b h = elim (Bool-cases (ltb n (256 ^ width))) [
  | inl e ↦ (sym (ok-eq-ok (rw e at h)), ltb→lt _ _ e)
  | inr e ↦ let h' : err struct_error ≡ ok b = rw e at h in cc
]

-- A serialised message begins with the length of the rest.
pub record Framed (bytes : List ℕ) : Type 0 where
  pub body : List ℕ
  pub image : bytes ≡ to_le 4 (length body) ++ body
  pub small : length body < 256 ^ 4

pub serialize_message-Framed :
    (platform : Platform) (c : MessageClass) (vs : Values) (bytes : List ℕ)
    → serialize_message platform c vs ≡ ok bytes
    → Framed bytes
unfolding serialize_message
serialize_message-Framed platform c vs bytes h =
    let (message_id, e, h') = >>=-succeeds (pack (size c.id_type) c.id) _ h in
    let (message, e', h'') = >>=-succeeds (contents platform c vs) _ h' in
    let (len, el, h3) = >>=-succeeds (pack 4 (length message_id + length message)) _ h'' in
    let (image, small) = pack-eq-ok 4 (length message_id + length message) len el in
    let total : length (message_id ++ message) ≡ length message_id + length message =
      length-append {0} message_id message in
    record {
      body = message_id ++ message;
      image = sym (ok-eq-ok h3) ∙ rw (total, image);
      small = omega (arith, total, small);
    }

header_length-plain : (n : ℕ) → n < 256 ^ 4 → header_length false (to_le 4 n) ≡ ok (4, n)
unfolding header_length
header_length-plain n h = read_uint-to_le uint32 n 0 (to_le 4 n) [] h (sym (append-nil (to_le 4 n)))

header_length-obfuscated :
    (n : ℕ) (header : List ℕ)
    → n < 256 ^ 4
    → decode header ≡ ok (to_le 4 n)
    → header_length true header ≡ ok (4, n)
unfolding header_length
header_length-obfuscated n header h e = rw e (header_length-plain n h)

-- What was sent as one message is read as that message, and decoded to the bytes that were
-- serialised.
pub record Arrives (obfuscated : Bool) (sent plain : List ℕ) : Type 0 where
  pub reads :
      (more : List ℕ) (ending : Ending)
      → read_message obfuscated (record { coming = sent ++ more; ending = ending })
        ≡ read_data sent (record { coming = more; ending = ending })
  pub decodes : (if obfuscated then decode sent else ok sent) ≡ ok plain
  pub fills : 4 ≤ length sent

plain_lem : (plain : List ℕ) → Framed plain → Arrives false plain plain
plain_lem plain f =
    let len : List ℕ = to_le 4 (length f.body) in
    let four : length len ≡ 4 = length-to_le 4 (length f.body) in
    record {
      reads = λ more ending. rw f.image (
          read_message-append false len f.body more ending 4 (sym four)
            (header_length-plain (length f.body) f.small));
      decodes = refl;
      fills = rw f.image (omega (arith, length-append {0} len f.body, four));
    }

module _ (generated : List ℕ) (four : length generated ≡ 4) (good : All IsByte generated) where
  obfuscated_lem :
      (plain sent : List ℕ)
      → Framed plain
      → encode plain none generated ≡ ok sent
      → Arrives true sent plain
  obfuscated_lem plain sent f e =
      let n : ℕ = length f.body in
      let len : length (to_le 4 n) ≡ 4 = length-to_le 4 n in
      let size : length plain ≡ 4 + n =
        ap length f.image ∙ length-append (to_le 4 n) f.body ∙ omega arith in
      let front : take 4 plain ≡ to_le 4 n =
        rw f.image (rw len at (take-append_length (to_le 4 n) f.body)) in
      let (b, encoded, decoded, longer) = decode-encode plain none generated four good in
      let same : b ≡ sent = ok-eq-ok (sym encoded ∙ e) in
      let total : length sent ≡ 8 + n = omega (arith, ap length same) in
      let header : decode (take 8 sent) ≡ ok (to_le 4 n) =
        decode-take plain sent none generated 4 four good e ∙ ap ok front in
      let rest : length (drop 8 sent) ≡ n = omega (arith, length-drop 8 sent) in
      record {
        reads = λ more ending. rw (take-append-drop 8 sent) at (
            read_message-append true (take 8 sent) (drop 8 sent) more ending 4
              (sym (length-take 8 sent (omega arith)))
              (rw rest (header_length-obfuscated n (take 8 sent) f.small header)));
        decodes = ap decode (sym same) ∙ decoded;
        fills = omega arith;
      }

  pub encode_message_data-Arrives :
      (platform : Platform) (c : MessageClass) (vs : Values) (sent : List ℕ) (obfuscated : Bool)
      → encode_message_data platform obfuscated generated c vs ≡ ok sent
      → (plain : List ℕ) × (serialize_message platform c vs ≡ ok plain)
        × Arrives obfuscated sent plain
  unfolding encode_message_data
  encode_message_data-Arrives platform c vs sent false h =
      let (plain, e, h') = >>=-succeeds (serialize_message platform c vs) _ h in
      let f = serialize_message-Framed platform c vs plain e in
      (plain, e, subst (λ b. Arrives false b plain) (ok-eq-ok h') (plain_lem plain f))
  encode_message_data-Arrives platform c vs sent true h =
      let (plain, e, h') = >>=-succeeds (serialize_message platform c vs) _ h in
      (plain, e, obfuscated_lem plain sent (serialize_message-Framed platform c vs plain e) h')
