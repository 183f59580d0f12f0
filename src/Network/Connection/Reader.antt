-- ===== src/Network/Connection/Reader.antt =====
-- The rounds of the message reader loop of network/connection.py.
use aioslsk.Base.{ℕ, zero, suc, ◌+◌, ◌≤◌, ◌≡◌, refl, arith, if◌then◌else◌}
use aioslsk.Base.{Bool, true, false, Bool-cases, inl, inr, ◌⊎◌, some, List, [], ◌∷◌, length}
use aioslsk.Base.{length-drop}
use aioslsk.Base.Result.{Result, ok, err, cases_result}
use aioslsk.Protocol.Value.{Values}
use aioslsk.Protocol.Platform.{Platform}
use aioslsk.Protocol.Message.{MessageClass}
use aioslsk.Network.Connection.{
  Connection, is_closing, disconnect, Stream, Read, read_data, incomplete, timed_out, failed,
  readexactly, header_size, header_length, read_rest, read_body, read_behind, read_message,
  Received, received, nothing, raised, read_with, receive_message, decode_message_data, reader_loop,
}

-- What is read is gone from the stream.
abbrev Takes : ℕ → Stream → Read → Type 0
Takes n s (read_data b s') = length s'.coming + n ≤ length s.coming
Takes n s _ = Unit

readexactly-Takes : (n : ℕ) (s : Stream) → Takes n s (readexactly n s)
unfolding readexactly
readexactly-Takes n s = ground (arith, length-drop n s.coming)

read_rest-Takes :
    (s : Stream) (header : List ℕ) (n : ℕ) (r : Read) → Takes n s r → Takes n s (read_rest header r)
unfolding read_rest
read_rest-Takes s header n (read_data m s') h = h
read_rest-Takes s header n (incomplete partial) h = h
read_rest-Takes s header n timed_out h = h
read_rest-Takes s header n failed h = h

Takes-trans :
    (n : ℕ) (s s' : Stream) (r : Read)
    → length s'.coming + n ≤ length s.coming
    → Takes 0 s' r
    → Takes n s r
Takes-trans n s s' (read_data b s'') h k = omega arith
Takes-trans n s s' (incomplete partial) h k = tt
Takes-trans n s s' timed_out h k = tt
Takes-trans n s s' failed h k = tt

Takes-le : (m n : ℕ) (s : Stream) (r : Read) → m ≤ n → Takes n s r → Takes m s r
Takes-le m n s (read_data b s') h k = omega arith
Takes-le m n s (incomplete partial) h k = tt
Takes-le m n s timed_out h k = tt
Takes-le m n s failed h k = tt

read_body-Takes :
    (n : ℕ) (header : List ℕ) (len : Result (ℕ × ℕ)) (s s' : Stream)
    → length s'.coming + n ≤ length s.coming
    → Takes n s (read_body header len s')
unfolding read_body
read_body-Takes n header (err e) s s' h = tt
read_body-Takes n header (ok (p, message_len)) s s' h =
    read_rest-Takes s header n (readexactly message_len s') (
      Takes-trans n s s' (readexactly message_len s') h (
        Takes-le 0 message_len s' (readexactly message_len s') (omega arith)
          (readexactly-Takes message_len s')))

read_behind-Takes :
    (n : ℕ) (obfuscated : Bool) (s : Stream) (r : Read)
    → Takes n s r
    → Takes n s (read_behind obfuscated r)
unfolding read_behind
read_behind-Takes n obfuscated s (read_data header s') h =
    read_body-Takes n header (header_length obfuscated header) s s' h
read_behind-Takes n obfuscated s (incomplete partial) h = tt
read_behind-Takes n obfuscated s timed_out h = tt
read_behind-Takes n obfuscated s failed h = tt

header_size-le : (obfuscated : Bool) → 4 ≤ header_size obfuscated
header_size-le true = omega arith
header_size-le false = omega arith

read_message-Takes : (obfuscated : Bool) (s : Stream) → Takes 4 s (read_message obfuscated s)
unfolding read_message
read_message-Takes obfuscated s =
    read_behind-Takes 4 obfuscated s (readexactly (header_size obfuscated) s) (
      Takes-le 4 (header_size obfuscated) s (readexactly (header_size obfuscated) s)
        (header_size-le obfuscated) (readexactly-Takes (header_size obfuscated) s))

-- A message takes its header from the stream, and an error closes the connection.
abbrev After : Stream → Connection → Received → Type 0
After s c (received b s') = length s'.coming + 4 ≤ length s.coming
After s c nothing = Unit
After s c raised = is_closing c ≡ true

read_with-After :
    (s : Stream) (r : Read) (c : Connection)
    → Takes 4 s r
    → After s (read_with r c).0 (read_with r c).1
unfolding read_with disconnect
read_with-After s (read_data [] s') c h = tt
read_with-After s (read_data (b ∷ bs) s') c h = h
read_with-After s (incomplete []) c h = tt
read_with-After s (incomplete (b ∷ bs)) c h = ground arith
read_with-After s timed_out c h = ground arith
read_with-After s failed c h = ground arith

reader-Takes :
    (reader obfuscated : Bool) (s : Stream)
    → Takes 4 s (if reader then read_message obfuscated s else failed)
reader-Takes true obfuscated s = read_message-Takes obfuscated s
reader-Takes false obfuscated s = tt

receive_message-After :
    (s : Stream) (c : Connection) → After s (receive_message s c).0 (receive_message s c).1
unfolding receive_message
receive_message-After s c =
    read_with-After s (if c.reader then read_message c.obfuscated s else failed) c
      (reader-Takes c.reader c.obfuscated s)

cases_received :
    (r : Received)
    → (r ≡ nothing) ⊎ (r ≡ raised) ⊎ ((b : List ℕ) × (s : Stream) × (r ≡ received b s))
cases_received nothing = inl refl
cases_received raised = inr (inl refl)
cases_received (received b s) = inr (inr (b, s, refl))

module _ (platform : Platform) (handle : MessageClass × Values → Connection → Connection) where
  closed_returns :
      (fuel : ℕ) (s : Stream) (c : Connection)
      → is_closing c ≡ true
      → reader_loop platform handle (suc fuel) s c ≡ some (c, [])
  unfolding reader_loop
  closed_returns fuel s c h = rw (h, reader_loop)

  -- With two rounds more than there are bytes to come, the loop returns, whatever comes and
  -- whatever the handlers do to the connection.
  pub reader_loop-returns :
      (fuel : ℕ) (s : Stream) (c : Connection)
      → length s.coming + 2 ≤ fuel
      → (r : Connection × List (MessageClass × Values)) × (reader_loop platform handle fuel s c
          ≡ some r)
  unfolding reader_loop
  reader_loop-returns zero s c h = absurd (omega arith)
  reader_loop-returns (suc zero) s c h = absurd (omega arith)
  reader_loop-returns (suc (suc fuel)) s c h = elim (Bool-cases (is_closing c)) [
    | inl e ↦ ((c, []), rw (e, reader_loop))
    | inr e ↦
        let c' : Connection = (receive_message s c).0 in
        elim (cases_received (receive_message s c).1) [
          | inl n ↦ ((c', []), rw (e, reader_loop) (rw (n, reader_loop)))
          | inr (inl r) ↦ (
            (c', []),
            rw (e, reader_loop)
                (rw (r, reader_loop)
                  (closed_returns fuel s c' (rw r at (receive_message-After s c)))),
          )
          | inr (inr (b, s', r)) ↦
              let fewer : length s'.coming + 4 ≤ length s.coming =
                rw r at (receive_message-After s c) in
              elim (cases_result (decode_message_data platform c' b)) [
                | inl (m, d) ↦
                    let (r', e') = reader_loop-returns (suc fuel) s' (handle m c') (omega arith) in
                    (
                      (r'.0, m ∷ r'.1),
                      rw (e, reader_loop)
                          (rw (r, reader_loop) (rw (d, reader_loop) (rw (e', reader_loop)))),
                    )
                | inr (x, d) ↦
                    let (r', e') = reader_loop-returns (suc fuel) s' c' (omega arith) in
                    (r', rw (e, reader_loop) (rw (r, reader_loop) (rw (d, reader_loop) e')))
              ]
        ]
  ]
