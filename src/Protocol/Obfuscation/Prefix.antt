-- ===== src/Protocol/Obfuscation/Prefix.antt =====
-- The front of a masked message can be decoded before the rest has come, as network/connection.py
-- does with the header.
use aioslsk.Base.{
  ℕ, zero, suc, ◌+◌, ◌≡◌, refl, sym, ap, ◌∙◌, Option, List, [], ◌∷◌, ◌++◌, length, take, ◌%◌, ◌==◌,
  if◌then◌else◌,
}
use aioslsk.Base.{All}
use aioslsk.Base.Result.{ok, >>=-succeeds, ok-eq-ok, ◌>>=◌}
use aioslsk.Protocol.Struct.{IsByte}
use aioslsk.Protocol.Obfuscation.{mask, encode, decode, key_size, byte_at, rotate_key}
use aioslsk.Protocol.Obfuscation.RoundTrip.{decode-encode}
use mathlib.Core.Option
use native.Mathlib.Nat.{zero-add, suc-add}
use Prim.Native.Nat.{bit_xor}

mask-take :
    (key : List ℕ) (idx n : ℕ) (bytes m : List ℕ)
    → mask key idx bytes ≡ ok m
    → mask key idx (take n bytes) ≡ ok (take n m)
unfolding mask
mask-take key idx zero bytes m h = refl
mask-take key idx (suc n) [] m h = ap (λ (l : List ℕ). ok (take (suc n) l)) (ok-eq-ok h)
mask-take key idx (suc n) (b ∷ bs) m h =
    let (key', ek, h') =
      >>=-succeeds (if idx % key_size == 0 then rotate_key key 31 else ok key)
        (λ k. mask k (idx + 1) bs >>= λ r. ok (bit_xor (byte_at k (idx % key_size)) b ∷ r)) h in
    let (rest, er, e) =
      >>=-succeeds (mask key' (idx + 1) bs)
        (λ r. ok (bit_xor (byte_at key' (idx % key_size)) b ∷ r)) h' in
    rw (ek, mask-take key' (idx + 1) n bs rest er)
      (ap (λ (l : List ℕ). ok (take (suc n) l)) (ok-eq-ok e))

take-add : (xs ys : List ℕ) (n : ℕ) → take (length xs + n) (xs ++ ys) ≡ xs ++ take n ys
take-add [] ys n = rw zero-add
take-add (x ∷ xs) ys n = rw suc-add (ap (λ (l : List ℕ). x ∷ l) (take-add xs ys n))

-- The first bytes of an encoded message decode to the first bytes of the message.
pub decode-take :
    (bytes b : List ℕ) (key : Option (List ℕ)) (generated : List ℕ) (n : ℕ)
    → length (Option.get_or key generated) ≡ 4
    → All IsByte (Option.get_or key generated)
    → encode bytes key generated ≡ ok b
    → decode (take (4 + n) b) ≡ ok (take n bytes)
unfolding encode
decode-take bytes b key generated n four good h =
    let (m, em, e) = >>=-succeeds (mask orig 0 bytes) (λ r. ok (orig ++ r)) h in
    let (b', encoded, decoded, _) = decode-encode (take n bytes) key generated four good in
    let front : encode (take n bytes) key generated ≡ ok (orig ++ take n m) =
      rw (mask-take orig 0 n bytes m em) in
    let b_eq : take (4 + n) b ≡ orig ++ take n m =
      ap (λ (l : List ℕ). take (4 + n) l) (sym (ok-eq-ok e)) ∙ rw (sym four) (take-add orig m n) in
    rw b_eq (ap decode (ok-eq-ok (sym front ∙ encoded)) ∙ decoded)
  where
    orig : List ℕ
    orig = Option.get_or key generated
