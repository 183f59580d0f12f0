-- ===== src/Protocol/Obfuscation.antt =====
-- protocol/obfuscation.py: messages masked by a rotating key.
pub mod Rotation
pub mod RoundTrip
pub mod Prefix
mod Tests
use aioslsk.Base.{ℕ, zero, suc, ◌+◌, ◌-◌, ◌*◌, ◌/◌, ◌%◌, ◌^◌, min, ltb, ◌==◌, if◌then◌else◌}
use aioslsk.Base.{Option, List, [], ◌∷◌, ◌++◌, length, take, drop, get_elem?}
use aioslsk.Base.Result.{Result, ok, err, ◌>>=◌, overflow_error}
use aioslsk.Protocol.Struct.{to_le, from_le}
use mathlib.Core.Option
use Prim.Native.Nat.{bit_or, bit_xor}

abbrev pub key_size : ℕ
key_size = 4

-- `xs[i]`; the index is always in range where the code reads.
abbrev pub byte_at : List ℕ → ℕ → ℕ
byte_at xs i = Option.get_or (get_elem? xs i) 0

-- `to_bytes(4, 'little')` refuses a number of more than 32 bits.
unfoldable pub to_bytes : ℕ → Result (List ℕ)
to_bytes n = if ltb n (2 ^ 32) then ok (to_le 4 n) else err overflow_error

-- The shift to the left is by `32 - rot_bits`, for `rot_bits` up to 32; `& 0xFFFFFFFF` is the
-- remainder by `2 ^ 32`.
unfoldable pub rotate_key : List ℕ → ℕ → Result (List ℕ)
rotate_key key rot_bits =
    let key_i = from_le key in
    to_bytes (bit_or (key_i / 2 ^ rot_bits) (key_i * 2 ^ (32 - rot_bits) % 2 ^ 32))

-- The rotations by `rot_bits`, `rot_bits - 1` and so on, `amount` of them.
unfoldable pub rotations : ℕ → List ℕ → ℕ → Result (List ℕ)
rotations zero key rot_bits = ok []
rotations (suc amount) key rot_bits = do
  r ← rotate_key key rot_bits
  rs ← rotations amount key (rot_bits - 1)
  ok (r ++ rs)

-- The loop `message[idx] ^= full_key[idx % full_key_len]`.
unfoldable pub unmask : List ℕ → ℕ → List ℕ → List ℕ
unmask full_key idx [] = []
unmask full_key idx (b ∷ bs) =
    bit_xor b (byte_at full_key (idx % length full_key)) ∷ unmask full_key (idx + 1) bs

unfoldable pub decode : List ℕ → Result (List ℕ)
unfolding rotations unmask
decode bytes =
    let key = take key_size bytes in
    let message = drop key_size bytes in
    let key_amount = min ((length message + 3) / key_size) 32 in
    do full_key ← rotations key_amount key 31; ok (unmask full_key 0 message)

-- The loop of `encode`: the key rotates at every fourth byte.
unfoldable pub mask : List ℕ → ℕ → List ℕ → Result (List ℕ)
mask key idx [] = ok []
mask key idx (byt ∷ bytes) = do
  key' ← if idx % key_size == 0 then rotate_key key 31 else ok key
  rest ← mask key' (idx + 1) bytes
  ok (bit_xor (byte_at key' (idx % key_size)) byt ∷ rest)

-- `generated` is what `generate_key` returns, used where no key is given.
unfoldable pub encode : List ℕ → Option (List ℕ) → List ℕ → Result (List ℕ)
unfolding mask
encode bytes key generated =
    let orig_key = Option.get_or key generated in
    do enc_message ← mask orig_key 0 bytes; ok (orig_key ++ enc_message)
