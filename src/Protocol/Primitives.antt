-- ===== src/Protocol/Primitives.antt =====
-- The primitive classes of protocol/primitives.py: `serialize_into` as the bytes that it adds to
-- the buffer, `deserialize` on a position and the whole message.
pub mod RoundTrip
use aioslsk.Base.{ℕ, zero, suc, ◌+◌, ◌-◌, ◌^◌, Bool, true, false, not, ltb, ◌==◌, if◌then◌else◌}
use aioslsk.Base.{Option, none, some, List, [], ◌∷◌, ◌++◌, length, take, drop}
use aioslsk.Base.Result.{Result, Error, ok, err, or_raise, ◌>>=◌}
use aioslsk.Base.Result.{struct_error, unicode_error, os_error, bad_length, conversion}
use aioslsk.Protocol.Struct.{pack, unpack_from}
use aioslsk.Protocol.Value.{ℤ, pos, negsuc, Uint, uint32, size, truthy, count}
use aioslsk.Protocol.Value.{Value, null, int, bool, str, bytes, list, obj, Values, nil, cons}
use aioslsk.Protocol.Platform.{Platform}
use mathlib.Core.List.{reverse}

-- `uint8`, `uint16`, `uint32` and `uint64`: one method body, over the format of the class.
unfoldable pub serialize_uint : Uint → Value → Result (List ℕ)
serialize_uint k (int (pos n)) = pack (size k) n
serialize_uint k (int (negsuc n)) = err struct_error
serialize_uint k (bool b) = pack (size k) (if b then 1 else 0)
serialize_uint k _ = err conversion

-- The number and the position behind it.
unfoldable pub read_uint : Uint → ℕ → List ℕ → Result (ℕ × ℕ)
read_uint k p buffer = do n ← unpack_from (size k) p buffer; ok (p + size k, n)

unfoldable pub deserialize_uint : Uint → ℕ → List ℕ → Result (ℕ × Value)
deserialize_uint k p buffer = do (p', n) ← read_uint k p buffer; ok (p', int (pos n))

-- Two's complement in four bytes.
unfoldable pub serialize_int32 : Value → Result (List ℕ)
serialize_int32 (int (pos n)) = if ltb n (2 ^ 31) then pack 4 n else err struct_error
serialize_int32 (int (negsuc n)) =
    if ltb n (2 ^ 31) then pack 4 (2 ^ 32 - 1 - n) else err struct_error
serialize_int32 (bool b) = pack 4 (if b then 1 else 0)
serialize_int32 _ = err conversion

unfoldable pub deserialize_int32 : ℕ → List ℕ → Result (ℕ × Value)
deserialize_int32 p buffer = do
  n ← unpack_from 4 p buffer
  ok (p + 4, int (if ltb n (2 ^ 31) then pos n else negsuc (2 ^ 32 - 1 - n)))

-- One byte: 1 for a true value, and any byte but 0 reads as `True`.
unfoldable pub serialize_boolean : Value → Result (List ℕ)
serialize_boolean (int z) = ok ((if truthy (int z) then 1 else 0) ∷ [])
serialize_boolean (bool b) = ok ((if b then 1 else 0) ∷ [])
serialize_boolean _ = err conversion

unfoldable pub deserialize_boolean : ℕ → List ℕ → Result (ℕ × Value)
deserialize_boolean p buffer = do n ← unpack_from 1 p buffer; ok (p + 1, bool (not (n == 0)))

-- The slice `data[p:p + n]`, which ends where the message ends.
unfoldable pub slice : ℕ → ℕ → List ℕ → List ℕ
slice p n buffer = take n (drop p buffer)

-- `bytearr`: a length and the bytes. A message that ends too early yields fewer bytes.
unfoldable pub serialize_bytearr : Value → Result (List ℕ)
serialize_bytearr (bytes b) = do len ← pack 4 (length b); ok (len ++ b)
serialize_bytearr _ = err conversion

unfoldable pub deserialize_bytearr : ℕ → List ℕ → Result (ℕ × Value)
deserialize_bytearr p buffer = do
  (p', n) ← read_uint uint32 p buffer
  ok (p' + n, bytes (slice p' n buffer))

-- `array`: a number of items and the items, written or read by `item`.
unfoldable pub serialize_items : (Value → Result (List ℕ)) → Values → Result (List ℕ)
serialize_items item nil = ok []
serialize_items item (cons v vs) = do b ← item v; bs ← serialize_items item vs; ok (b ++ bs)

unfoldable pub serialize_array : (Value → Result (List ℕ)) → Value → Result (List ℕ)
serialize_array item (list vs) = do
  len ← pack 4 (count vs)
  bs ← serialize_items item vs
  ok (len ++ bs)
serialize_array item _ = err conversion

unfoldable pub deserialize_items :
    (ℕ → List ℕ → Result (ℕ × Value)) → ℕ → ℕ → List ℕ → Result (ℕ × Values)
deserialize_items item zero p buffer = ok (p, nil)
deserialize_items item (suc n) p buffer = do
  (p', v) ← item p buffer
  (p'', vs) ← deserialize_items item n p' buffer
  ok (p'', cons v vs)

unfoldable pub deserialize_array :
    (ℕ → List ℕ → Result (ℕ × Value)) → ℕ → List ℕ → Result (ℕ × Value)
deserialize_array item p buffer = do
  (p', n) ← read_uint uint32 p buffer
  (p'', vs) ← deserialize_items item n p' buffer
  ok (p'', list vs)

-- `_PeerInitTicket`: written as a uint32, read as one only if exactly four bytes are left.
unfoldable pub deserialize_ticket : ℕ → List ℕ → Result (ℕ × Value)
deserialize_ticket p buffer =
    if length (drop p buffer) == 4
    then deserialize_uint uint32 p buffer
    else deserialize_uint Uint.uint64 p buffer

module _ (platform : Platform) where
  open platform use {encode_utf8, decode_utf8, decode_cp1252, inet_aton, inet_ntoa}

  unfoldable pub serialize_string : Value → Result (List ℕ)
  serialize_string (str s) = do
    b ← or_raise (encode_utf8 s) unicode_error
    len ← pack 4 (length b)
    ok (len ++ b)
  serialize_string _ = err conversion

  -- UTF-8, and code page 1252 where that fails.
  unfoldable pub decode_string : List ℕ → Result (List ℕ)
  decode_string b = elim (decode_utf8 b) [
    | some s ↦ ok s
    | none ↦ or_raise (decode_cp1252 b) unicode_error
  ]

  unfoldable pub deserialize_string : ℕ → List ℕ → Result (ℕ × Value)
  deserialize_string p buffer = do
    (p', n) ← read_uint uint32 p buffer
    let b = slice p' n buffer
    s ← if length b == n then decode_string b else err bad_length
    ok (p' + n, str s)

  -- The four bytes of the address in reverse order.
  unfoldable pub serialize_ipaddr : Value → Result (List ℕ)
  serialize_ipaddr (str s) = do b ← or_raise (inet_aton s) os_error; ok (reverse b)
  serialize_ipaddr _ = err conversion

  unfoldable pub deserialize_ipaddr : ℕ → List ℕ → Result (ℕ × Value)
  deserialize_ipaddr p buffer = do
    let b = slice p 4 buffer
    b' ← if length b == 4 then ok b else err struct_error
    s ← or_raise (inet_ntoa (reverse b')) os_error
    ok (p + 4, str s)
