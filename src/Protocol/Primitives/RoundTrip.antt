-- ===== src/Protocol/Primitives/RoundTrip.antt =====
-- Each primitive class reads back what it wrote.
use aioslsk.Base.{ℕ, ◌+◌, ◌-◌, ◌^◌, ◌<◌, ◌≡◌, refl, ap, ◌∙◌, arith}
use aioslsk.Base.{Bool, true, false, some, List, [], ◌∷◌, ◌++◌, length, take, drop}
use aioslsk.Base.{lt→ltb, ltb-le, ==_self, length-append, length-reverse}
use aioslsk.Base.Result.{Result, ok}
use aioslsk.Protocol.Struct.{
  to_le, length-to_le, pack-ok, unpack_from-to_le, slice_here, drop_after,
}
use aioslsk.Protocol.Value.{pos, negsuc, Uint, uint8, uint16, uint32, uint64, size, count}
use aioslsk.Protocol.Value.{Value, int, bool, str, bytes, list, Values, nil, cons}
use aioslsk.Protocol.Platform.{Platform, Laws}
use aioslsk.Protocol.Primitives.{
  serialize_uint, read_uint, deserialize_uint, serialize_int32, deserialize_int32,
  serialize_boolean, deserialize_boolean, slice, serialize_bytearr, deserialize_bytearr,
  serialize_items, serialize_array, deserialize_items, deserialize_array, deserialize_ticket,
  serialize_string, decode_string, deserialize_string, serialize_ipaddr, deserialize_ipaddr,
}
use mathlib.Core.List.{reverse, reverse-reverse, append_assoc, append-nil}

-- Bytes that `write` produced and that `read` takes back, wherever in a message they stand.
-- With `last` they are read right only at the end of the message.
pub record RoundTrips {A : Type 0} (written : Result (List ℕ)) (read : ℕ → List ℕ → Result (ℕ × A))
    (last : Bool) (v : A) : Type 0 where
  pub image : List ℕ
  pub writes : written ≡ ok image
  pub fills : 0 < length image
  pub reads :
      (p : ℕ) (message post : List ℕ)
      → drop p message ≡ image ++ post
      → (last ≡ true → post ≡ [])
      → read p message ≡ ok (p + length image, v)

pub read_uint-to_le :
    (k : Uint) (n p : ℕ) (message post : List ℕ)
    → n < 256 ^ size k
    → drop p message ≡ to_le (size k) n ++ post
    → read_uint k p message ≡ ok (p + size k, n)
unfolding read_uint
read_uint-to_le k n p message post h e = rw (unpack_from-to_le (size k) n p message post h e)

size-pos : (k : Uint) (n : ℕ) → 0 < length (to_le (size k) n)
size-pos uint8 n = omega (arith, length-to_le 1 n)
size-pos uint16 n = omega (arith, length-to_le 2 n)
size-pos uint32 n = omega (arith, length-to_le 4 n)
size-pos uint64 n = omega (arith, length-to_le 8 n)

pub uint_round :
    {l : Bool} (k : Uint) (n : ℕ)
    → n < 256 ^ size k
    → RoundTrips (serialize_uint k (int (pos n))) (deserialize_uint k) l (int (pos n))
unfolding serialize_uint deserialize_uint
uint_round k n h = record {
  image = to_le (size k) n;
  writes = pack-ok (size k) n h;
  fills = size-pos k n;
  reads =
      λ p message post e _. rw (read_uint-to_le k n p message post h e, length-to_le (size k) n);
}

pub boolean_round :
    {l : Bool} (b : Bool) → RoundTrips (serialize_boolean (bool b)) deserialize_boolean l (bool b)
unfolding serialize_boolean deserialize_boolean to_le
boolean_round true = record {
  image = 1 ∷ [];
  writes = refl;
  fills = omega arith;
  reads = λ p message post e _. rw (unpack_from-to_le 1 1 p message post (omega arith) e);
}
boolean_round false = record {
  image = 0 ∷ [];
  writes = refl;
  fills = omega arith;
  reads = λ p message post e _. rw (unpack_from-to_le 1 0 p message post (omega arith) e);
}

pub int32_round_pos :
    {l : Bool} (n : ℕ)
    → n < 2 ^ 31
    → RoundTrips (serialize_int32 (int (pos n))) deserialize_int32 l (int (pos n))
unfolding serialize_int32 deserialize_int32
int32_round_pos n h = record {
  image = to_le 4 n;
  writes = rw (lt→ltb n (2 ^ 31) h) (pack-ok 4 n (omega arith));
  fills = omega (arith, length-to_le 4 n);
  reads = λ p message post e _.
      rw (
        unpack_from-to_le 4 n p message post (omega arith) e,
        lt→ltb n (2 ^ 31) h,
        length-to_le 4 n,
      );
}

pub int32_round_neg :
    {l : Bool} (n : ℕ)
    → n < 2 ^ 31
    → RoundTrips (serialize_int32 (int (negsuc n))) deserialize_int32 l (int (negsuc n))
unfolding serialize_int32 deserialize_int32
int32_round_neg n h = record {
  image = to_le 4 (2 ^ 32 - 1 - n);
  writes = rw (lt→ltb n (2 ^ 31) h) (pack-ok 4 (2 ^ 32 - 1 - n) (omega arith));
  fills = omega (arith, length-to_le 4 (2 ^ 32 - 1 - n));
  reads = λ p message post e _.
      rw
        (
          unpack_from-to_le 4 (2 ^ 32 - 1 - n) p message post (omega arith) e,
          ltb-le (2 ^ 32 - 1 - n) (2 ^ 31) (omega arith),
          length-to_le 4 (2 ^ 32 - 1 - n),
        )
        (ap (λ (m : ℕ). ok (p + 4, int (negsuc m))) (omega arith));
}

-- A number in front of what it counts: both are found, one behind the other.
read_prefix :
    (n p : ℕ) (message b post : List ℕ)
    → n < 2 ^ 32
    → drop p message ≡ (to_le 4 n ++ b) ++ post
    → (read_uint uint32 p message ≡ ok (p + 4, n)) × (drop (p + 4) message ≡ b ++ post)
read_prefix n p message b post h e =
    let e' : drop p message ≡ to_le 4 n ++ (b ++ post) = e ∙ append_assoc (to_le 4 n) b post in
    (
      read_uint-to_le uint32 n p message (b ++ post) h e',
      rw (length-to_le 4 n) at (drop_after p message (to_le 4 n) (b ++ post) e'),
    )

length_prefix : (n p : ℕ) (b : List ℕ) → p + length (to_le 4 n ++ b) ≡ p + 4 + length b
length_prefix n p b = omega (arith, length-append (to_le 4 n) b, length-to_le 4 n)

prefix-pos : (n : ℕ) (b : List ℕ) → 0 < length (to_le 4 n ++ b)
prefix-pos n b = omega (arith, length_prefix n 0 b)

pub bytearr_round :
    {l : Bool} (b : List ℕ)
    → length b < 2 ^ 32
    → RoundTrips (serialize_bytearr (bytes b)) deserialize_bytearr l (bytes b)
unfolding serialize_bytearr deserialize_bytearr slice
bytearr_round b h = record {
  image = to_le 4 (length b) ++ b;
  writes = rw (pack-ok 4 (length b) h);
  fills = prefix-pos (length b) b;
  reads = λ p message post e _.
      let (found, rest) = read_prefix (length b) p message b post h e in
      rw (found, slice_here (p + 4) message b post rest, length_prefix (length b) p b);
}

-- The items of an array, one after the other.
pub data RoundTripsAll (write : Value → Result (List ℕ)) (read : ℕ → List ℕ → Result (ℕ × Value))
    : Values → Type 0 where
  done : RoundTripsAll write read nil
  more :
      {v : Value} {vs : Values}
      → RoundTrips (write v) read false v
      → RoundTripsAll write read vs
      → RoundTripsAll write read (cons v vs)

items_round :
    (write : Value → Result (List ℕ)) (read : ℕ → List ℕ → Result (ℕ × Value)) {vs : Values}
    → RoundTripsAll write read vs
    → (b : List ℕ) × (serialize_items write vs ≡ ok b)
      × ((p : ℕ) (message post : List ℕ)
          → drop p message ≡ b ++ post
          → deserialize_items read (count vs) p message ≡ ok (p + length b, vs))
unfolding serialize_items deserialize_items
items_round write read done =
    ([], refl, λ p message post e. ap (λ (q : ℕ). ok (q, nil)) (omega arith))
items_round write read (more {v} {vs} r rs) =
    let (b, w, d) = items_round write read rs in
    (
      r.image ++ b,
      rw (r.writes, w),
      λ p message post e.
          let e' : drop p message ≡ r.image ++ (b ++ post) = e ∙ append_assoc r.image b post in
          rw
            (
              r.reads p message (b ++ post) e' (λ f. cc),
              d (p + length r.image) message post (drop_after p message r.image (b ++ post) e'),
            )
            (ap (λ (q : ℕ). ok (q, cons v vs)) (omega (arith, length-append r.image b))),
    )

pub array_round :
    {l : Bool} (write : Value → Result (List ℕ)) (read : ℕ → List ℕ → Result (ℕ × Value))
    (vs : Values)
    → count vs < 2 ^ 32
    → RoundTripsAll write read vs
    → RoundTrips (serialize_array write (list vs)) (deserialize_array read) l (list vs)
unfolding serialize_array deserialize_array
array_round write read vs h rs =
    let (b, w, d) = items_round write read rs in
    record {
      image = to_le 4 (count vs) ++ b;
      writes = rw (pack-ok 4 (count vs) h, w);
      fills = prefix-pos (count vs) b;
      reads = λ p message post e _.
          let (found, rest) = read_prefix (count vs) p message b post h e in
          rw (found, d (p + 4) message post rest, length_prefix (count vs) p b);
    }

-- A ticket is read as a uint32 only where it ends the message.
pub ticket_round :
    (n : ℕ)
    → n < 2 ^ 32
    → RoundTrips (serialize_uint uint32 (int (pos n))) deserialize_ticket true (int (pos n))
unfolding deserialize_ticket uint_round
ticket_round n h =
    let r : RoundTrips (serialize_uint uint32 (int (pos n))) (deserialize_uint uint32) true
        (int (pos n)) =
      uint_round uint32 n h in
    record {
      image = to_le 4 n;
      writes = r.writes;
      fills = r.fills;
      reads = λ p message post e last.
          let four : length (drop p message) ≡ 4 =
            rw (e, last refl, append-nil (to_le 4 n)) (length-to_le 4 n) in
          rw four (r.reads p message post e last);
    }

module _ (platform : Platform) (laws : Laws platform) where
  open platform use {encode_utf8, inet_aton, inet_ntoa}

  decode_string-encode : (s b : List ℕ) → encode_utf8 s ≡ some b → decode_string platform b ≡ ok s
  unfolding decode_string
  decode_string-encode s b enc = rw (laws.decode-encode s b enc, decode_string)

  pub string_round :
      {l : Bool} (s b : List ℕ)
      → encode_utf8 s ≡ some b
      → length b < 2 ^ 32
      → RoundTrips (serialize_string platform (str s)) (deserialize_string platform) l (str s)
  unfolding serialize_string deserialize_string slice
  string_round s b enc h = record {
    image = to_le 4 (length b) ++ b;
    writes = rw enc (rw (pack-ok 4 (length b) h));
    fills = prefix-pos (length b) b;
    reads = λ p message post e _.
        let (found, rest) = read_prefix (length b) p message b post h e in
        rw found (
          rw (slice_here (p + 4) message b post rest)
            (rw (==_self (length b), decode_string-encode s b enc, length_prefix (length b) p b)));
  }

  -- An address in the form that `inet_ntoa` prints.
  pub ipaddr_round :
      {l : Bool} (s b : List ℕ)
      → inet_aton s ≡ some b
      → inet_ntoa b ≡ some s
      → length b ≡ 4
      → RoundTrips (serialize_ipaddr platform (str s)) (deserialize_ipaddr platform) l (str s)
  unfolding serialize_ipaddr deserialize_ipaddr slice
  ipaddr_round s b aton ntoa four = record {
    image = reverse b;
    writes = rw aton;
    fills = omega (arith, size);
    reads = λ p message post e _.
        let found : take 4 (drop p message) ≡ reverse b =
          rw size at (slice_here p message (reverse b) post e) in
        rw found (rw size (rw (reverse-reverse b, ntoa)));
  }
    where
      size : length (reverse b) ≡ 4
      size = length-reverse b ∙ four
