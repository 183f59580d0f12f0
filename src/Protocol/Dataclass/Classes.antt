-- ===== src/Protocol/Dataclass/Classes.antt =====
-- The classes of protocol/primitives.py with serialisers of their own read back what they wrote.
use aioslsk.Base.{ℕ, ◌+◌, ◌^◌, ◌<◌, ◌≡◌, refl, ap, arith}
use aioslsk.Base.{Bool, false, List, ◌++◌, length, take, drop, length-append}
use aioslsk.Base.{take-append_length, drop-append_length}
use aioslsk.Base.Result.{Result, ok, err, conversion}
use aioslsk.Protocol.Struct.{to_le, length-to_le, from_le-to_le, pack-ok, slice_here, drop_after}
use aioslsk.Protocol.Value.{pos, uint8, uint64}
use aioslsk.Protocol.Value.{Value, int, obj, nil, cons, null}
use aioslsk.Protocol.Platform.{Platform}
use aioslsk.Protocol.Primitives.{
  serialize_uint, deserialize_uint, serialize_array, deserialize_array, serialize_string,
  deserialize_string,
}
use aioslsk.Protocol.Primitives.RoundTrip.{RoundTrips}
use aioslsk.Protocol.Dataclass.{
  serialize_attribute, deserialize_attribute, serialize_file_data, deserialize_file_data,
  serialize_directory_data, deserialize_directory_data, unless_none,
}
use mathlib.Core.List.{append_assoc}

pub attribute_round :
    {l : Bool} (k v : ℕ)
    → k < 2 ^ 32
    → v < 2 ^ 32
    → let a : Value = obj (cons (int (pos k)) (cons (int (pos v)) nil)) in
      RoundTrips (serialize_attribute a) deserialize_attribute l a
unfolding serialize_attribute deserialize_attribute serialize_uint
attribute_round k v hk hv = record {
  image = image;
  writes = rw (pack-ok 4 k hk, pack-ok 4 v hv);
  fills = omega (arith, eight);
  reads = λ p message post e _.
      let here : take 8 (drop p message) ≡ image =
        rw eight at (slice_here p message image post e) in
      rw here (rw eight (rw (first, second, from_le-to_le 4 k hk, from_le-to_le 4 v hv)));
}
  where
    image : List ℕ
    image = to_le 4 k ++ to_le 4 v

    eight : length image ≡ 8
    eight = omega (arith, length-append (to_le 4 k) (to_le 4 v), length-to_le 4 k, length-to_le 4 v)

    first : take 4 image ≡ to_le 4 k
    first = rw (length-to_le 4 k) at (take-append_length (to_le 4 k) (to_le 4 v))

    second : drop 4 image ≡ to_le 4 v
    second = rw (length-to_le 4 k) at (drop-append_length (to_le 4 k) (to_le 4 v))

-- What was read, and where the message goes on.
pub read_on :
    {A : Type 0} {w : Result (List ℕ)} {read : ℕ → List ℕ → Result (ℕ × A)} {v : A}
    (r : RoundTrips w read false v) (p : ℕ) (message rest : List ℕ)
    → drop p message ≡ r.image ++ rest
    → (read p message ≡ ok (p + length r.image, v)) × (drop (p + length r.image) message ≡ rest)
read_on r p message rest h =
    (r.reads p message rest h (λ f. cc), drop_after p message r.image rest h)

-- A value that is written is not `None`.
pub unless_none-eq :
    (write : Value → Result (List ℕ)) (v : Value) {b : List ℕ}
    → write null ≡ err conversion
    → write v ≡ ok b
    → unless_none write v ≡ write v
unless_none-eq write null e h = cc
unless_none-eq write v e h = refl

module _ (platform : Platform) where
  null_string : serialize_string platform null ≡ err conversion
  unfolding serialize_string
  null_string = refl

  null_array : (write : Value → Result (List ℕ)) → serialize_array write null ≡ err conversion
  unfolding serialize_array
  null_array write = refl

  pub file_data_round :
      {l : Bool} {a b c d e : Value}
      → RoundTrips (serialize_uint uint8 a) (deserialize_uint uint8) false a
      → RoundTrips (serialize_string platform b) (deserialize_string platform) false b
      → RoundTrips (serialize_uint uint64 c) (deserialize_uint uint64) false c
      → RoundTrips (serialize_string platform d) (deserialize_string platform) false d
      → RoundTrips
          (serialize_array serialize_attribute e)
          (deserialize_array deserialize_attribute)
          false
          e
      → let v = obj (cons a (cons b (cons c (cons d (cons e nil))))) in
        RoundTrips (serialize_file_data platform v) (deserialize_file_data platform) l v
  unfolding serialize_file_data deserialize_file_data
  file_data_round {a} {b} {c} {d} {e} ra rb rc rd re = record {
    image = ra.image ++ rb.image ++ rc.image ++ rd.image ++ re.image;
    writes = rw (ra.writes, rb.writes, rc.writes, rd.writes, re.writes);
    fills = omega (arith, lengths);
    reads = λ p message post h _.
        let (ha, ka) = read_on ra p message _ (simp append_assoc at h) in
        let (hb, kb) = read_on rb _ message _ ka in
        let (hc, kc) = read_on rc _ message _ kb in
        let (hd, kd) = read_on rd _ message _ kc in
        let (he, _) = read_on re _ message _ kd in
        rw ha (rw hb (rw hc (rw hd (rw he (ap (λ (q : ℕ). ok (q, v)) (omega (arith, lengths)))))));
  }
    where
      v : Value
      v = obj (cons a (cons b (cons c (cons d (cons e nil)))))

      lengths :
          length (ra.image ++ rb.image ++ rc.image ++ rd.image ++ re.image)
          ≡ length ra.image + length rb.image + length rc.image + length rd.image + length re.image
      lengths = simp length-append

  pub directory_data_round :
      {l : Bool} {a b : Value}
      → RoundTrips (serialize_string platform a) (deserialize_string platform) false a
      → RoundTrips
          (serialize_array (serialize_file_data platform) b)
          (deserialize_array (deserialize_file_data platform))
          false
          b
      → let v = obj (cons a (cons b nil)) in
        RoundTrips (serialize_directory_data platform v) (deserialize_directory_data platform) l v
  unfolding serialize_directory_data deserialize_directory_data
  directory_data_round {a} {b} ra rb = record {
    image = ra.image ++ rb.image;
    writes = rw (
      unless_none-eq (serialize_string platform) a null_string ra.writes,
      unless_none-eq (serialize_array (serialize_file_data platform)) b (null_array _) rb.writes,
      ra.writes,
      rb.writes,
    );
    fills = omega (arith, length-append ra.image rb.image, ra.fills);
    reads = λ p message post h _.
        let (ha, ka) = read_on ra p message _ (simp append_assoc at h) in
        let (hb, _) = read_on rb _ message _ ka in
        rw ha (
          rw hb (
            ap (λ (q : ℕ). ok (q, obj (cons a (cons b nil))))
              (omega (arith, length-append ra.image rb.image))));
  }
