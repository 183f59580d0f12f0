-- ===== src/Protocol/Messages/Optimised.antt =====
-- `Attribute`, `FileData` and `DirectoryData` of protocol/primitives.py replace the inherited
-- methods by faster ones of their own. They do what the inherited ones would.
use aioslsk.Base.{ℕ, ◌≡◌, ◌≢◌, refl, arith, false}
use aioslsk.Base.{none, List, [], ◌++◌}
use aioslsk.Base.Result.{Result, ok, err, ◌>>=◌}
use aioslsk.Protocol.Value.{Value, null, obj, nil, cons}
use aioslsk.Protocol.Value.{dataclass}
use aioslsk.Protocol.Platform.{Platform}
use aioslsk.Protocol.Dataclass.{
  serialize_file_data, deserialize_file_data, deserialize_directory_data, serialize_into,
  deserialize, field_needs_deserialization, construct, get_value_for_field, unless_none, Dict,
}
use mathlib.Core.List.{append-nil, append_assoc}
use aioslsk.Protocol.Messages.Classes.{file_data_fields, directory_data_fields}

-- `FileData.deserialize` is the inherited `deserialize`, on every message and position.
deserialize_file_data_lem :
    (platform : Platform) (p : ℕ) (message : List ℕ)
    → deserialize_file_data platform p message
      ≡ deserialize platform (dataclass file_data_fields) p message
unfolding deserialize_file_data deserialize construct field_needs_deserialization
deserialize_file_data_lem platform p message = ground arith

-- `DirectoryData.deserialize` is the inherited `deserialize`, on every message and position.
pub deserialize_directory_data_lem :
    (platform : Platform) (p : ℕ) (message : List ℕ)
    → deserialize_directory_data platform p message
      ≡ deserialize platform (dataclass directory_data_fields) p message
unfolding deserialize_directory_data deserialize construct field_needs_deserialization
deserialize_directory_data_lem platform p message = ground arith

plain_value :
    (env : Dict) (v : Value)
    → get_value_for_field env
        (record { if_true = none; if_false = none; optional = false; default = none })
        v
      ≡ ok v
unfolding get_value_for_field
plain_value env null = refl
plain_value env _ = refl

unless_some :
    (write : Value → Result (List ℕ)) (v : Value) → v ≢ null → unless_none write v ≡ write v
unless_some write null h = absurd (h refl)
unless_some write _ h = refl

-- Five parts written one after the other, and nested as the loop over the fields nests them.
nested :
    (a b c d e : Result (List ℕ))
    → (do a' ← a; b' ← b; c' ← c; d' ← d; e' ← e; ok (a' ++ b' ++ c' ++ d' ++ e')) ≡ (do
      a' ← a
      r ← do
        b' ← b
        r ← do
          c' ← c
          r ← do
            d' ← d
            r ← do e' ← e; ok (e' ++ [])
            ok (d' ++ r)
          ok (c' ++ r)
        ok (b' ++ r)
      ok (a' ++ r))
nested (err x) b c d e = refl
nested (ok a) (err x) c d e = refl
nested (ok a) (ok b) (err x) d e = refl
nested (ok a) (ok b) (ok c) (err x) e = refl
nested (ok a) (ok b) (ok c) (ok d) (err x) = refl
nested (ok a) (ok b) (ok c) (ok d) (ok e) = simp (append-nil, append_assoc)

-- `FileData.serialize_into` is the inherited one where no field is `None`.
pub serialize_file_data_lem :
    (platform : Platform) (a b c d e : Value)
    → a ≢ null
    → b ≢ null
    → c ≢ null
    → d ≢ null
    → e ≢ null
    → serialize_file_data platform (obj (cons a (cons b (cons c (cons d (cons e nil))))))
      ≡ serialize_into platform
          (dataclass file_data_fields)
          (obj (cons a (cons b (cons c (cons d (cons e nil))))))
unfolding serialize_file_data serialize_into
serialize_file_data_lem platform a b c d e ha hb hc hd he =
    simp
      (
        plain_value,
        unless_some _ a ha,
        unless_some _ b hb,
        unless_some _ c hc,
        unless_some _ d hd,
        unless_some _ e he,
      )
      (nested _ _ _ _ _)
