-- ===== src/Protocol/Dataclass.antt =====
-- `ProtocolDataclass` of protocol/primitives.py: a class's fields drive both directions. The
-- classes `Attribute`, `FileData` and `DirectoryData` bring serialisers of their own.
pub mod Fits
pub mod Lookup
pub mod Classes
pub mod RoundTrip
use aioslsk.Base.{ℕ, ◌+◌, Bool, true, false, not, ltb, ◌==◌, if◌then◌else◌}
use aioslsk.Base.{Option, none, some, List, [], ◌∷◌, ◌++◌, length, take, drop}
use aioslsk.Base.Result.{Result, ok, err, or_raise, ◌>>=◌}
use aioslsk.Base.Result.{struct_error, key_error, attribute_error, type_error, conversion}
use aioslsk.Protocol.Struct.{from_le}
use aioslsk.Protocol.Value.{pos, Uint, uint8, uint32, uint64, truthy, Meta, Fields, end, field}
use aioslsk.Protocol.Value.{Value, null, int, bool, str, bytes, list, obj, Values, nil, cons}
use aioslsk.Protocol.Value.{Ty, uint, int32, string, bytearr, ipaddr, boolean, peer_init_ticket}
use aioslsk.Protocol.Value.{attribute, file_data, directory_data, array, dataclass}
use aioslsk.Protocol.Platform.{Platform}
use aioslsk.Protocol.Primitives.{
  serialize_uint, deserialize_uint, serialize_int32, deserialize_int32, serialize_boolean,
  deserialize_boolean, serialize_bytearr, deserialize_bytearr, serialize_array, deserialize_array,
  serialize_string, deserialize_string, serialize_ipaddr, deserialize_ipaddr, deserialize_ticket,
}
use Prim.Native.String.{String}
use text.Mathlib.Text.{◌==◌ as str_eq}

-- The attributes of an object, or a dict, by name.
abbrev pub Dict : Type 0
Dict = List (String × Value)

unfoldable pub lookup : String → Dict → Option Value
lookup name [] = none
lookup name ((key, v) ∷ d) = if str_eq key name then some v else lookup name d

-- `Attribute`: two uint32 read at once by the format `<II`.
unfoldable pub serialize_attribute : Value → Result (List ℕ)
serialize_attribute (obj (cons key (cons value nil))) = do
  a ← serialize_uint uint32 key
  b ← serialize_uint uint32 value
  ok (a ++ b)
serialize_attribute _ = err conversion

unfoldable pub deserialize_attribute : ℕ → List ℕ → Result (ℕ × Value)
deserialize_attribute p message =
    let w = take 8 (drop p message) in
    if length w == 8
    then ok (
      p + 8,
      obj (cons (int (pos (from_le (take 4 w)))) (cons (int (pos (from_le (drop 4 w)))) nil)),
    )
    else err struct_error

-- `_get_value_for_field`, with `env` the attributes of the object; `null` is not written.
unfoldable pub conditional_value : Dict → Meta → Value → Result Value
conditional_value env m v = elim m.if_true [
  | some other ↦ do
    o ← or_raise (lookup other env) attribute_error
    ok (if truthy o then v else null)
  | none ↦ elim m.if_false [
    | some other ↦ do
      o ← or_raise (lookup other env) attribute_error
      ok (if truthy o then null else v)
    | none ↦ ok v
  ]
]

unfoldable pub get_value_for_field : Dict → Meta → Value → Result Value
unfolding conditional_value
get_value_for_field env m null = if m.optional then ok null else conditional_value env m null
get_value_for_field env m v = conditional_value env m v

-- `_field_needs_deserialization`, with `field_map` the fields that were read so far.
unfoldable pub holds_if : Bool → Option String → Dict → Result Bool
holds_if wanted none field_map = ok true
holds_if wanted (some other) field_map = do
  o ← or_raise (lookup other field_map) key_error
  ok (if wanted then truthy o else not (truthy o))

unfoldable pub field_needs_deserialization : Meta → Dict → ℕ → List ℕ → Result Bool
unfolding holds_if
field_needs_deserialization m field_map p message = do
  a ← holds_if true m.if_true field_map
  elim a [
    | true ↦ do
      b ← holds_if false m.if_false field_map
      ok (if b then (if m.optional then ltb p (length message) else true) else false)
    | false ↦ ok false
  ]

-- `cls(**field_map)`: a field that was not read takes its default, or is missing.
unfoldable pub construct : Fields → List (Option Value) → Result Values
construct end found = ok nil
construct (field name t m fs) [] = err type_error
construct (field name t m fs) (some v ∷ found) = do vs ← construct fs found; ok (cons v vs)
construct (field name t m fs) (none ∷ found) = do
  v ← or_raise m.default type_error
  vs ← construct fs found
  ok (cons v vs)

-- The attributes of an object by name.
unfoldable pub attributes : Fields → Values → Dict
attributes end vs = []
attributes (field name t m fs) nil = []
attributes (field name t m fs) (cons v vs) = (name, v) ∷ attributes fs vs

-- `if value is None: continue`.
abbrev pub unless_none : (Value → Result (List ℕ)) → Value → Result (List ℕ)
unless_none write null = ok []
unless_none write v = write v

module _ (platform : Platform) where
  -- `FileData.serialize_into` and `FileData.deserialize`.
  unfoldable pub serialize_file_data : Value → Result (List ℕ)
  serialize_file_data
        (obj (cons unknown (cons filename (cons filesize (cons extension (cons attrs nil)))))) =
      do
        a ← serialize_uint uint8 unknown
        b ← serialize_string platform filename
        c ← serialize_uint uint64 filesize
        d ← serialize_string platform extension
        e ← serialize_array serialize_attribute attrs
        ok (a ++ b ++ c ++ d ++ e)
  serialize_file_data _ = err conversion

  unfoldable pub deserialize_file_data : ℕ → List ℕ → Result (ℕ × Value)
  deserialize_file_data p message = do
    (p1, unknown) ← deserialize_uint uint8 p message
    (p2, filename) ← deserialize_string platform p1 message
    (p3, filesize) ← deserialize_uint uint64 p2 message
    (p4, ext) ← deserialize_string platform p3 message
    (p5, attrs) ← deserialize_array deserialize_attribute p4 message
    ok (p5, obj (cons unknown (cons filename (cons filesize (cons ext (cons attrs nil))))))

  -- `DirectoryData.deserialize`; its `serialize_into` is the inherited one.
  unfoldable pub deserialize_directory_data : ℕ → List ℕ → Result (ℕ × Value)
  unfolding deserialize_file_data
  deserialize_directory_data p message = do
    (p1, name) ← deserialize_string platform p message
    (p2, files) ← deserialize_array deserialize_file_data p1 message
    ok (p2, obj (cons name (cons files nil)))

  unfoldable pub serialize_directory_data : Value → Result (List ℕ)
  unfolding serialize_file_data
  serialize_directory_data (obj (cons name (cons files nil))) = do
    a ← unless_none (serialize_string platform) name
    b ← unless_none (serialize_array serialize_file_data) files
    ok (a ++ b)
  serialize_directory_data _ = err conversion

  -- `serialize_into` of a field's type, and of a dataclass field by field.
  unfoldable mutual
    pub serialize_into : Ty → Value → Result (List ℕ)
    serialize_into (uint k) v = serialize_uint k v
    serialize_into int32 v = serialize_int32 v
    serialize_into string v = serialize_string platform v
    serialize_into bytearr v = serialize_bytearr v
    serialize_into ipaddr v = serialize_ipaddr platform v
    serialize_into boolean v = serialize_boolean v
    serialize_into peer_init_ticket v = serialize_uint uint32 v
    serialize_into attribute v = serialize_attribute v
    serialize_into file_data v = serialize_file_data v
    serialize_into directory_data v = serialize_directory_data v
    serialize_into (array t) v = serialize_array (serialize_into t) v
    serialize_into (dataclass fs) v = elim v [
      | obj vs ↦ serialize_fields fs (attributes fs vs) vs
      | _ ↦ err conversion
    ]

    pub serialize_fields : Fields → Dict → Values → Result (List ℕ)
    serialize_fields end env vs = ok []
    serialize_fields (field name t m fs) env nil = err attribute_error
    serialize_fields (field name t m fs) env (cons v vs) = do
      v' ← get_value_for_field env m v
      b ← unless_none (serialize_into t) v'
      bs ← serialize_fields fs env vs
      ok (b ++ bs)

  -- `deserialize` of a field's type, and the loop over a dataclass's fields: it returns for each
  -- field the value that was read, if any.
  unfoldable mutual
    pub deserialize : Ty → ℕ → List ℕ → Result (ℕ × Value)
    deserialize (uint k) p message = deserialize_uint k p message
    deserialize int32 p message = deserialize_int32 p message
    deserialize string p message = deserialize_string platform p message
    deserialize bytearr p message = deserialize_bytearr p message
    deserialize ipaddr p message = deserialize_ipaddr platform p message
    deserialize boolean p message = deserialize_boolean p message
    deserialize peer_init_ticket p message = deserialize_ticket p message
    deserialize attribute p message = deserialize_attribute p message
    deserialize file_data p message = deserialize_file_data p message
    deserialize directory_data p message = deserialize_directory_data p message
    deserialize (array t) p message = deserialize_array (deserialize t) p message
    deserialize (dataclass fs) p message = do
      (p', found) ← deserialize_fields fs [] p message
      vs ← construct fs found
      ok (p', obj vs)

    pub deserialize_fields : Fields → Dict → ℕ → List ℕ → Result (ℕ × List (Option Value))
    deserialize_fields end field_map p message = ok (p, [])
    deserialize_fields (field name t m fs) field_map p message = do
      needs ← field_needs_deserialization m field_map p message
      elim needs [
        | true ↦ do
          (p', v) ← deserialize t p message
          (p'', found) ← deserialize_fields fs ((name, v) ∷ field_map) p' message
          ok (p'', some v ∷ found)
        | false ↦ do
          (p'', found) ← deserialize_fields fs field_map p message
          ok (p'', none ∷ found)
      ]
