-- ===== src/Protocol/Dataclass/Fits.antt =====
-- When a value fits the annotations of protocol/primitives.py, and when a class's fields are in
-- an order that can be read back.
use aioslsk.Base.{ℕ, ◌^◌, ◌<◌, ◌≡◌, Bool, true, false, not, ◌&&◌, Option, none, some, List, [], ◌∷◌}
use aioslsk.Base.{length, if◌then◌else◌}
use aioslsk.Protocol.Value.{pos, negsuc, Uint, size, truthy, count, Meta, Fields, end, field}
use aioslsk.Protocol.Value.{Value, null, int, bool, str, bytes, list, obj, Values, nil, cons}
use aioslsk.Protocol.Value.{Ty, uint, int32, string, bytearr, ipaddr, boolean, peer_init_ticket}
use aioslsk.Protocol.Value.{attribute, file_data, directory_data, array, dataclass}
use aioslsk.Protocol.Platform.{Platform}
use aioslsk.Protocol.Dataclass.{Dict, lookup, attributes}
use mathlib.Core.Option
use Prim.Native.String.{String}
use text.Mathlib.Text.{◌==◌ as str_eq}

-- Whether the conditions of a field hold for an object with attributes `env`.
unfoldable pub active : Dict → Meta → Option Bool
active env m = elim m.if_true [
  | some other ↦ Option.map truthy (lookup other env)
  | none ↦ elim m.if_false [
    | some other ↦ Option.map (λ v. not (truthy v)) (lookup other env)
    | none ↦ some true
  ]
]

-- `last` says that nothing follows the value in the message. Among fields, `more` says that a
-- field may still be written: once an optional field is left out, none is.
module _ (platform : Platform) where
  open platform use {encode_utf8, inet_aton, inet_ntoa}

  mutual
    pub data Fits : Bool → Ty → Value → Type 0 where
      fits_uint : {l : Bool} {k : Uint} (n : ℕ) → n < 256 ^ size k → Fits l (uint k) (int (pos n))
      fits_pos : {l : Bool} (n : ℕ) → n < 2 ^ 31 → Fits l int32 (int (pos n))
      fits_negsuc : {l : Bool} (n : ℕ) → n < 2 ^ 31 → Fits l int32 (int (negsuc n))
      fits_string :
          {l : Bool} (s b : List ℕ)
          → encode_utf8 s ≡ some b
          → length b < 2 ^ 32
          → Fits l string (str s)
      fits_bytearr : {l : Bool} (b : List ℕ) → length b < 2 ^ 32 → Fits l bytearr (bytes b)
      fits_ipaddr :
          {l : Bool} (s b : List ℕ)
          → inet_aton s ≡ some b
          → inet_ntoa b ≡ some s
          → length b ≡ 4
          → Fits l ipaddr (str s)
      fits_boolean : {l : Bool} (b : Bool) → Fits l boolean (bool b)
      fits_ticket :
          {l : Bool} (n : ℕ) → l ≡ true → n < 2 ^ 32 → Fits l peer_init_ticket (int (pos n))
      fits_attribute :
          {l : Bool} (k v : ℕ)
          → k < 2 ^ 32
          → v < 2 ^ 32
          → Fits l attribute (obj (cons (int (pos k)) (cons (int (pos v)) nil)))
      fits_file_data :
          {l : Bool} {a b c d e : Value}
          → Fits false (uint Uint.uint8) a
          → Fits false string b
          → Fits false (uint Uint.uint64) c
          → Fits false string d
          → Fits false (array attribute) e
          → Fits l file_data (obj (cons a (cons b (cons c (cons d (cons e nil))))))
      fits_directory_data :
          {l : Bool} {a b : Value}
          → Fits false string a
          → Fits false (array file_data) b
          → Fits l directory_data (obj (cons a (cons b nil)))
      fits_array :
          {l : Bool} {t : Ty} (vs : Values)
          → count vs < 2 ^ 32
          → FitsAll t vs
          → Fits l (array t) (list vs)
      fits_dataclass :
          {l : Bool} {fs : Fields} (vs : Values)
          → FitsFields l true fs (attributes fs vs) vs
          → Fits l (dataclass fs) (obj vs)

    pub data FitsAll : Ty → Values → Type 0 where
      fits_nil : {t : Ty} → FitsAll t nil
      fits_cons :
          {t : Ty} {v : Value} {vs : Values} → Fits false t v → FitsAll t vs → FitsAll t (cons v vs)

    pub data FitsFields : Bool → Bool → Fields → Dict → Values → Type 0 where
      fits_end : {l more : Bool} {env : Dict} → FitsFields l more end env nil
      present :
          {l l' more more' : Bool} {name : String} {t : Ty} {m : Meta} {fs : Fields} {env : Dict}
          {v : Value} {vs : Values}
          → more ≡ true
          → (l' ≡ true → (l ≡ true) × (more' ≡ false))
          → active env m ≡ some true
          → Fits l' t v
          → FitsFields l more' fs env vs
          → FitsFields l more (field name t m fs) env (cons v vs)
      inactive :
          {l more : Bool} {name : String} {t : Ty} {m : Meta} {fs : Fields} {env : Dict} {v : Value}
          {vs : Values}
          → active env m ≡ some false
          → m.default ≡ some v
          → FitsFields l more fs env vs
          → FitsFields l more (field name t m fs) env (cons v vs)
      omitted :
          {l more more' : Bool} {name : String} {t : Ty} {m : Meta} {fs : Fields} {env : Dict}
          {vs : Values}
          → l ≡ true
          → more' ≡ false
          → active env m ≡ some true
          → m.optional ≡ true
          → m.default ≡ some null
          → FitsFields l more' fs env vs
          → FitsFields l more (field name t m fs) env (cons null vs)

unfoldable pub member : String → List String → Bool
member n [] = false
member n (k ∷ ks) = if str_eq k n then true else member n ks

unfoldable pub names : Fields → List String
names end = []
names (field name t m fs) = name ∷ names fs

-- A field that is written and read whatever the other fields hold.
unfoldable pub unconditional : Meta → Bool
unconditional m = elim m.if_true [
  | some other ↦ false
  | none ↦ elim m.if_false [ some other ↦ false | none ↦ not m.optional ]
]

-- A condition is on a field that was read before, and there is one at most.
unfoldable pub meta_ok : List String → Meta → Bool
unfolding member
meta_ok seen m = elim m.if_true [
  | some other ↦ elim m.if_false [ some _ ↦ false | none ↦ member other seen ]
  | none ↦ elim m.if_false [ some other ↦ member other seen | none ↦ true ]
]

unfoldable pub starts_present : Fields → Bool
unfolding unconditional
starts_present end = false
starts_present (field name t m fs) = unconditional m

-- The fields of a class have different names, and every condition is on an unconditional field
-- in front; a class inside another begins with an unconditional field.
unfoldable mutual
  unfolding meta_ok names starts_present

  pub ty_ok : Ty → Bool
  ty_ok (array t) = ty_ok t
  ty_ok (dataclass fs) = starts_present fs && fields_ok fs []
  ty_ok _ = true

  pub fields_ok : Fields → List String → Bool
  fields_ok end seen = true
  fields_ok (field name t m fs) seen =
      meta_ok seen m
      && (not (member name (names fs))
          && (ty_ok t && fields_ok fs (if unconditional m then name ∷ seen else seen)))
