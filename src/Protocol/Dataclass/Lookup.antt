-- ===== src/Protocol/Dataclass/Lookup.antt =====
-- What the two directions find out about a field's conditions.
use aioslsk.Base.{ℕ, ◌≡◌, refl, arith, Bool, true, false, not, ◌&&◌, ltb, if◌then◌else◌}
use aioslsk.Base.{Option, none, some, List, ◌∷◌, length, inl, inr, Bool-cases, ◌⊎◌}
use aioslsk.Base.Result.{ok}
use aioslsk.Protocol.Value.{Value, null, Values, cons}
use aioslsk.Protocol.Value.{Meta, Fields, field, Ty}
use aioslsk.Protocol.Dataclass.{
  Dict, lookup, conditional_value, get_value_for_field, field_needs_deserialization, attributes,
}
use aioslsk.Protocol.Dataclass.Fits.{active, member, names, unconditional, meta_ok}
use Prim.Native.String.{String}
use text.Mathlib.Text.{◌==◌ as str_eq}
use text.Mathlib.TextEquality.{eq_iff}
use text.Mathlib.TextPositions.{eq_refl}

Option-cases {ℓ} : {A : Type ℓ} (o : Option A) → ((a : A) × (o ≡ some a)) ⊎ (o ≡ none)
Option-cases none = inr refl
Option-cases (some a) = inl (a, refl)

conditional_value-active :
    (env : Dict) (m : Meta) (v : Value)
    → active env m ≡ some true
    → conditional_value env m v ≡ ok v
unfolding active conditional_value
conditional_value-active env m v h = ground arith

conditional_value-inactive :
    (env : Dict) (m : Meta) (v : Value)
    → active env m ≡ some false
    → conditional_value env m v ≡ ok null
unfolding active conditional_value
conditional_value-inactive env m v h = ground arith

pub value_of_active :
    (env : Dict) (m : Meta) (v : Value)
    → active env m ≡ some true
    → get_value_for_field env m v ≡ ok v
unfolding get_value_for_field
value_of_active env m null h = ground (arith, conditional_value-active env m null)
value_of_active env m v h = conditional_value-active env m v h

pub value_of_inactive :
    (env : Dict) (m : Meta) (v : Value)
    → active env m ≡ some false
    → get_value_for_field env m v ≡ ok null
unfolding get_value_for_field
value_of_inactive env m null h = ground (arith, conditional_value-inactive env m null)
value_of_inactive env m v h = conditional_value-inactive env m v h

-- The fields that were read agree with the object on the names in `seen`.
abbrev pub Agrees : List String → Dict → Dict → Type 0
Agrees seen field_map env = (n : String) → member n seen ≡ true → lookup n field_map ≡ lookup n env

-- Reading decides as writing did, and an optional field asks whether the message goes on.
pub needs_of_active :
    (seen : List String) (field_map env : Dict) (m : Meta) (b : Bool) (p : ℕ) (message : List ℕ)
    → meta_ok seen m ≡ true
    → Agrees seen field_map env
    → active env m ≡ some b
    → field_needs_deserialization m field_map p message
      ≡ ok (b && (if m.optional then ltb p (length message) else true))
unfolding meta_ok field_needs_deserialization active
needs_of_active seen field_map env m b p message k agrees h = elim (Option-cases m.if_true) [
  | inl (other, e) ↦ ground (arith, e, agrees other)
  | inr e ↦ elim (Option-cases m.if_false) [
    | inl (other, e') ↦ ground (arith, e, e', agrees other)
    | inr e' ↦ ground (arith, e, e')
  ]
]

-- The attributes of the object by name, from some field on.
abbrev pub Located : Fields → Dict → Values → Type 0
Located fs env vs =
    (n : String) → member n (names fs) ≡ true → lookup n env ≡ lookup n (attributes fs vs)

module _ (name : String) (t : Ty) (m : Meta) (fs : Fields) (env : Dict) (v : Value) (vs : Values)
    (at : Located (field name t m fs) env (cons v vs)) where
  pub Located-head : lookup name env ≡ some v
  unfolding member names lookup attributes
  Located-head = ground (arith, at name, eq_refl name)

  pub Located-tail : not (member name (names fs)) ≡ true → Located fs env vs
  unfolding member names lookup attributes
  Located-tail fresh n h = elim (Bool-cases (str_eq name n)) [
    | inl same ↦ ground (arith, (eq_iff name n).0 same, at n)
    | inr other ↦ ground (arith, at n)
  ]

  -- A field that was read joins the dict.
  pub Agrees-read :
      (seen : List String) (field_map : Dict)
      → Agrees seen field_map env
      → Agrees (if unconditional m then name ∷ seen else seen) ((name, v) ∷ field_map) env
  unfolding lookup member
  Agrees-read seen field_map agrees n h = elim (Bool-cases (str_eq name n)) [
    | inl same ↦ ground (arith, (eq_iff name n).0 same, Located-head)
    | inr other ↦ ground (arith, agrees n)
  ]

-- A field that can be skipped adds no name to rely on.
pub skipped_unconditional :
    (env : Dict) (m : Meta)
    → (active env m ≡ some false) ⊎ (m.optional ≡ true)
    → unconditional m ≡ false
unfolding active unconditional
skipped_unconditional env m h = ground arith
