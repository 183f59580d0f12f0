-- ===== src/Protocol/Dataclass/RoundTrip.antt =====
-- A dataclass of protocol/primitives.py reads back every object that fits its annotations.
use aioslsk.Base.{ℕ, ◌+◌, ◌<◌, ◌≡◌, refl, ap, ◌∙◌, arith, if◌then◌else◌, ltb, lt→ltb, ltb-le}
use aioslsk.Base.{Bool, true, false, not, Option, none, some, List, [], ◌∷◌, ◌++◌, length}
use aioslsk.Base.{drop, length-append, length-drop, inl, inr, &&-true, if_same}
use aioslsk.Base.Result.{Result, ok}
use aioslsk.Protocol.Struct.{drop_after}
use aioslsk.Protocol.Value.{Meta, Fields, end, field, Value, null, obj}
use aioslsk.Protocol.Value.{Values, nil, cons}
use aioslsk.Protocol.Value.{Ty}
use aioslsk.Protocol.Value.{dataclass}
use aioslsk.Protocol.Platform.{Platform, Laws}
use aioslsk.Protocol.Primitives.RoundTrip.{
  RoundTrips, RoundTripsAll, done, more, uint_round, int32_round_pos, int32_round_neg,
  boolean_round, bytearr_round, ticket_round, array_round, string_round, ipaddr_round,
}
use aioslsk.Protocol.Dataclass.{
  Dict, attributes, field_needs_deserialization, construct, unless_none, serialize_into,
  serialize_fields, deserialize, deserialize_fields,
}
use aioslsk.Protocol.Dataclass.Fits
use aioslsk.Protocol.Dataclass.Fits.{
  Fits, FitsAll, FitsFields, active, member, names, unconditional, meta_ok, starts_present, ty_ok,
  fields_ok,
}
use aioslsk.Protocol.Dataclass.Lookup.{
  value_of_active, value_of_inactive, Agrees, needs_of_active, Located, Located-tail, Agrees-read,
  skipped_unconditional,
}
use aioslsk.Protocol.Dataclass.Classes.{attribute_round, file_data_round, directory_data_round}
use mathlib.Core.List.{append_assoc}
use Prim.Native.String.{String}

-- The fields of an object, written one after the other, are read back into `found`, from which
-- the object is built again.
pub record FieldsRound (platform : Platform) (last more : Bool) (fs : Fields) (seen : List String)
    (env : Dict) (vs : Values) : Type 0 where
  pub image : List ℕ
  pub writes : serialize_fields platform fs env vs ≡ ok image
  pub closed : more ≡ false → image ≡ []
  pub fills : starts_present fs ≡ true → 0 < length image
  pub found : List (Option Value)
  pub builds : construct fs found ≡ ok vs
  pub reads :
      (field_map : Dict)
      → Agrees seen field_map env
      → (p : ℕ) (message post : List ℕ) → drop p message ≡ image ++ post
      → (last ≡ true → post ≡ [])
      → deserialize_fields platform fs field_map p message ≡ ok (p + length image, found)

-- The parts of the check of one field.
abbrev FieldChecked : String → Ty → Meta → Fields → List String → Type 0
FieldChecked name t m fs seen =
    (meta_ok seen m ≡ true)
    × (not (member name (names fs)) ≡ true)
    × (ty_ok t ≡ true)
    × (fields_ok fs (if unconditional m then name ∷ seen else seen) ≡ true)

field_checked :
    (name : String) (t : Ty) (m : Meta) (fs : Fields) (seen : List String)
    → fields_ok (field name t m fs) seen ≡ true
    → FieldChecked name t m fs seen
unfolding fields_ok
field_checked name t m fs seen h =
    let (a, h') = &&-true _ _ h in
    let (b, h'') = &&-true _ _ h' in let (c, d) = &&-true _ _ h'' in (a, b, c, d)

goes_on :
    (p : ℕ) (message b post : List ℕ)
    → drop p message ≡ b ++ post
    → 0 < length b
    → p < length message
goes_on p message b post e h =
    omega (arith, ap length e, length-append b post, length-drop p message)

module _ (platform : Platform) (name : String) (t : Ty) (m : Meta) (fs : Fields)
    (seen : List String) (env : Dict) (v : Value) (vs : Values) {last more : Bool}
    (checked : FieldChecked name t m fs seen)
    (at : Located (field name t m fs) env (cons v vs)) where
  -- A field that is written.
  present_round :
      {l' more' : Bool}
      → more ≡ true
      → (l' ≡ true → (last ≡ true) × (more' ≡ false))
      → active env m ≡ some true
      → unless_none (serialize_into platform t) v ≡ serialize_into platform t v
      → RoundTrips (serialize_into platform t v) (deserialize platform t) l' v
      → FieldsRound platform last more' fs (if unconditional m then name ∷ seen else seen) env vs
      → FieldsRound platform last more (field name t m fs) seen env (cons v vs)
  unfolding serialize_fields deserialize_fields construct
  present_round {l'} {more'} open_ ends on some_v r rest = record {
    image = r.image ++ rest.image;
    writes = rw (value_of_active env m v on, some_v, r.writes, rest.writes);
    closed = λ h. cc;
    fills = λ _. omega (arith, length-append r.image rest.image, r.fills);
    found = some v ∷ rest.found;
    builds = rw rest.builds;
    reads = λ field_map agrees p message post e last_post.
        let e' : drop p message ≡ r.image ++ (rest.image ++ post) =
          e ∙ append_assoc r.image rest.image post in
        let goes : ltb p (length message) ≡ true =
          lt→ltb _ _ (goes_on p message r.image (rest.image ++ post) e' r.fills) in
        let needs : field_needs_deserialization m field_map p message ≡ ok true =
          needs_of_active seen field_map env m true p message checked.0 agrees on
          ∙ rw goes (ap ok (if_same m.optional true)) in
        let end_post : l' ≡ true → rest.image ++ post ≡ [] =
          λ h. rw (rest.closed (ends h).1) (last_post (ends h).0) in
        rw needs (
          rw (r.reads p message (rest.image ++ post) e' end_post) (
            rw
              (rest.reads ((name, v) ∷ field_map)
                (Agrees-read name t m fs env v vs at seen field_map agrees) (p + length r.image)
                message post (drop_after p message r.image (rest.image ++ post) e') last_post)
              (ap (λ (q : ℕ). ok (q, some v ∷ rest.found))
                (omega (arith, length-append r.image rest.image)))));
  }

  -- A field whose condition fails: it keeps its default.
  inactive_round :
      active env m ≡ some false
      → m.default ≡ some v
      → FieldsRound platform last more fs seen env vs
      → FieldsRound platform last more (field name t m fs) seen env (cons v vs)
  unfolding serialize_fields deserialize_fields construct starts_present
  inactive_round off kept rest = record {
    image = rest.image;
    writes = rw (value_of_inactive env m v off, rest.writes);
    closed = rest.closed;
    fills = λ h. cc (skipped_unconditional env m (inl off));
    found = none ∷ rest.found;
    builds = rw (kept, rest.builds);
    reads = λ field_map agrees p message post e last_post.
        rw (needs_of_active seen field_map env m false p message checked.0 agrees off)
          (rw (rest.reads field_map agrees p message post e last_post));
  }

-- An optional field that is left out, with all behind it, where the message ends.
omitted_round :
    (platform : Platform) (name : String) (t : Ty) (m : Meta) (fs : Fields) (seen : List String)
    (env : Dict) (vs : Values) {last more more' : Bool}
    → FieldChecked name t m fs seen
    → last ≡ true
    → more' ≡ false
    → active env m ≡ some true
    → m.optional ≡ true
    → m.default ≡ some null
    → FieldsRound platform last more' fs seen env vs
    → FieldsRound platform last more (field name t m fs) seen env (cons null vs)
unfolding serialize_fields deserialize_fields construct starts_present
omitted_round platform name t m fs seen env vs checked ends shut on opt kept rest = record {
  image = rest.image;
  writes = rw (value_of_active env m null on, rest.writes);
  closed = λ _. rest.closed shut;
  fills = λ h. cc (skipped_unconditional env m (inr opt));
  found = none ∷ rest.found;
  builds = rw (kept, rest.builds);
  reads = λ field_map agrees p message post e last_post.
      let nothing : drop p message ≡ [] = e ∙ rw (rest.closed shut) (last_post ends) in
      let stops : ltb p (length message) ≡ false =
        ltb-le _ _ (omega (arith, ap length nothing, length-drop p message)) in
      let needs : field_needs_deserialization m field_map p message ≡ ok false =
        needs_of_active seen field_map env m true p message checked.0 agrees on ∙ rw (opt, stops) in
      rw needs (rw (rest.reads field_map agrees p message post e last_post));
}

end_round :
    (platform : Platform) {last more : Bool} (seen : List String) (env : Dict)
    → FieldsRound platform last more end seen env nil
unfolding serialize_fields deserialize_fields construct starts_present
end_round platform seen env = record {
  image = [];
  writes = refl;
  closed = λ _. refl;
  fills = λ h. cc;
  found = [];
  builds = refl;
  reads = λ field_map agrees p message post e last_post. ap (λ (q : ℕ). ok (q, [])) (omega arith);
}

-- A value that fits is not `None`.
Fits-some :
    (platform : Platform) {l : Bool} {t : Ty} {v : Value} (write : Value → Result (List ℕ))
    → Fits platform l t v
    → unless_none write v ≡ write v
Fits-some platform write (Fits.fits_uint n h) = refl
Fits-some platform write (Fits.fits_pos n h) = refl
Fits-some platform write (Fits.fits_negsuc n h) = refl
Fits-some platform write (Fits.fits_string s b h k) = refl
Fits-some platform write (Fits.fits_bytearr b h) = refl
Fits-some platform write (Fits.fits_ipaddr s b h k j) = refl
Fits-some platform write (Fits.fits_boolean b) = refl
Fits-some platform write (Fits.fits_ticket n h k) = refl
Fits-some platform write (Fits.fits_attribute k v h j) = refl
Fits-some platform write (Fits.fits_file_data a b c d e) = refl
Fits-some platform write (Fits.fits_directory_data a b) = refl
Fits-some platform write (Fits.fits_array vs h k) = refl
Fits-some platform write (Fits.fits_dataclass vs h) = refl

-- What is read field by field is an object.
object_round :
    (platform : Platform) {last : Bool} (fs : Fields) (vs : Values)
    → starts_present fs ≡ true
    → FieldsRound platform last true fs [] (attributes fs vs) vs
    → RoundTrips
        (serialize_into platform (dataclass fs) (obj vs))
        (deserialize platform (dataclass fs))
        last
        (obj vs)
unfolding serialize_into deserialize member
object_round platform fs vs starts rest = record {
  image = rest.image;
  writes = rest.writes;
  fills = rest.fills starts;
  reads = λ p message post e last_post.
      rw (rest.reads [] (λ n h. cc) p message post e last_post, rest.builds);
}

module _ (platform : Platform) (laws : Laws platform) where
  mutual
    unfolding ty_ok serialize_into deserialize

    value_round :
        {l : Bool} {t : Ty} {v : Value}
        → Fits platform l t v
        → ty_ok t ≡ true
        → RoundTrips (serialize_into platform t v) (deserialize platform t) l v
    value_round (Fits.fits_uint {k} n h) c = uint_round k n h
    value_round (Fits.fits_pos n h) c = int32_round_pos n h
    value_round (Fits.fits_negsuc n h) c = int32_round_neg n h
    value_round (Fits.fits_string s b h k) c = string_round platform laws s b h k
    value_round (Fits.fits_bytearr b h) c = bytearr_round b h
    value_round (Fits.fits_ipaddr s b h k j) c = ipaddr_round platform laws s b h k j
    value_round (Fits.fits_boolean b) c = boolean_round b
    value_round (Fits.fits_ticket n e h) c = rw e (ticket_round n h)
    value_round (Fits.fits_attribute k v h j) c = attribute_round k v h j
    value_round (Fits.fits_file_data a b c d e) _ =
        file_data_round platform (value_round a refl) (value_round b refl) (value_round c refl)
          (value_round d refl) (value_round e refl)
    value_round (Fits.fits_directory_data a b) _ =
        directory_data_round platform (value_round a refl) (value_round b refl)
    value_round (Fits.fits_array {t} vs h fits) c =
        array_round (serialize_into platform t) (deserialize platform t) vs h (items_fit fits c)
    value_round (Fits.fits_dataclass {fs} vs fits) c =
        let (starts, fields) = &&-true _ _ c in
        object_round platform fs vs starts (fields_round [] fits fields (λ n h. refl))

    items_fit :
        {t : Ty} {vs : Values}
        → FitsAll platform t vs
        → ty_ok t ≡ true
        → RoundTripsAll (serialize_into platform t) (deserialize platform t) vs
    items_fit Fits.fits_nil c = done
    items_fit (Fits.fits_cons f fs) c = more (value_round f c) (items_fit fs c)

    fields_round :
        {last more : Bool} {fs : Fields} {env : Dict} {vs : Values} (seen : List String)
        → FitsFields platform last more fs env vs
        → fields_ok fs seen ≡ true
        → Located fs env vs
        → FieldsRound platform last more fs seen env vs
    fields_round seen Fits.fits_end c at = end_round platform seen _
    fields_round seen (Fits.present {name} {t} {m} {fs} {env} {v} {vs} open_ ends on fits rest) c
          at =
        let checked = field_checked name t m fs seen c in
        present_round platform name t m fs seen env v vs checked at open_ ends on
          (Fits-some platform (serialize_into platform t) fits) (value_round fits checked.2)
          (fields_round _ rest checked.3 (Located-tail name t m fs env v vs at checked.1))
    fields_round seen (Fits.inactive {name} {t} {m} {fs} {env} {v} {vs} off kept rest) c at =
        let checked = field_checked name t m fs seen c in
        inactive_round platform name t m fs seen env v vs checked at off kept (
          fields_round seen rest (rw (skipped_unconditional env m (inl off)) at checked.3)
            (Located-tail name t m fs env v vs at checked.1))
    fields_round seen (Fits.omitted {name} {t} {m} {fs} {env} {vs} ends shut on opt kept rest) c
          at =
        let checked = field_checked name t m fs seen c in
        omitted_round platform name t m fs seen env vs checked ends shut on opt kept (
          fields_round seen rest (rw (skipped_unconditional env m (inr opt)) at checked.3)
            (Located-tail name t m fs env null vs at checked.1))

  -- Every object whose values fit its class's annotations is written, and read back from the end
  -- of a message.
  pub object_fields_round :
      (fs : Fields) (vs : Values)
      → fields_ok fs [] ≡ true
      → FitsFields platform true true fs (attributes fs vs) vs
      → FieldsRound platform true true fs [] (attributes fs vs) vs
  object_fields_round fs vs checked fits = fields_round [] fits checked (λ n h. refl)
