-- ===== src/Protocol/Message/RoundTrip.antt =====
-- Messages are read back by the class that the dispatch finds.
use aioslsk.Base.{ℕ, zero, suc, ◌+◌, ◌/◌, ◌^◌, ◌-◌, ◌<◌, ◌≡◌, refl, sym, ◌∙◌, arith}
use aioslsk.Base.{
  Bool, true, false, not, ◌&&◌, ◌||◌, ltb, ltb→lt, ◌==◌, ==→eq, ==_self, if◌then◌else◌,
}
use aioslsk.Base.{
  some, List, [], ◌∷◌, ◌++◌, length, drop, any, all, get_elem?, inl, inr, ◌⊎◌, Bool-cases, &&-true,
}
use aioslsk.Base.Result.{ok}
use aioslsk.Protocol.Struct.{to_le, length-to_le, pack-ok, drop_after}
use aioslsk.Protocol.Value.{Uint, uint8, uint16, uint32, uint64, size, Values}
use aioslsk.Protocol.Platform.{Platform, Laws}
use aioslsk.Protocol.Primitives.{read_uint}
use aioslsk.Protocol.Primitives.RoundTrip.{read_uint-to_le}
use aioslsk.Protocol.Dataclass.{attributes}
use aioslsk.Protocol.Dataclass.Fits.{FitsFields, fields_ok, member}
use aioslsk.Protocol.Dataclass.RoundTrip.{FieldsRound, object_fields_round}
use aioslsk.Protocol.Message.{
  MessageClass, contents, serialize_message, deserialize_object, deserialize_contents,
  deserialize_message, find_class, deserialize_with,
}
use mathlib.Core.List.{append-nil}

-- What a message class must provide: its id fits its type, and its fields can be read back.
unfoldable pub class_ok : MessageClass → Bool
class_ok c = ltb c.id (256 ^ size c.id_type) && fields_ok c.fields []

-- The values fit the annotations of the class, and the message is not too long for its header.
pub record FitsMessage (platform : Platform) (c : MessageClass) (vs : Values) : Type 0 where
  pub fits : FitsFields platform true true c.fields (attributes c.fields vs) vs
  pub short :
      (message : List ℕ)
      → contents platform c vs ≡ ok message
      → size c.id_type + length message < 2 ^ 32

module _ (platform : Platform) (laws : Laws platform) (c : MessageClass) (vs : Values)
    (good : class_ok c ≡ true) (fit : FitsMessage platform c vs) where
  round : FieldsRound platform true true c.fields [] (attributes c.fields vs) vs
  unfolding class_ok
  round = object_fields_round platform laws c.fields vs (&&-true _ _ good).1 fit.fits

  id_fits : c.id < 256 ^ size c.id_type
  unfolding class_ok
  id_fits = ltb→lt _ _ (&&-true _ _ good).0

  object_round :
      (p : ℕ) (message : List ℕ)
      → drop p message ≡ round.image
      → deserialize_object platform c.fields p message ≡ ok (p + length round.image, vs)
  unfolding deserialize_object member
  object_round p message e = rw (
    round.reads [] (λ n h. cc) p message [] (e ∙ sym (append-nil round.image)) (λ _. refl),
    round.builds,
  )

  payload : List ℕ
  payload = if c.compressed then platform.compress round.image else round.image

  contents-eq : contents platform c vs ≡ ok payload
  unfolding contents payload
  contents-eq = rw round.writes

  -- The bytes of the message: its length, its id and its contents.
  pub image : List ℕ
  image = to_le 4 (size c.id_type + length payload) ++ (to_le (size c.id_type) c.id ++ payload)

  pub writes : serialize_message platform c vs ≡ ok image
  unfolding serialize_message image
  writes = rw (
    pack-ok (size c.id_type) c.id id_fits,
    contents-eq,
    length-to_le (size c.id_type) c.id,
    pack-ok 4 (size c.id_type + length payload) (fit.short payload contents-eq),
  )

  header_read : read_uint uint32 0 image ≡ ok (4, size c.id_type + length payload)
  unfolding image
  header_read =
      read_uint-to_le uint32 (size c.id_type + length payload) 0 image _
        (fit.short payload contents-eq) refl

  behind_header : drop 4 image ≡ to_le (size c.id_type) c.id ++ payload
  unfolding image
  behind_header =
      rw (length-to_le 4 (size c.id_type + length payload)) at
        (drop_after 0 image (to_le 4 (size c.id_type + length payload)) _ refl)

  behind_id : drop (4 + size c.id_type) image ≡ payload
  behind_id =
      rw (length-to_le (size c.id_type) c.id) at
        (drop_after 4 image (to_le (size c.id_type) c.id) payload behind_header)

  id_read : read_uint c.id_type 4 image ≡ ok (4 + size c.id_type, c.id)
  id_read = read_uint-to_le c.id_type c.id 4 image payload id_fits behind_header

  contents_read : deserialize_contents platform c (4 + size c.id_type) image ≡ ok vs
  unfolding deserialize_contents
  contents_read = elim (Bool-cases c.compressed) [
    | inl packed ↦
        let whole : drop (4 + size c.id_type) image ≡ platform.compress round.image =
          behind_id ∙ unfold payload in rw packed in
        rw packed
          (rw (whole, laws.decompress-compress round.image) (rw (object_round 0 round.image refl)))
    | inr plain ↦
        let whole : drop (4 + size c.id_type) image ≡ round.image =
          behind_id ∙ unfold payload in rw plain in
        rw plain (rw (object_round (4 + size c.id_type) image whole))
  ]

  pub reads : deserialize_message platform c 0 image ≡ ok vs
  unfolding deserialize_message
  reads = rw header_read (rw id_read (rw (==_self c.id) contents_read))

-- Whether the dispatch, which reads an id of type `header`, can see the id of the class.
unfoldable pub visible : Uint → MessageClass → Bool
visible header c = (size header == size c.id_type) || (size header == 1 && ltb c.id 256)

unfoldable pub distinct : List MessageClass → Bool
distinct [] = true
distinct (c ∷ cs) = not (any (λ d. d.id == c.id) cs) && distinct cs

-- What a list of classes must provide for the dispatch to be unambiguous.
unfoldable pub registry_ok : Uint → List MessageClass → Bool
unfolding class_ok visible distinct
registry_ok header classes = all (λ c. class_ok c && visible header c) classes && distinct classes

all-get_elem? :
    {A : Type 0} (test : A → Bool) (xs : List A) (i : ℕ) (x : A)
    → all test xs ≡ true
    → get_elem? xs i ≡ some x
    → test x ≡ true
all-get_elem? test [] i x h e = cc
all-get_elem? test (y ∷ ys) zero x h e = ground (arith, &&-true (test y) (all test ys))
all-get_elem? test (y ∷ ys) (suc i) x h e =
    all-get_elem? test ys i x (&&-true (test y) (all test ys) h).1 e

not_any :
    (cs : List MessageClass) (n i : ℕ) (c : MessageClass)
    → any (λ d. d.id == n) cs ≡ false
    → get_elem? cs i ≡ some c
    → (c.id == n) ≡ false
not_any [] n i c h e = cc
not_any (d ∷ ds) n zero c h e = ground arith
not_any (d ∷ ds) n (suc i) c h e = not_any ds n i c (ground arith) e

find_class-get_elem? :
    (cs : List MessageClass) (i : ℕ) (c : MessageClass)
    → distinct cs ≡ true
    → get_elem? cs i ≡ some c
    → find_class c.id cs ≡ some c
unfolding find_class distinct
find_class-get_elem? [] i c h e = cc
find_class-get_elem? (d ∷ ds) zero c h e = let same : d ≡ c = cc in rw (← same) (rw (==_self d.id))
find_class-get_elem? (d ∷ ds) (suc i) c h e =
    let (fresh, rest) = &&-true (not (any (λ x. x.id == d.id) ds)) (distinct ds) h in
    let other : (c.id == d.id) ≡ false = not_any ds d.id i c (ground arith) e in
    let other' : (d.id == c.id) ≡ false = ground arith in
    rw other' (find_class-get_elem? ds i c rest e)

low_byte :
    (k : Uint) (n : ℕ) (rest : List ℕ)
    → to_le (size k) n ++ rest ≡ to_le 1 n ++ (to_le (size k - 1) (n / 256) ++ rest)
unfolding to_le
low_byte uint8 n rest = refl
low_byte uint16 n rest = refl
low_byte uint32 n rest = refl
low_byte uint64 n rest = refl

-- What the dispatch reads behind the length is the class's id.
dispatch_read :
    (header k : Uint) (n : ℕ) (message rest : List ℕ)
    → n < 256 ^ size k
    → (size header ≡ size k) ⊎ ((size header ≡ 1) × (n < 256))
    → drop 4 message ≡ to_le (size k) n ++ rest
    → read_uint header 4 message ≡ ok (4 + size header, n)
dispatch_read header k n message rest fits (inl same) e =
    read_uint-to_le header n 4 message rest (rw same fits) (rw same e)
dispatch_read header k n message rest fits (inr (one, low)) e =
    read_uint-to_le header n 4 message (to_le (size k - 1) (n / 256) ++ rest) (rw one low)
      (rw one (e ∙ low_byte k n rest))

visible_sound :
    (header : Uint) (c : MessageClass)
    → visible header c ≡ true
    → (size header ≡ size c.id_type) ⊎ ((size header ≡ 1) × (c.id < 256))
unfolding visible
visible_sound header c h =
    ground (arith, ==→eq (size header) (size c.id_type), ==→eq (size header) 1, ltb→lt c.id 256)

module _ (platform : Platform) (laws : Laws platform) where
  pub deserialize_with-serialize_message :
      (header : Uint) (classes : List MessageClass) (i : ℕ) (c : MessageClass) (vs : Values)
      → registry_ok header classes ≡ true
      → get_elem? classes i ≡ some c
      → FitsMessage platform c vs
      → (b : List ℕ) × (serialize_message platform c vs ≡ ok b)
        × (deserialize_with platform header classes b ≡ ok (c, vs))
  unfolding deserialize_with registry_ok
  deserialize_with-serialize_message header classes i c vs good at fit =
      let (each, apart) = &&-true _ _ good in
      let (fine, seen) =
        &&-true _ _ (all-get_elem? (λ d. class_ok d && visible header d) classes i c each at) in
      let b = image platform laws c vs fine fit in
      let found : read_uint header 4 b ≡ ok (4 + size header, c.id) =
        dispatch_read header c.id_type c.id b (payload platform laws c vs fine fit)
          (id_fits platform laws c vs fine fit) (visible_sound header c seen)
          (behind_header platform laws c vs fine fit) in
      (
        b,
        writes platform laws c vs fine fit,
        rw found (
            rw (find_class-get_elem? classes i c apart at)
              (rw (reads platform laws c vs fine fit))),
      )
