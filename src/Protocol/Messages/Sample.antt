-- ===== src/Protocol/Messages/Sample.antt =====
-- A small platform, with ASCII text, dotted addresses and a compressor that adds a byte, and a
-- message that fits it.
use aioslsk.Base.{ℕ, ◌+◌, ◌-◌, ◌*◌, ◌/◌, ◌%◌, ◌≡◌, refl, ap, arith, if◌then◌else◌, ltb, ◌==◌}
use aioslsk.Base.{true, false, Option, none, some, List, [], ◌∷◌, ◌++◌, length, all}
use aioslsk.Base.Result.{Result, ok, err}
use aioslsk.Protocol.Struct.{pack, to_le}
use aioslsk.Protocol.Value.{uint32, end, null, bool, str, Values, nil, cons}
use aioslsk.Protocol.Platform.{Platform, Laws}
use aioslsk.Protocol.Primitives.{serialize_boolean, serialize_ipaddr, serialize_string}
use aioslsk.Protocol.Dataclass.{lookup, attributes, get_value_for_field, serialize_into}
use aioslsk.Protocol.Dataclass.Fits.{
  fits_string, fits_ipaddr, fits_boolean, fits_end, present, inactive, active,
}
use aioslsk.Protocol.Message.{MessageClass, contents}
use aioslsk.Protocol.Message.RoundTrip.{FitsMessage}
use aioslsk.Protocol.Messages.Notation.{plain}
use aioslsk.Protocol.Messages.ServerA.{login}
use Prim.Native.String.{String}
use Prim.Native.Char.{code}

abbrev pub codes : String → List ℕ
codes String.[] = []
codes (String.◌∷◌ c s) = code c ∷ codes s

abbrev pub ascii : List ℕ → Option (List ℕ)
ascii s = if all (λ c. ltb c 128) s then some s else none

abbrev pub digits : ℕ → List ℕ
digits n =
    if ltb n 10
    then (48 + n) ∷ []
    else if ltb n 100
    then (48 + n / 10) ∷ (48 + n % 10) ∷ []
    else (48 + n / 100) ∷ (48 + n / 10 % 10) ∷ (48 + n % 10) ∷ []

abbrev pub dotted : List ℕ → Option (List ℕ)
dotted (a ∷ b ∷ c ∷ d ∷ []) =
    some (digits a ++ (46 ∷ digits b) ++ (46 ∷ digits c) ++ (46 ∷ digits d))
dotted _ = none

-- The numbers between the dots, the current one in `n`.
abbrev pub undotted : ℕ → List ℕ → List ℕ
undotted n [] = n ∷ []
undotted n (c ∷ s) =
    let a = n ∷ undotted 0 s in let b = undotted (10 * n + (c - 48)) s in if c == 46 then a else b

abbrev pub unpacked : List ℕ → Option (List ℕ)
unpacked [] = none
unpacked (c ∷ s) = some s

abbrev pub small : Platform
small = record {
  encode_utf8 = ascii;
  decode_utf8 = ascii;
  decode_cp1252 = some;
  inet_aton = λ s. some (undotted 0 s);
  inet_ntoa = dotted;
  compress = λ s. 120 ∷ s;
  decompress = unpacked;
}

pub ascii_twice : (s b : List ℕ) → ascii s ≡ some b → ascii b ≡ some s
ascii_twice s b h = ground arith

abbrev pub small_laws : Laws small
small_laws = record { decode-encode = ascii_twice; decompress-compress = λ b. refl }

abbrev pub image_length : Result (List ℕ) → ℕ
image_length (ok b) = length b
image_length (err e) = 0

-- `Login.Response` of a successful login.
abbrev pub logged_in : Values
logged_in = cons (bool true) (
    cons (str (codes "hi")) (
      cons (str (codes "10.0.200.7"))
        (cons (str (codes "5f4d")) (cons (bool false) (cons null nil)))))

abbrev pub login_response : MessageClass
login_response = elim login.response [ some c ↦ c | none ↦ plain uint32 0 end ]

pub logged_in_fits : FitsMessage small login_response logged_in
unfolding contents serialize_into get_value_for_field lookup attributes active pack to_le
    serialize_boolean serialize_string serialize_ipaddr
logged_in_fits = record {
  fits =
      present {l' = false} refl (λ h. cc) refl (fits_boolean true)
        (present {l' = false} refl (λ h. cc) refl (fits_string _ (codes "hi") refl (omega arith))
          (present {l' = false} refl (λ h. cc) refl
            (fits_ipaddr _ (10 ∷ 0 ∷ 200 ∷ 7 ∷ []) refl refl refl)
            (present {l' = false} refl (λ h. cc) refl
              (fits_string _ (codes "5f4d") refl (omega arith))
              (present {l' = false} refl (λ h. cc) refl (fits_boolean false)
                (inactive refl refl (fits_end {more = true}))))));
  short = λ message h. omega (arith, ap image_length h);
}
