-- ===== src/Base/Result.antt =====
-- Exceptions as values: what a Python call returns, or the class of what it raises.
use mathlib.Core.Path.{◌≡◌, refl}
use mathlib.Core.Logic.{◌⊎◌, inl, inr}
use mathlib.Core.Option.{Option, none, some}

-- The exceptions that the modelled code raises or lets through.
-- `conversion` stands for a value of another Python type than its field is annotated with.
pub data Error : Type 0 where
  struct_error unicode_error os_error key_error attribute_error value_error type_error zlib_error :
      Error
  bad_length unknown_message conversion overflow_error : Error

pub data Result {ℓ} (A : Type ℓ) : Type ℓ where
  ok : A → Result A
  err : Error → Result A

infixl 5 ◌>>=◌
abbrev pub ◌>>=◌ {ℓ κ} : {A : Type ℓ} {B : Type κ} → Result A → (A → Result B) → Result B
ok a >>= f = f a
err e >>= f = err e

-- A call that signals failure by `none`, raising `e`.
abbrev pub or_raise {ℓ} : {A : Type ℓ} → Option A → Error → Result A
or_raise none e = err e
or_raise (some a) e = ok a

-- Where the rest of a `do` block succeeds, its first step did.
pub >>=-succeeds {ℓ κ} :
    {Step : Type ℓ} {Whole : Type κ} (step : Result Step) (rest : Step → Result Whole)
    {whole : Whole}
    → step >>= rest ≡ ok whole
    → (value : Step) × (step ≡ ok value) × (rest value ≡ ok whole)
>>=-succeeds (err raised) rest e = cc
>>=-succeeds (ok value) rest e = (value, refl, e)

pub ok-eq-ok {ℓ} : {A : Type ℓ} {a b : A} → ok a ≡ ok b → a ≡ b
ok-eq-ok h = cc

pub cases_result {ℓ} :
    {A : Type ℓ} (r : Result A) → ((a : A) × (r ≡ ok a)) ⊎ ((e : Error) × (r ≡ err e))
cases_result (ok a) = inl (a, refl)
cases_result (err e) = inr (e, refl)
