-- ===== src/Protocol/Obfuscation/Rotation.antt =====
-- Rotating a 32-bit key, as arithmetic.
use aioslsk.Base.{ℕ, zero, suc, ◌+◌, ◌-◌, ◌*◌, ◌/◌, ◌%◌, ◌^◌, ◌<◌, ◌≡◌, refl, ap, ◌∙◌, arith}
use aioslsk.Base.{Bool, true, ◌&&◌, ◌==◌, ==→eq, lt→ltb, List}
use aioslsk.Base.Result.{ok}
use aioslsk.Base.Bits.{or_disjoint}
use aioslsk.Protocol.Struct.{to_le, from_le}
use aioslsk.Protocol.Obfuscation.{to_bytes, rotate_key}
use Prim.Native.Nat.{bit_or}
use native.Mathlib.Nat.{
  div-add-mod, div-div-eq-div-mul, mod-lt, div-lt_iff_lt-mul, pow-suc, one-le-pow,
}

all_below : ℕ → (ℕ → Bool) → Bool
all_below zero test = true
all_below (suc n) test = test n && all_below n test

below_sound : (n : ℕ) (test : ℕ → Bool) (x : ℕ) → all_below n test ≡ true → x < n → test x ≡ true
unfolding all_below
below_sound zero test x h k = absurd (omega arith)
below_sound (suc n) test x h k = ground (arith, below_sound n test x)

-- The two powers that a rotation splits a word by.
pow_split : (r : ℕ) → r < 33 → 2 ^ r * 2 ^ (32 - r) ≡ 2 ^ 32
unfolding all_below
pow_split r h = ==→eq _ _ (below_sound 33 (λ s. 2 ^ s * 2 ^ (32 - s) == 2 ^ 32) r refl h)

pow_split_next : (r : ℕ) → r < 32 → 2 ^ (32 - r) ≡ 2 * 2 ^ (31 - r)
unfolding all_below
pow_split_next r h = ==→eq _ _ (below_sound 32 (λ s. 2 ^ (32 - s) == 2 * 2 ^ (31 - s)) r refl h)

-- `k` rotated to the right by `r` bits: the low `r` bits come in front.
unfoldable pub rotated : ℕ → ℕ → ℕ
rotated k r = k % 2 ^ r * 2 ^ (32 - r) + k / 2 ^ r

scaled_lt : (v q a b : ℕ) → v < a → q < b → v * b + q < a * b
scaled_lt v q a b h k = grind arith

module _ (a b k : ℕ) (pos : 0 < a) (whole : a * b ≡ 2 ^ 32) (fits : k < 2 ^ 32) where
  high_lt : k / a < b
  high_lt = (div-lt_iff_lt-mul pos).1 (omega arith)

  parts_lt : k % a * b + k / a < 2 ^ 32
  parts_lt = omega (arith, scaled_lt (k % a) (k / a) a b (mod-lt k pos) high_lt)

  -- Shifting to the left drops the bits above the word.
  shifted : k * b % 2 ^ 32 ≡ k % a * b
  shifted =
      let apart : k * b ≡ k / a * 2 ^ 32 + k % a * b =
        omega (arith, ap (λ (t : ℕ). t * b) (div-add-mod k a), ap (λ (t : ℕ). t * (k / a)) whole) in
      omega (arith, parts_lt)

pub rotated_lt : (k r : ℕ) → k < 2 ^ 32 → r < 33 → rotated k r < 2 ^ 32
unfolding rotated
rotated_lt k r fits h =
    parts_lt (2 ^ r) (2 ^ (32 - r)) k (one-le-pow r 2 (omega arith)) (pow_split r h) fits

-- For a key that is less than `2 ^ 32` and a count of at most 32, `rotate_key` returns the four
-- bytes of the key rotated to the right, as arithmetic defines it.
pub rotate_key-rotated :
    (key : List ℕ) (r : ℕ)
    → from_le key < 2 ^ 32
    → r < 33
    → rotate_key key r ≡ ok (to_le 4 (rotated (from_le key) r))
unfolding rotate_key to_bytes rotated
rotate_key-rotated key r fits h =
    let k : ℕ = from_le key in
    let pos : 0 < 2 ^ r = one-le-pow r 2 (omega arith) in
    let word : bit_or (k / 2 ^ r) (k * 2 ^ (32 - r) % 2 ^ 32)
        ≡ k % 2 ^ r * 2 ^ (32 - r) + k / 2 ^ r =
      rw (shifted (2 ^ r) (2 ^ (32 - r)) k pos (pow_split r h) fits) (
        or_disjoint (k / 2 ^ r) (32 - r) (k % 2 ^ r)
          (high_lt (2 ^ r) (2 ^ (32 - r)) k pos (pow_split r h) fits)
        ∙ omega arith) in
    rw word (rw (lt→ltb _ _ (rotated_lt k r fits h)))

-- The word in three parts: `k / (2 * a)`, one bit `u`, and `k % a`.
module _ (a b k : ℕ) (pos : 0 < a) (whole : a * b ≡ 2 ^ 31) (fits : k < 2 ^ 32) where
  next_bit : k / a ≡ 2 * (k / (a * 2)) + k / a % 2
  next_bit = omega (arith, div-div-eq-div-mul k a 2)

  low_part : k % (a * 2) ≡ a * (k / a % 2) + k % a
  low_part = omega (arith, div-add-mod k (a * 2), div-add-mod k a, ap (λ (t : ℕ). a * t) next_bit)

  high_small : k / (a * 2) < b
  high_small = (div-lt_iff_lt-mul {k = a * 2} (omega arith)).1 (omega arith)

  rotate_once :
      (k % (a * 2) * b + k / (a * 2)) % 2 ^ 31 * 2 + (k % (a * 2) * b + k / (a * 2)) / 2 ^ 31
      ≡ k % a * (2 * b) + k / a
  rotate_once =
      let low : k % a * b + k / (a * 2) < 2 ^ 31 =
        omega (arith, scaled_lt (k % a) (k / (a * 2)) a b (mod-lt k pos) high_small) in
      omega (arith, ap (λ (t : ℕ). t * b) low_part, ap (λ (t : ℕ). t * (k / a % 2)) whole, next_bit)

pow_split_low : (r : ℕ) → r < 32 → 2 ^ r * 2 ^ (31 - r) ≡ 2 ^ 31
unfolding all_below
pow_split_low r h = ==→eq _ _ (below_sound 32 (λ s. 2 ^ s * 2 ^ (31 - s) == 2 ^ 31) r refl h)

-- A rotation to the right by 31 bits undoes one bit of a rotation to the right.
pub rotated-rotated : (k r : ℕ) → k < 2 ^ 32 → r < 32 → rotated (rotated k (suc r)) 31 ≡ rotated k r
unfolding rotated
rotated-rotated k r fits h =
    let fewer : 32 - suc r ≡ 31 - r = omega arith in
    rw (pow-suc 2 r, fewer, pow_split_next r h)
      (rotate_once (2 ^ r) (2 ^ (31 - r)) k (one-le-pow r 2 (omega arith)) (pow_split_low r h) fits)

pub rotated-zero : (k : ℕ) → k < 2 ^ 32 → rotated k 0 ≡ k
unfolding rotated
rotated-zero k fits = omega arith
