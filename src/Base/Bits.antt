-- ===== src/Base/Bits.antt =====
-- `|` of disjoint fields and `^` on native numbers, digit by digit.
use Prim.Native.Nat.{ℕ, zero, suc, ◌+◌, ◌*◌, ◌/◌, ◌%◌, ◌^◌, ◌≤◌, ◌<◌, max, bit_or, bit_xor}
use Prim.Native.Nat.{digits, differ, bit_or-bitwise, bit_xor-bitwise}
use mathlib.Core.Path.{◌≡◌, refl, ap, sym, ◌∙◌}
use native.Mathlib.Nat.{pow-suc}
use native.Mathlib.Omega.{arith}

-- An operation on digits that keeps the second number where the first has run out.
module _ (f : ℕ → ℕ → ℕ) where
  abbrev bits : ℕ → ℕ → ℕ → ℕ
  bits = digits (λ y. y) f

  -- Digits to go beyond those of the first number make no difference.
  spare : (n m a b : ℕ) → a ≤ n → a ≤ m → bits n a b ≡ bits m a b
  spare zero zero a b h k = refl
  spare zero (suc m) zero b h k = refl
  spare (suc n) zero zero b h k = refl
  spare (suc n) (suc m) zero b h k = refl
  spare zero (suc m) (suc a) b h k = absurd (omega arith)
  spare (suc n) zero (suc a) b h k = absurd (omega arith)
  spare (suc n) (suc m) (suc a) b h k =
      omega (arith, spare n m (suc a / 2) (b / 2) (omega arith) (omega arith))

  -- The lowest digits apart from the others.
  lowest :
      ((b : ℕ) → f 0 (b % 2) ≡ b % 2)
      → (a b : ℕ) → bits a a b ≡ bits (a / 2) (a / 2) (b / 2) * 2 + f (a % 2) (b % 2)
  lowest keep zero b = omega (arith, keep b)
  lowest keep (suc a) b =
      omega (arith, spare a (suc a / 2) (suc a / 2) (b / 2) (omega arith) (omega arith))

differ_zero : (b : ℕ) → differ 0 (b % 2) ≡ b % 2
differ_zero b = refl

xor_lowest : (a b : ℕ) → bit_xor a b ≡ bit_xor (a / 2) (b / 2) * 2 + differ (a % 2) (b % 2)
xor_lowest a b =
    bit_xor-bitwise a b
    ∙ lowest differ differ_zero a b
    ∙ ap (λ (t : ℕ). t * 2 + differ (a % 2) (b % 2)) (sym (bit_xor-bitwise (a / 2) (b / 2)))

digit_twice : (x y : ℕ) → x < 2 → y < 2 → differ (differ x y) x ≡ y
digit_twice zero zero h k = refl
digit_twice zero (suc zero) h k = refl
digit_twice (suc zero) zero h k = refl
digit_twice (suc zero) (suc zero) h k = refl
digit_twice (suc (suc x)) y h k = absurd (omega arith)
digit_twice x (suc (suc y)) h k = absurd (omega arith)

digit_lt : (x y : ℕ) → x < 2 → y < 2 → differ x y < 2
digit_lt zero y h k = k
digit_lt (suc zero) zero h k = h
digit_lt (suc zero) (suc zero) h k = omega arith
digit_lt (suc (suc x)) y h k = absurd (omega arith)
digit_lt x (suc (suc y)) h k = absurd (omega arith)

-- `n` bounds both numbers.
xor_twice_below : (n a b : ℕ) → a ≤ n → b ≤ n → bit_xor (bit_xor a b) a ≡ b
xor_twice_below zero zero zero h k = refl
xor_twice_below zero (suc a) b h k = absurd (omega arith)
xor_twice_below zero zero (suc b) h k = absurd (omega arith)
xor_twice_below (suc n) a b h k =
    let small : differ (a % 2) (b % 2) < 2 = digit_lt (a % 2) (b % 2) (omega arith) (omega arith) in
    let half : bit_xor a b / 2 ≡ bit_xor (a / 2) (b / 2) = omega (arith, xor_lowest a b) in
    let low : bit_xor a b % 2 ≡ differ (a % 2) (b % 2) = omega (arith, xor_lowest a b) in
    xor_lowest (bit_xor a b) a
    ∙ rw
        (
          half,
          low,
          xor_twice_below n (a / 2) (b / 2) (omega arith) (omega arith),
          digit_twice (a % 2) (b % 2) (omega arith) (omega arith),
        )
        (omega arith)

or_fuel : (n a m q : ℕ) → a ≤ n → a < 2 ^ m → digits (λ y. y) max n a (q * 2 ^ m) ≡ a + q * 2 ^ m
or_fuel zero zero m q h k = omega arith
or_fuel zero (suc a) m q h k = absurd (omega arith)
or_fuel (suc n) zero m q h k = omega arith
or_fuel (suc n) (suc a) zero q h k = absurd (omega arith)
or_fuel (suc n) (suc a) (suc m) q h k =
    let double : q * 2 ^ suc m ≡ 2 * (q * 2 ^ m) =
      omega (arith, ap (λ (t : ℕ). q * t) (pow-suc 2 m)) in
    let half : q * 2 ^ suc m / 2 ≡ q * 2 ^ m = omega arith in
    let even : q * 2 ^ suc m % 2 ≡ 0 = omega arith in
    let fits : suc a / 2 < 2 ^ m = omega (arith, pow-suc 2 m) in
    rw (half, even, or_fuel n (suc a / 2) m q (omega arith) fits) (omega arith)

-- The parts of a word, the low one first.
pub or_disjoint : (a m q : ℕ) → a < 2 ^ m → bit_or a (q * 2 ^ m) ≡ a + q * 2 ^ m
or_disjoint a m q h = bit_or-bitwise a (q * 2 ^ m) ∙ or_fuel a a m q (omega arith) h

pub xor_twice : (a b : ℕ) → bit_xor (bit_xor a b) a ≡ b
xor_twice a b = xor_twice_below (a + b) a b (omega arith) (omega arith)
