-- ===== src/Naming/Decimal.antt =====
-- Numbers in file names: what `numbered` of naming.py writes, `match_index` reads.
use aioslsk.Base.{
  ℕ, zero, suc, ◌+◌, ◌*◌, ◌-◌, ◌/◌, ◌%◌, ==_self, ◌≤◌, ◌<◌, ◌≡◌, refl, ap, ◌∙◌, arith, ltb,
}
use aioslsk.Base.{true, Bool-cases, inl, inr, some, [], ◌∷◌, ◌++◌}
use aioslsk.Naming.{
  Text, strip, digit?, read_digits, starts_with_digit, match_index, decimal_digits, decimal,
  numbered,
}
use mathlib.Core.List.{append_assoc}

strip-append : (p s : Text) → strip p (p ++ s) ≡ some s
unfolding strip
strip-append [] s = refl
strip-append (c ∷ p) s = rw (==_self c) (strip-append p s)

strip_all : (p : Text) → strip p p ≡ some []
unfolding strip
strip_all [] = refl
strip_all (c ∷ p) = rw (==_self c) (strip_all p)

digit_lem : (d : ℕ) → d < 10 → digit? (48 + d) ≡ true
digit_lem d h = ground arith

read_digit :
    (m d : ℕ) (s : Text) → d < 10 → read_digits m ((48 + d) ∷ s) ≡ read_digits (10 * m + d) s
unfolding read_digits
read_digit m d s h = let back : 48 + d - 48 ≡ d = omega arith in rw (digit_lem d h, back)

-- Reading the digits of a number from 0 on gives the number, in front of what follows.
read_digits-decimal_digits :
    (fuel n : ℕ) (s : Text)
    → n ≤ fuel
    → read_digits 0 (decimal_digits fuel n ++ s) ≡ read_digits n s
unfolding decimal_digits
read_digits-decimal_digits zero n s h =
    read_digit 0 n s (omega arith) ∙ ap (λ (m : ℕ). read_digits m s) (omega arith)
read_digits-decimal_digits (suc fuel) n s h = elim (Bool-cases (ltb n 10)) [
  | inl e ↦
      let small : n < 10 = ground arith in
      rw e (read_digit 0 n s small ∙ ap (λ (m : ℕ). read_digits m s) (omega arith))
  | inr e ↦
      let large : 10 ≤ n = ground arith in
      rw (e, append_assoc)
        (read_digits-decimal_digits fuel (n / 10) ((48 + n % 10) ∷ s) (omega arith)
          ∙ read_digit (n / 10) (n % 10) s (omega arith)
          ∙ ap (λ (m : ℕ). read_digits m s) (omega arith))
]

starts_with_digit-decimal_digits :
    (fuel n : ℕ) (s : Text) → n ≤ fuel → starts_with_digit (decimal_digits fuel n ++ s) ≡ true
unfolding decimal_digits
starts_with_digit-decimal_digits zero n s h = digit_lem n (omega arith)
starts_with_digit-decimal_digits (suc fuel) n s h = elim (Bool-cases (ltb n 10)) [
  | inl e ↦ let small : n < 10 = ground arith in rw e (digit_lem n small)
  | inr e ↦
      let large : 10 ≤ n = ground arith in
      rw (e, append_assoc) (starts_with_digit-decimal_digits fuel (n / 10) _ (omega arith))
]

-- The four steps of a match.
match_steps :
    (filename extension path_file s rest : Text) (n : ℕ)
    → strip (filename ++ (32 ∷ 40 ∷ [])) path_file ≡ some s
    → starts_with_digit s ≡ true
    → read_digits 0 s ≡ (n, rest)
    → strip (41 ∷ extension) rest ≡ some []
    → match_index filename extension path_file ≡ some n
unfolding match_index
match_steps filename extension path_file s rest n h d r e = ground arith

-- The pattern of a file name and extension matches the name that is numbered n, and gives n.
pub match_index-numbered :
    (filename extension : Text) (n : ℕ)
    → match_index filename extension (numbered filename extension n) ≡ some n
unfolding numbered decimal read_digits
match_index-numbered filename extension n =
    match_steps filename extension (numbered filename extension n)
      (decimal_digits n n ++ (41 ∷ extension)) (41 ∷ extension) n
      (strip-append (filename ++ (32 ∷ 40 ∷ [])) (decimal_digits n n ++ (41 ∷ extension)))
      (starts_with_digit-decimal_digits n n (41 ∷ extension) (omega arith))
      (read_digits-decimal_digits n n (41 ∷ extension) (omega arith)) (strip_all (41 ∷ extension))
