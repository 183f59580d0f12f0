-- ===== src/Base/Strings.antt =====
-- Strings as lists of characters, compared as Python compares them.
use Prim.Native.Nat.{ℕ}
use aioslsk.Base.Tests.{◌==◌, ==→eq, ==_self, &&-true}
use aioslsk.Base.Lists.{any}
use mathlib.Core.Path.{◌≡◌, refl, ap}
use mathlib.Core.Bool.{Bool, true, false, ◌&&◌}
use mathlib.Core.List.{List, [], ◌∷◌}
use native.Mathlib.Omega.{arith}

abbrev pub Str : Type 0
Str = List ℕ

abbrev pub same : List ℕ → List ℕ → Bool
same [] [] = true
same (a ∷ s) (b ∷ t) = (a == b) && same s t
same [] (b ∷ t) = false
same (a ∷ s) [] = false

-- `name in names`.
abbrev pub elem : List ℕ → List (List ℕ) → Bool
elem name names = any (same name) names

pub same→eq : (s t : List ℕ) → same s t ≡ true → s ≡ t
same→eq [] [] h = refl
same→eq (a ∷ s) (b ∷ t) h =
    let (here, later) = &&-true _ _ h in
    rw (==→eq a b here) (ap (λ (l : List ℕ). b ∷ l) (same→eq s t later))
same→eq [] (b ∷ t) h = cc
same→eq (a ∷ s) [] h = cc

pub same_self : (s : List ℕ) → same s s ≡ true
same_self [] = refl
same_self (a ∷ s) = ground (arith, ==_self a, same_self s)
