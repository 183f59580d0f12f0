-- ===== src/Base/Sets.antt =====
-- Lists of numbers as the sets and lists of references that the code keeps.
use Prim.Native.Nat.{ℕ}
use aioslsk.Base.Tests.{◌==◌, ==_self, if◌then◌else◌}
use aioslsk.Base.Lists.{any}
use mathlib.Core.Path.{◌≡◌, refl}
use mathlib.Core.Bool.{Bool, true, false, not, ◌&&◌, ◌||◌}
use mathlib.Core.List.{List, [], ◌∷◌, ◌++◌}
use native.Mathlib.Omega.{arith}

abbrev pub member : ℕ → List ℕ → Bool
member n ns = any (λ m. n == m) ns

-- `list.remove`, which takes the first one; nothing where there is none.
abbrev pub remove : ℕ → List ℕ → List ℕ
remove n [] = []
remove n (m ∷ ms) = if n == m then ms else m ∷ remove n ms

abbrev pub distinct : List ℕ → Bool
distinct [] = true
distinct (n ∷ ns) = not (member n ns) && distinct ns

pub member-remove_ne :
    (a b : ℕ) (ns : List ℕ) → (a == b) ≡ false → member a (remove b ns) ≡ member a ns
member-remove_ne a b [] h = refl
member-remove_ne a b (n ∷ ns) h = ground (arith, member-remove_ne a b ns)

pub member-remove : (a b : ℕ) (ns : List ℕ) → member a (remove b ns) ≡ true → member a ns ≡ true
member-remove a b [] h = cc
member-remove a b (n ∷ ns) h = ground (arith, member-remove a b ns)

pub member-remove_self : (a : ℕ) (ns : List ℕ) → distinct ns ≡ true → member a (remove a ns) ≡ false
member-remove_self a [] h = refl
member-remove_self a (n ∷ ns) h = ground (arith, member-remove_self a ns)

pub distinct-remove : (a : ℕ) (ns : List ℕ) → distinct ns ≡ true → distinct (remove a ns) ≡ true
distinct-remove a [] h = refl
distinct-remove a (n ∷ ns) h = ground (arith, distinct-remove a ns, member-remove n a ns)

-- Every number of the one is in the other.
abbrev pub within : List ℕ → List ℕ → Bool
within [] ns = true
within (a ∷ xs) ns = member a ns && within xs ns

pub within-member :
    (a : ℕ) (xs ns : List ℕ) → within xs ns ≡ true → member a xs ≡ true → member a ns ≡ true
within-member a [] ns h k = cc
within-member a (b ∷ xs) ns h k = ground (arith, within-member a xs ns)

pub within-remove : (a : ℕ) (xs ns : List ℕ) → within xs ns ≡ true → within (remove a xs) ns ≡ true
within-remove a [] ns h = refl
within-remove a (b ∷ xs) ns h = ground (arith, within-remove a xs ns)

-- What none of them is can go.
pub within-remove_absent :
    (a : ℕ) (xs ns : List ℕ)
    → within xs ns ≡ true
    → member a xs ≡ false
    → within xs (remove a ns) ≡ true
within-remove_absent a [] ns h k = refl
within-remove_absent a (b ∷ xs) ns h k =
    ground (arith, within-remove_absent a xs ns, member-remove_ne b a ns)

pub within-cons : (a : ℕ) (xs ns : List ℕ) → within xs ns ≡ true → within xs (a ∷ ns) ≡ true
within-cons a [] ns h = refl
within-cons a (b ∷ xs) ns h = ground (arith, within-cons a xs ns)

pub member-append : (a : ℕ) (xs bs : List ℕ) → member a (xs ++ bs) ≡ (member a xs || member a bs)
member-append a [] bs = refl
member-append a (b ∷ xs) bs = ground (arith, member-append a xs bs)

pub within-append : (xs bs ns : List ℕ) → within (xs ++ bs) ns ≡ (within xs ns && within bs ns)
within-append [] bs ns = refl
within-append (a ∷ xs) bs ns = ground (arith, within-append xs bs ns)

pub within-append_right : (xs ns ms : List ℕ) → within xs ns ≡ true → within xs (ns ++ ms) ≡ true
within-append_right [] ns ms h = refl
within-append_right (a ∷ xs) ns ms h =
    ground (arith, within-append_right xs ns ms, member-append a ns ms)

pub distinct-snoc :
    (xs : List ℕ) (a : ℕ)
    → distinct xs ≡ true
    → member a xs ≡ false
    → distinct (xs ++ (a ∷ [])) ≡ true
distinct-snoc [] a h k = refl
distinct-snoc (b ∷ xs) a h k = ground (arith, distinct-snoc xs a, member-append b xs (a ∷ []))

pub within-not_member :
    (a : ℕ) (xs ns : List ℕ) → within xs ns ≡ true → member a ns ≡ false → member a xs ≡ false
within-not_member a [] ns h k = refl
within-not_member a (b ∷ xs) ns h k = ground (arith, within-not_member a xs ns)

pub within_self : (xs : List ℕ) → within xs xs ≡ true
within_self [] = refl
within_self (a ∷ xs) = ground (arith, within-cons a xs xs (within_self xs), ==_self a)
