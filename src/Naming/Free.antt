-- ===== src/Naming/Free.antt =====
-- The name that `NumberDuplicateStrategy` of naming.py chooses is free.
use aioslsk.Base.{member}
use aioslsk.Base.{
  ℕ, zero, suc, ◌+◌, ◌-◌, ◌≤◌, ◌<◌, ◌≡◌, refl, sym, ◌∙◌, arith, ==→eq, same, elem, same→eq, ==_self,
  ◌==◌, if◌then◌else◌,
}
use aioslsk.Base.{true, false, Bool-cases, cases_option, inl, inr}
use aioslsk.Base.{Option, none, some, List, [], ◌∷◌, ◌++◌}
use mathlib.Core.Path.{subst}
use mathlib.Core.Bool.{true≢false}
use native.Mathlib.Nat.{add-zero}
use aioslsk.Naming.{
  Text, Files, keep_from, ignored?, last_part, split_from, keep_directory, default_naming,
  containing, match_index, indices, minimum, maximum, first_free, next_index, numbered,
  NamingStrategy, number_duplicate, should_be_applied, apply_strategy, chain_from, chain_strategies,
}
use aioslsk.Naming.Decimal.{match_index-numbered}

above_maximum : (k n : ℕ) (ns : List ℕ) → maximum n ns < k → member k (n ∷ ns) ≡ false
above_maximum k n [] h = ground arith
above_maximum k n (m ∷ ms) h = ground (arith, above_maximum k m ms)

-- A search that reaches a number that is not taken ends at one.
first_free-member :
    (taken : List ℕ) (amount n : ℕ)
    → member (n + amount) taken ≡ false
    → member (first_free taken amount n) taken ≡ false
unfolding first_free
first_free-member taken zero n h = rw (add-zero n) at h
first_free-member taken (suc amount) n h = elim (Bool-cases (member n taken)) [
  | inl e ↦
      rw e (
        first_free-member taken amount (n + 1)
          (subst (λ k. member k taken ≡ false) (omega arith) h))
  | inr e ↦ rw e e
]

minimum-maximum : (n : ℕ) (ns : List ℕ) → minimum n ns ≤ maximum n ns
minimum-maximum n [] = omega arith
minimum-maximum n (m ∷ ms) = omega (arith, minimum-maximum m ms)

next_index-member : (taken : List ℕ) → member (next_index taken) taken ≡ false
unfolding next_index
next_index-member [] = refl
next_index-member (n ∷ ns) =
    first_free-member (n ∷ ns) (maximum n ns + 1 - minimum n ns) (minimum n ns)
      (above_maximum _ n ns (omega (arith, minimum-maximum n ns)))

-- A name that is numbered `n` and stands in the directory makes `n` one of the indices.
indices-member :
    (filename extension : Text) (n : ℕ) (fs : List Text)
    → elem (numbered filename extension n) fs ≡ true
    → member n (indices filename extension fs) ≡ true
unfolding indices
indices-member filename extension n [] h = cc
indices-member filename extension n (f ∷ fs) h =
    elim (Bool-cases (same (numbered filename extension n) f)) [
      | inl e ↦
          let matched : match_index filename extension f ≡ some n =
            subst (λ g. match_index filename extension g ≡ some n) (same→eq _ f e)
              (match_index-numbered filename extension n) in
          rw (matched, indices) (rw (==_self n))
      | inr e ↦
          later (match_index filename extension f)
            (indices-member filename extension n fs (rw e at h))
    ]
  where
    later :
        (found : Option ℕ)
        → member n (indices filename extension fs) ≡ true
        → member n (elim found [
          | none ↦ indices filename extension fs
          | some m ↦ m ∷ indices filename extension fs
        ])
          ≡ true
    later none k = k
    later (some m) k = ground arith

-- The number of the file is read from no name in the directory: the chosen name is not there.
numbered-elem :
    (filename extension : Text) (fs : List Text)
    → elem (numbered filename extension (next_index (indices filename extension fs))) fs ≡ false
numbered-elem filename extension fs = elim (Bool-cases (elem (numbered filename extension n) fs)) [
  | inl e ↦ absurd (
      true≢false (
        sym (indices-member filename extension n fs e)
        ∙ next_index-member (indices filename extension fs)))
  | inr e ↦ e
]
  where
    n : ℕ
    n = next_index (indices filename extension fs)

first_free-taken :
    (taken : List ℕ) (amount n k : ℕ)
    → n ≤ k
    → k < first_free taken amount n
    → member k taken ≡ true
unfolding first_free
first_free-taken taken zero n k h l = absurd (omega arith)
first_free-taken taken (suc amount) n k h l = elim (Bool-cases (member n taken)) [
  | inl e ↦ elim (Bool-cases (n == k)) [
    | inl here ↦ subst (λ j. member j taken ≡ true) (==→eq n k here) e
    | inr later ↦ first_free-taken taken amount (n + 1) k (ground arith) (rw e at l)
  ]
  | inr e ↦ absurd (let l' : k < n = rw e at l in omega arith)
]

-- The next index is not taken, and it fills the first gap: every number from the least index up to
-- it is taken.
next_index-gap :
    (n k : ℕ) (ns : List ℕ)
    → minimum n ns ≤ k
    → k < next_index (n ∷ ns)
    → (member (next_index (n ∷ ns)) (n ∷ ns) ≡ false) × (member k (n ∷ ns) ≡ true)
unfolding next_index
next_index-gap n k ns h l = (
  next_index-member (n ∷ ns),
  first_free-taken (n ∷ ns) (maximum n ns + 1 - minimum n ns) (minimum n ns) k h l,
)

-- A directory lists what exists in it.
abbrev pub Listed : Files → Type 0
Listed files =
    (dir name : Text) → files.exists dir name ≡ false → elem name (files.listdir dir) ≡ false

keep_from-some :
    (files : Files) (dir name base : Text) (parts : List Text)
    → last_part parts ≡ some base
    → (chosen : Text × Text) × (keep_from files dir name parts ≡ some chosen)
unfolding keep_from
keep_from-some files dir name base [] h = cc
keep_from-some files dir name base (p ∷ ps) h = elim (cases_option (containing (p ∷ ps))) [
  | inl (inner, e) ↦
      ((if ignored? inner then dir else files.join dir inner, name), rw (e, keep_from))
  | inr e ↦ ((dir, name), rw (e, keep_from))
]

-- A name was chosen, and it is not in its directory.
pub record IsFree (files : Files) (chosen : Option (Text × Text)) : Type 0 where
  pub dir : Text
  pub name : Text
  pub found : chosen ≡ some (dir, name)
  pub free : elem name (files.listdir dir) ≡ false

module _ (files : Files) (remote_path base : Text)
    (named : last_part (split_from [] remote_path) ≡ some base) where
  apply_strategy-some :
      (s : NamingStrategy) (dir name : Text)
      → (chosen : Text × Text) × (apply_strategy files s remote_path dir name ≡ some chosen)
  unfolding apply_strategy
  apply_strategy-some default_naming dir name = ((dir, base), rw (named, apply_strategy))
  apply_strategy-some keep_directory dir name =
      keep_from-some files dir name base (split_from [] remote_path) named
  apply_strategy-some number_duplicate dir name = (_, refl)

  chain_from-IsFree :
      (listed : Listed files) (ss : List NamingStrategy) (dir name : Text)
      → IsFree files (chain_from files (ss ++ (number_duplicate ∷ [])) remote_path dir name)
  unfolding chain_from should_be_applied apply_strategy
  chain_from-IsFree listed [] dir name = elim (Bool-cases (files.exists dir name)) [
    | inl e ↦ rw e (record {
      dir = dir;
      name = _;
      found = refl;
      free = numbered-elem (files.splitext name).0 (files.splitext name).1 (files.listdir dir);
    })
    | inr e ↦ rw e (record { dir = dir; name = name; found = refl; free = listed dir name e })
  ]
  chain_from-IsFree listed (s ∷ ss) dir name =
      elim (Bool-cases (should_be_applied files s dir name)) [
        | inl e ↦
            let (chosen, a) = apply_strategy-some s dir name in
            rw (e, a) (chain_from-IsFree listed ss chosen.0 chosen.1)
        | inr e ↦ rw e (chain_from-IsFree listed ss dir name)
      ]

  -- Where directories list what exists in them and the remote path has a part: a chain that ends in
  -- `NumberDuplicateStrategy` chooses a name, and one that is not in its directory.
  pub chain_strategies-IsFree :
      (listed : Listed files) (ss : List NamingStrategy) (local_dir : Text)
      → IsFree files (chain_strategies files (ss ++ (number_duplicate ∷ [])) remote_path local_dir)
  unfolding chain_strategies
  chain_strategies-IsFree listed ss local_dir = chain_from-IsFree listed ss local_dir []
