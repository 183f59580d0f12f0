-- ===== src/Naming/Tests.antt =====
-- Downloads of `a.t` into a directory that has it, and a first numbered copy.
use aioslsk.Base.{same, if◌then◌else◌}
use aioslsk.Base.{◌≡◌, refl, elem, take, drop}
use aioslsk.Base.{some, List, [], ◌∷◌}
use aioslsk.Naming.{
  Text, Files, default_naming, keep_directory, number_duplicate, split_from, chain_strategies,
  match_index, numbered, next_index,
}
use aioslsk.Naming.Decimal.{match_index-numbered}
use aioslsk.Naming.Free.{IsFree, chain_strategies-IsFree}

abbrev listing : List Text
listing = (97 ∷ 46 ∷ 116 ∷ []) ∷ (97 ∷ 32 ∷ 40 ∷ 49 ∷ 41 ∷ 46 ∷ 116 ∷ []) ∷ []

-- The root of a name is its first letter; every directory has the listing, but the one named `m`.
abbrev listdir_of : Text → List Text
listdir_of dir = if same dir (109 ∷ []) then [] else listing

abbrev files : Files
files = record {
  listdir = listdir_of;
  exists = λ dir name. elem name (listdir_of dir);
  join = λ dir name. name;
  splitext = λ name. (take 1 name, drop 1 name);
}

-- `m\a.t`
abbrev remote : Text
remote = 109 ∷ 92 ∷ 97 ∷ 46 ∷ 116 ∷ []

second_copy :
    chain_strategies files (default_naming ∷ number_duplicate ∷ []) remote (100 ∷ [])
    ≡ some (100 ∷ [], 97 ∷ 32 ∷ 40 ∷ 50 ∷ 41 ∷ 46 ∷ 116 ∷ [])
unfolding chain_strategies
second_copy = refl

kept :
    chain_strategies files
      (default_naming ∷ keep_directory ∷ number_duplicate ∷ [])
      remote
      (100 ∷ [])
    ≡ some (109 ∷ [], 97 ∷ 46 ∷ 116 ∷ [])
unfolding chain_strategies
kept = refl

chain_strategies-IsFree_example :
    IsFree files (chain_strategies files (default_naming ∷ number_duplicate ∷ []) remote (100 ∷ []))
unfolding split_from
chain_strategies-IsFree_example =
    chain_strategies-IsFree files remote (97 ∷ 46 ∷ 116 ∷ []) refl (λ dir name h. h)
      (default_naming ∷ []) (100 ∷ [])

match_index-numbered_example :
    match_index (97 ∷ []) (46 ∷ 116 ∷ []) (numbered (97 ∷ []) (46 ∷ 116 ∷ []) 120) ≡ some 120
match_index-numbered_example = match_index-numbered (97 ∷ []) (46 ∷ 116 ∷ []) 120

gap : next_index (2 ∷ 3 ∷ 7 ∷ []) ≡ 4
unfolding next_index
gap = refl
