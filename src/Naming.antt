-- ===== src/Naming.antt =====
-- naming.py: the strategies that choose where a download is written. Strings are lists of
-- characters; `\d` is one of the ten ASCII digits here.
pub mod Decimal
pub mod Free
mod Tests
use aioslsk.Base.{member}
use aioslsk.Base.{ℕ, zero, suc, ◌+◌, ◌*◌, ◌-◌, ◌/◌, ◌%◌, ◌==◌, leb, ltb, min, max, if◌then◌else◌}
use aioslsk.Base.{
  Bool, true, false, not, ◌&&◌, ◌||◌, any, Option, none, some, List, [], ◌∷◌, ◌++◌, length,
}

abbrev pub Text : Type 0
Text = List ℕ

-- What the code asks the operating system and `os.path`.
pub record Files : Type 0 where
  pub listdir : Text → List Text
  pub exists : Text → Text → Bool
  pub join : Text → Text → Text
  pub splitext : Text → Text × Text

-- What is left behind a prefix.
unfoldable pub strip : Text → Text → Option Text
strip [] s = some s
strip (a ∷ p) [] = none
strip (a ∷ p) (b ∷ s) = let rest = strip p s in if a == b then rest else none

abbrev pub digit? : ℕ → Bool
digit? c = leb 48 c && leb c 57

-- The number that leading digits form, on top of the number in front, and what follows them.
unfoldable pub read_digits : ℕ → Text → ℕ × Text
read_digits n [] = (n, [])
read_digits n (c ∷ s) =
    let more = read_digits (10 * n + (c - 48)) s in if digit? c then more else (n, c ∷ s)

abbrev pub starts_with_digit : Text → Bool
starts_with_digit [] = false
starts_with_digit (c ∷ s) = digit? c

-- `re.match` of the pattern ` \((\d+)\)` between the name and the extension. It need not reach the
-- end of the text.
unfoldable pub match_index : Text → Text → Text → Option ℕ
unfolding strip read_digits
match_index filename extension path_file = elim (strip (filename ++ (32 ∷ 40 ∷ [])) path_file) [
  | none ↦ none
  | some s ↦
      let (n, rest) = read_digits 0 s in
      if starts_with_digit s
      then elim (strip (41 ∷ extension) rest) [ none ↦ none | some _ ↦ some n ]
      else none
]

unfoldable pub indices : Text → Text → List Text → List ℕ
unfolding match_index
indices filename extension [] = []
indices filename extension (f ∷ fs) =
    let rest = indices filename extension fs in
    elim (match_index filename extension f) [ none ↦ rest | some n ↦ n ∷ rest ]

abbrev pub minimum : ℕ → List ℕ → ℕ
minimum n [] = n
minimum n (m ∷ ms) = min n (minimum m ms)

abbrev pub maximum : ℕ → List ℕ → ℕ
maximum n [] = n
maximum n (m ∷ ms) = max n (maximum m ms)

-- The least of `amount` numbers from `n` on that is not taken.
unfoldable pub first_free : List ℕ → ℕ → ℕ → ℕ
first_free taken zero n = n
first_free taken (suc amount) n =
    let later = first_free taken amount (n + 1) in if member n taken then later else n

-- `min` of the range from the least index to one above the greatest, less the indices.
unfoldable pub next_index : List ℕ → ℕ
unfolding first_free
next_index [] = 1
next_index (n ∷ ns) = let low = minimum n ns in first_free (n ∷ ns) (maximum n ns + 1 - low) low

-- `str` of a number, whose digits are at most as many as the fuel says and one more.
unfoldable pub decimal_digits : ℕ → ℕ → Text
decimal_digits zero n = (48 + n) ∷ []
decimal_digits (suc fuel) n =
    let front = decimal_digits fuel (n / 10) in
    if ltb n 10 then (48 + n) ∷ [] else front ++ ((48 + n % 10) ∷ [])

unfoldable pub decimal : ℕ → Text
unfolding decimal_digits
decimal n = decimal_digits n n

unfoldable pub numbered : Text → Text → ℕ → Text
unfolding decimal
numbered filename extension n = filename ++ (32 ∷ 40 ∷ []) ++ (decimal n ++ (41 ∷ extension))

pub data NamingStrategy : Type 0 where
  default_naming keep_directory number_duplicate : NamingStrategy

abbrev pub separator? : ℕ → Bool
separator? c = (c == 92) || (c == 47)

-- A part, unless it is empty, in front of the others.
abbrev pub unless_empty : Text → List Text → List Text
unless_empty [] parts = parts
unless_empty (c ∷ part) parts = (c ∷ part) ∷ parts

-- `split_remote_path`, with the part that has been read so far.
unfoldable pub split_from : Text → Text → List Text
split_from part [] = unless_empty part []
split_from part (c ∷ s) =
    let ended = split_from [] s in
    let longer = split_from (part ++ (c ∷ [])) s in
    if separator? c then unless_empty part ended else longer

-- `split_remote_path(remote_path)[-1]`, an `IndexError` where there is no part.
abbrev pub last_part : List Text → Option Text
last_part [] = none
last_part (p ∷ []) = some p
last_part (p ∷ (q ∷ ps)) = last_part (q ∷ ps)

-- The part before the last one, where there are two.
abbrev pub containing : List Text → Option Text
containing [] = none
containing (p ∷ []) = none
containing (p ∷ (q ∷ [])) = some p
containing (p ∷ (q ∷ (r ∷ ps))) = containing (q ∷ (r ∷ ps))

abbrev pub letter? : ℕ → Bool
letter? c = (leb 65 c && leb c 90) || (leb 97 c && leb c 122)

-- Directories that start with `@@`, and Windows drives.
abbrev pub ignored? : Text → Bool
ignored? (a ∷ (b ∷ s)) = ((a == 64) && (b == 64)) || (letter? a && (b == 58))
ignored? _ = false

module _ (files : Files) where
  open files use {listdir, exists, join, splitext}

  unfoldable pub should_be_applied : NamingStrategy → Text → Text → Bool
  should_be_applied number_duplicate local_dir local_filename = exists local_dir local_filename
  should_be_applied _ local_dir local_filename = true

  -- `KeepDirectoryStrategy.apply`, on the parts of the remote path.
  unfoldable pub keep_from : Text → Text → List Text → Option (Text × Text)
  keep_from local_dir local_filename [] = none
  keep_from local_dir local_filename (p ∷ ps) = elim (containing (p ∷ ps)) [
    | none ↦ some (local_dir, local_filename)
    | some dir ↦ some (if ignored? dir then local_dir else join local_dir dir, local_filename)
  ]

  unfoldable pub apply_strategy : NamingStrategy → Text → Text → Text → Option (Text × Text)
  unfolding split_from indices next_index numbered keep_from
  apply_strategy default_naming remote_path local_dir local_filename =
      elim (last_part (split_from [] remote_path)) [
        | none ↦ none
        | some name ↦ some (local_dir, name)
      ]
  apply_strategy keep_directory remote_path local_dir local_filename =
      keep_from local_dir local_filename (split_from [] remote_path)
  apply_strategy number_duplicate remote_path local_dir local_filename =
      let (filename, extension) = splitext local_filename in
      let n = next_index (indices filename extension (listdir local_dir)) in
      some (local_dir, numbered filename extension n)

  unfoldable pub chain_from : List NamingStrategy → Text → Text → Text → Option (Text × Text)
  unfolding should_be_applied apply_strategy
  chain_from [] remote_path path filename = some (path, filename)
  chain_from (s ∷ ss) remote_path path filename =
      if should_be_applied s path filename
      then elim (apply_strategy s remote_path path filename) [
        | none ↦ none
        | some (path', filename') ↦ chain_from ss remote_path path' filename'
      ]
      else chain_from ss remote_path path filename

  unfoldable pub chain_strategies : List NamingStrategy → Text → Text → Option (Text × Text)
  unfolding chain_from
  chain_strategies strategies remote_path local_dir = chain_from strategies remote_path local_dir []
