-- ===== src/Distributed/Told.antt =====
-- distributed.py: what the children were told last of our place in the network.
pub mod Closing
pub mod Branches
pub mod Steps
use aioslsk.Base.{
  ℕ, ◌==◌, ==_self, same_self, ◌≡◌, refl, sym, ap, ◌∙◌, arith, Bool, true, false, not, ◌&&◌, ◌||◌,
  Bool-cases, &&-true, inl, inr, if◌then◌else◌, within,
}
use aioslsk.Base.{Option, none, some, List, [], ◌∷◌, ◌++◌, same, member, remove, cases_option}
use aioslsk.Distributed.{
  Str, Message, branch_level_message, branch_root_message, child_depth_message, search_request,
  toggle_parent_search, accept_children_message, get_user_stats, Effect, to_server, to_peer,
  DistributedNetwork, to_each, advertised,
}

abbrev pub level_of : Message → Option ℕ → Option ℕ
level_of (branch_level_message level) old = some level
level_of (branch_root_message root) old = old
level_of (child_depth_message depth) old = old
level_of (search_request u name t q) old = old
level_of (toggle_parent_search b) old = old
level_of (accept_children_message b) old = old
level_of (get_user_stats name) old = old

abbrev pub root_of : Message → Option Str → Option Str
root_of (branch_level_message level) old = old
root_of (branch_root_message root) old = some root
root_of (child_depth_message depth) old = old
root_of (search_request u name t q) old = old
root_of (toggle_parent_search b) old = old
root_of (accept_children_message b) old = old
root_of (get_user_stats name) old = old

-- The level that was last sent to a connection, and the root.
abbrev pub last_level : ℕ → List Effect → Option ℕ
last_level c [] = none
last_level c (to_server m ∷ outbox) = last_level c outbox
last_level c (to_peer d m ∷ outbox) =
    let old = last_level c outbox in if c == d then level_of m old else old

abbrev pub last_root : ℕ → List Effect → Option Str
last_root c [] = none
last_root c (to_server m ∷ outbox) = last_root c outbox
last_root c (to_peer d m ∷ outbox) =
    let old = last_root c outbox in if c == d then root_of m old else old

abbrev pub is_level : ℕ → Option ℕ → Bool
is_level level none = false
is_level level (some level') = level' == level

abbrev pub is_root : Str → Option Str → Bool
is_root root none = false
is_root root (some root') = same root' root

-- Each of them knows the level, and the root where it is another than us.
abbrev pub told : Str → ℕ → List ℕ → List Effect → Bool
told root level [] outbox = true
told root level (c ∷ cs) outbox =
    is_level level (last_level c outbox)
    && (level == 0 || is_root root (last_root c outbox))
    && told root level cs outbox

abbrev pub told_values : Option (Str × ℕ) → List ℕ → List Effect → Bool
told_values none children outbox = true
told_values (some (root, level)) children outbox = told root level children outbox

abbrev pub Told : DistributedNetwork → Type 0
Told s = told_values (advertised s) s.children s.outbox ≡ true

level_of_twice : (m : Message) (old : Option ℕ) → level_of m (level_of m old) ≡ level_of m old
level_of_twice (branch_level_message level) old = refl
level_of_twice (branch_root_message root) old = refl
level_of_twice (child_depth_message depth) old = refl
level_of_twice (search_request u name t q) old = refl
level_of_twice (toggle_parent_search b) old = refl
level_of_twice (accept_children_message b) old = refl
level_of_twice (get_user_stats name) old = refl

root_of_twice : (m : Message) (old : Option Str) → root_of m (root_of m old) ≡ root_of m old
root_of_twice (branch_level_message level) old = refl
root_of_twice (branch_root_message root) old = refl
root_of_twice (child_depth_message depth) old = refl
root_of_twice (search_request u name t q) old = refl
root_of_twice (toggle_parent_search b) old = refl
root_of_twice (accept_children_message b) old = refl
root_of_twice (get_user_stats name) old = refl

pub last_level-to_each :
    (c : ℕ) (cs : List ℕ) (m : Message) (outbox : List Effect)
    → last_level c (to_each cs m outbox)
      ≡ (if member c cs then level_of m (last_level c outbox) else last_level c outbox)
unfolding to_each
last_level-to_each c [] m outbox = refl
last_level-to_each c (d ∷ cs) m outbox =
    ground (arith, last_level-to_each c cs m outbox, level_of_twice m (last_level c outbox))

pub last_root-to_each :
    (c : ℕ) (cs : List ℕ) (m : Message) (outbox : List Effect)
    → last_root c (to_each cs m outbox)
      ≡ (if member c cs then root_of m (last_root c outbox) else last_root c outbox)
unfolding to_each
last_root-to_each c [] m outbox = refl
last_root-to_each c (d ∷ cs) m outbox =
    ground (arith, last_root-to_each c cs m outbox, root_of_twice m (last_root c outbox))

-- What leaves alone what they were told last.
pub told-quiet :
    (root : Str) (level : ℕ) (cs : List ℕ) (old new : List Effect)
    → ((c : ℕ) → last_level c new ≡ last_level c old)
    → ((c : ℕ) → last_root c new ≡ last_root c old)
    → told root level cs old ≡ true
    → told root level cs new ≡ true
told-quiet root level [] old new h k t = refl
told-quiet root level (c ∷ cs) old new h k t =
    ground (arith, h c, k c, told-quiet root level cs old new h k)

pub told-remove :
    (root : Str) (level c : ℕ) (cs : List ℕ) (outbox : List Effect)
    → told root level cs outbox ≡ true
    → told root level (remove c cs) outbox ≡ true
told-remove root level c [] outbox t = refl
told-remove root level c (d ∷ cs) outbox t = ground (arith, told-remove root level c cs outbox)

pub told-append :
    (root : Str) (level : ℕ) (cs ds : List ℕ) (outbox : List Effect)
    → told root level (cs ++ ds) outbox ≡ (told root level cs outbox && told root level ds outbox)
told-append root level [] ds outbox = refl
told-append root level (c ∷ cs) ds outbox = ground (arith, told-append root level cs ds outbox)

abbrev pub tell : Str → ℕ → List ℕ → List Effect → List Effect
tell root level cs outbox =
    to_each cs (branch_root_message root) (to_each cs (branch_level_message level) outbox)

-- Who is told knows.
pub told-tell :
    (root : Str) (level : ℕ) (cs all : List ℕ) (outbox : List Effect)
    → within cs all ≡ true
    → told root level cs (tell root level all outbox) ≡ true
told-tell root level [] all outbox h = refl
told-tell root level (c ∷ cs) all outbox h = ground (
  arith,
  told-tell root level cs all outbox,
  last_level-to_each c all (branch_root_message root)
      (to_each all (branch_level_message level) outbox),
  last_root-to_each c all (branch_root_message root)
      (to_each all (branch_level_message level) outbox),
  last_level-to_each c all (branch_level_message level) outbox,
  ==_self level,
  same_self root,
)
