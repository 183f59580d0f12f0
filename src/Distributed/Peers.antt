-- ===== src/Distributed/Peers.antt =====
-- The objects of the distributed peers, by the numbers of their connections.
use aioslsk.Base.{ℕ, ◌==◌, ◌≡◌, refl, ap, arith, false, if◌then◌else◌}
use aioslsk.Base.{Option, none, some, List, [], ◌∷◌, ◌++◌, member, remove}
use aioslsk.Distributed.{Str, DistributedPeer, get_peer, remove_peer, set_branch, is_some}

abbrev pub ids : List DistributedPeer → List ℕ
ids [] = []
ids (p ∷ ps) = p.connection ∷ ids ps

pub ids-remove_peer :
    (c : ℕ) (ps : List DistributedPeer) → ids (remove_peer c ps) ≡ remove c (ids ps)
unfolding remove_peer
ids-remove_peer c [] = refl
ids-remove_peer c (p ∷ ps) = ground (arith, ids-remove_peer c ps)

pub ids-set_branch :
    (c : ℕ) (level : Option ℕ) (root : Option Str) (ps : List DistributedPeer)
    → ids (set_branch c level root ps) ≡ ids ps
unfolding set_branch
ids-set_branch c level root [] = refl
ids-set_branch c level root (p ∷ ps) = ground (arith, ids-set_branch c level root ps)

pub ids-append : (ps qs : List DistributedPeer) → ids (ps ++ qs) ≡ ids ps ++ ids qs
ids-append [] qs = refl
ids-append (p ∷ ps) qs = ap (λ (l : List ℕ). p.connection ∷ l) (ids-append ps qs)

pub is_some-get_peer :
    (c : ℕ) (ps : List DistributedPeer) → is_some (get_peer c ps) ≡ member c (ids ps)
unfolding get_peer
is_some-get_peer c [] = refl
is_some-get_peer c (p ∷ ps) = ground (arith, is_some-get_peer c ps)

pub get_peer-remove_peer :
    (c d : ℕ) (ps : List DistributedPeer)
    → (c == d) ≡ false
    → get_peer c (remove_peer d ps) ≡ get_peer c ps
unfolding get_peer remove_peer
get_peer-remove_peer c d [] h = refl
get_peer-remove_peer c d (p ∷ ps) h = ground (arith, get_peer-remove_peer c d ps)

abbrev pub written : Option ℕ → Option Str → Option DistributedPeer → Option DistributedPeer
written level root none = none
written level root (some p) = some (record p { branch_level = level; branch_root = root })

pub get_peer-set_branch :
    (c d : ℕ) (level : Option ℕ) (root : Option Str) (ps : List DistributedPeer)
    → get_peer c (set_branch d level root ps)
      ≡ (if c == d then written level root (get_peer c ps) else get_peer c ps)
unfolding get_peer set_branch
get_peer-set_branch c d level root [] = ground arith
get_peer-set_branch c d level root (p ∷ ps) = ground (arith, get_peer-set_branch c d level root ps)

pub get_peer-append :
    (c : ℕ) (ps qs : List DistributedPeer)
    → get_peer c (ps ++ qs) ≡ (if member c (ids ps) then get_peer c ps else get_peer c qs)
unfolding get_peer
get_peer-append c [] qs = refl
get_peer-append c (p ∷ ps) qs = ground (arith, get_peer-append c ps qs)
