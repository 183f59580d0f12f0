-- ===== src/Transfer/Queue/Slots.antt =====
-- transfer/manager.py: the uploads that hold a slot.
use aioslsk.Base.{
  ℕ, zero, suc, ◌≡◌, refl, min, arith, length, take, Bool, true, false, List, [], ◌∷◌,
}
use aioslsk.Transfer.Model.{
  Transfer, upload, download, unset, virgin, queued, initializing, incomplete, downloading,
  uploading, complete, failed, aborted, paused,
}
use aioslsk.Transfer.Queue.{get_uploading}
use aioslsk.Transfer.Queue.Count.{count}

-- An upload that is tried or under way.
abbrev pub holds_slot : Transfer → Bool
holds_slot t = elim t.direction [
  | download ↦ false
  | upload ↦ elim t.state [
    | initializing ↦ true
    | downloading ↦ true
    | uploading ↦ true
    | unset ↦ false
    | virgin ↦ false
    | queued ↦ false
    | incomplete ↦ false
    | complete ↦ false
    | failed ↦ false
    | aborted ↦ false
    | paused ↦ false
  ]
]

pub length-get_uploading : (ts : List Transfer) → length (get_uploading ts) ≡ count holds_slot ts
unfolding get_uploading count
length-get_uploading [] = refl
length-get_uploading (t ∷ ts) = ground (arith, length-get_uploading ts)

pub length-take-min : (n : ℕ) (ts : List Transfer) → length (take n ts) ≡ min n (length ts)
length-take-min zero ts = omega arith
length-take-min (suc n) [] = omega arith
length-take-min (suc n) (t ∷ ts) = omega (arith, length-take-min n ts)
