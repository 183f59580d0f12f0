-- ===== src/Transfer/Queue/Count.antt =====
-- How many transfers of a list pass a test, and that ranking in transfer/manager.py keeps this.
use aioslsk.Base.{ℕ, ◌+◌, ◌≡◌, refl, arith, Bool, if◌then◌else◌, leb, inl, inr, Bool-cases}
use aioslsk.Base.{List, [], ◌∷◌, ◌++◌}
use aioslsk.Transfer.Model.{Transfer}
use aioslsk.Transfer.Queue.{Settings, rank, insert_by_rank, sort_by_rank, prioritize_uploads}
use mathlib.Core.List.{reverse, reverse-cons}

unfoldable pub count : (Transfer → Bool) → List Transfer → ℕ
count p [] = 0
count p (t ∷ ts) = (if p t then 1 else 0) + count p ts

module _ (p : Transfer → Bool) where
  count-append : (ts us : List Transfer) → count p (ts ++ us) ≡ count p ts + count p us
  unfolding count
  count-append [] us = omega arith
  count-append (t ∷ ts) us = omega (arith, count-append ts us)

  count-reverse : (ts : List Transfer) → count p (reverse ts) ≡ count p ts
  unfolding count
  count-reverse [] = refl
  count-reverse (t ∷ ts) =
      rw reverse-cons (omega (arith, count-append (reverse ts) (t ∷ []), count-reverse ts))

  module _ (settings : Settings) where
    count-insert_by_rank :
        (t : Transfer) (ts : List Transfer)
        → count p (insert_by_rank settings t ts) ≡ (if p t then 1 else 0) + count p ts
    unfolding count insert_by_rank
    count-insert_by_rank t [] = refl
    count-insert_by_rank t (u ∷ us) = elim (Bool-cases (leb (rank settings t) (rank settings u))) [
      | inl e ↦ rw e
      | inr e ↦ rw e (omega (arith, count-insert_by_rank t us))
    ]

    count-sort_by_rank : (ts : List Transfer) → count p (sort_by_rank settings ts) ≡ count p ts
    unfolding count sort_by_rank
    count-sort_by_rank [] = refl
    count-sort_by_rank (t ∷ ts) =
        omega (arith, count-insert_by_rank t (sort_by_rank settings ts), count-sort_by_rank ts)

    -- Ranking neither drops nor repeats an upload.
    pub count-prioritize_uploads :
        (ts : List Transfer) → count p (prioritize_uploads settings ts) ≡ count p ts
    unfolding prioritize_uploads
    count-prioritize_uploads ts =
        omega (arith, count-reverse (sort_by_rank settings ts), count-sort_by_rank ts)
