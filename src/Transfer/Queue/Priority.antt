-- ===== src/Transfer/Queue/Priority.antt =====
-- The order of the uploads that `_prioritize_uploads` of transfer/manager.py returns.
use aioslsk.Base.{ℕ, ◌≤◌, ◌≡◌, arith, Bool, true, leb, leb→le, inl, inr, Bool-cases}
use aioslsk.Base.{List, [], ◌∷◌, ◌++◌, All}
use aioslsk.Transfer.Model.{Transfer}
use aioslsk.Transfer.Queue.{
  Settings, rank, insert_by_rank, sort_by_rank, prioritize_uploads, get_queued_transfers,
  queued_from, usernames, get_uploading,
}
use mathlib.Core.List.{reverse, reverse-cons}

module _ {ℓ} (P : Transfer → Type ℓ) where
  All-append : (ts us : List Transfer) → All P ts → All P us → All P (ts ++ us)
  All-append [] us h k = k
  All-append (t ∷ ts) us (h, hs) k = (h, All-append ts us hs k)

  All-reverse : (ts : List Transfer) → All P ts → All P (reverse ts)
  All-reverse [] h = tt
  All-reverse (t ∷ ts) (h, hs) =
      rw reverse-cons (All-append (reverse ts) (t ∷ []) (All-reverse ts hs) (h, tt))

module _ (settings : Settings) where
  abbrev Most : ℕ → List Transfer → Type 0
  Most n ts = All (λ u. rank settings u ≤ n) ts

  abbrev Least : ℕ → List Transfer → Type 0
  Least n ts = All (λ u. n ≤ rank settings u) ts

  -- The ranks do not rise, and do not fall.
  abbrev pub Ranked : List Transfer → Type 0
  Ranked [] = Unit
  Ranked (t ∷ ts) = Most (rank settings t) ts × Ranked ts

  abbrev Rising : List Transfer → Type 0
  Rising [] = Unit
  Rising (t ∷ ts) = Least (rank settings t) ts × Rising ts

  Least-le : (m n : ℕ) (ts : List Transfer) → m ≤ n → Least n ts → Least m ts
  Least-le m n [] h k = tt
  Least-le m n (t ∷ ts) h (k, ks) = (omega arith, Least-le m n ts h ks)

  insert_by_rank-Least :
      (n : ℕ) (t : Transfer) (ts : List Transfer)
      → n ≤ rank settings t
      → Least n ts
      → Least n (insert_by_rank settings t ts)
  unfolding insert_by_rank
  insert_by_rank-Least n t [] h k = (h, tt)
  insert_by_rank-Least n t (u ∷ us) h (k, ks) =
      elim (Bool-cases (leb (rank settings t) (rank settings u))) [
        | inl e ↦ rw e (h, (k, ks))
        | inr e ↦ rw e (k, insert_by_rank-Least n t us h ks)
      ]

  insert_by_rank-Rising :
      (t : Transfer) (ts : List Transfer) → Rising ts → Rising (insert_by_rank settings t ts)
  unfolding insert_by_rank
  insert_by_rank-Rising t [] k = (tt, tt)
  insert_by_rank-Rising t (u ∷ us) (k, ks) =
      elim (Bool-cases (leb (rank settings t) (rank settings u))) [
        | inl e ↦
            let h : rank settings t ≤ rank settings u = leb→le _ _ e in
            rw e ((h, Least-le _ _ us h k), (k, ks))
        | inr e ↦
            let h : rank settings u ≤ rank settings t = ground arith in
            rw e (insert_by_rank-Least _ t us h k, insert_by_rank-Rising t us ks)
      ]

  sort_by_rank-Rising : (ts : List Transfer) → Rising (sort_by_rank settings ts)
  unfolding sort_by_rank
  sort_by_rank-Rising [] = tt
  sort_by_rank-Rising (t ∷ ts) = insert_by_rank-Rising t _ (sort_by_rank-Rising ts)

  append-Ranked :
      (ts : List Transfer) (t : Transfer)
      → Ranked ts
      → Least (rank settings t) ts
      → Ranked (ts ++ (t ∷ []))
  append-Ranked [] t r k = (tt, tt)
  append-Ranked (u ∷ us) t (r, rs) (k, ks) = (
    All-append (λ v. rank settings v ≤ rank settings u) us (t ∷ []) r (k, tt),
    append-Ranked us t rs ks,
  )

  reverse-Ranked : (ts : List Transfer) → Rising ts → Ranked (reverse ts)
  reverse-Ranked [] k = tt
  reverse-Ranked (t ∷ ts) (k, ks) = rw reverse-cons (
      append-Ranked (reverse ts) t (reverse-Ranked ts ks)
        (All-reverse (λ u. rank settings t ≤ rank settings u) ts k))

  prioritize_uploads-Ranked : (ts : List Transfer) → Ranked (prioritize_uploads settings ts)
  unfolding prioritize_uploads
  prioritize_uploads-Ranked ts = reverse-Ranked (sort_by_rank settings ts) (sort_by_rank-Rising ts)

  -- The uploads come in an order in which the ranks do not rise.
  pub get_queued_transfers-Ranked :
      (ts : List Transfer) → Ranked (get_queued_transfers settings ts).1
  unfolding get_queued_transfers
  get_queued_transfers-Ranked ts =
      prioritize_uploads-Ranked (queued_from settings (usernames (get_uploading ts)) [] ts).1

  in_front :
      (n : ℕ) (t : Transfer) (before after : List Transfer)
      → Most n (before ++ (t ∷ after))
      → rank settings t ≤ n
  in_front n t [] after (h, hs) = h
  in_front n t (v ∷ vs) after (h, hs) = in_front n t vs after hs

  before-Least :
      (before after : List Transfer) (t : Transfer)
      → Ranked (before ++ (t ∷ after))
      → Least (rank settings t) before
  before-Least [] after t r = tt
  before-Least (u ∷ us) after t (r, rs) =
      (in_front (rank settings u) t us after r, before-Least us after t rs)

  abbrev pub privileged? : Transfer → Bool
  privileged? t = (settings.get_user_object t.username).privileged

  rank-privileged :
      (t u : Transfer)
      → rank settings t ≤ rank settings u
      → privileged? t ≡ true
      → privileged? u ≡ true
  unfolding rank
  rank-privileged t u h p = ground arith

  before_privileged :
      (t : Transfer) (ts : List Transfer)
      → privileged? t ≡ true
      → Least (rank settings t) ts
      → All (λ u. privileged? u ≡ true) ts
  before_privileged t [] p k = tt
  before_privileged t (u ∷ us) p (k, ks) = (rank-privileged t u k p, before_privileged t us p ks)

  -- The upload of a privileged user has only those of privileged users in front of it.
  pub privileged_first :
      (ts before after : List Transfer) (t : Transfer)
      → (get_queued_transfers settings ts).1 ≡ before ++ (t ∷ after)
      → privileged? t ≡ true
      → All (λ u. privileged? u ≡ true) before
  privileged_first ts before after t e p =
      before_privileged t before p
        (before-Least before after t (rw e at (get_queued_transfers-Ranked ts)))
