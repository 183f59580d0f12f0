-- ===== src/Transfer/Requests/Listed.antt =====
-- transfer/manager.py: equal transfers in the list.
use aioslsk.Base.{
  ◌≡◌, refl, ap, ◌∙◌, arith, Bool, true, false, not, ◌&&◌, ◌||◌, inl, inr, cases_option, none, List,
  [], ◌∷◌, ◌++◌, same,
}
use aioslsk.Transfer.Model.{Str, Transfer, TransferDirection, upload, download}
use aioslsk.Transfer.State.{World, Call}
use aioslsk.Transfer.State.Run.{identity, call-identity}
use aioslsk.Transfer.Requests.{
  TransferManager, equals, same_direction, find_transfer, update_transfer, add, drop_transfer,
  on_state, reset_remotely_queued_flags,
}

abbrev pub listed : Transfer → List Transfer → Bool
listed t [] = false
listed t (u ∷ us) = equals t.username t.remote_path t.direction u || listed t us

-- No transfer equals a later one.
abbrev pub unique : List Transfer → Bool
unique [] = true
unique (t ∷ ts) = not (listed t ts) && unique ts

-- A method keeps what transfers are compared by.
abbrev pub Keeps : (Transfer → Transfer) → Type 0
Keeps f = (t : Transfer) → identity (f t) ≡ identity t

pub on_state-Keeps : (w : World) (c : Call) → Keeps (on_state w c)
on_state-Keeps w c = call-identity w c

pub equals-Keeps :
    (username path : Str) (d : TransferDirection) (f : Transfer → Transfer) (t : Transfer)
    → Keeps f
    → equals username path d (f t) ≡ equals username path d t
equals-Keeps username path d f t keeps =
    ap
      (λ (i : Str × Str × TransferDirection).
        same path i.0 && same username i.1 && same_direction d i.2)
      (keeps t)

listed-Keeps :
    (f : Transfer → Transfer) (t : Transfer) (us : List Transfer)
    → Keeps f
    → listed (f t) us ≡ listed t us
listed-Keeps f t [] keeps = refl
listed-Keeps f t (u ∷ us) keeps =
    ap (λ (i : Str × Str × TransferDirection). equals i.1 i.0 i.2 u || listed (f t) us) (keeps t)
    ∙ ap (λ (b : Bool). equals t.username t.remote_path t.direction u || b)
        (listed-Keeps f t us keeps)

pub listed-update :
    (u : Transfer) (username path : Str) (d : TransferDirection) (f : Transfer → Transfer)
    (ts : List Transfer)
    → Keeps f
    → listed u (update_transfer username path d f ts) ≡ listed u ts
unfolding update_transfer
listed-update u username path d f [] keeps = refl
listed-update u username path d f (t ∷ ts) keeps = ground (
  arith,
  listed-update u username path d f ts keeps,
  equals-Keeps u.username u.remote_path u.direction f t keeps,
)

pub unique-update :
    (username path : Str) (d : TransferDirection) (f : Transfer → Transfer) (ts : List Transfer)
    → Keeps f
    → unique (update_transfer username path d f ts) ≡ unique ts
unfolding update_transfer
unique-update username path d f [] keeps = refl
unique-update username path d f (t ∷ ts) keeps = ground (
  arith,
  unique-update username path d f ts keeps,
  listed-Keeps f t ts keeps,
  listed-update t username path d f ts keeps,
)

same_sym : (a b : Str) → same a b ≡ same b a
same_sym [] [] = refl
same_sym [] (y ∷ ys) = refl
same_sym (x ∷ xs) [] = refl
same_sym (x ∷ xs) (y ∷ ys) = ground (arith, same_sym xs ys)

same_direction_sym : (d e : TransferDirection) → same_direction d e ≡ same_direction e d
same_direction_sym upload upload = refl
same_direction_sym upload download = refl
same_direction_sym download upload = refl
same_direction_sym download download = refl

equals_sym :
    (t u : Transfer)
    → equals t.username t.remote_path t.direction u ≡ equals u.username u.remote_path u.direction t
equals_sym t u =
    rw
      (
        same_sym t.remote_path u.remote_path,
        same_sym t.username u.username,
        same_direction_sym t.direction u.direction,
      )
      refl

listed-append :
    (u t : Transfer) (ts : List Transfer)
    → listed u (ts ++ (t ∷ [])) ≡ (listed u ts || equals u.username u.remote_path u.direction t)
listed-append u t [] = ground arith
listed-append u t (v ∷ ts) = ground (arith, listed-append u t ts)

unique-append :
    (t : Transfer) (ts : List Transfer)
    → listed t ts ≡ false
    → unique ts ≡ true
    → unique (ts ++ (t ∷ [])) ≡ true
unique-append t [] h k = refl
unique-append t (u ∷ ts) h k =
    ground (arith, unique-append t ts, listed-append u t ts, equals_sym t u)

find_none :
    (t : Transfer) (ts : List Transfer)
    → find_transfer t.username t.remote_path t.direction ts ≡ none
    → listed t ts ≡ false
unfolding find_transfer
find_none t [] h = refl
find_none t (u ∷ ts) h = ground (arith, find_none t ts)

pub unique-add :
    (t : Transfer) (s : TransferManager)
    → unique s.transfers ≡ true
    → unique (add t s).transfers ≡ true
unfolding add
unique-add t s h =
    elim (cases_option (find_transfer t.username t.remote_path t.direction s.transfers)) [
      | inl (u, e) ↦ rw (e, add) h
      | inr e ↦ rw (e, add) (unique-append t s.transfers (find_none t s.transfers e) h)
    ]

listed-drop :
    (u : Transfer) (username path : Str) (d : TransferDirection) (ts : List Transfer)
    → listed u ts ≡ false
    → listed u (drop_transfer username path d ts) ≡ false
unfolding drop_transfer
listed-drop u username path d [] h = refl
listed-drop u username path d (t ∷ ts) h = ground (arith, listed-drop u username path d ts)

pub unique-drop :
    (username path : Str) (d : TransferDirection) (ts : List Transfer)
    → unique ts ≡ true
    → unique (drop_transfer username path d ts) ≡ true
unfolding drop_transfer
unique-drop username path d [] h = refl
unique-drop username path d (t ∷ ts) h =
    ground (arith, unique-drop username path d ts, listed-drop t username path d ts)

listed-reset :
    (u : Transfer) (username : Str) (ts : List Transfer)
    → listed u (reset_remotely_queued_flags username ts) ≡ listed u ts
unfolding reset_remotely_queued_flags
listed-reset u username [] = refl
listed-reset u username (t ∷ ts) = ground (arith, listed-reset u username ts)

pub unique-reset :
    (username : Str) (ts : List Transfer)
    → unique (reset_remotely_queued_flags username ts) ≡ unique ts
unfolding reset_remotely_queued_flags
unique-reset username [] = refl
unique-reset username (t ∷ ts) = ground (
  arith,
  unique-reset username ts,
  listed-reset t username ts,
  listed-Keeps (λ u. record u { remotely_queued = false }) t
      (reset_remotely_queued_flags username ts) (λ u. refl),
)
