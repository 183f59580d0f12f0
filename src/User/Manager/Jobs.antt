-- ===== src/User/Manager/Jobs.antt =====
-- user/manager.py: `_management_job`, which compares the settings with those it saw last.
use aioslsk.Base.{
  ℕ, ◌==◌, ==_self, ◌≡◌, refl, arith, Bool, true, false, not, ◌&&◌, ◌||◌, if◌then◌else◌, Str, same,
  same_self, same→eq, elem, all, Bool-cases, inl, inr,
}
use aioslsk.Base.{Option, none, some, List, [], ◌∷◌, ◌++◌}
use aioslsk.User.Manager.{Settings, get, flags_of}

-- `set.difference`.
abbrev pub difference : List Str → List Str → List Str
difference [] names = []
difference (a ∷ xs) names = if elem a names then difference xs names else a ∷ difference xs names

-- `==` of sets, and of dictionaries.
abbrev pub same_set : List Str → List Str → Bool
same_set xs ys = all (λ a. elem a ys) xs && all (λ b. elem b xs) ys

abbrev pub equal_entry : Option ℕ → Option ℕ → Bool
equal_entry none none = true
equal_entry none (some b) = false
equal_entry (some a) none = false
equal_entry (some a) (some b) = a == b

abbrev pub same_dict : List (Str × ℕ) → List (Str × ℕ) → Bool
same_dict xs ys =
    all (λ e. equal_entry (get e.0 xs) (get e.0 ys)) xs
    && all (λ e. equal_entry (get e.0 xs) (get e.0 ys)) ys

abbrev pub known {ℓ} : {A : Type ℓ} → Option A → Bool
known none = false
known (some a) = true

-- The old flags and the new ones.
abbrev pub Change : Type 0
Change = ℕ × ℕ

-- The names that are no longer blocked, with their old flags.
abbrev pub unblocked : List (Str × ℕ) → List (Str × ℕ) → List (Str × Change)
unblocked [] now = []
unblocked ((name, flags) ∷ old) now =
    let rest = unblocked old now in if known (get name now) then rest else (name, (flags, 0)) ∷ rest

-- The names whose flags are not as they were.
abbrev pub changed : List (Str × ℕ) → List (Str × ℕ) → List (Str × Change)
changed old [] = []
changed old ((name, flags) ∷ now) =
    let rest = changed old now in
    if flags == flags_of name old then rest else (name, (flags_of name old, flags)) ∷ rest

pub data ManagementEvent : Type 0 where
  friend_list_changed : List Str → List Str → ManagementEvent
  block_list_changed : List (Str × Change) → ManagementEvent

abbrev pub friend_events : Settings → Settings → List ManagementEvent
friend_events context settings =
    if same_set context.friends settings.friends
    then []
    else friend_list_changed (difference settings.friends context.friends)
        (difference context.friends settings.friends)
      ∷ []

abbrev pub block_changes : Settings → Settings → List (Str × Change)
block_changes context settings =
    unblocked context.blocked settings.blocked ++ changed context.blocked settings.blocked

abbrev pub block_events : Settings → Settings → List ManagementEvent
block_events context settings =
    if same_dict context.blocked settings.blocked
    then []
    else block_list_changed (block_changes context settings) ∷ []

-- The context afterwards, and the events.
unfoldable pub management_job : Settings → Settings → Settings × List ManagementEvent
management_job context settings =
    let events = friend_events context settings ++ block_events context settings in
    (elim events [ [] ↦ context | e ∷ es ↦ settings ], events)

elem-difference :
    (a : Str) (xs names : List Str)
    → elem a (difference xs names) ≡ (elem a xs && not (elem a names))
elem-difference a [] names = refl
elem-difference a (b ∷ xs) names = elim (Bool-cases (same a b)) [
  | inl e ↦ rw (same→eq a b e) (ground (arith, elem-difference b xs names, same_self b))
  | inr e ↦ ground (arith, elem-difference a xs names)
]

get-append {ℓ} :
    {A : Type ℓ} (name : Str) (xs ys : List (Str × A))
    → get name (xs ++ ys) ≡ (if known (get name xs) then get name xs else get name ys)
get-append name [] ys = refl
get-append name ((key, a) ∷ xs) ys = ground (arith, get-append name xs ys)

abbrev gone : Option ℕ → Option ℕ → Option Change
gone none now = none
gone (some old) none = some (old, 0)
gone (some old) (some flags) = none

get-unblocked :
    (name : Str) (old now : List (Str × ℕ))
    → get name (unblocked old now) ≡ gone (get name old) (get name now)
get-unblocked name [] now = refl
get-unblocked name ((key, flags) ∷ old) now = elim (Bool-cases (same name key)) [
  | inl e ↦ rw (same→eq name key e) (ground (arith, get-unblocked key old now, same_self key))
  | inr e ↦ ground (arith, get-unblocked name old now)
]

-- The keys of a dictionary are distinct.
abbrev pub distinct_keys : List (Str × ℕ) → Bool
distinct_keys [] = true
distinct_keys ((key, flags) ∷ entries) = not (known (get key entries)) && distinct_keys entries

abbrev altered : ℕ → Option ℕ → Option Change
altered old none = none
altered old (some flags) = if flags == old then none else some (old, flags)

get-changed :
    (name : Str) (old now : List (Str × ℕ))
    → distinct_keys now ≡ true
    → get name (changed old now) ≡ altered (flags_of name old) (get name now)
get-changed name old [] h = refl
get-changed name old ((key, flags) ∷ now) h = elim (Bool-cases (same name key)) [
  | inl e ↦ rw (same→eq name key e) (ground (arith, get-changed key old now, same_self key))
  | inr e ↦ ground (arith, get-changed name old now)
]

-- What is reported of a name.
abbrev pub change_of : Option ℕ → Option ℕ → Option Change
change_of none none = none
change_of none (some flags) = if flags == 0 then none else some (0, flags)
change_of (some old) none = some (old, 0)
change_of (some old) (some flags) = if flags == old then none else some (old, flags)

change_of_lem :
    (old now : Option ℕ) (flags : ℕ)
    → flags ≡ elim old [ none ↦ 0 | some n ↦ n ]
    → (if known (gone old now) then gone old now else altered flags now) ≡ change_of old now
change_of_lem none none flags h = refl
change_of_lem none (some n) flags h = rw h refl
change_of_lem (some m) none flags h = refl
change_of_lem (some m) (some n) flags h = rw h refl

-- Where the keys of the settings are distinct, the reported changes of the blocked users have the
-- old and the new flags of a name that was blocked and is no longer in the settings, or is in them
-- with other flags than before, no flags standing for a name that was not there, and have no other
-- name.
pub block_changes-get :
    (context settings : Settings) (name : Str)
    → distinct_keys settings.blocked ≡ true
    → get name (block_changes context settings)
      ≡ change_of (get name context.blocked) (get name settings.blocked)
block_changes-get context settings name h =
    rw
      (
        get-append name (unblocked context.blocked settings.blocked)
            (changed context.blocked settings.blocked),
        get-unblocked name context.blocked settings.blocked,
        get-changed name context.blocked settings.blocked h,
      )
      (change_of_lem (get name context.blocked) (get name settings.blocked)
        (flags_of name context.blocked) refl)

equal_entry_self : (o : Option ℕ) → equal_entry o o ≡ true
equal_entry_self none = refl
equal_entry_self (some n) = ==_self n

all_equal :
    (blocked entries : List (Str × ℕ))
    → all (λ e. equal_entry (get e.0 blocked) (get e.0 blocked)) entries ≡ true
all_equal blocked [] = refl
all_equal blocked (e ∷ entries) =
    rw (equal_entry_self (get e.0 blocked)) (all_equal blocked entries)

same_dict_self : (blocked : List (Str × ℕ)) → same_dict blocked blocked ≡ true
same_dict_self blocked = rw (all_equal blocked blocked) refl

all-elem-cons :
    (b : Str) (xs ys : List Str)
    → all (λ a. elem a ys) xs ≡ true
    → all (λ a. elem a (b ∷ ys)) xs ≡ true
all-elem-cons b [] ys h = refl
all-elem-cons b (a ∷ xs) ys h = ground (arith, all-elem-cons b xs ys)

all-elem_self : (xs : List Str) → all (λ a. elem a xs) xs ≡ true
all-elem_self [] = refl
all-elem_self (a ∷ xs) = rw (same_self a) (all-elem-cons a xs xs (all-elem_self xs))

same_set_self : (xs : List Str) → same_set xs xs ≡ true
same_set_self xs = rw (all-elem_self xs) refl

no_events : (settings : Settings) → (management_job settings settings).1 ≡ []
unfolding management_job
no_events settings = rw (same_set_self settings.friends, same_dict_self settings.blocked) refl

seen_again :
    (context settings : Settings) (events : List ManagementEvent)
    → (management_job context settings).1 ≡ events
    → (management_job (elim events [ [] ↦ context | e ∷ es ↦ settings ]) settings).1 ≡ []
seen_again context settings [] h = h
seen_again context settings (e ∷ es) h = no_events settings

-- A change of the friends or of the blocked users is reported once: with the settings as they are, the
-- next round of the job reports nothing.
pub management_job-again :
    (context settings : Settings)
    → (management_job (management_job context settings).0 settings).1 ≡ []
unfolding management_job
management_job-again context settings =
    seen_again context settings (management_job context settings).1 refl

-- What is added to the friends that were seen last, and taken from them, makes the friends of the
-- settings.
pub difference-friends :
    (a : Str) (old now : List Str)
    → ((elem a old && not (elem a (difference old now))) || elem a (difference now old))
      ≡ elem a now
difference-friends a old now = ground (arith, elem-difference a old now, elem-difference a now old)
