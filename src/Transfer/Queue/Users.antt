-- ===== src/Transfer/Queue/Users.antt =====
-- transfer/manager.py: `manage_user_tracking`, and what it makes of the tracking of a user.
use aioslsk.Base.{
  ◌≡◌, refl, ◌∙◌, arith, true, false, not, ◌||◌, Bool-cases, inl, inr, if◌then◌else◌, List, [], ◌∷◌,
  elem, Str,
}
use aioslsk.Transfer.Model.{Transfer, is_finalized}
use aioslsk.Transfer.Queue.{filter, usernames}
use aioslsk.User.Tracking.{TrackingFlag, add_flag, remove_flag, Tracking, track_user, untrack_user}
use aioslsk.User.Tracking.Desired.{desired, ended, step-desired, track, untrack}

unfoldable pub get_unfinished_transfers : List Transfer → List Transfer
get_unfinished_transfers = filter (λ t. not (is_finalized t))

unfoldable pub get_finished_transfers : List Transfer → List Transfer
get_finished_transfers = filter is_finalized

abbrev pub transfer_flag : TrackingFlag
transfer_flag = record { requested = false; transfer = true; friend = false }

-- What the two loops do to the tracking of one user.
unfoldable pub manage_user_tracking : List Transfer → Str → Tracking → Tracking
manage_user_tracking transfers username t =
    if elem username (usernames (get_unfinished_transfers transfers))
    then track_user transfer_flag t
    else if elem username (usernames (get_finished_transfers transfers))
    then untrack_user transfer_flag t
    else t

finished_or_not :
    (username : Str) (ts : List Transfer)
    → (elem username (usernames (get_unfinished_transfers ts))
        || elem username (usernames (get_finished_transfers ts)))
      ≡ elem username (usernames ts)
unfolding get_unfinished_transfers get_finished_transfers
finished_or_not username [] = refl
finished_or_not username (t ∷ ts) = ground (arith, finished_or_not username ts)

add_transfer_flag : (f : TrackingFlag) → add_flag transfer_flag f ≡ record f { transfer = true }
add_transfer_flag f = ground arith

remove_transfer_flag :
    (f : TrackingFlag) → remove_flag transfer_flag f ≡ record f { transfer = false }
remove_transfer_flag f = ground arith

-- A user who has transfers is wanted for them just where one is unfinished, and for other reasons as
-- before, if the tracking task of the user has not ended with its callback still to come.
pub manage_user_tracking-desired :
    (transfers : List Transfer) (username : Str) (t : Tracking)
    → ended t.tracked_user ≡ false
    → elem username (usernames transfers) ≡ true
    → desired (manage_user_tracking transfers username t) ≡ record (desired t) {
      transfer = elem username (usernames (get_unfinished_transfers transfers));
    }
unfolding manage_user_tracking
manage_user_tracking-desired transfers username t n h =
    elim (Bool-cases (elem username (usernames (get_unfinished_transfers transfers)))) [
      | inl e ↦ rw e (step-desired (track transfer_flag) t n ∙ add_transfer_flag (desired t))
      | inr e ↦
          let finished : elem username (usernames (get_finished_transfers transfers)) ≡ true =
            ground (arith, finished_or_not username transfers) in
          rw (e, finished)
            (step-desired (untrack transfer_flag) t n ∙ remove_transfer_flag (desired t))
    ]
