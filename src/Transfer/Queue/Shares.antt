-- ===== src/Transfer/Queue/Shares.antt =====
-- transfer/manager.py: `manage_shares_changed`, which aborts the uploads that are no longer
-- allowed and queues again those that are. Its tasks run one after the other here.
use aioslsk.Base.{◌≡◌, ◌≢◌, arith, Bool, true, false, not, ◌&&◌, ◌||◌, if◌then◌else◌}
use aioslsk.Base.{Option, none, some, List, [], ◌∷◌}
use aioslsk.Transfer.Model.{
  Str, State, queued, initializing, uploading, complete, failed, aborted, paused, Transfer, upload,
  is_upload,
}
use aioslsk.Transfer.State.{World, call, call_queue, call_abort}
use aioslsk.Transfer.State.Invariant.{IsValid, is_some, aborted?}
use aioslsk.Base.{same}

-- `AbortReason`.
abbrev pub requested : Str
requested = 82 ∷ 101 ∷ 113 ∷ 117 ∷ 101 ∷ 115 ∷ 116 ∷ 101 ∷ 100 ∷ []

abbrev pub blocked : Str
blocked = 66 ∷ 108 ∷ 111 ∷ 99 ∷ 107 ∷ 101 ∷ 100 ∷ []

abbrev pub file_not_shared : Str
file_not_shared =
    70 ∷ 105 ∷ 108 ∷ 101 ∷ 32 ∷ 110 ∷ 111 ∷ 116 ∷ 32 ∷ 115 ∷ 104 ∷ 97 ∷ 114 ∷ 101 ∷ 100 ∷ []

abbrev pub abort_requested : Option Str → Bool
abort_requested none = false
abort_requested (some reason) = same reason requested

-- The uploads that `manage_shares_changed` leaves out.
abbrev pub ended? : State → Bool
ended? complete = true
ended? failed = true
ended? _ = false

abbrev pub differ : Bool → Bool → Bool
differ true b = not b
differ false b = b

-- What the loop does about the reason that was found: a task that queues or aborts, or the reason.
unfoldable pub settle : World → Bool → Option Str → Transfer → Transfer
settle w should_change abort_reason t =
    if should_change
    then (if aborted? t.state
        then (call w (call_queue false) t).transfer
        else (call w (call_abort abort_reason) t).transfer)
    else elim abort_reason [ none ↦ t | some r ↦ record t { abort_reason = some r } ]

-- The states of an upload in which `abort` or `queue` is defined.
abbrev pub managed? : State → Bool
managed? queued = true
managed? initializing = true
managed? uploading = true
managed? paused = true
managed? aborted = true
managed? _ = false

-- The state and the reason that belong to the reason that was found.
abbrev pub Settled : Option Str → Transfer → Type 0
Settled none t = (t.state ≢ aborted) × (t.abort_reason ≡ none)
Settled (some r) t = (t.state ≡ aborted) × (t.abort_reason ≡ some r)

abbrev pub has_reason : Str → Transfer → Bool
has_reason reason t = elim t.abort_reason [ none ↦ false | some r ↦ same r reason ]

abbrev pub changes : Option Str → Transfer → Bool
changes reason t = differ (aborted? t.state) (is_some reason)

settle-Settled :
    (w : World) (reason : Option Str) (t : Transfer)
    → IsValid t
    → t.direction ≡ upload
    → managed? t.state ≡ true
    → Settled reason (settle w (changes reason t) reason t)
unfolding settle call
settle-Settled w none t v d m = ground arith
settle-Settled w (some r) t v d m = ground arith

settle-identity :
    (w : World) (reason : Option Str) (t : Transfer)
    → ((settle w (changes reason t) reason t).username ≡ t.username)
      × ((settle w (changes reason t) reason t).remote_path ≡ t.remote_path)
unfolding settle call
settle-identity w reason t = ground arith

Settled-settle :
    (w : World) (reason : Option Str) (t : Transfer)
    → Settled reason t
    → settle w (changes reason t) reason t ≡ t
unfolding settle
Settled-settle w none t (s, r) = ground arith
Settled-settle w (some x) t (s, r) = ground arith

-- `is_blocked` is that of the settings, for uploads; `is_shared` stands for
-- `find_shared_item_cache`, on a path and a name.
module _ (is_blocked : Str → Bool) (is_shared : Str → Str → Bool) where
  -- The first condition that holds gives the reason.
  unfoldable pub abort_reason_of : Transfer → Option Str
  abort_reason_of t =
      if abort_requested t.abort_reason
      then some requested
      else if is_blocked t.username
      then some blocked
      else if not (is_shared t.remote_path t.username)
      then some file_not_shared
      else none

  unfoldable pub evaluate_aborted_state : Transfer → Bool × Option Str
  unfolding abort_reason_of
  evaluate_aborted_state t =
      let abort_reason = abort_reason_of t in
      (differ (aborted? t.state) (is_some abort_reason), abort_reason)

  unfoldable pub manage_upload : World → Transfer → Transfer
  unfolding evaluate_aborted_state settle
  manage_upload w t =
      let (should_change, abort_reason) = evaluate_aborted_state t in
      settle w should_change abort_reason t

  unfoldable pub manage_shares_changed : World → List Transfer → List Transfer
  unfolding manage_upload
  manage_shares_changed w [] = []
  manage_shares_changed w (t ∷ ts) =
      (if is_upload t && not (ended? t.state) then manage_upload w t else t)
      ∷ manage_shares_changed w ts

  reason_again :
      (t t' : Transfer)
      → t'.username ≡ t.username
      → t'.remote_path ≡ t.remote_path
      → Settled (abort_reason_of t) t'
      → abort_reason_of t' ≡ abort_reason_of t
  unfolding abort_reason_of
  reason_again t t' n p s = ground arith

  Settled-reasons :
      (t t' : Transfer)
      → Settled (abort_reason_of t) t'
      → let asked = abort_requested t.abort_reason in
        let bars = is_blocked t.username in
        let shares = is_shared t.remote_path t.username in
        (aborted? t'.state ≡ (asked || bars || not shares))
        × (is_some t'.abort_reason ≡ (asked || bars || not shares))
        × (has_reason requested t' ≡ asked)
        × (has_reason blocked t' ≡ (not asked && bars))
        × (has_reason file_not_shared t' ≡ (not asked && not bars && not shares))
  unfolding abort_reason_of
  Settled-reasons t t' s = ground arith

  -- Managing a valid upload that is queued, initializing, uploading, paused or aborted leaves it
  -- aborted just where its abort was requested before, its user is blocked, or its file is not shared
  -- with the user; with the reason `requested` where that was its reason, else `blocked` where the user
  -- is blocked, else `file_not_shared`, and with no reason where it is not aborted; and managing it
  -- once more changes nothing.
  pub manage_upload-Settled :
      (w w' : World) (t : Transfer)
      → IsValid t
      → t.direction ≡ upload
      → managed? t.state ≡ true
      → let t' : Transfer = manage_upload w t in
        let asked = abort_requested t.abort_reason in
        let bars = is_blocked t.username in
        let shares = is_shared t.remote_path t.username in
        (aborted? t'.state ≡ (asked || bars || not shares))
        × (is_some t'.abort_reason ≡ (asked || bars || not shares))
        × (has_reason requested t' ≡ asked)
        × (has_reason blocked t' ≡ (not asked && bars))
        × (has_reason file_not_shared t' ≡ (not asked && not bars && not shares))
        × (manage_upload w' t' ≡ t')
  unfolding manage_upload evaluate_aborted_state
  manage_upload-Settled w w' t v d m =
      let r : Option Str = abort_reason_of t in
      let t' : Transfer = settle w (changes r t) r t in
      let settled : Settled r t' = settle-Settled w r t v d m in
      let (name, path) = settle-identity w r t in
      let again : manage_upload w' t' ≡ t' =
        rw (reason_again t t' name path settled) (Settled-settle w' r t' settled) in
      let (state, reason, first, second, third) = Settled-reasons t t' settled in
      (state, reason, first, second, third, again)
