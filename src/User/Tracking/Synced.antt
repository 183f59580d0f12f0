-- ===== src/User/Tracking/Synced.antt =====
-- user/manager.py: the server, the state and the retries beside the flags of a tracked user.
use aioslsk.Base.{
  ◌≡◌, refl, arith, Bool, true, false, not, ◌&&◌, ◌||◌, if◌then◌else◌, Option, none, some, List, [],
  ◌∷◌, ◌++◌, Bool-cases, inl, inr, cases_option, any,
}
use aioslsk.User.Tracking.{
  no_flags, empty?, TrackingRequest, add_request, remove_request, operation, is_retry, TrackedUser,
  ServerMessage, add_user, remove_user, new_user, Tracking, get_tracked_user_object, track_user,
  untrack_user, Answer, not_sent, silent, answered, set_tracking_state, stop_tracking,
  request_tracking, tracking_round, request_retry, on_tracking_task_done, stop, put, TrackingState,
  untracked, tracked, retry_pending,
}
use aioslsk.User.Tracking.Desired.{
  Event, track, untrack, round, retry, task_done, server_closed, step, Allowed, runs_first,
  tracking_task-round,
}

-- What the server was told last.
abbrev pub told : List ServerMessage → Bool
told [] = false
told (add_user ∷ sent) = true
told (remove_user ∷ sent) = false

abbrev pub untracked? : TrackingState → Bool
untracked? untracked = true
untracked? tracked = false
untracked? retry_pending = false

abbrev pub retry_pending? : TrackingState → Bool
retry_pending? untracked = false
retry_pending? tracked = false
retry_pending? retry_pending = true

abbrev pub iff : Bool → Bool → Bool
iff true b = b
iff false b = not b

abbrev pub retry_queued : List TrackingRequest → Bool
retry_queued rs = any is_retry rs

abbrev pub user_synced : TrackedUser → Bool → Bool
user_synced u told =
    if u.finished
    then not told && not u.retry_task
    else iff told (not (empty? u.flags))
      && iff (untracked? u.state) (empty? u.flags)
      && (not (retry_pending? u.state) || u.retry_task || retry_queued u.queue)
      && (not (empty? u.flags) || not u.retry_task)

abbrev pub synced : Option TrackedUser → Bool → Bool
synced none told = not told
synced (some u) told = user_synced u told

-- While the task of the user runs, the server is told of the user just where there are flags, and so is
-- the state `untracked` where there are none; where a retry is pending, its task sleeps or its request
-- is in the queue; and none sleeps where there are no flags. Without an entry, or after the end of the
-- task, the server is not told of the user, and no retry sleeps.
abbrev pub Synced : Tracking → Type 0
Synced t = synced t.tracked_user (told t.sent) ≡ true

retry_queued-append :
    (rs qs : List TrackingRequest) → retry_queued (rs ++ qs) ≡ (retry_queued rs || retry_queued qs)
retry_queued-append [] qs = refl
retry_queued-append (r ∷ rs) qs = ground (arith, retry_queued-append rs qs)

put_synced :
    (r : TrackingRequest) (u : TrackedUser) (b : Bool)
    → user_synced u b ≡ true
    → user_synced (put r u) b ≡ true
put_synced r u b h = ground (arith, retry_queued-append u.queue (r ∷ []))

woken_synced :
    (u : TrackedUser) (b : Bool)
    → u.retry_task ≡ true
    → user_synced u b ≡ true
    → user_synced (put (add_request no_flags) (record u { retry_task = false })) b ≡ true
woken_synced u b k h = ground (arith, retry_queued-append u.queue (add_request no_flags ∷ []))

-- The messages of the step are sent.
abbrev pub is_sent : Answer → Bool
is_sent not_sent = false
is_sent silent = true
is_sent (answered exists) = true

abbrev pub Sends : Event → Type 0
Sends (round reply removed arriving) = (removed ≡ true) × (is_sent reply ≡ true)
Sends e = Unit

stop-Synced :
    (was_tracked : Bool) (t : Tracking) (u : TrackedUser)
    → empty? u.flags ≡ true
    → told t.sent ≡ was_tracked
    → (was_tracked ≡ false → untracked? u.state ≡ true)
    → Synced (stop_tracking was_tracked true t u)
unfolding stop_tracking set_tracking_state
stop-Synced true t u z k n = ground arith
stop-Synced false t u z k n = ground arith

request-Synced :
    (reply : Answer) (t : Tracking) (u : TrackedUser)
    → empty? u.flags ≡ false
    → u.finished ≡ false
    → is_sent reply ≡ true
    → Synced (request_tracking reply t u)
unfolding request_tracking set_tracking_state
request-Synced not_sent t u z n k = ground arith
request-Synced silent t u z n k = ground arith
request-Synced (answered exists) t u z n k = ground arith

round-Synced :
    (reply : Answer) (arriving : List TrackingRequest) (r : TrackingRequest)
    (rest : List TrackingRequest) (t : Tracking) (u : TrackedUser)
    → u.finished ≡ false
    → user_synced (record u { queue = r ∷ rest }) (told t.sent) ≡ true
    → is_sent reply ≡ true
    → Synced (tracking_round reply true arriving r t (record u { queue = rest }))
unfolding tracking_round
round-Synced reply arriving r rest t u n h k =
    let u' : TrackedUser = record u { flags = operation r u.flags; queue = rest ++ arriving } in
    elim (Bool-cases (empty? (operation r u.flags))) [
      | inl z ↦ rw z (stop-Synced (not (empty? u.flags)) t u' z (ground arith) (ground arith))
      | inr z ↦ elim (Bool-cases (empty? u.flags || is_retry r)) [
        | inl a ↦ rw (z, a) (request-Synced reply t u' z n k)
        | inr a ↦ rw (z, a) (ground (arith, retry_queued-append rest arriving))
      ]
    ]

-- If its messages are sent, a round is one of a running task with a request, and no request comes
-- between the end of a task and its callback, every step keeps this: for a user whose task runs, the
-- server was told to track the user last just where there are flags, the state is `untracked` just
-- where there are none, a pending retry has its task asleep or its request in the queue, and no task
-- sleeps where there are no flags; for a user without an entry, or whose task has ended, the server was
-- not told to track the user last, or not told of the user since it was closed, and no retry sleeps.
pub step-Synced : (e : Event) (t : Tracking) → Allowed e t → Sends e → Synced t → Synced (step e t)
unfolding track_user untrack_user request_retry on_tracking_task_done stop get_tracked_user_object
step-Synced (track flag) t a k h = elim (cases_option t.tracked_user) [
  | inr e ↦ rw e (put_synced (add_request flag) new_user (told t.sent) (ground arith))
  | inl (u, e) ↦ rw e (put_synced (add_request flag) u (told t.sent) (rw e at h))
]
step-Synced (untrack flag) t a k h = elim (cases_option t.tracked_user) [
  | inr e ↦ rw e (rw e at h)
  | inl (u, e) ↦ rw e (put_synced (remove_request flag) u (told t.sent) (rw e at h))
]
step-Synced (round reply removed arriving) t a (sent, k) h = elim (cases_option t.tracked_user) [
  | inr e ↦ let n : false ≡ true = rw e at a in ground arith
  | inl (u, e) ↦
      let (r, rest, q, n) = runs_first u (rw e at a) in
      let h' : user_synced (record u { queue = r ∷ rest }) (told t.sent) ≡ true =
        let h0 : user_synced u (told t.sent) ≡ true = rw e at h in rw q at h0 in
      rw (tracking_task-round reply removed arriving t u r rest e q n)
        (rw sent (round-Synced reply arriving r rest t u n h' k))
]
step-Synced retry t a k h = elim (cases_option t.tracked_user) [
  | inr e ↦ rw e (rw e at h)
  | inl (u, e) ↦
      let h' : user_synced u (told t.sent) ≡ true = rw e at h in
      rw e (ground (arith, woken_synced u (told t.sent)))
]
step-Synced task_done t a k h = ground arith
step-Synced server_closed t a k h = ground arith
