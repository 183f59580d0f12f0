-- ===== src/User/Tracking/Desired.antt =====
-- user/manager.py: tracking a user beside a set of flags, which every request changes at once.
use aioslsk.Base.{
  ◌≡◌, refl, sym, ap, ◌∙◌, arith, Bool, true, false, not, ◌&&◌, ◌||◌, if◌then◌else◌, Option, none,
  some, List, [], ◌∷◌, ◌++◌, Bool-cases, inl, inr, cases_option,
}
use aioslsk.User.Tracking.{
  TrackingFlag, no_flags, empty?, TrackingRequest, add_request, remove_request, add_flag,
  remove_flag, operation, is_retry, TrackedUser, Tracking, new_tracking, get_tracked_user_object,
  track_user, untrack_user, Answer, set_tracking_state, idle, stop_tracking, request_tracking,
  tracking_round, tracking_task, task_of, start_round, request_retry, on_tracking_task_done, stop,
  get_tracking_flags, put,
}

-- What the manager is asked to do, and what its tasks do.
pub data Event : Type 0 where
  track untrack : TrackingFlag → Event
  round : Answer → Bool → List TrackingRequest → Event
  retry task_done server_closed : Event

-- A server that is closed forgets what it was sent.
abbrev pub step : Event → Tracking → Tracking
step (track flag) t = track_user flag t
step (untrack flag) t = untrack_user flag t
step (round reply removed arriving) t = tracking_task reply removed arriving t
step retry t = request_retry t
step task_done t = on_tracking_task_done t
step server_closed t = record (stop t) { sent = [] }

abbrev pub apply_all : List TrackingRequest → TrackingFlag → TrackingFlag
apply_all [] flags = flags
apply_all (r ∷ rs) flags = apply_all rs (operation r flags)

-- What is asked of the set.
abbrev pub want : Event → TrackingFlag → TrackingFlag
want (track flag) flags = add_flag flag flags
want (untrack flag) flags = remove_flag flag flags
want (round reply removed arriving) flags = apply_all arriving flags
want retry flags = flags
want task_done flags = flags
want server_closed flags = no_flags

abbrev pub wanted_by : TrackedUser → TrackingFlag
wanted_by u = if u.finished then no_flags else apply_all u.queue u.flags

-- The set that a state stands for.
abbrev pub desired : Tracking → TrackingFlag
desired t = elim t.tracked_user [ none ↦ no_flags | some u ↦ wanted_by u ]

abbrev pub runs : Option TrackedUser → Bool
runs none = false
runs (some u) = not u.finished && not (idle u.queue)

abbrev pub ended : Option TrackedUser → Bool
ended none = false
ended (some u) = u.finished

-- A round is one of a task with a request, and no request comes between the end of a task and its
-- callback.
abbrev pub Allowed : Event → Tracking → Type 0
Allowed (track flag) t = ended t.tracked_user ≡ false
Allowed (untrack flag) t = ended t.tracked_user ≡ false
Allowed (round reply removed arriving) t = runs t.tracked_user ≡ true
Allowed e t = Unit

apply_all-append :
    (rs qs : List TrackingRequest) (flags : TrackingFlag)
    → apply_all (rs ++ qs) flags ≡ apply_all qs (apply_all rs flags)
apply_all-append [] qs flags = refl
apply_all-append (r ∷ rs) qs flags = apply_all-append rs qs (operation r flags)

pub empty-no_flags : (f : TrackingFlag) → empty? f ≡ true → f ≡ no_flags
empty-no_flags f h = ground arith

add_no_flags : (f : TrackingFlag) → add_flag no_flags f ≡ f
add_no_flags f = ground arith

remove_of_none : (f : TrackingFlag) → remove_flag f no_flags ≡ no_flags
remove_of_none f = refl

-- A round takes the first request from the queue, and ends with nothing left to do or goes on.
idle_wanted :
    (rs : List TrackingRequest)
    → (if idle rs then no_flags else apply_all rs no_flags) ≡ apply_all rs no_flags
idle_wanted [] = refl
idle_wanted (r ∷ rs) = refl

stop-desired :
    (was_tracked removed : Bool) (t : Tracking) (u : TrackedUser)
    → u.flags ≡ no_flags
    → desired (stop_tracking was_tracked removed t u) ≡ apply_all u.queue u.flags
unfolding stop_tracking set_tracking_state
stop-desired true removed t u z = rw z (idle_wanted u.queue)
stop-desired false removed t u z = rw z (idle_wanted u.queue)

kept-wanted : (u : TrackedUser) → u.finished ≡ false → wanted_by u ≡ apply_all u.queue u.flags
kept-wanted u n = rw n refl

request-desired :
    (reply : Answer) (t : Tracking) (u : TrackedUser)
    → u.finished ≡ false
    → desired (request_tracking reply t u) ≡ apply_all u.queue u.flags
unfolding request_tracking set_tracking_state
request-desired reply t u n = rw n refl

tracking_round-desired :
    (reply : Answer) (removed : Bool) (arriving : List TrackingRequest) (r : TrackingRequest)
    (t : Tracking) (u : TrackedUser)
    → u.finished ≡ false
    → desired (tracking_round reply removed arriving r t u)
      ≡ apply_all (u.queue ++ arriving) (operation r u.flags)
unfolding tracking_round
tracking_round-desired reply removed arriving r t u n =
    let u' : TrackedUser = record u { flags = operation r u.flags; queue = u.queue ++ arriving } in
    elim (Bool-cases (empty? (operation r u.flags))) [
      | inl z ↦ rw z (
          stop-desired (not (empty? u.flags)) removed t u' (empty-no_flags (operation r u.flags) z))
      | inr z ↦ elim (Bool-cases (empty? u.flags || is_retry r)) [
        | inl a ↦ rw (z, a) (request-desired reply t u' n)
        | inr a ↦ rw (z, a) (kept-wanted u' n)
      ]
    ]

put-wanted :
    (r : TrackingRequest) (u : TrackedUser)
    → u.finished ≡ false
    → wanted_by (put r u) ≡ operation r (wanted_by u)
put-wanted r u n = rw (n, apply_all-append u.queue (r ∷ []) u.flags) refl

pub runs_first :
    (u : TrackedUser)
    → runs (some u) ≡ true
    → (r : TrackingRequest) × (rest : List TrackingRequest) × (u.queue ≡ r ∷ rest)
      × (u.finished ≡ false)
runs_first u h = go u.queue refl h
  where
    go :
        (q : List TrackingRequest)
        → u.queue ≡ q
        → (not u.finished && not (idle q)) ≡ true
        → (r : TrackingRequest) × (rest : List TrackingRequest) × (u.queue ≡ r ∷ rest)
          × (u.finished ≡ false)
    go [] e k = ground arith
    go (r ∷ rest) e k = (r, rest, e, ground arith)

pub tracking_task-round :
    (reply : Answer) (removed : Bool) (arriving : List TrackingRequest) (t : Tracking)
    (u : TrackedUser) (r : TrackingRequest) (rest : List TrackingRequest)
    → t.tracked_user ≡ some u
    → u.queue ≡ r ∷ rest
    → u.finished ≡ false
    → tracking_task reply removed arriving t
      ≡ tracking_round reply removed arriving r t (record u { queue = rest })
unfolding tracking_task
tracking_task-round reply removed arriving t u r rest e q n =
    ap (task_of reply removed arriving t) e
    ∙ ap (start_round reply removed arriving t u) q
    ∙ rw n refl

task-desired :
    (reply : Answer) (removed : Bool) (arriving : List TrackingRequest) (t : Tracking)
    (u : TrackedUser)
    → t.tracked_user ≡ some u
    → runs (some u) ≡ true
    → desired (tracking_task reply removed arriving t) ≡ apply_all arriving (wanted_by u)
task-desired reply removed arriving t u e h =
    let (r, rest, q, n) = runs_first u h in
    let u' : TrackedUser = record u { queue = rest } in
    ap desired (tracking_task-round reply removed arriving t u r rest e q n)
    ∙ tracking_round-desired reply removed arriving r t u' n
    ∙ apply_all-append rest arriving (operation r u.flags)
    ∙ sym (ap (apply_all arriving) (simp (n, q)))

-- Each step does to the wanted set of flags what is asked by it: what the task, its retries and its end
-- do is not seen.
pub step-desired :
    (e : Event) (t : Tracking) → Allowed e t → desired (step e t) ≡ want e (desired t)
unfolding track_user untrack_user request_retry on_tracking_task_done stop get_tracked_user_object
step-desired (track flag) t a = elim (cases_option t.tracked_user) [
  | inr e ↦ rw e refl
  | inl (u, e) ↦ rw e (put-wanted (add_request flag) u (rw e at a))
]
step-desired (untrack flag) t a = elim (cases_option t.tracked_user) [
  | inr e ↦ rw e refl
  | inl (u, e) ↦ rw e (put-wanted (remove_request flag) u (rw e at a))
]
step-desired (round reply removed arriving) t a = elim (cases_option t.tracked_user) [
  | inr e ↦ let k : false ≡ true = rw e at a in ground arith
  | inl (u, e) ↦ task-desired reply removed arriving t u e (rw e at a) ∙ rw e refl
]
step-desired retry t a = elim (cases_option t.tracked_user) [
  | inr e ↦ rw e refl
  | inl (u, e) ↦ rw e (
      ground (
        arith,
        apply_all-append u.queue (add_request no_flags ∷ []) u.flags,
        add_no_flags (apply_all u.queue u.flags),
      ))
]
step-desired task_done t a = ground arith
step-desired server_closed t a = ground arith

-- The states that the manager comes to, with the set of flags that was asked for.
pub data Reaches : Tracking → TrackingFlag → Type 0 where
  start : Reaches new_tracking no_flags
  next :
      (e : Event) (t : Tracking) (flags : TrackingFlag)
      → Reaches t flags
      → Allowed e t
      → Reaches (step e t) (want e flags)

pub Reaches-desired : (t : Tracking) (flags : TrackingFlag) → Reaches t flags → desired t ≡ flags
Reaches-desired _ _ start = refl
Reaches-desired _ _ (next e t flags r a) =
    step-desired e t a ∙ ap (want e) (Reaches-desired t flags r)

-- Nothing is left to do.
abbrev pub settled : Option TrackedUser → Bool
settled none = true
settled (some u) = not u.finished && idle u.queue

idle_applies :
    (rs : List TrackingRequest) (flags : TrackingFlag) → idle rs ≡ true → apply_all rs flags ≡ flags
idle_applies [] flags h = refl
idle_applies (r ∷ rs) flags h = ground arith

settled_flags : (t : Tracking) → settled t.tracked_user ≡ true → get_tracking_flags t ≡ desired t
unfolding get_tracking_flags
settled_flags t k = elim (cases_option t.tracked_user) [
  | inr e ↦ rw e refl
  | inl (u, e) ↦
      let k' : (not u.finished && idle u.queue) ≡ true = rw e at k in
      rw e (ground (arith, idle_applies u.queue u.flags))
]

-- Every request changes the flags that are asked for at once, and a closed connection to the server
-- clears them. Once its queue is empty, the tracking task has come to just these flags, by whatever
-- rounds, failures and retries, and in whatever order these met with the requests, if no request comes
-- between the end of a task and its callback.
pub Reaches-get_tracking_flags :
    (t : Tracking) (flags : TrackingFlag)
    → Reaches t flags
    → settled t.tracked_user ≡ true
    → get_tracking_flags t ≡ flags
Reaches-get_tracking_flags t flags r k = settled_flags t k ∙ Reaches-desired t flags r
