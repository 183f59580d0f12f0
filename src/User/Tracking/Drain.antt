-- ===== src/User/Tracking/Drain.antt =====
-- user/manager.py: the rounds of the tracking task until its queue is empty.
use aioslsk.Base.{
  ℕ, suc, ◌≤◌, ◌+◌, ◌≡◌, refl, sym, ap, ◌∙◌, arith, Bool, true, false, not, ◌&&◌, ◌||◌,
  if◌then◌else◌, Option, none, some, List, [], ◌∷◌, ◌++◌, length, Bool-cases, inl, inr,
  cases_option,
}
use aioslsk.User.Tracking.{
  TrackingFlag, empty?, TrackingRequest, TrackedUser, Tracking, Answer, set_tracking_state, idle,
  stop_tracking, request_tracking, tracking_round, tracking_task, task_of, start_round,
  get_tracking_flags,
}
use aioslsk.User.Tracking.Desired.{
  desired, wanted_by, apply_all, runs, runs_first, tracking_task-round, step-desired, round,
  empty-no_flags,
}

-- Rounds to which nothing arrives meanwhile.
abbrev pub rounds : List Answer → Tracking → Tracking
rounds [] t = t
rounds (reply ∷ replies) t = rounds replies (tracking_task reply true [] t)

-- The requests that are still handled.
abbrev pub waiting : Option TrackedUser → ℕ
waiting none = 0
waiting (some u) = if u.finished then 0 else length u.queue

-- A task that has ended has left no flags.
abbrev pub ends_empty : Option TrackedUser → Bool
ends_empty none = true
ends_empty (some u) = not u.finished || empty? u.flags

round-ends_empty :
    (reply : Answer) (r : TrackingRequest) (t : Tracking) (u : TrackedUser)
    → u.finished ≡ false
    → ends_empty (tracking_round reply true [] r t u).tracked_user ≡ true
unfolding tracking_round stop_tracking request_tracking set_tracking_state
round-ends_empty reply r t u n = ground arith

length-append_nil : (rs : List TrackingRequest) → length (rs ++ []) ≡ length rs
length-append_nil [] = refl
length-append_nil (r ∷ rs) = ap suc (length-append_nil rs)

round-waiting :
    (reply : Answer) (r : TrackingRequest) (t : Tracking) (u : TrackedUser)
    → u.finished ≡ false
    → waiting (tracking_round reply true [] r t u).tracked_user ≤ length u.queue
unfolding tracking_round stop_tracking request_tracking set_tracking_state
round-waiting reply r t u n = ground (arith, length-append_nil u.queue)

idle_task :
    (reply : Answer) (t : Tracking) (u : TrackedUser) (q : List TrackingRequest)
    → (not u.finished && not (idle q)) ≡ false
    → start_round reply true [] t u q ≡ t
idle_task reply t u [] h = refl
idle_task reply t u (r ∷ rest) h = let k : u.finished ≡ true = ground arith in rw k refl

length_idle : (q : List TrackingRequest) → idle q ≡ true → length q ≡ 0
length_idle [] h = refl
length_idle (r ∷ rest) h = ground arith

round_shortens :
    (reply : Answer) (t : Tracking)
    → runs t.tracked_user ≡ true
    → (ends_empty (tracking_task reply true [] t).tracked_user ≡ true)
      × (waiting (tracking_task reply true [] t).tracked_user + 1 ≤ waiting t.tracked_user)
round_shortens reply t h = elim (cases_option t.tracked_user) [
  | inr e ↦ let n : false ≡ true = rw e at h in ground arith
  | inl (u, e) ↦
      let (r, rest, q, n) = runs_first u (rw e at h) in
      let u' : TrackedUser = record u { queue = rest } in
      let fewer = round-waiting reply r t u' n in
      let before : waiting t.tracked_user ≡ suc (length rest) = rw e (rw (n, q) refl) in
      rw (tracking_task-round reply true [] t u r rest e q n)
        (round-ends_empty reply r t u' n, rw before (omega arith))
]

idle_rounds :
    (reply : Answer) (t : Tracking)
    → runs t.tracked_user ≡ false
    → tracking_task reply true [] t ≡ t
unfolding tracking_task
idle_rounds reply t h = elim (cases_option t.tracked_user) [
  | inr e ↦ ap (task_of reply true [] t) e
  | inl (u, e) ↦ ap (task_of reply true [] t) e ∙ idle_task reply t u u.queue (rw e at h)
]

idle_waiting : (o : Option TrackedUser) → runs o ≡ false → waiting o ≡ 0
idle_waiting none h = refl
idle_waiting (some u) h = ground (arith, length_idle u.queue)

apply_none :
    (q : List TrackingRequest) (flags : TrackingFlag) → length q ≡ 0 → apply_all q flags ≡ flags
apply_none [] flags h = refl
apply_none (r ∷ rest) flags h = ground arith

quiet_flags :
    (u : TrackedUser) → waiting (some u) ≡ 0 → ends_empty (some u) ≡ true → u.flags ≡ wanted_by u
quiet_flags u h k = elim (Bool-cases u.finished) [
  | inl e ↦ rw e (empty-no_flags u.flags (rw e at k))
  | inr e ↦ rw e (sym (apply_none u.queue u.flags (rw e at h)))
]

settled_flags :
    (o : Option TrackedUser) (t : Tracking)
    → t.tracked_user ≡ o
    → waiting o ≡ 0
    → ends_empty o ≡ true
    → get_tracking_flags t ≡ desired t
unfolding get_tracking_flags
settled_flags none t e h k = rw e refl
settled_flags (some u) t e h k = rw e (quiet_flags u h k)

-- Whatever the server answers, after as many rounds as there are requests to handle, to which
-- nothing arrives meanwhile, the flags are those that were asked for, if a task that has ended has
-- left no flags.
pub rounds-get_tracking_flags :
    (replies : List Answer) (t : Tracking)
    → ends_empty t.tracked_user ≡ true
    → waiting t.tracked_user ≤ length replies
    → get_tracking_flags (rounds replies t) ≡ desired t
rounds-get_tracking_flags [] t k h = settled_flags t.tracked_user t refl (omega arith) k
rounds-get_tracking_flags (reply ∷ replies) t k h = elim (Bool-cases (runs t.tracked_user)) [
  | inr n ↦
      rw (idle_rounds reply t n)
        (rounds-get_tracking_flags replies t k (rw (idle_waiting t.tracked_user n) (omega arith)))
  | inl n ↦
      let t' = tracking_task reply true [] t in
      let (ends, shorter) = round_shortens reply t n in
      rounds-get_tracking_flags replies t' ends (omega arith)
      ∙ step-desired (round reply true []) t n
]
