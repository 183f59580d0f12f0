-- ===== src/User/Tracking/Tests.antt =====
-- user/manager.py: a friend who does not exist at first is tracked on the second try.
use aioslsk.Base.{arith, ◌≡◌, refl, true, false, List, [], ◌∷◌}
use aioslsk.User.Tracking.{
  TrackingFlag, no_flags, Tracking, new_tracking, track_user, untrack_user, tracking_task,
  tracking_round, request_retry, stop_tracking, set_tracking_state, get_tracking_flags,
  get_tracking_state, answered, silent, tracked, on_tracking_task_done, add_user,
}
use aioslsk.User.Tracking.Desired.{
  Event, track, untrack, round, retry, task_done, step, Reaches, start, next,
  Reaches-get_tracking_flags, desired,
}
use aioslsk.User.Tracking.Drain.{rounds, rounds-get_tracking_flags}
use aioslsk.User.Tracking.Synced.{Synced, step-Synced}

abbrev friend_flag : TrackingFlag
friend_flag = record { requested = false; transfer = false; friend = true }

abbrev run : List Event → Tracking → Tracking
run [] t = t
run (e ∷ es) t = run es (step e t)

abbrev retried : Tracking
retried = run (track friend_flag ∷ round (answered false) true [] ∷ retry ∷ []) new_tracking

abbrev found : Tracking
found = step (round (answered true) true []) retried

found_state : get_tracking_state found ≡ tracked
unfolding tracking_task request_retry track_user tracking_round get_tracking_state
found_state = refl

found_messages : found.sent ≡ add_user ∷ add_user ∷ []
unfolding tracking_task request_retry track_user tracking_round
found_messages = refl

found-Reaches : Reaches found friend_flag
unfolding tracking_task request_retry track_user tracking_round
found-Reaches =
    next (round (answered true) true []) _ _
      (next retry _ _
        (next (round (answered false) true []) _ _
          (next (track friend_flag) new_tracking no_flags start refl) refl)
        tt)
      refl

Reaches-get_tracking_flags_example : get_tracking_flags found ≡ friend_flag
unfolding tracking_task request_retry track_user tracking_round
Reaches-get_tracking_flags_example = Reaches-get_tracking_flags found friend_flag found-Reaches refl

retried-Synced : Synced retried
unfolding tracking_task request_retry track_user tracking_round
retried-Synced = refl

step-Synced_example : Synced found
unfolding tracking_task request_retry track_user tracking_round
step-Synced_example =
    step-Synced (round (answered true) true []) retried refl (refl, refl) retried-Synced

-- A request between the end of the task and its callback is lost.
abbrev dropped : Tracking
dropped =
    run (untrack friend_flag ∷ round (answered true) true [] ∷ track friend_flag ∷ task_done ∷ [])
      found

dropped_flags : get_tracking_flags dropped ≡ no_flags
unfolding tracking_task request_retry track_user tracking_round get_tracking_flags untrack_user
    on_tracking_task_done stop_tracking set_tracking_state
dropped_flags = refl

-- Three requests, and a server that does not answer at first.
abbrev asked : Tracking
asked = run (track friend_flag ∷ untrack friend_flag ∷ track friend_flag ∷ []) new_tracking

rounds-get_tracking_flags_example :
    get_tracking_flags (rounds (silent ∷ silent ∷ answered true ∷ []) asked) ≡ desired asked
unfolding tracking_task request_retry track_user tracking_round untrack_user
rounds-get_tracking_flags_example =
    rounds-get_tracking_flags (silent ∷ silent ∷ answered true ∷ []) asked refl (omega arith)
