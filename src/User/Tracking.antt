-- ===== src/User/Tracking.antt =====
-- user/manager.py: `UserTrackingManager`. The users have nothing in common but the network, so that
-- the manager is modelled for one user name: `tracked_user` is the entry of `_tracked_users`.
pub mod Desired
pub mod Synced
pub mod Drain
mod Tests
use aioslsk.Base.{
  Bool, true, false, not, ◌&&◌, ◌||◌, if◌then◌else◌, Option, none, some, List, [], ◌∷◌, ◌++◌,
}

-- `TrackingFlag`, a set of three flags.
pub record TrackingFlag : Type 0 where
  pub requested : Bool
  pub transfer : Bool
  pub friend : Bool

abbrev pub no_flags : TrackingFlag
no_flags = record { requested = false; transfer = false; friend = false }

abbrev pub empty? : TrackingFlag → Bool
empty? f = not f.requested && not f.transfer && not f.friend

pub data TrackingState : Type 0 where
  untracked tracked retry_pending : TrackingState

-- `TrackingRequest`: the operation with its flag.
pub data TrackingRequest : Type 0 where
  add_request remove_request : TrackingFlag → TrackingRequest

abbrev pub add_flag : TrackingFlag → TrackingFlag → TrackingFlag
add_flag flag flags = record {
  requested = flags.requested || flag.requested;
  transfer = flags.transfer || flag.transfer;
  friend = flags.friend || flag.friend;
}

abbrev pub remove_flag : TrackingFlag → TrackingFlag → TrackingFlag
remove_flag flag flags = record {
  requested = flags.requested && not flag.requested;
  transfer = flags.transfer && not flag.transfer;
  friend = flags.friend && not flag.friend;
}

abbrev pub operation : TrackingRequest → TrackingFlag → TrackingFlag
operation (add_request flag) flags = add_flag flag flags
operation (remove_request flag) flags = remove_flag flag flags

abbrev pub is_retry : TrackingRequest → Bool
is_retry (add_request flag) = empty? flag
is_retry (remove_request flag) = empty? flag

-- `retry_task` is whether that task still sleeps; `finished` whether the tracking task has ended, with
-- its callback still to come.
pub record TrackedUser : Type 0 where
  pub flags : TrackingFlag
  pub state : TrackingState
  pub queue : List TrackingRequest
  pub finished : Bool
  pub retry_task : Bool

pub data ServerMessage : Type 0 where
  add_user remove_user : ServerMessage

-- `sent` are the messages to the server, and `changes` the states that the listeners are told of,
-- the newest first.
pub record Tracking : Type 0 where
  pub tracked_user : Option TrackedUser
  pub sent : List ServerMessage
  pub changes : List TrackingState

abbrev pub new_user : TrackedUser
new_user = record {
  flags = no_flags;
  state = untracked;
  queue = [];
  finished = false;
  retry_task = false;
}

unfoldable pub get_tracking_flags : Tracking → TrackingFlag
get_tracking_flags t = elim t.tracked_user [ none ↦ no_flags | some u ↦ u.flags ]

unfoldable pub get_tracking_state : Tracking → TrackingState
get_tracking_state t = elim t.tracked_user [ none ↦ untracked | some u ↦ u.state ]

-- `_get_tracked_user_object`.
unfoldable pub get_tracked_user_object : Tracking → TrackedUser
get_tracked_user_object t = elim t.tracked_user [ none ↦ new_user | some u ↦ u ]

abbrev pub put : TrackingRequest → TrackedUser → TrackedUser
put r u = record u { queue = u.queue ++ (r ∷ []) }

unfoldable pub track_user : TrackingFlag → Tracking → Tracking
unfolding get_tracked_user_object
track_user flag t = record t {
  tracked_user = some (put (add_request flag) (get_tracked_user_object t));
}

unfoldable pub untrack_user : TrackingFlag → Tracking → Tracking
untrack_user flag t = elim t.tracked_user [
  | none ↦ t
  | some u ↦ record t { tracked_user = some (put (remove_request flag) u) }
]

-- What comes of `_request_tracking`: the message is not sent, or there is no answer, or the answer says
-- whether the user exists.
pub data Answer : Type 0 where
  not_sent silent : Answer
  answered : Bool → Answer

abbrev pub retries : Answer → Bool
retries not_sent = true
retries silent = true
retries (answered exists) = not exists

abbrev pub messages : Answer → List ServerMessage → List ServerMessage
messages not_sent sent = sent
messages silent sent = add_user ∷ sent
messages (answered exists) sent = add_user ∷ sent

-- A new retry task takes the place of the old one.
abbrev pub sleeps : TrackingState → Bool → Bool
sleeps untracked old = old
sleeps tracked old = old
sleeps retry_pending old = true

-- `_set_tracking_state`.
unfoldable pub set_tracking_state : TrackingState → Tracking → TrackedUser → Tracking
set_tracking_state state t u = record t {
  tracked_user = some (record u { state = state; retry_task = sleeps state u.retry_task });
  changes = state ∷ t.changes;
}

-- Where the tracking task ends: if the queue is empty.
abbrev pub idle : List TrackingRequest → Bool
idle [] = true
idle (r ∷ rest) = false

-- The flags are gone; `u` has the requests that came meanwhile. `removed` is whether the message is
-- sent.
unfoldable pub stop_tracking : Bool → Bool → Tracking → TrackedUser → Tracking
unfolding set_tracking_state
stop_tracking was_tracked removed t u =
    let u' = record u { retry_task = false; finished = idle u.queue } in
    if was_tracked
    then set_tracking_state untracked
        (if removed then record t { sent = remove_user ∷ t.sent } else t) u'
    else record t { tracked_user = some u' }

unfoldable pub request_tracking : Answer → Tracking → TrackedUser → Tracking
unfolding set_tracking_state
request_tracking reply t u =
    set_tracking_state (if retries reply then retry_pending else tracked)
      (record t { sent = messages reply t.sent }) u

-- A round of `_tracking_task` with the request in front of the queue; `arriving` is what is put on the
-- queue while the task waits for the network.
unfoldable pub tracking_round :
    Answer → Bool → List TrackingRequest → TrackingRequest → Tracking → TrackedUser → Tracking
unfolding stop_tracking request_tracking
tracking_round reply removed arriving request t u =
    let previous_flags = u.flags in
    let flags = operation request u.flags in
    let u' = record u { flags = flags; queue = u.queue ++ arriving } in
    if empty? flags
    then stop_tracking (not (empty? previous_flags)) removed t u'
    else if empty? previous_flags || is_retry request
    then request_tracking reply t u'
    else record t { tracked_user = some u' }

abbrev pub start_round :
    Answer → Bool → List TrackingRequest → Tracking → TrackedUser → List TrackingRequest → Tracking
start_round reply removed arriving t u [] = t
start_round reply removed arriving t u (r ∷ rest) =
    if u.finished then t else tracking_round reply removed arriving r t (record u { queue = rest })

abbrev pub task_of : Answer → Bool → List TrackingRequest → Tracking → Option TrackedUser → Tracking
task_of reply removed arriving t none = t
task_of reply removed arriving t (some u) = start_round reply removed arriving t u u.queue

unfoldable pub tracking_task : Answer → Bool → List TrackingRequest → Tracking → Tracking
tracking_task reply removed arriving t = task_of reply removed arriving t t.tracked_user

-- `_request_retry`, when it has slept.
unfoldable pub request_retry : Tracking → Tracking
request_retry t = elim t.tracked_user [
  | none ↦ t
  | some u ↦
      if u.retry_task
      then record t {
        tracked_user = some (put (add_request no_flags) (record u { retry_task = false }));
      }
      else t
]

-- `_on_tracking_task_done`.
unfoldable pub on_tracking_task_done : Tracking → Tracking
on_tracking_task_done t = elim t.tracked_user [
  | none ↦ t
  | some u ↦ if u.finished then record t { tracked_user = none } else t
]

-- `stop`: both tasks are cancelled.
unfoldable pub stop : Tracking → Tracking
stop t = elim t.tracked_user [
  | none ↦ t
  | some u ↦ record t { tracked_user = some (record u { finished = true; retry_task = false }) }
]

abbrev pub new_tracking : Tracking
new_tracking = record { tracked_user = none; sent = []; changes = [] }
