-- ===== src/Transfer/Storage.antt =====
-- How transfers are kept between two runs: `__getstate__` and `__setstate__` of transfer/model.py,
-- and `read_cache` of transfer/manager.py.
mod Tests
use aioslsk.Base.{
  ℕ, ◌≡◌, refl, ◌==◌, arith, if◌then◌else◌, Bool, true, false, Option, none, some, List, [], ◌∷◌,
}
use aioslsk.Transfer.Model.{
  Str, State, initializing, incomplete, complete, aborted, Transfer, TransferDirection,
  is_transferring, is_processing, processing?, transferring?, reset_time_vars, get_tasks,
}
use aioslsk.Transfer.State.{World, Call, call, call_queue}
use aioslsk.Transfer.State.Run.{identity}
use aioslsk.Transfer.Queue.Shares.{requested}

-- The dictionary that is stored: the fields but for the unpickable ones, the state by its number.
-- Older caches have no `abort_reason`.
pub record Stored : Type 0 where
  pub state : State
  pub direction : TransferDirection
  pub username : Str
  pub remote_path : Str
  pub local_path : Option Str
  pub remotely_queued : Bool
  pub place_in_queue : Option ℕ
  pub fail_reason : Option Str
  pub abort_reason : Option (Option Str)
  pub filesize : Option ℕ
  pub bytes_transfered : ℕ
  pub queue_attempts : ℕ
  pub last_queue_attempt : ℕ
  pub upload_request_attempts : ℕ
  pub last_upload_request_attempt : ℕ
  pub start_time : Option ℕ
  pub complete_time : Option ℕ

unfoldable pub get_state : Transfer → Stored
get_state t = record {
  state = t.state;
  direction = t.direction;
  username = t.username;
  remote_path = t.remote_path;
  local_path = t.local_path;
  remotely_queued = t.remotely_queued;
  place_in_queue = t.place_in_queue;
  fail_reason = t.fail_reason;
  abort_reason = some t.abort_reason;
  filesize = t.filesize;
  bytes_transfered = t.bytes_transfered;
  queue_attempts = t.queue_attempts;
  last_queue_attempt = t.last_queue_attempt;
  upload_request_attempts = t.upload_request_attempts;
  last_upload_request_attempt = t.last_upload_request_attempt;
  start_time = t.start_time;
  complete_time = t.complete_time;
}

-- A transfer that was aborted before reasons were kept was aborted on request.
unfoldable pub restored_reason : State → Option Str → Option Str
restored_reason state (some reason) = some reason
restored_reason aborted none = some requested
restored_reason _ none = none

unfoldable pub set_state : Stored → Transfer
unfolding restored_reason
set_state s = record {
  state = s.state;
  direction = s.direction;
  username = s.username;
  remote_path = s.remote_path;
  local_path = s.local_path;
  remotely_queued = s.remotely_queued;
  place_in_queue = s.place_in_queue;
  fail_reason = s.fail_reason;
  abort_reason = restored_reason s.state (elim s.abort_reason [ none ↦ none | some r ↦ r ]);
  filesize = s.filesize;
  bytes_transfered = s.bytes_transfered;
  queue_attempts = s.queue_attempts;
  last_queue_attempt = s.last_queue_attempt;
  upload_request_attempts = s.upload_request_attempts;
  last_upload_request_attempt = s.last_upload_request_attempt;
  start_time = s.start_time;
  complete_time = s.complete_time;
  speed_log = [];
  remotely_queue_task = none;
  transfer_task = none;
}

unfoldable pub is_transfered : Transfer → Bool
is_transfered t = elim t.filesize [ none ↦ false | some size ↦ size == t.bytes_transfered ]

abbrev pub initializing? : State → Bool
initializing? initializing = true
initializing? _ = false

-- The loop's body, but for adding the transfer to the list.
unfoldable pub correct_state : World → Transfer → Transfer
unfolding is_transfered reset_time_vars
correct_state w stored =
    let t = record stored { remotely_queued = false } in
    if initializing? t.state
    then (call w (call_queue false) t).transfer
    else if is_transferring t
    then reset_time_vars (record t { state = if is_transfered t then complete else incomplete })
    else t

unfoldable pub read_cache : World → List Stored → List Transfer
unfolding correct_state set_state
read_cache w [] = []
read_cache w (s ∷ ss) = correct_state w (set_state s) ∷ read_cache w ss

-- Storing a transfer and restoring it gives all of it but the speed log and the tasks; one that was
-- aborted without a reason gets the reason that it was requested.
set_state-get_state :
    (t : Transfer)
    → set_state (get_state t) ≡ record t {
      abort_reason = restored_reason t.state t.abort_reason;
      speed_log = [];
      remotely_queue_task = none;
      transfer_task = none;
    }
unfolding set_state get_state
set_state-get_state t = refl

-- What holds of a transfer that was read from the cache.
pub record IsAtRest (s : Stored) (t : Transfer) : Type 0 where
  pub resting : is_processing t ≡ false
  pub known : identity t ≡ (s.remote_path, s.username, s.direction)
  pub progress : t.bytes_transfered ≡ s.bytes_transfered
  pub idle : get_tasks t ≡ []
  pub local : t.remotely_queued ≡ false

-- Every stored transfer, in whatever state it was stored, is read as one that is not processing and
-- has no tasks, with what identifies it and its progress unchanged; and storing and reading it once
-- more changes nothing.
pub correct_state-IsAtRest :
    (w w' : World) (s : Stored)
    → let t = correct_state w (set_state s) in
      IsAtRest s t × (correct_state w' (set_state (get_state t)) ≡ t)
unfolding correct_state set_state get_state call get_tasks
correct_state-IsAtRest w w' s = ground arith
