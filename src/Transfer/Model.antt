-- ===== src/Transfer/Model.antt =====
-- transfer/model.py: the `Transfer` object and its methods on fields. Times are in milliseconds.
use aioslsk.Base.{ℕ, ◌+◌, ◌-◌, Bool, true, false, ltb, if◌then◌else◌}
use aioslsk.Base.{Option, none, some, List, [], ◌∷◌, ◌++◌, length, drop}

abbrev pub Str : Type 0
Str = List ℕ

-- `TransferState.State`.
pub data State : Type 0 where
  unset virgin queued initializing incomplete downloading uploading complete failed aborted paused :
      State

pub data TransferDirection : Type 0 where
  upload download : TransferDirection

-- A task is known by a number; `speed_log` has its oldest entry first.
pub record Transfer : Type 0 where
  pub state : State
  pub direction : TransferDirection
  pub username : Str
  pub remote_path : Str
  pub local_path : Option Str
  pub remotely_queued : Bool
  pub place_in_queue : Option ℕ
  pub fail_reason : Option Str
  pub abort_reason : Option Str
  pub filesize : Option ℕ
  pub bytes_transfered : ℕ
  pub queue_attempts : ℕ
  pub last_queue_attempt : ℕ
  pub upload_request_attempts : ℕ
  pub last_upload_request_attempt : ℕ
  pub start_time : Option ℕ
  pub complete_time : Option ℕ
  pub speed_log : List (ℕ × ℕ)
  pub remotely_queue_task : Option ℕ
  pub transfer_task : Option ℕ

-- `Transfer.__init__`.
unfoldable pub new_transfer : Str → Str → TransferDirection → Transfer
new_transfer username remote_path direction = record {
  state = virgin;
  direction = direction;
  username = username;
  remote_path = remote_path;
  local_path = none;
  remotely_queued = false;
  place_in_queue = none;
  fail_reason = none;
  abort_reason = none;
  filesize = none;
  bytes_transfered = 0;
  queue_attempts = 0;
  last_queue_attempt = 0;
  upload_request_attempts = 0;
  last_upload_request_attempt = 0;
  start_time = none;
  complete_time = none;
  speed_log = [];
  remotely_queue_task = none;
  transfer_task = none;
}

abbrev pub upload? : TransferDirection → Bool
upload? upload = true
upload? download = false

abbrev pub is_upload : Transfer → Bool
is_upload t = upload? t.direction

abbrev pub download? : TransferDirection → Bool
download? upload = false
download? download = true

abbrev pub is_download : Transfer → Bool
is_download t = download? t.direction

unfoldable pub reset_local_vars : Transfer → Transfer
reset_local_vars t = record t { local_path = none; filesize = none }

unfoldable pub reset_progress_vars : Transfer → Transfer
reset_progress_vars t = record t { bytes_transfered = 0 }

unfoldable pub reset_queue_attempts : Transfer → Transfer
reset_queue_attempts t = record t { queue_attempts = 0; last_queue_attempt = 0 }

unfoldable pub reset_upload_request_attempts : Transfer → Transfer
reset_upload_request_attempts t = record t {
  upload_request_attempts = 0;
  last_upload_request_attempt = 0;
}

unfoldable pub reset_queue_vars : Transfer → Transfer
unfolding reset_queue_attempts reset_upload_request_attempts
reset_queue_vars t =
    reset_upload_request_attempts
      (reset_queue_attempts (record t { place_in_queue = none; remotely_queued = false }))

unfoldable pub reset_time_vars : Transfer → Transfer
reset_time_vars t = record t { start_time = none; complete_time = none; speed_log = [] }

unfoldable pub set_start_time : ℕ → Transfer → Transfer
set_start_time now t = record t { start_time = some now; complete_time = none; speed_log = [] }

unfoldable pub set_complete_time : ℕ → Transfer → Transfer
set_complete_time now t = elim t.start_time [
  | none ↦ t
  | some _ ↦ record t { complete_time = some now; speed_log = [] }
]

unfoldable pub increase_queue_attempts : ℕ → Transfer → Transfer
increase_queue_attempts now t = record t {
  queue_attempts = t.queue_attempts + 1;
  last_queue_attempt = now;
}

unfoldable pub increase_upload_request_attempt : ℕ → Transfer → Transfer
increase_upload_request_attempt now t = record t {
  upload_request_attempts = t.upload_request_attempts + 1;
  last_upload_request_attempt = now;
}

abbrev pub finalized? : State → Bool
finalized? complete = true
finalized? aborted = true
finalized? failed = true
finalized? _ = false

abbrev pub is_finalized : Transfer → Bool
is_finalized t = finalized? t.state

abbrev pub processing? : State → Bool
processing? downloading = true
processing? uploading = true
processing? initializing = true
processing? _ = false

abbrev pub is_processing : Transfer → Bool
is_processing t = processing? t.state

abbrev pub transferring? : State → Bool
transferring? downloading = true
transferring? uploading = true
transferring? _ = false

abbrev pub is_transferring : Transfer → Bool
is_transferring t = transferring? t.state

-- `get_tasks`, and the tasks that `cancel_tasks` cancels.
unfoldable pub get_tasks : Transfer → List ℕ
get_tasks t =
    let second : List ℕ = elim t.transfer_task [ none ↦ [] | some k ↦ k ∷ [] ] in
    elim t.remotely_queue_task [ none ↦ second | some k ↦ k ∷ second ]

abbrev pub speed_log_interval : ℕ
speed_log_interval = 100

abbrev pub speed_log_entries : ℕ
speed_log_entries = 30

-- `deque(maxlen=SPEED_LOG_ENTRIES).append`: the oldest entry makes room.
unfoldable pub append_bounded : List (ℕ × ℕ) → ℕ × ℕ → List (ℕ × ℕ)
append_bounded log entry =
    let longer = log ++ (entry ∷ []) in drop (length longer - speed_log_entries) longer

-- The last entry grows while it is younger than the interval; `older` stands in front of it.
unfoldable pub merge_last : ℕ → ℕ → List (ℕ × ℕ) → Option (List (ℕ × ℕ))
merge_last now bytes [] = none
merge_last now bytes ((time, sent) ∷ []) =
    if ltb (now - time) speed_log_interval then some ((time, bytes + sent) ∷ []) else none
merge_last now bytes (older ∷ (entry ∷ log)) = elim (merge_last now bytes (entry ∷ log)) [
  | none ↦ none
  | some merged ↦ some (older ∷ merged)
]

unfoldable pub add_speed_log_entry : ℕ → ℕ → Transfer → Transfer
unfolding append_bounded merge_last
add_speed_log_entry now bytes t = elim (merge_last now bytes t.speed_log) [
  | some merged ↦ record t { speed_log = merged }
  | none ↦ record t { speed_log = append_bounded t.speed_log (now, bytes) }
]

-- `_transfer_progress_callback`, on a chunk of `bytes` bytes.
unfoldable pub transfer_progress_callback : ℕ → ℕ → Transfer → Transfer
unfolding add_speed_log_entry
transfer_progress_callback now bytes t =
    add_speed_log_entry now bytes (record t { bytes_transfered = t.bytes_transfered + bytes })
