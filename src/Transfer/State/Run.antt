-- ===== src/Transfer/State/Run.antt =====
-- The life of a transfer: calls on its state object, with what the manager writes in between.
use aioslsk.Base.{
  ℕ, ◌≡◌, ◌≢◌, refl, ◌∙◌, arith, Bool, true, false, Option, some, List, if◌then◌else◌, [], ◌∷◌,
}
use aioslsk.Transfer.Model.{
  Str, State, unset, queued, initializing, downloading, uploading, complete, Transfer,
  TransferDirection, new_transfer, finalized?, increase_queue_attempts,
  increase_upload_request_attempt, transfer_progress_callback, merge_last, reset_queue_attempts,
}
use aioslsk.Transfer.State.{
  World, Call, call_fail, call_abort, call_queue, call_initialize, call_complete, call_incomplete,
  call_start_transferring, call_pause, call,
}
use aioslsk.Transfer.State.Invariant.{IsValid, aborted?, new_transfer-IsValid, call-IsValid}

-- A call with the world it meets, or a write from outside: progress on a chunk, a counted attempt
-- (by `increase_queue_attempts` or `increase_upload_request_attempt`), the reset of the count of queue
-- attempts, or the manager's
-- assignments to the path, the size, the offset, the place in the queue, the flag `remotely_queued`,
-- the tasks, and the abort reason, which `manage_shares_changed` writes only to an aborted transfer.
-- What `read_cache` assigns to a stored transfer is in Transfer/Storage.
pub data Event : Type 0 where
  on_call : World → Call → Event
  on_progress : ℕ → ℕ → Event
  on_queue_attempt on_upload_request_attempt : ℕ → Event
  on_queue_attempts_reset : Event
  on_local_path : Option Str → Event
  on_filesize on_place : Option ℕ → Event
  on_tasks : Option ℕ → Option ℕ → Event
  on_remotely_queued : Bool → Event
  on_offset : ℕ → Event
  on_abort_reason : Str → Event

unfoldable pub react : Event → Transfer → Transfer
unfolding increase_queue_attempts increase_upload_request_attempt transfer_progress_callback
    reset_queue_attempts
react (on_call w c) t = (call w c t).transfer
react (on_progress now bytes) t = transfer_progress_callback now bytes t
react (on_queue_attempt now) t = increase_queue_attempts now t
react (on_upload_request_attempt now) t = increase_upload_request_attempt now t
react on_queue_attempts_reset t = reset_queue_attempts t
react (on_local_path path) t = record t { local_path = path }
react (on_filesize n) t = record t { filesize = n }
react (on_place n) t = record t { place_in_queue = n }
react (on_tasks a b) t = record t { remotely_queue_task = a; transfer_task = b }
react (on_remotely_queued b) t = record t { remotely_queued = b }
react (on_offset n) t = record t { bytes_transfered = n }
react (on_abort_reason reason) t =
    if aborted? t.state then record t { abort_reason = some reason } else t

unfoldable pub run : Transfer → List Event → Transfer
unfolding react
run t [] = t
run t (e ∷ es) = run (react e t) es

react-IsValid : (e : Event) (t : Transfer) → IsValid t → IsValid (react e t)
unfolding react
react-IsValid (on_call w c) t v = call-IsValid w c t v
react-IsValid (on_progress now bytes) t v = ground (arith, merge_last now bytes t.speed_log)
react-IsValid (on_queue_attempt now) t v = ground arith
react-IsValid (on_upload_request_attempt now) t v = ground arith
react-IsValid on_queue_attempts_reset t v = ground arith
react-IsValid (on_local_path path) t v = ground arith
react-IsValid (on_filesize n) t v = ground arith
react-IsValid (on_place n) t v = ground arith
react-IsValid (on_tasks a b) t v = ground arith
react-IsValid (on_remotely_queued b) t v = ground arith
react-IsValid (on_offset n) t v = ground arith
react-IsValid (on_abort_reason reason) t v = ground arith

-- The invariant holds after any sequence of events.
pub run-IsValid : (es : List Event) (t : Transfer) → IsValid t → IsValid (run t es)
unfolding run
run-IsValid [] t v = v
run-IsValid (e ∷ es) t v = run-IsValid es (react e t) (react-IsValid e t v)

-- What identifies a transfer, and which `__eq__` compares, never changes.
abbrev pub identity : Transfer → Str × Str × TransferDirection
identity t = (t.remote_path, t.username, t.direction)

pub call-identity :
    (w : World) (c : Call) (t : Transfer) → identity (call w c t).transfer ≡ identity t
unfolding call
call-identity w c t = ground arith

react-identity : (e : Event) (t : Transfer) → identity (react e t) ≡ identity t
unfolding react
react-identity (on_call w c) t = call-identity w c t
react-identity (on_progress now bytes) t = ground arith
react-identity (on_queue_attempt now) t = ground arith
react-identity (on_upload_request_attempt now) t = ground arith
react-identity on_queue_attempts_reset t = ground arith
react-identity (on_local_path path) t = ground arith
react-identity (on_filesize n) t = ground arith
react-identity (on_place n) t = ground arith
react-identity (on_tasks a b) t = ground arith
react-identity (on_remotely_queued b) t = ground arith
react-identity (on_offset n) t = ground arith
react-identity (on_abort_reason reason) t = ground arith

run-identity : (es : List Event) (t : Transfer) → identity (run t es) ≡ identity t
unfolding run
run-identity [] t = refl
run-identity (e ∷ es) t = run-identity es (react e t) ∙ react-identity e t

-- From a new transfer on, after any sequence of method calls, progress, counted attempts and their
-- reset, and assignments by the manager other than those of `read_cache`, the transfer keeps what
-- identifies it, its start and complete times fit its state, states in which bytes move fit its
-- direction, and a reason is kept only in the state that it explains.
pub run-new_transfer :
    (username path : Str) (d : TransferDirection) (es : List Event)
    → let t = run (new_transfer username path d) es in
      IsValid t × (identity t ≡ (path, username, d))
unfolding new_transfer
run-new_transfer username path d es = (
  run-IsValid es (new_transfer username path d) (new_transfer-IsValid username path d),
  run-identity es (new_transfer username path d),
)

-- A call that changes the state of a finalized transfer is a call of `queue`, and leads to the
-- queued state.
pub finalized-call :
    (w : World) (c : Call) (t : Transfer)
    → finalized? t.state ≡ true
    → (call w c t).transfer.state ≢ t.state
    → ((remotely : Bool) × (c ≡ call_queue remotely)) × ((call w c t).transfer.state ≡ queued)
unfolding call
finalized-call w (call_queue remotely) t f h = ((remotely, refl), ground arith)
finalized-call w (call_fail reason) t f h = absurd (h (ground arith))
finalized-call w (call_abort reason) t f h = absurd (h (ground arith))
finalized-call w call_initialize t f h = absurd (h (ground arith))
finalized-call w call_complete t f h = absurd (h (ground arith))
finalized-call w call_incomplete t f h = absurd (h (ground arith))
finalized-call w call_start_transferring t f h = absurd (h (ground arith))
finalized-call w call_pause t f h = absurd (h (ground arith))

-- The calls that complete a transfer from where it stands.
unfoldable pub plan : State → List Call
plan unset = []
plan complete = []
plan downloading = call_complete ∷ []
plan uploading = call_complete ∷ []
plan initializing = call_start_transferring ∷ call_complete ∷ []
plan queued = call_initialize ∷ call_start_transferring ∷ call_complete ∷ []
plan _ = call_queue false ∷ call_initialize ∷ call_start_transferring ∷ call_complete ∷ []

unfoldable pub calls : World → List Call → Transfer → Transfer
calls w [] t = t
calls w (c ∷ cs) t = calls w cs (call w c t).transfer

-- No state is a dead end: from every valid transfer the plan for its state, of four calls at most,
-- leads to the complete state.
pub plan-complete :
    (w : World) (t : Transfer) → IsValid t → (calls w (plan t.state) t).state ≡ complete
unfolding call calls plan
plan-complete w t v = ground arith
