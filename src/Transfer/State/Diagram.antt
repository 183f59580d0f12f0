-- ===== src/Transfer/State/Diagram.antt =====
-- The transition diagram of transfer/state.py.
use aioslsk.Base.{
  ℕ, ◌≡◌, true, false, Option, none, some, List, [], ◌∷◌, ◌++◌, arith, if◌then◌else◌, ◌≢◌, ◌&&◌,
}
use aioslsk.Transfer.Model.{
  State, virgin, queued, initializing, incomplete, downloading, uploading, complete, failed,
  aborted, paused, Str, Transfer, TransferDirection, upload, download, get_tasks,
}
use aioslsk.Transfer.State.{
  World, Call, call_fail, call_abort, call_queue, call_initialize, call_complete, call_incomplete,
  call_start_transferring, call_pause, Effect, cancelled, removed, notified, call,
}
use aioslsk.Transfer.State.Invariant.{IsValid}

-- The states that a transfer under way can be stopped in.
pub data Stoppable : State → Type 0 where
  while_queued : Stoppable queued
  while_initializing : Stoppable initializing
  while_downloading : Stoppable downloading
  while_uploading : Stoppable uploading
  while_incomplete : Stoppable incomplete

-- The states that can be queued again.
pub data Requeues : State → Type 0 where
  from_virgin : Requeues virgin
  from_initializing : Requeues initializing
  from_complete : Requeues complete
  from_incomplete : Requeues incomplete
  from_failed : Requeues failed
  from_paused : Requeues paused
  from_aborted : Requeues aborted

-- The arrows, for a transfer of the given direction.
pub data Edge : TransferDirection → State → State → Type 0 where
  requeue : {d : TransferDirection} {s : State} → Requeues s → Edge d s queued
  pause_new : {d : TransferDirection} → Edge d virgin paused
  stop_pause : {d : TransferDirection} {s : State} → Stoppable s → Edge d s paused
  stop_abort : {d : TransferDirection} {s : State} → Stoppable s → Edge d s aborted
  stop_fail : {d : TransferDirection} {s : State} → Stoppable s → Edge d s failed
  abort_paused : {d : TransferDirection} → Edge d paused aborted
  fail_paused : {d : TransferDirection} → Edge d paused failed
  start : {d : TransferDirection} → Edge d queued initializing
  restart : {d : TransferDirection} → Edge d incomplete initializing
  upload_starts : Edge upload initializing uploading
  download_starts : Edge download initializing downloading
  upload_ends : {d : TransferDirection} → Edge d uploading complete
  download_ends : {d : TransferDirection} → Edge d downloading complete
  download_breaks : {d : TransferDirection} → Edge d downloading incomplete

ruleset stoppable =
    (while_queued, while_initializing, while_downloading, while_uploading, while_incomplete)

ruleset requeues = (
  from_virgin, from_initializing, from_complete, from_incomplete, from_failed, from_paused,
  from_aborted,
)

ruleset edges = (
  requeue, pause_new, stop_pause, stop_abort, stop_fail, abort_paused, fail_paused, start, restart,
  upload_starts, download_starts, upload_ends, download_ends, download_breaks,
)

-- What the listeners are told.
unfoldable pub notifications : List Effect → List (State × State)
notifications [] = []
notifications (notified old new ∷ effects) = (old, new) ∷ notifications effects
notifications (cancelled tasks ∷ effects) = notifications effects
notifications (removed path ∷ effects) = notifications effects

unfoldable pub removals : List Effect → List Str
removals [] = []
removals (notified old new ∷ effects) = removals effects
removals (cancelled tasks ∷ effects) = removals effects
removals (removed path ∷ effects) = path ∷ removals effects

unfoldable pub cancellations : List Effect → List ℕ
cancellations [] = []
cancellations (notified old new ∷ effects) = cancellations effects
cancellations (cancelled tasks ∷ effects) = tasks ++ cancellations effects
cancellations (removed path ∷ effects) = cancellations effects

-- `abort` and `pause`.
abbrev pub IsStop : Call → Type 0
IsStop (call_abort reason) = Unit
IsStop call_pause = Unit
IsStop _ = ⊥

-- A call that does a transition follows an arrow of the diagram for the transfer's direction.
pub call-Edge :
    (w : World) (c : Call) (t : Transfer)
    → (call w c t).done ≡ true
    → Edge t.direction t.state (call w c t).transfer.state
unfolding call
call-Edge w c t h = grind (arith, edges, stoppable, requeues)

-- A call that takes an arrow.
unfoldable pub call_of : {d : TransferDirection} {s s' : State} → Edge d s s' → Call
call_of (requeue r) = call_queue false
call_of pause_new = call_pause
call_of (stop_pause s) = call_pause
call_of (stop_abort s) = call_abort none
call_of (stop_fail s) = call_fail none
call_of abort_paused = call_abort none
call_of fail_paused = call_fail none
call_of start = call_initialize
call_of restart = call_initialize
call_of upload_starts = call_start_transferring
call_of download_starts = call_start_transferring
call_of upload_ends = call_complete
call_of download_ends = call_complete
call_of download_breaks = call_incomplete

-- Whether a call was done, and led to a state.
abbrev pub Leads : World → Call → Transfer → State → Type 0
Leads w c t s = ((call w c t).done ≡ true) × ((call w c t).transfer.state ≡ s)

requeue-Leads :
    {s : State} (r : Requeues s) (w : World) (t : Transfer)
    → t.state ≡ s
    → Leads w (call_queue false) t queued
unfolding call
requeue-Leads from_virgin w t h = ground arith
requeue-Leads from_initializing w t h = ground arith
requeue-Leads from_complete w t h = ground arith
requeue-Leads from_incomplete w t h = ground arith
requeue-Leads from_failed w t h = ground arith
requeue-Leads from_paused w t h = ground arith
requeue-Leads from_aborted w t h = ground arith

stop-Leads :
    {s : State} (r : Stoppable s) (w : World) (t : Transfer)
    → t.state ≡ s
    → Leads w call_pause t paused
      × Leads w (call_abort none) t aborted
      × Leads w (call_fail none) t failed
unfolding call
stop-Leads while_queued w t h = ground arith
stop-Leads while_initializing w t h = ground arith
stop-Leads while_downloading w t h = ground arith
stop-Leads while_uploading w t h = ground arith
stop-Leads while_incomplete w t h = ground arith

-- Every arrow of the diagram is taken by its call, whatever else the transfer holds.
pub Edge-call :
    {d : TransferDirection} {s s' : State} (e : Edge d s s') (w : World) (t : Transfer)
    → t.direction ≡ d
    → t.state ≡ s
    → Leads w (call_of e) t s'
unfolding call call_of
Edge-call (requeue r) w t _ h = requeue-Leads r w t h
Edge-call pause_new w t _ h = ground arith
Edge-call (stop_pause r) w t _ h = (stop-Leads r w t h).0
Edge-call (stop_abort r) w t _ h = (stop-Leads r w t h).1
Edge-call (stop_fail r) w t _ h = (stop-Leads r w t h).2
Edge-call abort_paused w t _ h = ground arith
Edge-call fail_paused w t _ h = ground arith
Edge-call start w t _ h = ground arith
Edge-call restart w t _ h = ground arith
Edge-call upload_starts w t k h = ground arith
Edge-call download_starts w t k h = ground arith
Edge-call upload_ends w t _ h = ground arith
Edge-call download_ends w t _ h = ground arith
Edge-call download_breaks w t _ h = ground arith

-- The listeners are told of each transition once, with the old and the new state, and of nothing
-- else.
pub call-notifications :
    (w : World) (c : Call) (t : Transfer)
    → notifications (call w c t).effects
      ≡ (if (call w c t).done then (t.state, (call w c t).transfer.state) ∷ [] else [])
unfolding call notifications
call-notifications w c t = ground arith

-- A valid download with a local path that is aborted forgets the path, and the file is removed
-- where it exists and can be removed.
pub abort-local_path :
    (w : World) (reason : Option Str) (t : Transfer) (byte : ℕ) (path : Str)
    → IsValid t
    → t.direction ≡ download
    → t.local_path ≡ some (byte ∷ path)
    → (call w (call_abort reason) t).done ≡ true
    → ((call w (call_abort reason) t).transfer.local_path ≡ none)
      × (removals (call w (call_abort reason) t).effects
          ≡ (if w.exists (byte ∷ path) && w.removes (byte ∷ path) then (byte ∷ path) ∷ [] else []))
unfolding call removals
abort-local_path w reason t byte path v d l h = ground arith

-- Aborting an upload leaves its local path and its file alone.
abort_upload-local_path :
    (w : World) (reason : Option Str) (t : Transfer)
    → t.direction ≡ upload
    → ((call w (call_abort reason) t).transfer.local_path ≡ t.local_path)
      × (removals (call w (call_abort reason) t).effects ≡ [])
unfolding call removals
abort_upload-local_path w reason t d = ground arith

-- Aborting or pausing a transfer that is not virgin, where it is done, cancels exactly its tasks.
pub stop-cancels :
    (w : World) (c : Call) (t : Transfer)
    → IsStop c
    → t.state ≢ virgin
    → (call w c t).done ≡ true
    → cancellations (call w c t).effects ≡ get_tasks t
unfolding call cancellations get_tasks
stop-cancels w c t s v h = ground arith
