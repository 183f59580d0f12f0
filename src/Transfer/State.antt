-- ===== src/Transfer/State.antt =====
-- transfer/state.py: the states of a transfer. A state object's method returns the transfer, what
-- it did outside of it, and whether the transition was done. The state lock makes each method one
-- step.
pub mod Diagram
pub mod Invariant
pub mod Run
mod Tests
use aioslsk.Base.{ℕ, Bool, true, false, if◌then◌else◌, Option, none, some, List, [], ◌∷◌, ◌++◌}
use aioslsk.Transfer.Model.{
  Str, State, unset, virgin, queued, initializing, incomplete, downloading, uploading, complete,
  failed, aborted, paused, Transfer, is_upload, is_download, reset_local_vars, reset_progress_vars,
  reset_queue_vars, reset_time_vars, set_start_time, set_complete_time, get_tasks,
}

-- The clock and the file system as a method finds them: `removes` fails where the code catches
-- an `OSError`.
pub record World : Type 0 where
  pub now : ℕ
  pub exists : Str → Bool
  pub removes : Str → Bool

-- The calls on a state object, with their arguments.
pub data Call : Type 0 where
  call_fail : Option Str → Call
  call_abort : Option Str → Call
  call_queue : Bool → Call
  call_initialize call_complete call_incomplete call_start_transferring call_pause : Call

pub data Effect : Type 0 where
  cancelled : List ℕ → Effect
  removed : Str → Effect
  notified : State → State → Effect

pub record Outcome : Type 0 where
  pub transfer : Transfer
  pub effects : List Effect
  pub done : Bool

-- The methods of `TransferState` itself, which log the attempt and return `False`.
abbrev pub undefined : Transfer → Outcome
undefined t = record { transfer = t; effects = []; done = false }

-- `Transfer.transition`, behind the effects so far.
abbrev pub transition : List Effect → State → Transfer → Outcome
transition effects new t = record {
  transfer = record t { state = new };
  effects = effects ++ (notified t.state new ∷ []);
  done = true;
}

-- `_remove_local_file`: the path is forgotten also where the file stays.
unfoldable pub remove_local_file : World → Transfer → Transfer × List Effect
remove_local_file w t =
    if is_download t
    then elim t.local_path [
      | none ↦ (t, [])
      | some [] ↦ (t, [])
      | some (c ∷ path) ↦ (
        record t { local_path = none },
        if w.exists (c ∷ path)
            then (if w.removes (c ∷ path) then removed (c ∷ path) ∷ [] else [])
            else [],
      )
    ]
    else (t, [])

-- `_cancel_transfer_tasks`, and `_stop_transfer`, which sets the complete time behind it.
abbrev pub cancel_transfer_tasks : Transfer → List Effect
cancel_transfer_tasks t = cancelled (get_tasks t) ∷ []

abbrev pub stop_transfer : World → Transfer → Transfer × List Effect
stop_transfer w t = (set_complete_time w.now t, cancel_transfer_tasks t)

-- Removing the file and entering `aborted`, behind what stopped the transfer.
unfoldable pub abort_transfer : World → Option Str → List Effect → Transfer → Outcome
unfolding remove_local_file
abort_transfer w reason stopped t =
    let (t', gone) = remove_local_file w t in
    transition (stopped ++ gone) aborted (record t' { abort_reason = reason })

unfoldable pub virgin_state : World → Call → Transfer → Outcome
virgin_state w (call_queue remotely) t =
    transition [] queued (record t { remotely_queued = remotely })
virgin_state w call_pause t = transition [] paused t
virgin_state w _ t = undefined t

unfoldable pub queued_state : World → Call → Transfer → Outcome
unfolding abort_transfer
queued_state w call_initialize t = transition [] initializing t
queued_state w (call_fail reason) t = transition [] failed (record t { fail_reason = reason })
queued_state w (call_abort reason) t = abort_transfer w reason (cancel_transfer_tasks t) t
queued_state w call_pause t = transition (cancel_transfer_tasks t) paused t
queued_state w _ t = undefined t

unfoldable pub initializing_state : World → Call → Transfer → Outcome
unfolding abort_transfer set_start_time reset_queue_vars
initializing_state w (call_abort reason) t = abort_transfer w reason (cancel_transfer_tasks t) t
initializing_state w call_pause t = transition (cancel_transfer_tasks t) paused t
initializing_state w (call_queue remotely) t =
    transition [] queued (record t { remotely_queued = remotely })
initializing_state w (call_fail reason) t = transition [] failed (record t { fail_reason = reason })
initializing_state w call_start_transferring t =
    let t' = reset_queue_vars (set_start_time w.now t) in
    transition [] (if is_upload t' then uploading else downloading) t'
initializing_state w _ t = undefined t

unfoldable pub downloading_state : World → Call → Transfer → Outcome
unfolding abort_transfer set_complete_time
downloading_state w (call_fail reason) t =
    transition [] failed (set_complete_time w.now (record t { fail_reason = reason }))
downloading_state w call_complete t = transition [] complete (set_complete_time w.now t)
downloading_state w (call_abort reason) t =
    let (t', stopped) = stop_transfer w t in abort_transfer w reason stopped t'
downloading_state w call_pause t =
    let (t', stopped) = stop_transfer w t in transition stopped paused t'
downloading_state w call_incomplete t = transition [] incomplete (set_complete_time w.now t)
downloading_state w _ t = undefined t

-- An aborted upload keeps its file.
unfoldable pub uploading_state : World → Call → Transfer → Outcome
unfolding set_complete_time
uploading_state w (call_fail reason) t =
    transition [] failed (set_complete_time w.now (record t { fail_reason = reason }))
uploading_state w call_complete t = transition [] complete (set_complete_time w.now t)
uploading_state w (call_abort reason) t =
    let (t', stopped) = stop_transfer w t in
    transition stopped aborted (record t' { abort_reason = reason })
uploading_state w call_pause t =
    let (t', stopped) = stop_transfer w t in transition stopped paused t'
uploading_state w _ t = undefined t

-- What a finished transfer forgets when it is queued again.
unfoldable pub reset_for_retry : Transfer → Transfer
unfolding reset_time_vars reset_progress_vars reset_local_vars
reset_for_retry t =
    let t' = reset_time_vars t in
    if is_download t' then reset_local_vars (reset_progress_vars t') else t'

unfoldable pub complete_state : World → Call → Transfer → Outcome
unfolding reset_for_retry
complete_state w (call_queue remotely) t =
    transition [] queued (record (reset_for_retry t) { remotely_queued = remotely })
complete_state w _ t = undefined t

unfoldable pub incomplete_state : World → Call → Transfer → Outcome
unfolding abort_transfer reset_time_vars
incomplete_state w (call_fail reason) t = transition [] failed (record t { fail_reason = reason })
incomplete_state w (call_queue remotely) t =
    transition [] queued (record (reset_time_vars t) { remotely_queued = remotely })
incomplete_state w call_initialize t = transition [] initializing (reset_time_vars t)
incomplete_state w (call_abort reason) t = abort_transfer w reason (cancel_transfer_tasks t) t
incomplete_state w call_pause t = transition (cancel_transfer_tasks t) paused t
incomplete_state w _ t = undefined t

unfoldable pub failed_state : World → Call → Transfer → Outcome
unfolding reset_time_vars
failed_state w (call_queue remotely) t = transition [] queued (record (reset_time_vars t) {
  remotely_queued = remotely;
  fail_reason = none;
  abort_reason = none;
})
failed_state w _ t = undefined t

unfoldable pub paused_state : World → Call → Transfer → Outcome
unfolding abort_transfer reset_time_vars
paused_state w (call_queue remotely) t =
    transition [] queued (record (reset_time_vars t) { remotely_queued = remotely })
paused_state w (call_abort reason) t = abort_transfer w reason (cancel_transfer_tasks t) t
paused_state w (call_fail reason) t = transition [] failed (record t { fail_reason = reason })
paused_state w _ t = undefined t

unfoldable pub aborted_state : World → Call → Transfer → Outcome
unfolding reset_for_retry
aborted_state w (call_queue remotely) t = transition [] queued (record (reset_for_retry t) {
  fail_reason = none;
  abort_reason = none;
  remotely_queued = remotely;
})
aborted_state w _ t = undefined t

-- The method of the transfer's current state object.
unfoldable pub dispatch_state : World → State → Call → Transfer → Outcome
unfolding virgin_state queued_state initializing_state downloading_state uploading_state
    complete_state incomplete_state failed_state paused_state aborted_state
dispatch_state w unset c t = undefined t
dispatch_state w virgin c t = virgin_state w c t
dispatch_state w queued c t = queued_state w c t
dispatch_state w initializing c t = initializing_state w c t
dispatch_state w incomplete c t = incomplete_state w c t
dispatch_state w downloading c t = downloading_state w c t
dispatch_state w uploading c t = uploading_state w c t
dispatch_state w complete c t = complete_state w c t
dispatch_state w failed c t = failed_state w c t
dispatch_state w aborted c t = aborted_state w c t
dispatch_state w paused c t = paused_state w c t

unfoldable pub call : World → Call → Transfer → Outcome
unfolding dispatch_state
call w c t = dispatch_state w t.state c t
