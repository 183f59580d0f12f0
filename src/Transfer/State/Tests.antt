-- ===== src/Transfer/State/Tests.antt =====
-- Lives of transfers, and the theorems at points of them.
use aioslsk.Base.{◌≡◌, refl, Bool, true, false, none, some, List, [], ◌∷◌, if◌then◌else◌}
use aioslsk.Transfer.Model.{
  State, queued, downloading, complete, Transfer, upload, download, new_transfer, get_tasks,
}
use aioslsk.Transfer.State.{
  World, call_abort, call_queue, call_initialize, call_complete, call_start_transferring,
  call_pause, call,
}
use aioslsk.Transfer.State.Diagram.{
  Edge, call-Edge, Edge-call, Leads, call_of, abort-local_path, removals, cancellations,
  stop-cancels, call-notifications, notifications,
}
use aioslsk.Transfer.State.Invariant.{IsValid}
use aioslsk.Transfer.State.Run.{
  identity, on_queue_attempts_reset, on_call, on_progress, on_local_path, on_tasks,
  on_remotely_queued, on_offset, Event, run, run-new_transfer, finalized-call, calls, plan,
  plan-complete,
}

-- A world in which every file exists and can be removed.
abbrev world : World
world = record { now = 1000; exists = λ _. true; removes = λ _. true }

abbrev events : List Event
events =
    on_call world (call_queue false)
    ∷ on_tasks (some 7) none
    ∷ on_remotely_queued true
    ∷ on_queue_attempts_reset
    ∷ on_call world call_initialize
    ∷ on_offset 0
    ∷ on_local_path (some (47 ∷ 97 ∷ []))
    ∷ on_tasks (some 7) (some 8)
    ∷ on_call world call_start_transferring
    ∷ on_progress 1010 256
    ∷ []

-- A download under way.
abbrev begun : Transfer
begun = run (new_transfer (1 ∷ []) (2 ∷ []) download) events

begun_state : begun.state ≡ downloading
unfolding run new_transfer call
begun_state = refl

begun_progress : (begun.bytes_transfered ≡ 256) × (begun.speed_log ≡ (1010, 256) ∷ [])
unfolding run new_transfer call
begun_progress = (refl, refl)

run-new_transfer_example : IsValid begun × (identity begun ≡ (2 ∷ [], 1 ∷ [], download))
run-new_transfer_example = run-new_transfer (1 ∷ []) (2 ∷ []) download events

begun-IsValid : IsValid begun
begun-IsValid = (run-new_transfer (1 ∷ []) (2 ∷ []) download events).0

call-Edge_example : Edge download downloading complete
unfolding run new_transfer call
call-Edge_example = call-Edge world call_complete begun refl

Edge-call_example : Leads world (call_of {d = download} Edge.download_breaks) begun State.incomplete
unfolding run new_transfer call
Edge-call_example = Edge-call Edge.download_breaks world begun refl refl

abort-local_path_example :
    ((call world (call_abort none) begun).transfer.local_path ≡ none)
    × (removals (call world (call_abort none) begun).effects ≡ (47 ∷ 97 ∷ []) ∷ [])
unfolding run new_transfer call
abort-local_path_example =
    abort-local_path world none begun 47 (97 ∷ []) begun-IsValid refl refl refl

stop-cancels_example : cancellations (call world call_pause begun).effects ≡ 7 ∷ 8 ∷ []
unfolding run new_transfer call get_tasks
stop-cancels_example = stop-cancels world call_pause begun tt (λ h. cc) refl

abbrev ended : Transfer
ended = (call world call_complete begun).transfer

finalized-call_example :
    ((remotely : Bool) × (call_queue true ≡ call_queue remotely))
    × ((call world (call_queue true) ended).transfer.state ≡ queued)
unfolding run new_transfer call
finalized-call_example = finalized-call world (call_queue true) ended refl (λ h. cc)

plan-complete_example : (calls world (plan begun.state) begun).state ≡ complete
plan-complete_example = plan-complete world begun begun-IsValid

call-notifications_example : notifications (call world call_complete begun).effects ≡ (
    if (call world call_complete begun).done
    then (begun.state, (call world call_complete begun).transfer.state) ∷ []
    else [])
call-notifications_example = call-notifications world call_complete begun

abbrev sent : Transfer
sent = run (new_transfer (1 ∷ []) (2 ∷ []) upload) events
