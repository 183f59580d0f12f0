-- ===== src/Transfer/Requests/Tests.antt =====
-- transfer/manager.py: two peers ask for files.
use aioslsk.Base.{ℕ, ◌≡◌, refl, Bool, true, false, Option, none, some, List, [], ◌∷◌, same}
use aioslsk.Transfer.Model.{Str, download}
use aioslsk.Transfer.State.{World}
use aioslsk.Transfer.Requests.{TransferManager, on_peer_transfer_queue}
use aioslsk.Transfer.Requests.Outcomes.{
  Request, user_download, peer_transfer_queue, peer_transfer_request, react_all, Unique,
  react_all-Unique,
}
use aioslsk.Transfer.Requests.Queueing.{upload_state, requeued, told, on_peer_transfer_queue-shared}

abbrev world : World
world = record { now = 7; exists = λ path. true; removes = λ path. true }

abbrev empty : TransferManager
empty = record { transfers = []; replies = [] }

abbrev is_blocked : Str → Bool
is_blocked name = same name (2 ∷ [])

abbrev get_shared_item : Str → Str → Option (Str × ℕ)
get_shared_item path name = some (path, 1000)

abbrev requests : List Request
requests =
    peer_transfer_queue world none (5 ∷ [])
    ∷ peer_transfer_queue world (some (1 ∷ [])) (5 ∷ [])
    ∷ user_download world (1 ∷ []) (5 ∷ []) false
    ∷ peer_transfer_request world 1 2 (some (1 ∷ [])) (5 ∷ []) download
    ∷ peer_transfer_queue world (some (1 ∷ [])) (5 ∷ [])
    ∷ []

react_all-Unique_example : Unique (react_all is_blocked get_shared_item requests empty)
react_all-Unique_example = react_all-Unique is_blocked get_shared_item requests empty refl

on_peer_transfer_queue-shared_example :
    let after =
      on_peer_transfer_queue is_blocked get_shared_item world (some (1 ∷ [])) (5 ∷ []) empty in
    let before = upload_state (1 ∷ []) (5 ∷ []) empty in
    (upload_state (1 ∷ []) (5 ∷ []) after ≡ some (requeued before))
    × (after.replies ≡ told (5 ∷ []) before empty.replies)
on_peer_transfer_queue-shared_example =
    on_peer_transfer_queue-shared is_blocked get_shared_item world 1 [] (5 ∷ []) (5 ∷ [], 1000)
      empty refl refl
