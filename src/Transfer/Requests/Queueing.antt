-- ===== src/Transfer/Requests/Queueing.antt =====
-- transfer/manager.py: the answer to a peer who queues a file.
use aioslsk.Base.{
  ℕ, ◌≡◌, refl, ap, ◌∙◌, arith, Bool, true, false, if◌then◌else◌, Option, none, some, List, [], ◌∷◌,
  ◌++◌, same_self,
}
use aioslsk.Transfer.Model.{
  Str, State, queued, Transfer, TransferDirection, upload, download, new_transfer,
}
use aioslsk.Transfer.State.{World, call, call_queue}
use aioslsk.Transfer.Requests.{
  TransferManager, Reply, transfer_queue_failed, cancelled, equals, same_direction, find_transfer,
  update_transfer, add, on_object, on_state, on_peer_transfer_queue, add_upload, queue_upload,
  aborted?, retried?, new_upload,
}
use aioslsk.Transfer.Requests.Listed.{Keeps, on_state-Keeps, equals-Keeps}

abbrev pub changed : (Transfer → Transfer) → Option Transfer → Option Transfer
changed f none = none
changed f (some t) = some (f t)

find_transfer-update :
    (name path : Str) (d : TransferDirection) (f : Transfer → Transfer) (ts : List Transfer)
    → Keeps f
    → find_transfer name path d (update_transfer name path d f ts)
      ≡ changed f (find_transfer name path d ts)
unfolding find_transfer update_transfer
find_transfer-update name path d f [] keeps = refl
find_transfer-update name path d f (t ∷ ts) keeps =
    ground (arith, find_transfer-update name path d f ts keeps, equals-Keeps name path d f t keeps)

equals_self : (t : Transfer) → equals t.username t.remote_path t.direction t ≡ true
equals_self t = rw (same_self t.remote_path, same_self t.username) (same_direction_self t.direction)
  where
    same_direction_self : (d : TransferDirection) → same_direction d d ≡ true
    same_direction_self upload = refl
    same_direction_self download = refl

find_transfer-append :
    (t : Transfer) (ts : List Transfer)
    → find_transfer t.username t.remote_path t.direction ts ≡ none
    → find_transfer t.username t.remote_path t.direction (ts ++ (t ∷ [])) ≡ some t
unfolding find_transfer
find_transfer-append t [] h = rw (equals_self t) refl
find_transfer-append t (u ∷ ts) h = ground (arith, find_transfer-append t ts)

find_transfer-add :
    (t : Transfer) (s : TransferManager)
    → find_transfer t.username t.remote_path t.direction s.transfers ≡ none
    → find_transfer t.username t.remote_path t.direction (add t s).transfers ≡ some t
unfolding add
find_transfer-add t s h = rw (h, add) (find_transfer-append t s.transfers h)

abbrev pub state_of : Option Transfer → Option State
state_of none = none
state_of (some t) = some t.state

-- The state of the upload, where there is one.
abbrev pub upload_state : Str → Str → TransferManager → Option State
upload_state name path s = state_of (find_transfer name path upload s.transfers)

-- What becomes of the upload: a new one is queued, and one that failed or is complete is again.
abbrev pub requeued : Option State → State
requeued none = queued
requeued (some state) = if retried? state then queued else state

-- What the peer is told.
abbrev pub told : Str → Option State → List Reply → List Reply
told path none replies = replies
told path (some state) replies =
    if aborted? state then transfer_queue_failed path cancelled ∷ replies else replies

abbrev Answered : Str → Str → Option State → TransferManager → TransferManager → Type 0
Answered name path before s after =
    (upload_state name path after ≡ some (requeued before))
    × (after.replies ≡ told path before s.replies)

call_queue-retried :
    (w : World) (t : Transfer)
    → retried? t.state ≡ true
    → (on_state w (call_queue false) t).state ≡ queued
unfolding call
call_queue-retried w t h = ground arith

add-replies : (t : Transfer) (s : TransferManager) → (add t s).replies ≡ s.replies
unfolding add
add-replies t s = ground arith

add_upload-Answered :
    (w : World) (name path : Str) (item : Str × ℕ) (s : TransferManager)
    → find_transfer name path upload s.transfers ≡ none
    → Answered name path none s (add_upload w name path item s)
unfolding add_upload add call new_transfer
add_upload-Answered w name path item s h =
    let t = new_upload name path item in
    let queue = on_state w (call_queue false) in
    (
      ap state_of (
          find_transfer-update name path upload queue (add t s).transfers
            (on_state-Keeps w (call_queue false))
          ∙ ap (changed queue) (find_transfer-add t s h)),
      add-replies t s,
    )

queue_upload-Answered :
    (w : World) (name path : Str) (t : Transfer) (item : Str × ℕ) (s : TransferManager)
    → find_transfer name path upload s.transfers ≡ some t
    → Answered name path (some t.state) s (queue_upload w name path (some t) (some item) s)
unfolding queue_upload
queue_upload-Answered w name path t item s h =
    let queue = on_state w (call_queue false) in
    let kept : upload_state name path s ≡ some t.state = ap state_of h in
    let moved : upload_state name path (on_object name path upload queue s) ≡ some (queue t).state =
      ap state_of (
        find_transfer-update name path upload queue s.transfers
          (on_state-Keeps w (call_queue false))
        ∙ ap (changed queue) h) in
    ground (arith, call_queue-retried w t)

answered :
    (w : World) (name path : Str) (item : Str × ℕ) (s : TransferManager) (found : Option Transfer)
    → find_transfer name path upload s.transfers ≡ found
    → Answered name path (state_of found) s (queue_upload w name path found (some item) s)
unfolding queue_upload
answered w name path item s none e = add_upload-Answered w name path item s e
answered w name path item s (some t) e = queue_upload-Answered w name path t item s e

module _ (is_blocked : Str → Bool) (get_shared_item : Str → Str → Option (Str × ℕ)) where
  -- A peer with a name, who is not blocked and asks for a file that is shared with it, finds its
  -- upload in the list: queued, where there was none or it had failed or was complete, and in its
  -- state otherwise; and the peer is told that the upload is cancelled just where it was aborted.
  pub on_peer_transfer_queue-shared :
      (w : World) (c : ℕ) (cs path : Str) (item : Str × ℕ) (s : TransferManager)
      → is_blocked (c ∷ cs) ≡ false
      → get_shared_item path (c ∷ cs) ≡ some item
      → let name = c ∷ cs in
        let after = on_peer_transfer_queue is_blocked get_shared_item w (some name) path s in
        let before = upload_state name path s in
        (upload_state name path after ≡ some (requeued before))
        × (after.replies ≡ told path before s.replies)
  unfolding on_peer_transfer_queue
  on_peer_transfer_queue-shared w c cs path item s n k =
      rw (n, k)
        (answered w (c ∷ cs) path item s (find_transfer (c ∷ cs) path upload s.transfers) refl)
