-- ===== src/Transfer/Requests.antt =====
-- transfer/manager.py: the list of transfers, and what the messages of peers do to it.
pub mod Listed
pub mod Outcomes
pub mod Queueing
mod Tests
use aioslsk.Base.{
  ℕ, Bool, true, false, not, ◌&&◌, ◌||◌, if◌then◌else◌, Option, none, some, List, [], ◌∷◌, ◌++◌,
  same,
}
use aioslsk.Transfer.Model.{
  Str, State, unset, virgin, queued, initializing, incomplete, downloading, uploading, complete,
  failed, aborted, paused, Transfer, TransferDirection, upload, download, upload?, is_upload,
  is_download, is_processing, new_transfer,
}
use aioslsk.Transfer.Queue.Shares.{requested}
use aioslsk.Transfer.State.{
  World, Effect, call, Call, call_fail, call_abort, call_queue, call_pause,
}

-- `FailReason`.
pub data FailReason : Type 0 where
  cancelled complete_reason queued_reason file_not_shared : FailReason

abbrev pub text : FailReason → Str
text cancelled = 67 ∷ 97 ∷ 110 ∷ 99 ∷ 101 ∷ 108 ∷ 108 ∷ 101 ∷ 100 ∷ []
text complete_reason = 67 ∷ 111 ∷ 109 ∷ 112 ∷ 108 ∷ 101 ∷ 116 ∷ 101 ∷ []
text queued_reason = 81 ∷ 117 ∷ 101 ∷ 117 ∷ 101 ∷ 100 ∷ []
text file_not_shared =
    70 ∷ 105 ∷ 108 ∷ 101 ∷ 32 ∷ 110 ∷ 111 ∷ 116 ∷ 32 ∷ 115 ∷ 104 ∷ 97 ∷ 114 ∷ 101 ∷ 100 ∷ 46 ∷ []

-- `PeerTransferQueueFailed`, and `PeerTransferReply` with `allowed=False`.
pub data Reply : Type 0 where
  transfer_queue_failed : Str → FailReason → Reply
  transfer_refused : ℕ → FailReason → Reply

-- `replies` has the newest first.
pub record TransferManager : Type 0 where
  pub transfers : List Transfer
  pub replies : List Reply

abbrev pub Action : Type 0
Action = TransferManager → TransferManager

-- `Transfer.__eq__`.
abbrev pub same_direction : TransferDirection → TransferDirection → Bool
same_direction upload d = upload? d
same_direction download d = not (upload? d)

abbrev pub equals : Str → Str → TransferDirection → Transfer → Bool
equals username remote_path d t =
    same remote_path t.remote_path && same username t.username && same_direction d t.direction

unfoldable pub find_transfer : Str → Str → TransferDirection → List Transfer → Option Transfer
find_transfer username remote_path d [] = none
find_transfer username remote_path d (t ∷ ts) =
    if equals username remote_path d t then some t else find_transfer username remote_path d ts

-- A method of the object in the list.
unfoldable pub update_transfer :
    Str → Str → TransferDirection → (Transfer → Transfer) → List Transfer → List Transfer
update_transfer username remote_path d f [] = []
update_transfer username remote_path d f (t ∷ ts) =
    let rest = update_transfer username remote_path d f ts in
    if equals username remote_path d t then f t ∷ ts else t ∷ rest

abbrev pub on_object : Str → Str → TransferDirection → (Transfer → Transfer) → Action
on_object username remote_path d f s = record s {
  transfers = update_transfer username remote_path d f s.transfers;
}

abbrev pub on_state : World → Call → Transfer → Transfer
on_state w c t = (call w c t).transfer

abbrev pub reply : Reply → Action
reply r s = record s { replies = r ∷ s.replies }

-- `add`.
unfoldable pub add : Transfer → Action
unfolding find_transfer
add t s = elim (find_transfer t.username t.remote_path t.direction s.transfers) [
  | some u ↦ s
  | none ↦ record s { transfers = s.transfers ++ (t ∷ []) }
]

-- `download`.
unfoldable pub request_download : World → Str → Str → Bool → Action
unfolding add update_transfer new_transfer
request_download w username filename pauses s =
    on_object username filename download
      (on_state w (if pauses then call_pause else call_queue false))
      (add (new_transfer username filename download) s)

-- `list.remove`.
unfoldable pub drop_transfer : Str → Str → TransferDirection → List Transfer → List Transfer
drop_transfer username remote_path d [] = []
drop_transfer username remote_path d (t ∷ ts) =
    let rest = drop_transfer username remote_path d ts in
    if equals username remote_path d t then ts else t ∷ rest

-- `abort`, `queue` and `pause`, by the method that they call: they raise where the transfer is not in
-- the list or the method does nothing.
pub data Attempt : Type 0 where
  transfer_not_found invalid_state_transition : Attempt
  attempted : TransferManager → List Effect → Attempt

unfoldable pub attempt : World → Call → Str → Str → TransferDirection → TransferManager → Attempt
unfolding find_transfer update_transfer
attempt w c username remote_path d s = elim (find_transfer username remote_path d s.transfers) [
  | none ↦ transfer_not_found
  | some t ↦
      if (call w c t).done
      then attempted (on_object username remote_path d (on_state w c) s) (call w c t).effects
      else invalid_state_transition
]

-- `remove`, which takes a transfer that cannot be aborted from the list too.
unfoldable pub remove : World → Str → Str → TransferDirection → TransferManager → Attempt
unfolding find_transfer drop_transfer
remove w username remote_path d s = elim (find_transfer username remote_path d s.transfers) [
  | none ↦ transfer_not_found
  | some t ↦
      attempted (record s { transfers = drop_transfer username remote_path d s.transfers })
        (call w (call_abort (some requested)) t).effects
]

-- `_reset_remotely_queued_flags`.
unfoldable pub reset_remotely_queued_flags : Str → List Transfer → List Transfer
reset_remotely_queued_flags username [] = []
reset_remotely_queued_flags username (t ∷ ts) =
    (if is_download t && same username t.username then record t { remotely_queued = false } else t)
    ∷ reset_remotely_queued_flags username ts

abbrev pub aborted? : State → Bool
aborted? aborted = true
aborted? _ = false

abbrev pub failed? : State → Bool
failed? failed = true
failed? _ = false

abbrev pub retried? : State → Bool
retried? failed = true
retried? complete = true
retried? _ = false

-- The reasons to refuse an upload that is in the list.
abbrev pub fail_reason_map : State → Option FailReason
fail_reason_map paused = some cancelled
fail_reason_map aborted = some cancelled
fail_reason_map complete = some complete_reason
fail_reason_map queued = some queued_reason
fail_reason_map _ = none

-- The reasons to refuse a download that is in the list.
abbrev pub refuse_download : State → Option FailReason
refuse_download aborted = some cancelled
refuse_download paused = some cancelled
refuse_download complete = some complete_reason
refuse_download _ = none

-- The guard of every handler: the name of the connection is none, or empty, before it is initialized.
abbrev pub if_named : Option Str → (Str → Action) → Action
if_named none handler s = s
if_named (some []) handler s = s
if_named (some (c ∷ cs)) handler s = handler (c ∷ cs) s

unfoldable pub on_peer_place_in_queue_reply : Option Str → Str → ℕ → Action
unfolding update_transfer
on_peer_place_in_queue_reply connection filename place = if_named connection (λ username.
    on_object username filename download (λ t. record t { place_in_queue = some place }))

unfoldable pub on_peer_upload_failed : Option Str → Str → Action
unfolding update_transfer
on_peer_upload_failed connection filename =
    if_named connection
      (λ username. on_object username filename download (λ t. record t { remotely_queued = false }))

unfoldable pub on_peer_transfer_queue_failed : World → Option Str → Str → Str → Action
unfolding update_transfer
on_peer_transfer_queue_failed w connection filename reason =
    if_named connection
      (λ username. on_object username filename download (on_state w (call_fail (some reason))))

abbrev pub new_upload : Str → Str → Str × ℕ → Transfer
new_upload username filename (local_path, filesize) =
    record (new_transfer username filename upload) {
      local_path = some local_path;
      filesize = some filesize;
    }

-- `_add_upload` where the item is there, and then `queue`.
unfoldable pub add_upload : World → Str → Str → Str × ℕ → Action
unfolding add update_transfer
add_upload w username filename item s =
    on_object username filename upload (on_state w (call_queue false))
      (add (new_upload username filename item) s)

unfoldable pub queue_upload : World → Str → Str → Option Transfer → Option (Str × ℕ) → Action
unfolding add_upload
queue_upload w username filename none none s =
    reply (transfer_queue_failed filename file_not_shared) s
queue_upload w username filename none (some item) s = add_upload w username filename item s
queue_upload w username filename (some t) none s =
    reply (transfer_queue_failed filename file_not_shared)
      (on_object username filename upload (on_state w (call_fail (some (text file_not_shared)))) s)
queue_upload w username filename (some t) (some item) s =
    if aborted? t.state
    then reply (transfer_queue_failed filename cancelled) s
    else if retried? t.state
    then on_object username filename upload (on_state w (call_queue false)) s
    else s

abbrev pub refuse : ℕ → Option FailReason → Action
refuse ticket none s = s
refuse ticket (some reason) s = reply (transfer_refused ticket reason) s

-- The peer asks for an upload without queueing it first.
unfoldable pub upload_requested :
    World → ℕ → Str → Str → Option Transfer → Option (Str × ℕ) → Action
unfolding add_upload
upload_requested w ticket username filename none none s =
    reply (transfer_refused ticket file_not_shared) s
upload_requested w ticket username filename none (some item) s =
    reply (transfer_refused ticket queued_reason) (add_upload w username filename item s)
upload_requested w ticket username filename (some t) none s =
    reply (transfer_refused ticket file_not_shared)
      (on_object username filename upload (on_state w (call_fail (some (text file_not_shared)))) s)
upload_requested w ticket username filename (some t) (some item) s =
    refuse ticket (fail_reason_map t.state) s

-- The peer is ready to send; `task` is the number of the task that goes on from there.
unfoldable pub download_offered : World → ℕ → ℕ → Str → Str → Option Transfer → Action
unfolding update_transfer
download_offered w task ticket username filename none s =
    reply (transfer_refused ticket cancelled) s
download_offered w task ticket username filename (some t) s = elim (refuse_download t.state) [
  | some reason ↦ reply (transfer_refused ticket reason) s
  | none ↦
      if is_processing t
      then s
      else on_object username filename download
          (λ u. record (if failed? t.state then on_state w (call_queue true) u else u) {
            transfer_task = some task;
          })
          s
]

-- `is_blocked` is that of the settings, for uploads; `get_shared_item` stands for that of the shares
-- on a path and a name, with the local path and the size, and `none` where it raises.
module _ (is_blocked : Str → Bool) (get_shared_item : Str → Str → Option (Str × ℕ)) where
  unfoldable pub on_peer_transfer_queue : World → Option Str → Str → Action
  unfolding find_transfer queue_upload
  on_peer_transfer_queue w connection filename = if_named connection (λ username s.
      if is_blocked username
      then reply (transfer_queue_failed filename file_not_shared) s
      else queue_upload w username filename (find_transfer username filename upload s.transfers)
          (get_shared_item filename username) s)

  unfoldable pub on_peer_transfer_request :
      World → ℕ → ℕ → Option Str → Str → TransferDirection → Action
  unfolding find_transfer upload_requested download_offered
  on_peer_transfer_request w task ticket connection filename upload =
      if_named connection (λ username s.
        if is_blocked username
        then reply (transfer_refused ticket file_not_shared) s
        else upload_requested w ticket username filename
            (find_transfer username filename upload s.transfers) (get_shared_item filename username)
            s)
  on_peer_transfer_request w task ticket connection filename download =
      if_named connection (λ username s.
        download_offered w task ticket username filename
          (find_transfer username filename download s.transfers) s)
