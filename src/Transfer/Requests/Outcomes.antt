-- ===== src/Transfer/Requests/Outcomes.antt =====
-- transfer/manager.py: what the requests of users and peers leave in the list.
use aioslsk.Base.{
  ℕ, ◌≡◌, refl, ◌∙◌, arith, Bool, true, false, if◌then◌else◌, Option, none, some, List, [], ◌∷◌,
}
use aioslsk.Transfer.Model.{Str, State, Transfer, TransferDirection, upload, download, new_transfer}
use aioslsk.Transfer.State.{World, Call, call_queue, call_fail}
use aioslsk.Transfer.Requests.{
  TransferManager, find_transfer, add, remove, attempt, Attempt, transfer_not_found,
  invalid_state_transition, attempted, on_object, on_state, reset_remotely_queued_flags,
  request_download, on_peer_place_in_queue_reply, on_peer_upload_failed,
  on_peer_transfer_queue_failed, on_peer_transfer_queue, on_peer_transfer_request, add_upload,
  queue_upload, upload_requested, download_offered, Action, if_named, failed?, fail_reason_map,
  new_upload, text, file_not_shared, refuse,
}
use aioslsk.Transfer.Requests.Listed.{
  unique, Keeps, on_state-Keeps, unique-update, unique-add, unique-drop, unique-reset,
}

-- What users and peers ask for, with the name of the peer's connection, and a user who goes offline.
pub data Request : Type 0 where
  user_download : World → Str → Str → Bool → Request
  user_attempt : World → Call → Str → Str → TransferDirection → Request
  user_remove : World → Str → Str → TransferDirection → Request
  peer_transfer_queue : World → Option Str → Str → Request
  peer_transfer_request : World → ℕ → ℕ → Option Str → Str → TransferDirection → Request
  peer_transfer_queue_failed : World → Option Str → Str → Str → Request
  peer_upload_failed : Option Str → Str → Request
  peer_place_in_queue_reply : Option Str → Str → ℕ → Request
  user_offline : Str → Request

abbrev pub managed : TransferManager → Attempt → TransferManager
managed s transfer_not_found = s
managed s invalid_state_transition = s
managed s (attempted s' effects) = s'

module _ (is_blocked : Str → Bool) (get_shared_item : Str → Str → Option (Str × ℕ)) where
  abbrev pub react : Request → TransferManager → TransferManager
  react (user_download w name path pauses) s = request_download w name path pauses s
  react (user_attempt w c name path d) s = managed s (attempt w c name path d s)
  react (user_remove w name path d) s = managed s (remove w name path d s)
  react (peer_transfer_queue w name path) s =
      on_peer_transfer_queue is_blocked get_shared_item w name path s
  react (peer_transfer_request w task ticket name path d) s =
      on_peer_transfer_request is_blocked get_shared_item w task ticket name path d s
  react (peer_transfer_queue_failed w name path reason) s =
      on_peer_transfer_queue_failed w name path reason s
  react (peer_upload_failed name path) s = on_peer_upload_failed name path s
  react (peer_place_in_queue_reply name path place) s =
      on_peer_place_in_queue_reply name path place s
  react (user_offline name) s = record s {
    transfers = reset_remotely_queued_flags name s.transfers;
  }

  abbrev pub react_all : List Request → TransferManager → TransferManager
  react_all [] s = s
  react_all (r ∷ rs) s = react_all rs (react r s)

abbrev pub Unique : TransferManager → Type 0
Unique s = unique s.transfers ≡ true

on_object-Unique :
    (name path : Str) (d : TransferDirection) (f : Transfer → Transfer) (s : TransferManager)
    → Keeps f
    → Unique s
    → Unique (on_object name path d f s)
on_object-Unique name path d f s keeps u = unique-update name path d f s.transfers keeps ∙ u

attempt-Unique :
    (w : World) (c : Call) (name path : Str) (d : TransferDirection) (s : TransferManager)
    → Unique s
    → Unique (managed s (attempt w c name path d s))
unfolding attempt
attempt-Unique w c name path d s u =
    ground (arith, on_object-Unique name path d (on_state w c) s (on_state-Keeps w c) u)

remove-Unique :
    (w : World) (name path : Str) (d : TransferDirection) (s : TransferManager)
    → Unique s
    → Unique (managed s (remove w name path d s))
unfolding remove
remove-Unique w name path d s u = ground (arith, unique-drop name path d s.transfers u)

request_download-Unique :
    (w : World) (name path : Str) (pauses : Bool) (s : TransferManager)
    → Unique s
    → Unique (request_download w name path pauses s)
unfolding request_download
request_download-Unique w name path pauses s u =
    on_object-Unique name path download _ (add (new_transfer name path download) s)
      (on_state-Keeps w _) (unique-add (new_transfer name path download) s u)

add_upload-Unique :
    (w : World) (name path : Str) (item : Str × ℕ) (s : TransferManager)
    → Unique s
    → Unique (add_upload w name path item s)
unfolding add_upload
add_upload-Unique w name path item s u =
    on_object-Unique name path upload (on_state w (call_queue false))
      (add (new_upload name path item) s) (on_state-Keeps w (call_queue false))
      (unique-add (new_upload name path item) s u)

queue_upload-Unique :
    (w : World) (name path : Str) (found : Option Transfer) (item : Option (Str × ℕ))
    (s : TransferManager)
    → Unique s
    → Unique (queue_upload w name path found item s)
unfolding queue_upload
queue_upload-Unique w name path none none s u = u
queue_upload-Unique w name path none (some item) s u = add_upload-Unique w name path item s u
queue_upload-Unique w name path (some t) none s u =
    on_object-Unique name path upload _ s
      (on_state-Keeps w (call_fail (some (text file_not_shared)))) u
queue_upload-Unique w name path (some t) (some item) s u = ground (
  arith,
  on_object-Unique name path upload (on_state w (call_queue false)) s
      (on_state-Keeps w (call_queue false)) u,
)

refuse-Unique :
    (ticket : ℕ) (state : State) (s : TransferManager)
    → Unique s
    → Unique (refuse ticket (fail_reason_map state) s)
refuse-Unique ticket state s u = ground arith

upload_requested-Unique :
    (w : World) (ticket : ℕ) (name path : Str) (found : Option Transfer) (item : Option (Str × ℕ))
    (s : TransferManager)
    → Unique s
    → Unique (upload_requested w ticket name path found item s)
unfolding upload_requested
upload_requested-Unique w ticket name path none none s u = u
upload_requested-Unique w ticket name path none (some item) s u =
    add_upload-Unique w name path item s u
upload_requested-Unique w ticket name path (some t) none s u =
    on_object-Unique name path upload _ s
      (on_state-Keeps w (call_fail (some (text file_not_shared)))) u
upload_requested-Unique w ticket name path (some t) (some item) s u =
    refuse-Unique ticket t.state s u

-- What goes on with the download that is offered.
started : World → ℕ → Bool → Transfer → Transfer
started w task fails u = record (if fails then on_state w (call_queue true) u else u) {
  transfer_task = some task;
}

started-Keeps : (w : World) (task : ℕ) (fails : Bool) → Keeps (started w task fails)
unfolding started
started-Keeps w task true t = on_state-Keeps w (call_queue true) t
started-Keeps w task false t = refl

download_offered-Unique :
    (w : World) (task ticket : ℕ) (name path : Str) (found : Option Transfer) (s : TransferManager)
    → Unique s
    → Unique (download_offered w task ticket name path found s)
unfolding download_offered started
download_offered-Unique w task ticket name path none s u = u
download_offered-Unique w task ticket name path (some t) s u = ground (
  arith,
  on_object-Unique name path download (started w task (failed? t.state)) s
      (started-Keeps w task (failed? t.state)) u,
)

if_named-Unique :
    (connection : Option Str) (handler : Str → Action) (s : TransferManager)
    → ((name : Str) → Unique (handler name s))
    → Unique s
    → Unique (if_named connection handler s)
if_named-Unique none handler s keeps u = u
if_named-Unique (some []) handler s keeps u = u
if_named-Unique (some (c ∷ cs)) handler s keeps u = keeps (c ∷ cs)

module _ (is_blocked : Str → Bool) (get_shared_item : Str → Str → Option (Str × ℕ)) where
  react-Unique :
      (r : Request) (s : TransferManager) → Unique s → Unique (react is_blocked get_shared_item r s)
  unfolding on_peer_transfer_queue on_peer_transfer_request on_peer_transfer_queue_failed
      on_peer_upload_failed on_peer_place_in_queue_reply
  react-Unique (user_download w name path pauses) s u =
      request_download-Unique w name path pauses s u
  react-Unique (user_attempt w c name path d) s u = attempt-Unique w c name path d s u
  react-Unique (user_remove w name path d) s u = remove-Unique w name path d s u
  react-Unique (peer_transfer_queue w connection path) s u =
      if_named-Unique connection _ s
        (λ name. ground (
          arith,
          queue_upload-Unique w name path (find_transfer name path upload s.transfers)
              (get_shared_item path name) s u,
        ))
        u
  react-Unique (peer_transfer_request w task ticket connection path upload) s u =
      if_named-Unique connection _ s
        (λ name. ground (
          arith,
          upload_requested-Unique w ticket name path (find_transfer name path upload s.transfers)
              (get_shared_item path name) s u,
        ))
        u
  react-Unique (peer_transfer_request w task ticket connection path download) s u =
      if_named-Unique connection _ s
        (λ name.
          download_offered-Unique w task ticket name path
            (find_transfer name path download s.transfers) s u)
        u
  react-Unique (peer_transfer_queue_failed w connection path reason) s u =
      if_named-Unique connection _ s
        (λ name.
          on_object-Unique name path download _ s (on_state-Keeps w (call_fail (some reason))) u)
        u
  react-Unique (peer_upload_failed connection path) s u =
      if_named-Unique connection _ s (λ name. on_object-Unique name path download _ s (λ t. refl) u)
        u
  react-Unique (peer_place_in_queue_reply connection path place) s u =
      if_named-Unique connection _ s (λ name. on_object-Unique name path download _ s (λ t. refl) u)
        u
  react-Unique (user_offline name) s u = unique-reset name s.transfers ∙ u

  -- Whatever users and peers ask for, in whatever order, whoever is blocked and whatever is shared: a
  -- list without equal transfers stays one.
  pub react_all-Unique :
      (rs : List Request) (s : TransferManager)
      → Unique s
      → Unique (react_all is_blocked get_shared_item rs s)
  react_all-Unique [] s u = u
  react_all-Unique (r ∷ rs) s u =
      react_all-Unique rs (react is_blocked get_shared_item r s) (react-Unique r s u)
