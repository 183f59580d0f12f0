-- ===== src/Transfer/Queue/Tests.antt =====
-- A small queue: one upload under way, two queued ones of a privileged user, and one of a stranger.
use aioslsk.Base.{ℕ, ◌+◌, ◌≡◌, refl, max, min, length, any, if◌then◌else◌}
use aioslsk.Base.{true, false, List, [], ◌∷◌, All}
use aioslsk.Transfer.Model.{Str, State, uploading, queued, Transfer, upload, new_transfer}
use aioslsk.Transfer.State.{World, call, call_queue}
use aioslsk.Transfer.State.Run.{run, on_call, run-new_transfer}
use aioslsk.Base.{same, elem}
use aioslsk.Transfer.Queue.{
  Settings, User, online, unknown, usernames, get_uploading, get_queued_transfers, manage_transfers,
}
use aioslsk.Transfer.State.Invariant.{aborted?, is_some}
use aioslsk.Transfer.Queue.Slots.{holds_slot}
use aioslsk.Transfer.Queue.Count.{count}
use aioslsk.Transfer.Queue.Selection.{
  waits_for, count-get_queued_transfers, manage_transfers-upload_slots,
}
use aioslsk.Transfer.Queue.Priority.{privileged?, privileged_first}
use aioslsk.Transfer.Queue.Shares.{
  has_reason, requested, file_not_shared, blocked, manage_upload, manage_upload-Settled,
}
use aioslsk.Transfer.Queue.Users.{
  manage_user_tracking, get_unfinished_transfers, manage_user_tracking-desired,
}
use aioslsk.User.Tracking.{new_tracking, no_flags}
use aioslsk.User.Tracking.Desired.{desired}

abbrev alice : Str
alice = 97 ∷ []

abbrev bob : Str
bob = 98 ∷ []

abbrev carol : Str
carol = 99 ∷ []

-- Bob is privileged.
abbrev user_object : Str → User
user_object name = record {
  status = if same name bob then online else unknown;
  privileged = same name bob;
}

abbrev settings : Settings
settings = record { get_user_object = user_object; friends = carol ∷ []; upload_slots = 2 }

abbrev file : Str → ℕ → State → Transfer
file name path state = record (new_transfer name (path ∷ []) upload) { state = state }

abbrev transfers : List Transfer
transfers =
    file alice 1 uploading
    ∷ file carol 2 queued
    ∷ file bob 3 queued
    ∷ file bob 4 queued
    ∷ file alice 5 queued
    ∷ []

-- Bob's first upload goes before Carol's; Alice already has one under way.
ranked : (get_queued_transfers settings transfers).1 ≡ file bob 3 queued ∷ file carol 2 queued ∷ []
unfolding get_queued_transfers new_transfer
ranked = refl

started : (manage_transfers settings transfers).1 ≡ file bob 3 queued ∷ []
unfolding manage_transfers new_transfer
started = refl

count-get_queued_transfers_example :
    count (λ t. same bob t.username) (get_queued_transfers settings transfers).1 ≡ (
      if any (waits_for settings (usernames (get_uploading transfers)) bob) transfers then 1 else 0)
count-get_queued_transfers_example = count-get_queued_transfers settings bob transfers

manage_transfers-upload_slots_example :
    count holds_slot transfers + length (manage_transfers settings transfers).1
    ≡ max
        (count holds_slot transfers)
        (min 2 (count holds_slot transfers + length (get_queued_transfers settings transfers).1))
manage_transfers-upload_slots_example = manage_transfers-upload_slots settings transfers

-- With everybody privileged, Carol, who is a friend, goes before Bob.
abbrev all_privileged : Settings
all_privileged = record settings {
  get_user_object = λ name. record { status = online; privileged = true };
}

carol_first :
    (get_queued_transfers all_privileged (file carol 2 queued ∷ file bob 3 queued ∷ [])).1
    ≡ file carol 2 queued ∷ file bob 3 queued ∷ []
unfolding get_queued_transfers new_transfer
carol_first = refl

privileged_first_example : All (λ t. privileged? all_privileged t ≡ true) (file carol 2 queued ∷ [])
privileged_first_example =
    privileged_first all_privileged (file carol 2 queued ∷ file bob 3 queued ∷ [])
      (file carol 2 queued ∷ []) [] (file bob 3 queued) carol_first refl

abbrev world : World
world = record { now = 1; exists = λ path. true; removes = λ path. true }

-- An upload to Bob, who was blocked after it was queued.
abbrev shared : Transfer
shared = run (new_transfer bob (3 ∷ []) upload) (on_call world (call_queue false) ∷ [])

manage_upload-Settled_example :
    let t = manage_upload (same bob) (λ path name. true) world shared in
    (aborted? t.state ≡ true)
    × (is_some t.abort_reason ≡ true)
    × (has_reason requested t ≡ false)
    × (has_reason blocked t ≡ true)
    × (has_reason file_not_shared t ≡ false)
    × (manage_upload (same bob) (λ path name. true) world t ≡ t)
unfolding run new_transfer call
manage_upload-Settled_example =
    manage_upload-Settled (same bob) (λ path name. true) world world shared
      (run-new_transfer bob (3 ∷ []) upload (on_call world (call_queue false) ∷ [])).0 refl refl

manage_user_tracking-desired_example :
    desired (manage_user_tracking transfers bob new_tracking)
    ≡ record no_flags { transfer = elem bob (usernames (get_unfinished_transfers transfers)) }
unfolding new_transfer
manage_user_tracking-desired_example =
    manage_user_tracking-desired transfers bob new_tracking refl refl
