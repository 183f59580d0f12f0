-- ===== src/Transfer/State/Invariant.antt =====
-- What holds of a transfer between two calls of transfer/state.py.
use aioslsk.Base.{◌≡◌, refl, Bool, true, false, not, ◌&&◌, ◌||◌, Option, none, some, arith}
use aioslsk.Transfer.Model.{
  Str, State, unset, virgin, queued, initializing, incomplete, downloading, uploading, complete,
  failed, aborted, Transfer, TransferDirection, upload, download, new_transfer,
}
use aioslsk.Transfer.State.{World, Call, call}

abbrev pub is_some {ℓ} : {A : Type ℓ} → Option A → Bool
is_some none = false
is_some (some a) = true

-- Which of the start and complete time are set in a state.
abbrev pub times_ok : State → Bool → Bool → Bool
times_ok unset started ended = false
times_ok virgin started ended = not started && not ended
times_ok queued started ended = not started && not ended
times_ok initializing started ended = not started && not ended
times_ok downloading started ended = started && not ended
times_ok uploading started ended = started && not ended
times_ok complete started ended = started && ended
times_ok incomplete started ended = started && ended
times_ok _ started ended = (started && ended) || (not started && not ended)

-- A state in which bytes move belongs to one direction.
abbrev pub direction_ok : State → TransferDirection → Bool
direction_ok downloading upload = false
direction_ok incomplete upload = false
direction_ok uploading download = false
direction_ok _ _ = true

abbrev pub failed? : State → Bool
failed? failed = true
failed? _ = false

abbrev pub aborted? : State → Bool
aborted? aborted = true
aborted? _ = false

-- A reason is kept only in the state that it explains.
pub record IsValid (t : Transfer) : Type 0 where
  pub times : times_ok t.state (is_some t.start_time) (is_some t.complete_time) ≡ true
  pub directed : direction_ok t.state t.direction ≡ true
  pub fail_explained : failed? t.state ≡ false → t.fail_reason ≡ none
  pub abort_explained : aborted? t.state ≡ false → t.abort_reason ≡ none

pub new_transfer-IsValid :
    (username path : Str) (d : TransferDirection) → IsValid (new_transfer username path d)
unfolding new_transfer
new_transfer-IsValid username path upload = record {
  times = refl;
  directed = refl;
  fail_explained = λ _. refl;
  abort_explained = λ _. refl;
}
new_transfer-IsValid username path download = record {
  times = refl;
  directed = refl;
  fail_explained = λ _. refl;
  abort_explained = λ _. refl;
}

-- Every call, in every state, keeps the invariant.
pub call-IsValid : (w : World) (c : Call) (t : Transfer) → IsValid t → IsValid (call w c t).transfer
unfolding call
call-IsValid w c t v = ground arith
