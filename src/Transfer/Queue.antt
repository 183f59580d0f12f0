-- ===== src/Transfer/Queue.antt =====
-- transfer/manager.py: the choice of the transfers to start. The transfers stand in a list, in the
-- order in which they were added; a user is what the user manager knows of a name.
pub mod Count
pub mod Slots
pub mod Selection
pub mod Priority
pub mod Shares
pub mod Users
mod Tests
use aioslsk.Base.{ℕ, ◌+◌, ◌-◌, ◌==◌, leb, Bool, true, false, not, ◌&&◌, ◌||◌, if◌then◌else◌}
use aioslsk.Base.{Option, none, some, List, [], ◌∷◌, length, take, any}
use aioslsk.Base.{elem}
use aioslsk.Transfer.Model.{
  Str, State, queued, incomplete, failed, Transfer, is_upload, is_download, is_processing,
}
use mathlib.Core.List.{reverse}

pub data UserStatus : Type 0 where
  unknown offline away online : UserStatus

-- The fields of `User` that the queue reads.
pub record User : Type 0 where
  pub status : UserStatus
  pub privileged : Bool

-- What the manager reads of the other components: the user objects, and the settings.
pub record Settings : Type 0 where
  pub get_user_object : Str → User
  pub friends : List Str
  pub upload_slots : ℕ

abbrev pub offline? : UserStatus → Bool
offline? offline = true
offline? _ = false

abbrev pub here? : UserStatus → Bool
here? online = true
here? away = true
here? _ = false

abbrev pub queued? : State → Bool
queued? queued = true
queued? _ = false

-- Downloads that are tried: queued, broken off, or failed without a reason.
abbrev pub retried? : State → Option Str → Bool
retried? queued reason = true
retried? incomplete reason = true
retried? failed none = true
retried? _ _ = false

abbrev pub filter : (Transfer → Bool) → List Transfer → List Transfer
filter p [] = []
filter p (t ∷ ts) = if p t then t ∷ filter p ts else filter p ts

abbrev pub uploading? : Transfer → Bool
uploading? t = is_upload t && is_processing t

unfoldable pub get_uploading : List Transfer → List Transfer
get_uploading transfers = filter uploading? transfers

abbrev pub usernames : List Transfer → List Str
usernames [] = []
usernames (t ∷ ts) = t.username ∷ usernames ts

module _ (settings : Settings) where
  open settings use {get_user_object, friends, upload_slots}

  -- Whether an upload is added, for users that are `uploading` or were `seen` with one before.
  abbrev pub adds_upload : List Str → List Str → Transfer → Bool
  adds_upload uploading seen t =
      not (offline? (get_user_object t.username).status)
      && (is_upload t
          && (not (elem t.username uploading) && (not (elem t.username seen) && queued? t.state)))

  abbrev pub adds_download : Transfer → Bool
  adds_download t =
      not (offline? (get_user_object t.username).status)
      && (is_download t && (not t.remotely_queued && retried? t.state t.fail_reason))

  -- The loop of `_get_queued_transfers`: the downloads, and the uploads before they are ranked.
  unfoldable pub queued_from : List Str → List Str → List Transfer → List Transfer × List Transfer
  queued_from uploading seen [] = ([], [])
  queued_from uploading seen (t ∷ ts) =
      let upload = adds_upload uploading seen t in
      let (downloads, uploads) =
        queued_from uploading (if upload then t.username ∷ seen else seen) ts in
      (
        if adds_download t then t ∷ downloads else downloads,
        if upload then t ∷ uploads else uploads,
      )

  unfoldable pub rank : Transfer → ℕ
  rank upload =
      let user = get_user_object upload.username in
      (if here? user.status then 1 else 0)
      + (if elem upload.username friends then 5 else 0)
      + (if user.privileged then 100 else 0)

  -- `ranking.sort(key=itemgetter(0))`, which is stable.
  unfoldable pub insert_by_rank : Transfer → List Transfer → List Transfer
  unfolding rank
  insert_by_rank t [] = t ∷ []
  insert_by_rank t (u ∷ us) =
      let rest = insert_by_rank t us in if leb (rank t) (rank u) then t ∷ u ∷ us else u ∷ rest

  unfoldable pub sort_by_rank : List Transfer → List Transfer
  unfolding insert_by_rank
  sort_by_rank [] = []
  sort_by_rank (t ∷ ts) = insert_by_rank t (sort_by_rank ts)

  unfoldable pub prioritize_uploads : List Transfer → List Transfer
  unfolding sort_by_rank
  prioritize_uploads uploads = reverse (sort_by_rank uploads)

  unfoldable pub get_queued_transfers : List Transfer → List Transfer × List Transfer
  unfolding get_uploading queued_from prioritize_uploads
  get_queued_transfers transfers =
      let (downloads, uploads) = queued_from (usernames (get_uploading transfers)) [] transfers in
      (downloads, prioritize_uploads uploads)

  -- `max(0, available_slots)`: the subtraction stops at 0.
  unfoldable pub get_free_upload_slots : List Transfer → ℕ
  unfolding get_uploading
  get_free_upload_slots transfers = upload_slots - length (get_uploading transfers)

  -- The downloads and uploads that `manage_transfers` starts a task for.
  unfoldable pub manage_transfers : List Transfer → List Transfer × List Transfer
  unfolding get_queued_transfers get_free_upload_slots
  manage_transfers transfers =
      let (downloads, uploads) = get_queued_transfers transfers in
      (downloads, take (get_free_upload_slots transfers) uploads)
