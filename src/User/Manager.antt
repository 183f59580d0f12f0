-- ===== src/User/Manager.antt =====
-- user/manager.py: `UserManager`, with the user objects by their names. An object that nobody refers
-- to any more is dropped from the dictionary at any time. What a handler does outside of the manager
-- is an effect, the newest first; where it raises, `raised` is the last of them.
pub mod Handlers
pub mod Frame
pub mod Privileged
pub mod Jobs
mod Tests
use aioslsk.Base.{
  ℕ, ◌%◌, ◌==◌, Bool, true, false, not, ◌&&◌, ◌||◌, if◌then◌else◌, Str, same, elem, all,
}
use aioslsk.Base.{Option, none, some, List, [], ◌∷◌, ◌++◌}

pub data UserStatus : Type 0 where
  unknown offline away online : UserStatus

pub data UploadPermissions : Type 0 where
  unknown_permissions noone everyone user_list permitted_list : UploadPermissions

-- `UserStatus(n)` and `UploadPermissions(n)`, `none` where they raise.
abbrev pub status_of : ℕ → Option UserStatus
status_of n =
    if n == 0
    then some offline
    else if n == 1
    then some away
    else if n == 2
    then some online
    else none

abbrev pub permissions_of : ℕ → Option UploadPermissions
permissions_of n =
    if n == 0
    then some noone
    else if n == 1
    then some everyone
    else if n == 2
    then some user_list
    else if n == 3
    then some permitted_list
    else none

-- `User`, but for the interests and `slots_free`, which nothing here writes.
pub record User : Type 0 where
  pub name : Str
  pub status : UserStatus
  pub privileged : Bool
  pub description : Option Str
  pub picture : Option Str
  pub country : Option Str
  pub avg_speed : Option ℕ
  pub uploads : Option ℕ
  pub shared_file_count : Option ℕ
  pub shared_folder_count : Option ℕ
  pub has_slots_free : Option Bool
  pub upload_slots : Option ℕ
  pub queue_length : Option ℕ
  pub upload_permissions : UploadPermissions

pub record UserStats : Type 0 where
  pub stats_speed : ℕ
  pub stats_uploads : ℕ
  pub stats_files : ℕ
  pub stats_folders : ℕ

-- The settings: `blocked` has a flag number for each name.
pub record Settings : Type 0 where
  pub friends : List Str
  pub blocked : List (Str × ℕ)

pub data Effect : Type 0 where
  private_message_ack : ℕ → Effect
  check_privileges set_status_online raised : Effect
  track_friend untrack_friend : Str → Effect
  private_message_event : ℕ → User → Str → Effect
  privileges_update : ℕ → Effect
  privileged_users_event : List User → Effect
  privileged_user_added : User → Effect
  user_status_update user_stats_update user_info_update : User → User → Effect

pub record UserManager : Type 0 where
  pub users : List User
  pub privileged_users : List Str
  pub session : Option Str
  pub effects : List Effect

abbrev pub add_effect : Effect → UserManager → UserManager
add_effect e s = record s { effects = e ∷ s.effects }

abbrev pub new_object : Str → Bool → User
new_object name privileged = record {
  name = name;
  status = unknown;
  privileged = privileged;
  description = none;
  picture = none;
  country = none;
  avg_speed = none;
  uploads = none;
  shared_file_count = none;
  shared_folder_count = none;
  has_slots_free = none;
  upload_slots = none;
  queue_length = none;
  upload_permissions = unknown_permissions;
}

abbrev pub find_user : Str → List User → Option User
find_user name [] = none
find_user name (u ∷ us) = if same name u.name then some u else find_user name us

-- `get_user_object`: the manager afterwards, and the object.
unfoldable pub get_user_object : Str → UserManager → UserManager × User
get_user_object name s = elim (find_user name s.users) [
  | some u ↦ (s, u)
  | none ↦
      let u = new_object name (elem name s.privileged_users) in
      (record s { users = s.users ++ (u ∷ []) }, u)
]

-- A write to the object of a name.
abbrev pub update_user : Str → (User → User) → List User → List User
update_user name f [] = []
update_user name f (u ∷ us) = if same name u.name then f u ∷ us else u ∷ update_user name f us

abbrev pub with_event : Option Effect → List Effect → List Effect
with_event none effects = effects
with_event (some e) effects = e ∷ effects

-- An object is got and written to, and the listeners are told of it as it was and as it is.
unfoldable pub write_user :
    Str → (User → User) → (User → User → Option Effect) → UserManager → UserManager
write_user name f event s =
    let (s', u) = get_user_object name s in
    record s' {
      users = update_user name f s'.users;
      effects = with_event (event u (f u)) s'.effects;
    }

abbrev pub with_stats : UserStats → User → User
with_stats stats u = record u {
  avg_speed = some stats.stats_speed;
  uploads = some stats.stats_uploads;
  shared_file_count = some stats.stats_files;
  shared_folder_count = some stats.stats_folders;
}

-- `dict.get`.
abbrev pub get {ℓ} : {A : Type ℓ} → Str → List (Str × A) → Option A
get name [] = none
get name ((key, a) ∷ entries) = if same name key then some a else get name entries

abbrev pub flags_of : Str → List (Str × ℕ) → ℕ
flags_of name blocked = elim (get name blocked) [ none ↦ 0 | some flags ↦ flags ]

-- `is_blocked` for `PRIVATE_MESSAGES`, the lowest bit.
abbrev pub blocks_messages : Settings → Str → Bool
blocks_messages settings name = flags_of name settings.blocked % 2 == 1
