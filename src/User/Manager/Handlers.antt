-- ===== src/User/Manager/Handlers.antt =====
-- user/manager.py: the handlers of messages and events of `UserManager`.
use aioslsk.Base.{ℕ, Bool, true, if◌then◌else◌, Str, elem}
use aioslsk.Base.{Option, none, some, List, [], ◌∷◌}
use aioslsk.User.Manager.{
  Settings, UploadPermissions, User, UserManager, UserStats, UserStatus, add_effect,
  blocks_messages, get_user_object, permissions_of, status_of, with_stats, write_user, online,
  unknown_permissions, private_message_ack, check_privileges, set_status_online, raised,
  track_friend, private_message_event, privileges_update, privileged_users_event,
  privileged_user_added, user_status_update, user_stats_update, user_info_update,
}

unfoldable pub on_private_message : Settings → ℕ → Str → Str → UserManager → UserManager
unfolding get_user_object
on_private_message settings chat_id username message s =
    let s' = add_effect (private_message_ack chat_id) s in
    if blocks_messages settings username
    then s'
    else let (s'', u) = get_user_object username s' in
      add_effect (private_message_event chat_id u message) s''

unfoldable pub on_check_privileges : ℕ → UserManager → UserManager
on_check_privileges time_left s = elim s.session [
  | none ↦ add_effect raised s
  | some name ↦ add_effect (privileges_update time_left) s
]

abbrev pub mark_privileged : List Str → List User → List User
mark_privileged names [] = []
mark_privileged names (u ∷ us) =
    record u { privileged = elem u.name names } ∷ mark_privileged names us

-- `map(self.get_user_object, names)`.
unfoldable pub get_user_objects : List Str → UserManager → UserManager × List User
unfolding get_user_object
get_user_objects [] s = (s, [])
get_user_objects (name ∷ names) s =
    let (s', u) = get_user_object name s in
    let (s'', us) = get_user_objects names s' in (s'', u ∷ us)

unfoldable pub on_privileged_users : List Str → UserManager → UserManager
unfolding get_user_objects
on_privileged_users names s =
    let s' = record s { users = mark_privileged names s.users; privileged_users = names } in
    let (s'', us) = get_user_objects names s' in add_effect (privileged_users_event us) s''

unfoldable pub on_add_privileged_user : Str → UserManager → UserManager
unfolding write_user
on_add_privileged_user name =
    write_user name (λ u. record u { privileged = true })
      (λ before u. some (privileged_user_added u))

-- `_on_add_user`; the object is there even where the status raises.
abbrev pub after_add_user : UserStatus → Option UserStats → Option Str → User → User
after_add_user status none country u = record u { status = status; country = country }
after_add_user status (some stats) country u =
    with_stats stats (record u { status = status; country = country })

unfoldable pub on_add_user :
    Str → Bool → ℕ → Option UserStats → Option Str → UserManager → UserManager
unfolding write_user
on_add_user name exists status stats country s =
    if exists
    then elim (status_of status) [
      | none ↦ write_user name (λ u. u) (λ before u. some raised) s
      | some st ↦ write_user name (after_add_user st stats country) (λ before u. none) s
    ]
    else write_user name (λ u. u) (λ before u. none) s

unfoldable pub on_get_user_status : Str → ℕ → Bool → UserManager → UserManager
unfolding write_user
on_get_user_status name status privileged s = elim (status_of status) [
  | none ↦ write_user name (λ u. u) (λ before u. some raised) s
  | some st ↦
      write_user name (λ u. record u { status = st; privileged = privileged })
        (λ before u. some (user_status_update before u)) s
]

unfoldable pub on_get_user_stats : Str → UserStats → UserManager → UserManager
unfolding write_user
on_get_user_stats name stats =
    write_user name (with_stats stats) (λ before u. some (user_stats_update before u))

-- `PeerUserInfoReply`, and what is written before its permissions are read.
pub record UserInfo : Type 0 where
  pub info_description : Str
  pub info_picture : Option Str
  pub info_upload_slots : ℕ
  pub info_queue_size : ℕ
  pub info_slots_free : Bool
  pub info_permissions : Option ℕ

abbrev pub with_info : UserInfo → User → User
with_info info u = record u {
  description = some info.info_description;
  picture = info.info_picture;
  upload_slots = some info.info_upload_slots;
  queue_length = some info.info_queue_size;
  has_slots_free = some info.info_slots_free;
}

abbrev pub permissions_in : Option ℕ → Option UploadPermissions
permissions_in none = some unknown_permissions
permissions_in (some n) = permissions_of n

-- The name is that of the connection: none, or an empty one, before it is initialized.
unfoldable pub on_peer_user_info_reply : Option Str → UserInfo → UserManager → UserManager
unfolding write_user
on_peer_user_info_reply none info s = s
on_peer_user_info_reply (some []) info s = s
on_peer_user_info_reply (some (c ∷ cs)) info s = elim (permissions_in info.info_permissions) [
  | none ↦ write_user (c ∷ cs) (with_info info) (λ before u. some raised) s
  | some permissions ↦
      write_user (c ∷ cs) (λ u. record (with_info info u) { upload_permissions = permissions })
        (λ before u. some (user_info_update before u)) s
]

unfoldable pub on_peer_search_reply : Str → ℕ → ℕ → Bool → UserManager → UserManager
unfolding write_user
on_peer_search_reply name speed queue_size slots_free =
    write_user name
      (λ u. record u {
        avg_speed = some speed;
        queue_length = some queue_size;
        has_slots_free = some slots_free;
      })
      (λ before u. none)

-- `reset_users`, when the server connection is closed.
unfoldable pub reset_users : UserManager → UserManager
reset_users s = record s { users = []; privileged_users = [] }

abbrev pub track_friends : List Str → UserManager → UserManager
track_friends [] s = s
track_friends (name ∷ names) s = track_friends names (add_effect (track_friend name) s)

-- `_on_session_initialized`; `get_self` is the object of our own name.
unfoldable pub on_session_initialized : Settings → Str → UserManager → UserManager
unfolding write_user
on_session_initialized settings name s =
    let s' =
      add_effect set_status_online
        (add_effect check_privileges (record s { session = some name })) in
    let s'' = write_user name (λ u. record u { status = online }) (λ before u. none) s' in
    track_friends settings.friends (add_effect (track_friend name) s'')

-- The messages that are about one user.
pub data UserMessage : Type 0 where
  private_message : ℕ → Str → Str → UserMessage
  add_privileged_user : Str → UserMessage
  add_user : Str → Bool → ℕ → Option UserStats → Option Str → UserMessage
  get_user_status : Str → ℕ → Bool → UserMessage
  get_user_stats : Str → UserStats → UserMessage
  peer_user_info_reply : Str → UserInfo → UserMessage
  peer_search_reply : Str → ℕ → ℕ → Bool → UserMessage

abbrev pub subject : UserMessage → Str
subject (private_message chat_id name message) = name
subject (add_privileged_user name) = name
subject (add_user name exists status stats country) = name
subject (get_user_status name status privileged) = name
subject (get_user_stats name stats) = name
subject (peer_user_info_reply name info) = name
subject (peer_search_reply name speed queue_size slots_free) = name

unfoldable pub handle : Settings → UserMessage → UserManager → UserManager
handle settings (private_message chat_id name message) s =
    on_private_message settings chat_id name message s
handle settings (add_privileged_user name) s = on_add_privileged_user name s
handle settings (add_user name exists status stats country) s =
    on_add_user name exists status stats country s
handle settings (get_user_status name status privileged) s =
    on_get_user_status name status privileged s
handle settings (get_user_stats name stats) s = on_get_user_stats name stats s
handle settings (peer_user_info_reply name info) s = on_peer_user_info_reply (some name) info s
handle settings (peer_search_reply name speed queue_size slots_free) s =
    on_peer_search_reply name speed queue_size slots_free s
