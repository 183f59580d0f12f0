-- ===== src/User/Manager/Tests.antt =====
-- user/manager.py: two users, and a round of the management job.
use aioslsk.Base.{◌≡◌, refl, true, false, none, some, [], ◌∷◌, Str}
use aioslsk.User.Manager.{Settings, UserManager, new_object, find_user, get_user_object, get}
use aioslsk.User.Manager.Handlers.{
  handle, get_user_status, on_privileged_users, on_add_privileged_user,
}
use aioslsk.User.Manager.Frame.{handle-others}
use aioslsk.User.Manager.Privileged.{on_privileged_users-get_user_object}
use aioslsk.User.Manager.Jobs.{
  block_changes, management_job, block_changes-get, management_job-again,
}

abbrev ann : Str
ann = 97 ∷ []

abbrev bob : Str
bob = 98 ∷ []

abbrev seen_last : Settings
seen_last = record { friends = ann ∷ []; blocked = (ann, 1) ∷ (bob, 4) ∷ [] }

abbrev now : Settings
now = record { friends = bob ∷ []; blocked = (bob, 5) ∷ [] }

abbrev both : UserManager
both = record {
  users = new_object ann false ∷ new_object bob false ∷ [];
  privileged_users = [];
  session = none;
  effects = [];
}

handle-others_example :
    find_user bob (handle now (get_user_status ann 2 true) both).users ≡ find_user bob both.users
handle-others_example = handle-others now (get_user_status ann 2 true) bob both refl

on_privileged_users-get_user_object_example :
    (get_user_object bob (on_privileged_users (bob ∷ []) both)).1.privileged ≡ true
on_privileged_users-get_user_object_example =
    on_privileged_users-get_user_object (bob ∷ []) bob both

block_changes-get_example : get ann (block_changes seen_last now) ≡ some (1, 0)
block_changes-get_example = block_changes-get seen_last now ann refl

management_job-again_example : (management_job (management_job seen_last now).0 now).1 ≡ []
management_job-again_example = management_job-again seen_last now

-- A user who is added to the privileged ones is not, once the object is dropped and got again.
forgotten :
    (get_user_object ann (record (on_add_privileged_user ann both) { users = [] })).1.privileged
    ≡ false
unfolding get_user_object on_add_privileged_user
forgotten = refl
