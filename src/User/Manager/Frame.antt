-- ===== src/User/Manager/Frame.antt =====
-- user/manager.py: what the handlers leave alone, and what they write.
use aioslsk.Base.{
  ℕ, ◌≡◌, refl, ap, ◌∙◌, arith, Bool, true, false, if◌then◌else◌, Str, same, same_self, same→eq,
  elem, Bool-cases, inl, inr, cases_option,
}
use aioslsk.Base.{Option, none, some, List, [], ◌∷◌, ◌++◌}
use aioslsk.User.Manager.{
  User, UserManager, find_user, update_user, get_user_object, write_user, Settings, UserStats,
  UserStatus, status_of, new_object, Effect, add_effect, private_message_ack,
}
use aioslsk.User.Manager.Handlers.{
  UserInfo, permissions_in, after_add_user, UserMessage, private_message, add_privileged_user,
  add_user, get_user_status, get_user_stats, peer_user_info_reply, peer_search_reply, subject,
  handle, on_private_message, on_add_privileged_user, on_add_user, on_get_user_status,
  on_get_user_stats, on_peer_user_info_reply, on_peer_search_reply,
}

find_user-update_user :
    (other name : Str) (f : User → User) (us : List User)
    → ((u : User) → (f u).name ≡ u.name)
    → same other name ≡ false
    → find_user other (update_user name f us) ≡ find_user other us
find_user-update_user other name f [] keeps apart = refl
find_user-update_user other name f (u ∷ us) keeps apart = elim (Bool-cases (same name u.name)) [
  | inr e ↦ rw e (rw (find_user-update_user other name f us keeps apart) refl)
  | inl e ↦
      let n : same other u.name ≡ false = rw (same→eq name u.name e) at apart in
      rw (e, keeps u, n) refl
]

find_user-append_other :
    (other name : Str) (p : Bool) (us : List User)
    → same other name ≡ false
    → find_user other (us ++ (new_object name p ∷ [])) ≡ find_user other us
find_user-append_other other name p [] apart = rw apart refl
find_user-append_other other name p (u ∷ us) apart =
    ap (λ (o : Option User). if same other u.name then some u else o)
      (find_user-append_other other name p us apart)

get_user_object-others :
    (other name : Str) (s : UserManager)
    → same other name ≡ false
    → find_user other (get_user_object name s).0.users ≡ find_user other s.users
unfolding get_user_object
get_user_object-others other name s apart = elim (cases_option (find_user name s.users)) [
  | inl (u, e) ↦ rw (e, get_user_object) refl
  | inr e ↦
      rw (e, get_user_object)
        (find_user-append_other other name (elem name s.privileged_users) s.users apart)
]

-- A write to the object of one name leaves the others alone.
pub write_user-others :
    (other name : Str) (f : User → User) (event : User → User → Option Effect) (s : UserManager)
    → ((u : User) → (f u).name ≡ u.name)
    → same other name ≡ false
    → find_user other (write_user name f event s).users ≡ find_user other s.users
unfolding write_user
write_user-others other name f event s keeps apart =
    find_user-update_user other name f (get_user_object name s).0.users keeps apart
    ∙ get_user_object-others other name s apart

find_user-append_new :
    (name : Str) (p : Bool) (us : List User)
    → find_user name us ≡ none
    → find_user name (us ++ (new_object name p ∷ [])) ≡ some (new_object name p)
find_user-append_new name p [] h = rw (same_self name) refl
find_user-append_new name p (u ∷ us) h = elim (Bool-cases (same name u.name)) [
  | inl e ↦ let k : some u ≡ none = rw e at h in cc
  | inr e ↦ rw e (find_user-append_new name p us (rw e at h))
]

-- The object that is got is the one in the dictionary.
get_user_object-found :
    (name : Str) (s : UserManager)
    → find_user name (get_user_object name s).0.users ≡ some (get_user_object name s).1
unfolding get_user_object
get_user_object-found name s = elim (cases_option (find_user name s.users)) [
  | inl (u, e) ↦ rw (e, get_user_object) e
  | inr e ↦
      rw (e, get_user_object) (find_user-append_new name (elem name s.privileged_users) s.users e)
]

some_injective : {u v : User} → some u ≡ some v → u ≡ v
some_injective h = cc

find_user-written :
    (name : Str) (f : User → User) (us : List User) (u : User)
    → ((u : User) → (f u).name ≡ u.name)
    → find_user name us ≡ some u
    → find_user name (update_user name f us) ≡ some (f u)
find_user-written name f [] u keeps h = cc
find_user-written name f (v ∷ us) u keeps h = elim (Bool-cases (same name v.name)) [
  | inl e ↦
      let k : some v ≡ some u = rw e at h in
      let named : same name (f v).name ≡ true = rw (keeps v) e in
      rw (e, named) (ap (λ (w : User). some (f w)) (some_injective k))
  | inr e ↦ rw e (rw e (find_user-written name f us u keeps (rw e at h)))
]

-- And the object of the name itself is as it was written.
pub write_user-written :
    (name : Str) (f : User → User) (event : User → User → Option Effect) (s : UserManager)
    → ((u : User) → (f u).name ≡ u.name)
    → find_user name (write_user name f event s).users ≡ some (f (get_user_object name s).1)
unfolding write_user
write_user-written name f event s keeps =
    find_user-written name f (get_user_object name s).0.users (get_user_object name s).1 keeps
      (get_user_object-found name s)

after_add_user-name :
    (status : UserStatus) (stats : Option UserStats) (country : Option Str) (u : User)
    → (after_add_user status stats country u).name ≡ u.name
after_add_user-name status none country u = refl
after_add_user-name status (some stats) country u = refl

get_user_status-others :
    (name : Str) (status : ℕ) (privileged : Bool) (other : Str) (s : UserManager)
    → same other name ≡ false
    → find_user other (on_get_user_status name status privileged s).users ≡ find_user other s.users
unfolding on_get_user_status
get_user_status-others name status privileged other s h = elim (cases_option (status_of status)) [
  | inl (st, e) ↦
      rw (e, on_get_user_status) (write_user-others other name _ (λ before u. none) s (λ u. refl) h)
  | inr e ↦
      rw (e, on_get_user_status) (write_user-others other name _ (λ before u. none) s (λ u. refl) h)
]

user_info-others :
    (name : Str) (info : UserInfo) (other : Str) (s : UserManager)
    → same other name ≡ false
    → find_user other (on_peer_user_info_reply (some name) info s).users ≡ find_user other s.users
unfolding on_peer_user_info_reply
user_info-others [] info other s h = refl
user_info-others (c ∷ cs) info other s h =
    elim (cases_option (permissions_in info.info_permissions)) [
      | inl (p, e) ↦
          rw (e, on_peer_user_info_reply)
            (write_user-others other (c ∷ cs) _ (λ before u. none) s (λ u. refl) h)
      | inr e ↦
          rw (e, on_peer_user_info_reply)
            (write_user-others other (c ∷ cs) _ (λ before u. none) s (λ u. refl) h)
    ]

-- The message of one user leaves the object of every other name as it is, on every branch of its
-- handler, those that raise included.
pub handle-others :
    (settings : Settings) (m : UserMessage) (other : Str) (s : UserManager)
    → same other (subject m) ≡ false
    → find_user other (handle settings m s).users ≡ find_user other s.users
unfolding handle on_private_message on_add_privileged_user on_add_user on_get_user_status
    on_get_user_stats on_peer_user_info_reply on_peer_search_reply
handle-others settings (private_message chat_id name message) other s h =
    ground (arith, get_user_object-others other name (add_effect (private_message_ack chat_id) s) h)
handle-others settings (add_privileged_user name) other s h =
    write_user-others other name _ (λ before u. none) s (λ u. refl) h
handle-others settings (add_user name true status stats country) other s h =
    elim (cases_option (status_of status)) [
      | inl (st, e) ↦ rw e (
          write_user-others other name _ (λ before u. none) s (after_add_user-name st stats country)
            h)
      | inr e ↦ rw e (write_user-others other name _ (λ before u. none) s (λ u. refl) h)
    ]
handle-others settings (add_user name false status stats country) other s h =
    write_user-others other name _ (λ before u. none) s (λ u. refl) h
handle-others settings (get_user_status name status privileged) other s h =
    get_user_status-others name status privileged other s h
handle-others settings (get_user_stats name stats) other s h =
    write_user-others other name _ (λ before u. none) s (λ u. refl) h
handle-others settings (peer_user_info_reply name info) other s h =
    user_info-others name info other s h
handle-others settings (peer_search_reply name speed queue_size slots_free) other s h =
    write_user-others other name _ (λ before u. none) s (λ u. refl) h
