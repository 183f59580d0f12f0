-- ===== src/User/Manager/Privileged.antt =====
-- user/manager.py: who is privileged after a `PrivilegedUsers` message.
use aioslsk.Base.{
  ◌≡◌, refl, sym, ap, ◌∙◌, arith, Bool, true, false, not, &&-true, Str, same, same→eq, elem, all,
  Bool-cases, inl, inr, cases_option,
}
use aioslsk.Base.{Option, none, some, List, [], ◌∷◌, ◌++◌}
use aioslsk.User.Manager.{User, UserManager, find_user, get_user_object, new_object}
use aioslsk.User.Manager.Handlers.{mark_privileged, get_user_objects, on_privileged_users}

abbrev alike : Bool → Bool → Bool
alike true b = b
alike false b = not b

-- The objects agree with the names.
abbrev marked : List Str → List User → Bool
marked names us = all (λ u. alike u.privileged (elem u.name names)) us

alike_self : (b : Bool) → alike b b ≡ true
alike_self true = refl
alike_self false = refl

mark_privileged-marked :
    (names : List Str) (us : List User) → marked names (mark_privileged names us) ≡ true
mark_privileged-marked names [] = refl
mark_privileged-marked names (u ∷ us) =
    rw (alike_self (elem u.name names)) (mark_privileged-marked names us)

marked-append_new :
    (names : List Str) (name : Str) (us : List User)
    → marked names us ≡ true
    → marked names (us ++ (new_object name (elem name names) ∷ [])) ≡ true
marked-append_new names name [] h = rw (alike_self (elem name names)) refl
marked-append_new names name (u ∷ us) h = ground (arith, marked-append_new names name us)

-- A manager whose objects agree with the names that it was told.
record Agrees (names : List Str) (s : UserManager) : Type 0 where
  told : s.privileged_users ≡ names
  objects : marked names s.users ≡ true

get_user_object-Agrees :
    (names : List Str) (name : Str) (s : UserManager)
    → Agrees names s
    → Agrees names (get_user_object name s).0
unfolding get_user_object
get_user_object-Agrees names name s a = elim (cases_option (find_user name s.users)) [
  | inl (u, e) ↦ rw (e, get_user_object) a
  | inr e ↦
      rw (e, get_user_object)
        (record {
          told = a.told;
          objects = rw a.told (marked-append_new names name s.users a.objects);
        })
]

get_user_objects-Agrees :
    (names asked : List Str) (s : UserManager)
    → Agrees names s
    → Agrees names (get_user_objects asked s).0
unfolding get_user_objects
get_user_objects-Agrees names [] s a = a
get_user_objects-Agrees names (name ∷ asked) s a =
    get_user_objects-Agrees names asked (get_user_object name s).0
      (get_user_object-Agrees names name s a)

alike_eq : (a b : Bool) → alike a b ≡ true → a ≡ b
alike_eq a b h = ground arith

abbrev privileged_of : Option User → Bool
privileged_of none = false
privileged_of (some u) = u.privileged

find_user-marked :
    (names : List Str) (name : Str) (us : List User) (u : User)
    → marked names us ≡ true
    → find_user name us ≡ some u
    → u.privileged ≡ elem name names
find_user-marked names name [] u h e = cc
find_user-marked names name (v ∷ us) u h e = elim (Bool-cases (same name v.name)) [
  | inr n ↦ find_user-marked names name us u (&&-true _ _ h).1 (rw n at e)
  | inl n ↦
      let k : some v ≡ some u = rw n at e in
      sym (ap privileged_of k)
      ∙ alike_eq v.privileged (elem v.name names) (&&-true _ _ h).0
      ∙ ap (λ (l : Str). elem l names) (sym (same→eq name v.name n))
]

get_user_object-privileged :
    (names : List Str) (name : Str) (s : UserManager)
    → Agrees names s
    → (get_user_object name s).1.privileged ≡ elem name names
unfolding get_user_object
get_user_object-privileged names name s a = elim (cases_option (find_user name s.users)) [
  | inl (u, e) ↦ rw (e, get_user_object) (find_user-marked names name s.users u a.objects e)
  | inr e ↦ rw (e, get_user_object) (rw a.told refl)
]

-- After a `PrivilegedUsers` message the object that is got for any name, known or not, is privileged
-- just where the message has the name.
pub on_privileged_users-get_user_object :
    (names : List Str) (name : Str) (s : UserManager)
    → (get_user_object name (on_privileged_users names s)).1.privileged ≡ elem name names
unfolding on_privileged_users
on_privileged_users-get_user_object names name s =
    let s' : UserManager = record s {
      users = mark_privileged names s.users;
      privileged_users = names;
    } in
    let a =
      get_user_objects-Agrees names names s'
        (record { told = refl; objects = mark_privileged-marked names s.users }) in
    get_user_object-privileged names name (on_privileged_users names s)
      (record { told = a.told; objects = a.objects })
