-- ===== src/Distributed/Told/Steps.antt =====
-- distributed.py: the steps of the network, and what the children are told by them.
use aioslsk.Base.{
  ℕ, ◌==◌, ==_self, same_self, ◌≡◌, refl, ap, ◌∙◌, arith, Bool, true, false, Bool-cases, inl, inr,
}
use aioslsk.Base.{Option, none, some, List, [], ◌∷◌, ◌++◌, if_same, cases_option}
use aioslsk.Distributed.{
  Effect, to_peer, branch_level_message, branch_root_message, send_to_children, search_request, Str,
  DistributedPeer, DistributedNetwork, advertised, branch_values, below, get_peer,
  notify_server_of_parent,
}
use aioslsk.Distributed.Peers.{is_some-get_peer, get_peer-append}
use aioslsk.Distributed.Invariant.{parent_ok}
use aioslsk.Distributed.Told.{
  Told, told, told_values, last_level-to_each, last_root-to_each, told-append,
}
use aioslsk.Distributed.Handlers.{
  Event, react, request_user_stats, on_get_user_stats, on_distributed_child_depth,
  on_server_search_request, on_distributed_server_search_request, on_potential_parents, add_child,
  check_if_new_child, on_peer_initialized, parent_min_speed, parent_speed_ratio,
  min_parents_in_cache, distributed_alive_interval, parent_inactivity_timeout, potential_parents,
  server_search_request, reset_distributed, user_stats, distributed_branch_level,
  distributed_branch_root, distributed_child_depth, distributed_search_request,
  distributed_server_search_request, session_initialized, session_destroyed, server_state_changed,
  peer_opened, peer_initialized, peer_closed, server_sends_fail,
}
use aioslsk.Distributed.Told.Branches.{branch_level-Told, branch_root-Told}
use aioslsk.Distributed.Invariant.Steps.{Reaches, Reaches-IsValid, Allowed}
use aioslsk.Distributed.Told.Closing.{Works, Quiet, Quiet-Told, disconnect-Told, reset-Told}

request_user_stats-Quiet : (s : DistributedNetwork) → Quiet s (request_user_stats s)
unfolding request_user_stats
request_user_stats-Quiet s = ground arith

on_get_user_stats-Quiet :
    (name : Str) (speed : ℕ) (s : DistributedNetwork) → Quiet s (on_get_user_stats name speed s)
unfolding on_get_user_stats
on_get_user_stats-Quiet name speed s = ground arith

child_depth-Quiet :
    (depth c : ℕ) (s : DistributedNetwork) → Quiet s (on_distributed_child_depth depth c s)
unfolding on_distributed_child_depth
child_depth-Quiet depth c s = ground arith

potential_parents-Quiet :
    (names : List Str) (s : DistributedNetwork) → Quiet s (on_potential_parents names s)
unfolding on_potential_parents
potential_parents-Quiet names s = ground arith

to_each_search-Told :
    (u : ℕ) (name : Str) (t : ℕ) (q : Str) (s : DistributedNetwork)
    → Quiet s (send_to_children (search_request u name t q) s)
to_each_search-Told u name t q s = record {
  session = refl;
  parent = refl;
  peers = refl;
  children = refl;
  level = λ c. last_level-to_each c s.children (search_request u name t q) s.outbox ∙ if_same _ _;
  root = λ c. last_root-to_each c s.children (search_request u name t q) s.outbox ∙ if_same _ _;
}

server_search-Told :
    (u : ℕ) (name : Str) (t : ℕ) (q : Str) (s : DistributedNetwork)
    → Told s
    → Told (on_server_search_request u name t q s)
unfolding on_server_search_request
server_search-Told u name t q s h =
    ground (arith, Quiet-Told s _ (to_each_search-Told u name t q s) h)

distributed_server_search-Told :
    (code : ℕ) (name : Str) (t : ℕ) (q : Str) (s : DistributedNetwork)
    → Told s
    → Told (on_distributed_server_search_request code name t q s)
unfolding on_distributed_server_search_request
distributed_server_search-Told code name t q s h =
    ground (arith, Quiet-Told s _ (to_each_search-Told 0x31 name t q s) h)

-- A new child is told where we are.
told-add :
    (root : Str) (level c : ℕ) (cs : List ℕ) (outbox : List Effect)
    → told root level cs outbox ≡ true
    → told root level cs (to_peer c (branch_level_message level) ∷ outbox) ≡ true
told-add root level c [] outbox h = refl
told-add root level c (d ∷ cs) outbox h =
    ground (arith, told-add root level c cs outbox, ==_self level)

told-add_root :
    (root : Str) (level c : ℕ) (cs : List ℕ) (outbox : List Effect)
    → told root level cs outbox ≡ true
    → told root level cs (to_peer c (branch_root_message root) ∷ outbox) ≡ true
told-add_root root level c [] outbox h = refl
told-add_root root level c (d ∷ cs) outbox h =
    ground (arith, told-add_root root level c cs outbox, same_self root)

told-new_at_root :
    (root : Str) (level c : ℕ) (cs : List ℕ) (outbox : List Effect)
    → (level == 0) ≡ true
    → told root level cs outbox ≡ true
    → told root level (cs ++ (c ∷ [])) (to_peer c (branch_level_message level) ∷ outbox) ≡ true
told-new_at_root root level c cs outbox z h =
    rw
      (
        told-append root level cs (c ∷ []) (to_peer c (branch_level_message level) ∷ outbox),
        told-add root level c cs outbox h,
        ==_self c,
        ==_self level,
        z,
      )
      refl

told-new_child :
    (root : Str) (level c : ℕ) (cs : List ℕ) (outbox : List Effect)
    → told root level cs outbox ≡ true
    → told root level
        (cs ++ (c ∷ []))
        (to_peer c (branch_root_message root) ∷ to_peer c (branch_level_message level) ∷ outbox)
      ≡ true
told-new_child root level c cs outbox h =
    let outbox' = to_peer c (branch_level_message level) ∷ outbox in
    ground (
      arith,
      told-append root level cs (c ∷ []) (to_peer c (branch_root_message root) ∷ outbox'),
      told-add_root root level c cs outbox' (told-add root level c cs outbox h),
      ==_self level,
      same_self root,
    )

add_child-Told : (c : ℕ) (s : DistributedNetwork) → Told s → Told (add_child c s)
unfolding add_child
add_child-Told c s h = elim (cases_option (advertised s)) [
  | inr e ↦ rw (e, add_child) (rw e refl)
  | inl ((root, level), e) ↦
      let known : told root level s.children s.outbox ≡ true = rw e at h in
      elim (Bool-cases (level == 0)) [
        | inl z ↦
            rw (e, add_child)
              (rw z (rw e (told-new_at_root root level c s.children s.outbox z known)))
        | inr z ↦
            rw (e, add_child) (rw z (rw e (told-new_child root level c s.children s.outbox known)))
      ]
]

check_if_new_child-Told :
    (c : ℕ) (name : Str) (s : DistributedNetwork)
    → Works s
    → Told s
    → Told (check_if_new_child c name s)
unfolding check_if_new_child
check_if_new_child-Told c name s w h = ground (arith, add_child-Told c s h, disconnect-Told c s w h)

branch_values-append :
    (session : Option Str) (parent : Option ℕ) (p : DistributedPeer) (peers : List DistributedPeer)
    → parent_ok parent peers ≡ true
    → branch_values session parent (peers ++ (p ∷ [])) ≡ branch_values session parent peers
unfolding branch_values
branch_values-append none parent p peers k = refl
branch_values-append (some name) none p peers k = refl
branch_values-append (some name) (some d) p peers k =
    let found : get_peer d (peers ++ (p ∷ [])) ≡ get_peer d peers =
      ground (arith, get_peer-append d peers (p ∷ []), is_some-get_peer d peers) in
    ap (below name) found

peer_initialized-Told :
    (c : ℕ) (name : Str) (requested : Bool) (s : DistributedNetwork)
    → parent_ok s.parent s.distributed_peers ≡ true
    → Works s
    → Told s
    → Told (on_peer_initialized c name requested s)
unfolding on_peer_initialized
peer_initialized-Told c name requested s k w h =
    let peer : DistributedPeer = record {
      connection = c;
      username = name;
      branch_level = none;
      branch_root = none;
    } in
    let s' : DistributedNetwork = record s {
      distributed_peers = s.distributed_peers ++ (peer ∷ []);
    } in
    let h' : Told s' = rw (branch_values-append s.session s.parent peer s.distributed_peers k) h in
    ground (arith, check_if_new_child-Told c name s' w h')

notify_server-Quiet : (s : DistributedNetwork) → Quiet s (notify_server_of_parent s)
unfolding notify_server_of_parent
notify_server-Quiet s = ground arith

told_values_none :
    (values : Option (Str × ℕ)) (outbox : List Effect) → told_values values [] outbox ≡ true
told_values_none none outbox = refl
told_values_none (some (root, level)) outbox = refl

session_initialized-Told :
    (name : Str) (s : DistributedNetwork)
    → s.children ≡ []
    → Told (notify_server_of_parent (record s { session = some name }))
session_initialized-Told name s k =
    let s' : DistributedNetwork = record s { session = some name } in
    let h' : Told s' = rw k (told_values_none (advertised s') s.outbox) in
    Quiet-Told s' _ (notify_server-Quiet s') h'

session_destroyed-Told : (s : DistributedNetwork) → Told (record s { session = none })
unfolding branch_values
session_destroyed-Told s = refl

-- Of a session that begins, the children are not told.
abbrev pub BeforeChildren : Event → DistributedNetwork → Type 0
BeforeChildren (session_initialized name) s = s.children ≡ []
BeforeChildren e s = Unit

-- From every state that the network comes to and in which sends to the server work, a step leaves each
-- child with our level, and with our root where the level is not 0, as what it was told last, if they
-- were told so before, if no session begins while there are children, and if a connection that opens
-- is not open before and one is initialized once, while it is open. Where there is no session there is
-- nothing to tell.
pub react-Told :
    (b failed : Bool) (e : Event) (s : DistributedNetwork)
    → Reaches b failed s
    → s.server_fails ≡ false
    → Allowed e s
    → BeforeChildren e s
    → Told s
    → Told (react e s)
unfolding react
react-Told b failed (parent_min_speed n) s r w a k h =
    let s' : DistributedNetwork = record s { parent_min_speed = some n } in
    Quiet-Told s' _ (request_user_stats-Quiet s') h
react-Told b failed (parent_speed_ratio n) s r w a k h =
    let s' : DistributedNetwork = record s { parent_speed_ratio = some n } in
    Quiet-Told s' _ (request_user_stats-Quiet s') h
react-Told b failed (min_parents_in_cache n) s r w a k h = h
react-Told b failed (distributed_alive_interval n) s r w a k h = h
react-Told b failed (parent_inactivity_timeout n) s r w a k h = h
react-Told b failed (potential_parents names) s r w a k h =
    Quiet-Told s _ (potential_parents-Quiet names s) h
react-Told b failed (server_search_request u name t q) s r w a k h =
    server_search-Told u name t q s h
react-Told b failed reset_distributed s r w a k h = reset-Told s w h
react-Told b failed (user_stats name speed) s r w a k h =
    Quiet-Told s _ (on_get_user_stats-Quiet name speed s) h
react-Told b failed (distributed_branch_level level c) s r w a k h = branch_level-Told level c s w h
react-Told b failed (distributed_branch_root root c) s r w a k h = branch_root-Told root c s w h
react-Told b failed (distributed_child_depth depth c) s r w a k h =
    Quiet-Told s _ (child_depth-Quiet depth c s) h
react-Told b failed (distributed_search_request u name t q) s r w a k h =
    Quiet-Told s _ (to_each_search-Told u name t q s) h
react-Told b failed (distributed_server_search_request code name t q) s r w a k h =
    distributed_server_search-Told code name t q s h
react-Told b failed (session_initialized name) s r w a k h = session_initialized-Told name s k
react-Told b failed session_destroyed s r w a k h = session_destroyed-Told s
react-Told b failed server_state_changed s r w a k h = h
react-Told b failed (peer_opened c) s r w a k h = h
react-Told b failed (peer_initialized c name requested) s r w a k h =
    peer_initialized-Told c name requested s (Reaches-IsValid b failed s r).parent_known w h
react-Told b failed (peer_closed c) s r w a k h = disconnect-Told c s w h
react-Told b failed (server_sends_fail fails) s r w a k h = h
