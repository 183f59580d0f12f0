-- ===== src/Distributed/Invariant/Steps.antt =====
-- distributed.py: every step of the distributed network, and the states that steps lead to.
use aioslsk.Base.{ℕ, ◌-◌, ◌≤◌, ◌≡◌, refl, arith, Bool, true, false, ◌||◌, Bool-cases, inl, inr}
use aioslsk.Base.{Option, none, some, List, [], ◌∷◌, ◌++◌, length, length-drop, member}
use aioslsk.Base.{
  within, within-cons, within-append, within-append_right, distinct-snoc, within-not_member,
  member-append, ==_self,
}
use aioslsk.Distributed.{
  Str, DistributedPeer, DistributedNetwork, new_network, is_some, advertised, branch_values, below,
  potential_parents_cache_size,
}
use aioslsk.Distributed.Peers.{ids, ids-append, is_some-get_peer, get_peer-append}
use aioslsk.Distributed.Handlers.{
  Event, react, request_user_stats, on_get_user_stats, on_distributed_child_depth,
  on_server_search_request, on_distributed_search_request, on_distributed_server_search_request,
  on_potential_parents, extend_potential_parents, add_child, check_if_new_child,
  on_peer_initialized, parent_min_speed, parent_speed_ratio, min_parents_in_cache,
  distributed_alive_interval, parent_inactivity_timeout, potential_parents, server_search_request,
  reset_distributed, user_stats, distributed_branch_level, distributed_branch_root,
  distributed_child_depth, distributed_search_request, distributed_server_search_request,
  session_initialized, session_destroyed, server_state_changed, peer_opened, peer_initialized,
  peer_closed, server_sends_fail,
}
use aioslsk.Distributed.Invariant.{
  failed_or, parent_ok, IsValid, Agrees, Agrees-IsValid, notify_server-IsValid,
}
use aioslsk.Distributed.Invariant.Closing.{disconnect-IsValid, reset-IsValid}
use aioslsk.Distributed.Invariant.Branches.{
  on_distributed_branch_level-IsValid, on_distributed_branch_root-IsValid,
}

-- A new connection is not open before, and a connection is initialized once, while it is open.
abbrev pub Allowed : Event → DistributedNetwork → Type 0
Allowed (peer_opened c) s = member c s.connections ≡ false
Allowed (peer_initialized c name requested) s =
    (member c s.connections ≡ true) × (member c (ids s.distributed_peers) ≡ false)
Allowed e s = Unit

-- The events that leave alone all that the invariant speaks of.
request_user_stats-Agrees : (s : DistributedNetwork) → Agrees s (request_user_stats s)
unfolding request_user_stats
request_user_stats-Agrees s = ground arith

on_get_user_stats-Agrees :
    (name : Str) (speed : ℕ) (s : DistributedNetwork) → Agrees s (on_get_user_stats name speed s)
unfolding on_get_user_stats
on_get_user_stats-Agrees name speed s = ground arith

child_depth-Agrees :
    (depth c : ℕ) (s : DistributedNetwork) → Agrees s (on_distributed_child_depth depth c s)
unfolding on_distributed_child_depth
child_depth-Agrees depth c s = ground arith

server_search-Agrees :
    (u : ℕ) (name : Str) (t : ℕ) (q : Str) (s : DistributedNetwork)
    → Agrees s (on_server_search_request u name t q s)
unfolding on_server_search_request
server_search-Agrees u name t q s = ground arith

distributed_search-Agrees :
    (u : ℕ) (name : Str) (t : ℕ) (q : Str) (s : DistributedNetwork)
    → Agrees s (on_distributed_search_request u name t q s)
unfolding on_distributed_search_request
distributed_search-Agrees u name t q s = ground arith

distributed_server_search-Agrees :
    (code : ℕ) (name : Str) (t : ℕ) (q : Str) (s : DistributedNetwork)
    → Agrees s (on_distributed_server_search_request code name t q s)
unfolding on_distributed_server_search_request
distributed_server_search-Agrees code name t q s = ground arith

length-extend_potential_parents :
    (names cache : List Str)
    → length (extend_potential_parents names cache) ≤ potential_parents_cache_size
unfolding extend_potential_parents
length-extend_potential_parents names cache =
    let longer = cache ++ names in
    rw (length-drop (length longer - potential_parents_cache_size) longer) (omega arith)

on_potential_parents-IsValid :
    {f : Bool} (names : List Str) (s : DistributedNetwork)
    → IsValid f s
    → IsValid f (on_potential_parents names s)
unfolding on_potential_parents
on_potential_parents-IsValid names s v = elim (Bool-cases s.search_for_parent) [
  | inr e ↦ simp e v
  | inl e ↦
      let cache = extend_potential_parents names s.potential_parents in
      let kept : length cache ≤ potential_parents_cache_size =
        length-extend_potential_parents names s.potential_parents in
      ground arith
]

add_child-IsValid :
    {f : Bool} (c : ℕ) (s : DistributedNetwork)
    → IsValid f s
    → member c (ids s.distributed_peers) ≡ true
    → member c s.children ≡ false
    → IsValid f (add_child c s)
unfolding add_child
add_child-IsValid c s v known fresh =
    let s' : DistributedNetwork = record s { children = s.children ++ (c ∷ []) } in
    let v' : IsValid _ s' = record {
      failures_known = v.failures_known;
      peers_distinct = v.peers_distinct;
      children_distinct = distinct-snoc s.children c v.children_distinct fresh;
      connections_distinct = v.connections_distinct;
      children_known =
          rw (within-append s.children (c ∷ []) (ids s.distributed_peers), v.children_known, known)
            refl;
      peers_open = v.peers_open;
      parent_known = v.parent_known;
      bounded = v.bounded;
    } in
    Agrees-IsValid s' _ (ground arith) v'

check_if_new_child-IsValid :
    {f : Bool} (c : ℕ) (name : Str) (s : DistributedNetwork)
    → IsValid f s
    → member c (ids s.distributed_peers) ≡ true
    → member c s.children ≡ false
    → IsValid f (check_if_new_child c name s)
unfolding check_if_new_child
check_if_new_child-IsValid c name s v known fresh =
    ground (arith, add_child-IsValid c s v known fresh, disconnect-IsValid c s v)

parent_ok-append :
    (parent : Option ℕ) (p : DistributedPeer) (peers : List DistributedPeer)
    → parent_ok parent peers ≡ true
    → parent_ok parent (peers ++ (p ∷ [])) ≡ true
parent_ok-append none p peers h = refl
parent_ok-append (some c) p peers h =
    ground (arith, get_peer-append c peers (p ∷ []), is_some-get_peer c peers)

on_peer_initialized-IsValid :
    {f : Bool} (c : ℕ) (name : Str) (requested : Bool) (s : DistributedNetwork)
    → IsValid f s
    → member c s.connections ≡ true
    → member c (ids s.distributed_peers) ≡ false
    → IsValid f (on_peer_initialized c name requested s)
unfolding on_peer_initialized
on_peer_initialized-IsValid {f} c name requested s v opened fresh =
    let peer : DistributedPeer = record {
      connection = c;
      username = name;
      branch_level = none;
      branch_root = none;
    } in
    let peers = s.distributed_peers in
    let s' : DistributedNetwork = record s { distributed_peers = peers ++ (peer ∷ []) } in
    let v' : IsValid _ s' = record {
      failures_known = v.failures_known;
      peers_distinct =
          rw (ids-append peers (peer ∷ [])) (distinct-snoc (ids peers) c v.peers_distinct fresh);
      children_distinct = v.children_distinct;
      connections_distinct = v.connections_distinct;
      children_known =
          rw (ids-append peers (peer ∷ []))
            (within-append_right s.children (ids peers) (c ∷ []) v.children_known);
      peers_open = rw (ids-append peers (peer ∷ [])) (
          failed_or f (within (ids peers) s.connections) _ v.peers_open
            (λ h. rw (within-append (ids peers) (c ∷ []) s.connections, h, opened) refl));
      parent_known = parent_ok-append s.parent peer peers v.parent_known;
      bounded = v.bounded;
    } in
    let known : member c (ids s'.distributed_peers) ≡ true =
      rw (ids-append peers (peer ∷ []), member-append c (ids peers) (c ∷ []), ==_self c, fresh)
        refl in
    let no_child : member c s.children ≡ false =
      within-not_member c s.children (ids peers) v.children_known fresh in
    ground (arith, check_if_new_child-IsValid c name s' v' known no_child)

-- Sends to the server fail from now on, or no longer do.
abbrev pub fails : Event → Bool
fails (server_sends_fail b) = b
fails e = false

fails-IsValid :
    (f b : Bool) (s : DistributedNetwork)
    → IsValid f s
    → IsValid (b || f) (record s { server_fails = b })
fails-IsValid true b s v = ground arith
fails-IsValid false b s v = ground arith

react-IsValid :
    (e : Event) (f : Bool) (s : DistributedNetwork)
    → IsValid f s
    → Allowed e s
    → IsValid (fails e || f) (react e s)
unfolding react
react-IsValid (parent_min_speed n) f s v a =
    let s' : DistributedNetwork = record s { parent_min_speed = some n } in
    Agrees-IsValid s' _ (request_user_stats-Agrees s') (ground arith)
react-IsValid (parent_speed_ratio n) f s v a =
    let s' : DistributedNetwork = record s { parent_speed_ratio = some n } in
    Agrees-IsValid s' _ (request_user_stats-Agrees s') (ground arith)
react-IsValid (min_parents_in_cache n) f s v a = ground arith
react-IsValid (distributed_alive_interval n) f s v a = ground arith
react-IsValid (parent_inactivity_timeout n) f s v a = ground arith
react-IsValid (potential_parents names) f s v a = on_potential_parents-IsValid names s v
react-IsValid (server_search_request u name t q) f s v a =
    Agrees-IsValid s _ (server_search-Agrees u name t q s) v
react-IsValid reset_distributed f s v a = reset-IsValid s v
react-IsValid (user_stats name speed) f s v a =
    Agrees-IsValid s _ (on_get_user_stats-Agrees name speed s) v
react-IsValid (distributed_branch_level level c) f s v a =
    on_distributed_branch_level-IsValid level c s v
react-IsValid (distributed_branch_root root c) f s v a =
    on_distributed_branch_root-IsValid root c s v
react-IsValid (distributed_child_depth depth c) f s v a =
    Agrees-IsValid s _ (child_depth-Agrees depth c s) v
react-IsValid (distributed_search_request u name t q) f s v a =
    Agrees-IsValid s _ (distributed_search-Agrees u name t q s) v
react-IsValid (distributed_server_search_request code name t q) f s v a =
    Agrees-IsValid s _ (distributed_server_search-Agrees code name t q s) v
react-IsValid (session_initialized name) f s v a = notify_server-IsValid _ (ground arith)
react-IsValid session_destroyed f s v a = ground arith
react-IsValid server_state_changed f s v a = ground arith
react-IsValid (peer_opened c) f s v a = record {
  failures_known = v.failures_known;
  peers_distinct = v.peers_distinct;
  children_distinct = v.children_distinct;
  connections_distinct = rw (a, v.connections_distinct) refl;
  children_known = v.children_known;
  peers_open =
      failed_or f (within (ids s.distributed_peers) s.connections) _ v.peers_open
        (λ h. within-cons c (ids s.distributed_peers) s.connections h);
  parent_known = v.parent_known;
  bounded = v.bounded;
}
react-IsValid (peer_initialized c name requested) f s v (opened, fresh) =
    on_peer_initialized-IsValid c name requested s v opened fresh
react-IsValid (peer_closed c) f s v a = disconnect-IsValid c s v
react-IsValid (server_sends_fail b) f s v a = fails-IsValid f b s v

-- The states that the network comes to from the start, and whether sends to the server have failed.
pub data Reaches (search_for_parent : Bool) : Bool → DistributedNetwork → Type 0 where
  start : Reaches search_for_parent false (new_network search_for_parent)
  step :
      (e : Event) (failed : Bool) (s : DistributedNetwork)
      → Reaches search_for_parent failed s
      → Allowed e s
      → Reaches search_for_parent (fails e || failed) (react e s)

new_network-IsValid : (b : Bool) → IsValid false (new_network b)
unfolding new_network
new_network-IsValid b = ground arith

-- Whatever the order of the events, and whichever sends to the server fail, if a connection that opens
-- is not open before and a connection is initialized once, while it is open, every state that the
-- network comes to is valid: no peer, child or connection is kept twice, every child is a known peer,
-- the parent is a known peer that has told both its level and its root, the cache of potential parents
-- is within its size, and, if no send to the server has failed so far, every known peer has its
-- connection open.
pub Reaches-IsValid :
    (b failed : Bool) (s : DistributedNetwork) → Reaches b failed s → IsValid failed s
Reaches-IsValid b _ _ start = new_network-IsValid b
Reaches-IsValid b _ _ (step e f s r a) = react-IsValid e f s (Reaches-IsValid b f s r) a

-- In every state that the network comes to, whichever sends to the server fail,
-- `_get_advertised_branch_values` raises just where there is no session.
pub advertised_defined :
    (b failed : Bool) (s : DistributedNetwork)
    → Reaches b failed s
    → is_some (advertised s) ≡ is_some s.session
unfolding branch_values below
advertised_defined b failed s r =
    let v = Reaches-IsValid b failed s r in let k = v.parent_known in ground arith
