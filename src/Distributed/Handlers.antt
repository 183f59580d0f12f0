-- ===== src/Distributed/Handlers.antt =====
-- distributed.py: the handlers of messages and events, as steps of the network's state.
use aioslsk.Base.{
  ℕ, ◌+◌, ◌-◌, ◌*◌, ◌/◌, ◌==◌, ltb, leb, Bool, true, false, not, ◌&&◌, if◌then◌else◌,
}
use aioslsk.Base.{Option, none, some, List, [], ◌∷◌, ◌++◌, length, drop, same, elem}
use aioslsk.Distributed.{
  Str, DistributedPeer, branch_level_message, branch_root_message, child_depth_message,
  search_request, accept_children_message, get_user_stats, Action, get_peer, set_branch, advertised,
  send_to_server, send_to_peer, send_to_children, is_some, notify_server_of_parent,
  notify_children_of_branch_values, raises, is_parent, disconnect, disconnect_others,
  potential_parents_cache_size,
}

-- `_set_parent`: the tasks for potential parents are cancelled, and the distributed connections are
-- closed but for those of the parent and the children.
unfoldable pub set_parent : ℕ → Action
unfolding disconnect_others notify_server_of_parent notify_children_of_branch_values
set_parent c s =
    let s1 = record s { parent = some c; potential_parent_tasks = [] } in
    let s2 = notify_server_of_parent (disconnect_others (c ∷ s1.children) s1.connections s1) in
    if raises s2 then s2 else notify_children_of_branch_values s2

-- `_check_if_new_parent`.
unfoldable pub check_if_new_parent : ℕ → Option DistributedPeer → Action
check_if_new_parent c none s = s
check_if_new_parent c (some peer) s =
    if is_some peer.branch_level && is_some peer.branch_root
    then (if is_some s.parent then disconnect c s else set_parent c s)
    else s

-- `_on_distributed_branch_level` and `_on_distributed_branch_root`, behind the write to the peer.
unfoldable pub on_branch_written : ℕ → Action
on_branch_written c s =
    if is_parent c s.parent
    then notify_children_of_branch_values s
    else check_if_new_parent c (get_peer c s.distributed_peers) s

unfoldable pub on_distributed_branch_level : ℕ → ℕ → Action
on_distributed_branch_level level c s = elim (get_peer c s.distributed_peers) [
  | none ↦ s
  | some peer ↦
      let root = if level == 0 then some peer.username else peer.branch_root in
      on_branch_written c
        (record s { distributed_peers = set_branch c (some level) root s.distributed_peers })
]

abbrev pub same_root : Str → Option Str → Bool
same_root root none = false
same_root root (some root') = same root' root

unfoldable pub on_distributed_branch_root : Str → ℕ → Action
on_distributed_branch_root root c s = elim (get_peer c s.distributed_peers) [
  | none ↦ s
  | some peer ↦
      if same_root root peer.branch_root
      then s
      else on_branch_written c (record s {
        distributed_peers = set_branch c peer.branch_level (some root) s.distributed_peers;
      })
]

unfoldable pub on_distributed_child_depth : ℕ → ℕ → Action
on_distributed_child_depth depth c s = elim (get_peer c s.distributed_peers) [
  | none ↦ s
  | some peer ↦ elim s.parent [
    | some parent ↦ send_to_peer parent (child_depth_message (depth + 1)) s
    | none ↦ send_to_server (child_depth_message (depth + 1)) s
  ]
]

-- `_add_child`; the child is kept where the branch values raise.
unfoldable pub add_child : ℕ → Action
add_child c s =
    let s' = record s { children = s.children ++ (c ∷ []) } in
    elim (advertised s') [
      | none ↦ s'
      | some (root, level) ↦
          let s'' = send_to_peer c (branch_level_message level) s' in
          if level == 0 then s'' else send_to_peer c (branch_root_message root) s''
    ]

-- `_check_if_new_child`.
unfoldable pub check_if_new_child : ℕ → Str → Action
check_if_new_child c username s =
    if elem username s.potential_parents
    then s
    else if not s.accept_children
    then disconnect c s
    else if leb s.max_children (length s.children)
    then disconnect c s
    else add_child c s

-- `_on_peer_connection_initialized`, for a distributed connection.
unfoldable pub on_peer_initialized : ℕ → Str → Bool → Action
on_peer_initialized c username requested s =
    let peer : DistributedPeer = record {
      connection = c;
      username = username;
      branch_level = none;
      branch_root = none;
    } in
    let s' = record s { distributed_peers = s.distributed_peers ++ (peer ∷ []) } in
    if requested then s' else check_if_new_child c username s'

-- `_request_user_stats`.
unfoldable pub request_user_stats : Action
request_user_stats s = elim s.session [
  | none ↦ s
  | some username ↦
      if is_some s.parent_min_speed && is_some s.parent_speed_ratio
      then send_to_server (get_user_stats username) s
      else s
]

abbrev pub or_default : Option ℕ → ℕ → ℕ
or_default none n = n
or_default (some m) n = m

-- `_calculate_max_children`, with the quotient exact, and `none` where the code divides by zero.
unfoldable pub calculate_max_children : ℕ → ℕ → Option ℕ
calculate_max_children upload_speed parent_speed_ratio =
    if parent_speed_ratio == 0 then none else some (upload_speed * 10 / (parent_speed_ratio * 1024))

-- `_on_get_user_stats`, with `DEFAULT_PARENT_MIN_SPEED` and `DEFAULT_PARENT_SPEED_RATIO`.
unfoldable pub on_get_user_stats : Str → ℕ → Action
unfolding calculate_max_children
on_get_user_stats username speed s =
    if same_root username s.session
    then (if ltb speed (or_default s.parent_min_speed 1 * 1024)
        then send_to_server (accept_children_message false)
            (record s { accept_children = false; max_children = 0 })
        else let s' = record s { accept_children = true } in
          elim (calculate_max_children speed (or_default s.parent_speed_ratio 50)) [
            | none ↦ s'
            | some max_children ↦
                send_to_server (accept_children_message true)
                  (record s' { max_children = max_children })
          ])
    else s

-- `deque.extend` with the size of the cache.
unfoldable pub extend_potential_parents : List Str → List Str → List Str
extend_potential_parents names cache =
    let longer = cache ++ names in drop (length longer - potential_parents_cache_size) longer

unfoldable pub on_potential_parents : List Str → Action
unfolding extend_potential_parents
on_potential_parents names s =
    if s.search_for_parent
    then record s {
      potential_parents = extend_potential_parents names s.potential_parents;
      potential_parent_tasks = s.potential_parent_tasks ++ names;
    }
    else s

-- `_on_server_search_request`: our own searches are not passed on.
unfoldable pub on_server_search_request : ℕ → Str → ℕ → Str → Action
on_server_search_request unknown username ticket query s =
    if same_root username s.session
    then s
    else send_to_children (search_request unknown username ticket query) s

unfoldable pub on_distributed_search_request : ℕ → Str → ℕ → Str → Action
on_distributed_search_request unknown username ticket query s =
    send_to_children (search_request unknown username ticket query) s

-- `_on_distributed_server_search_request`; 3 is the id of a distributed search request.
unfoldable pub on_distributed_server_search_request : ℕ → Str → ℕ → Str → Action
on_distributed_server_search_request code username ticket query s =
    if code == 3 then send_to_children (search_request 0x31 username ticket query) s else s

unfoldable pub disconnect_all : List ℕ → Action
unfolding disconnect
disconnect_all [] s = s
disconnect_all (c ∷ cs) s = disconnect_all cs (disconnect c s)

-- `reset`: the children, and then the parent.
unfoldable pub reset : Action
unfolding disconnect_all
reset s =
    let s' = disconnect_all s.children s in
    elim s'.parent [ none ↦ s' | some parent ↦ disconnect parent s' ]

-- What the server, a peer or the network can bring about.
pub data Event : Type 0 where
  parent_min_speed parent_speed_ratio min_parents_in_cache distributed_alive_interval
        parent_inactivity_timeout :
      ℕ → Event
  potential_parents : List Str → Event
  server_search_request : ℕ → Str → ℕ → Str → Event
  reset_distributed : Event
  user_stats : Str → ℕ → Event
  distributed_branch_level : ℕ → ℕ → Event
  distributed_branch_root : Str → ℕ → Event
  distributed_child_depth : ℕ → ℕ → Event
  distributed_search_request : ℕ → Str → ℕ → Str → Event
  distributed_server_search_request : ℕ → Str → ℕ → Str → Event
  session_initialized : Str → Event
  session_destroyed server_state_changed : Event
  peer_opened : ℕ → Event
  peer_initialized : ℕ → Str → Bool → Event
  peer_closed : ℕ → Event
  server_sends_fail : Bool → Event

unfoldable pub react : Event → Action
unfolding request_user_stats on_potential_parents on_server_search_request reset on_get_user_stats
    on_distributed_branch_level on_distributed_branch_root on_distributed_child_depth
    on_distributed_search_request on_distributed_server_search_request notify_server_of_parent
    on_peer_initialized disconnect
react (parent_min_speed n) s = request_user_stats (record s { parent_min_speed = some n })
react (parent_speed_ratio n) s = request_user_stats (record s { parent_speed_ratio = some n })
react (min_parents_in_cache n) s = record s { min_parents_in_cache = some n }
react (distributed_alive_interval n) s = record s { distributed_alive_interval = some n }
react (parent_inactivity_timeout n) s = record s { parent_inactivity_timeout = some n }
react (potential_parents names) s = on_potential_parents names s
react (server_search_request u name t q) s = on_server_search_request u name t q s
react reset_distributed s = reset s
react (user_stats name speed) s = on_get_user_stats name speed s
react (distributed_branch_level level c) s = on_distributed_branch_level level c s
react (distributed_branch_root root c) s = on_distributed_branch_root root c s
react (distributed_child_depth depth c) s = on_distributed_child_depth depth c s
react (distributed_search_request u name t q) s = on_distributed_search_request u name t q s
react (distributed_server_search_request code name t q) s =
    on_distributed_server_search_request code name t q s
react (session_initialized name) s = notify_server_of_parent (record s { session = some name })
react session_destroyed s = record s { session = none }
react server_state_changed s = record s {
  parent_min_speed = none;
  parent_speed_ratio = none;
  distributed_alive_interval = none;
  min_parents_in_cache = none;
  parent_inactivity_timeout = none;
}
react (peer_opened c) s = record s { connections = c ∷ s.connections }
react (peer_initialized c name requested) s = on_peer_initialized c name requested s
react (peer_closed c) s = disconnect c s
react (server_sends_fail fails) s = record s { server_fails = fails }
