-- ===== src/Distributed.antt =====
-- distributed.py: our place in the distributed network. A `DistributedPeer` is known by the number
-- of its connection, which only one such object has; `parent` and `children` refer to it by that
-- number, so that they see what the handlers write to it. An `await` on a disconnect runs the
-- closing of the connection, with the handler of its event, to the end; the bus of the events logs
-- what that handler raises, and goes on.
pub mod Peers
pub mod Handlers
pub mod Invariant
pub mod Told
mod Tests
pub use aioslsk.Base.{Str}
use aioslsk.Base.{
  ℕ, ◌+◌, ◌-◌, ◌*◌, ◌/◌, ◌==◌, ltb, leb, Bool, true, false, not, ◌&&◌, ◌||◌, if◌then◌else◌,
}
use aioslsk.Base.{Option, none, some, List, [], ◌∷◌, ◌++◌, length, drop, same, elem, member, remove}

abbrev pub potential_parents_cache_size : ℕ
potential_parents_cache_size = 20

pub record DistributedPeer : Type 0 where
  pub connection : ℕ
  pub username : Str
  pub branch_level : Option ℕ
  pub branch_root : Option Str

-- The messages that go to children, to the parent and to the server.
pub data Message : Type 0 where
  branch_level_message : ℕ → Message
  branch_root_message : Str → Message
  child_depth_message : ℕ → Message
  search_request : ℕ → Str → ℕ → Str → Message
  toggle_parent_search accept_children_message : Bool → Message
  get_user_stats : Str → Message

pub data Effect : Type 0 where
  to_server : Message → Effect
  to_peer : ℕ → Message → Effect

-- `connections` are the open connections of type `D`; `outbox` is what has been sent, newest first;
-- `search_for_parent` is the setting. Where `server_fails`, each send to the server raises. Of a task for a potential parent the name is kept.
pub record DistributedNetwork : Type 0 where
  pub session : Option Str
  pub search_for_parent : Bool
  pub parent : Option ℕ
  pub children : List ℕ
  pub potential_parents : List Str
  pub distributed_peers : List DistributedPeer
  pub parent_min_speed : Option ℕ
  pub parent_speed_ratio : Option ℕ
  pub min_parents_in_cache : Option ℕ
  pub parent_inactivity_timeout : Option ℕ
  pub distributed_alive_interval : Option ℕ
  pub max_children : ℕ
  pub accept_children : Bool
  pub potential_parent_tasks : List Str
  pub server_fails : Bool
  pub connections : List ℕ
  pub outbox : List Effect

abbrev pub Action : Type 0
Action = DistributedNetwork → DistributedNetwork

unfoldable pub new_network : Bool → DistributedNetwork
new_network search_for_parent = record {
  session = none;
  search_for_parent = search_for_parent;
  parent = none;
  children = [];
  potential_parents = [];
  distributed_peers = [];
  parent_min_speed = none;
  parent_speed_ratio = none;
  min_parents_in_cache = none;
  parent_inactivity_timeout = none;
  distributed_alive_interval = none;
  max_children = 5;
  accept_children = true;
  potential_parent_tasks = [];
  server_fails = false;
  connections = [];
  outbox = [];
}

-- `get_distributed_peer`.
unfoldable pub get_peer : ℕ → List DistributedPeer → Option DistributedPeer
get_peer c [] = none
get_peer c (p ∷ ps) = if c == p.connection then some p else get_peer c ps

unfoldable pub remove_peer : ℕ → List DistributedPeer → List DistributedPeer
remove_peer c [] = []
remove_peer c (p ∷ ps) = let rest = remove_peer c ps in if c == p.connection then ps else p ∷ rest

-- A write to the object of a connection.
unfoldable pub set_branch : ℕ → Option ℕ → Option Str → List DistributedPeer → List DistributedPeer
set_branch c level root [] = []
set_branch c level root (p ∷ ps) =
    (if c == p.connection then record p { branch_level = level; branch_root = root } else p)
    ∷ set_branch c level root ps

-- The values of a peer that we stand below; without them the code raises.
unfoldable pub below : Str → Option DistributedPeer → Option (Str × ℕ)
below username none = none
below username (some p) = elim p.branch_root [
  | none ↦ none
  | some root ↦
      if same root username
      then some (username, 0)
      else elim p.branch_level [ none ↦ none | some level ↦ some (root, level + 1) ]
]

-- `_get_advertised_branch_values`, `none` where it raises.
unfoldable pub branch_values : Option Str → Option ℕ → List DistributedPeer → Option (Str × ℕ)
unfolding below get_peer
branch_values none parent peers = none
branch_values (some username) none peers = some (username, 0)
branch_values (some username) (some c) peers = below username (get_peer c peers)

abbrev pub advertised : DistributedNetwork → Option (Str × ℕ)
advertised s = branch_values s.session s.parent s.distributed_peers

abbrev pub send_to_server : Message → Action
send_to_server m s = record s {
  outbox = if s.server_fails then s.outbox else to_server m ∷ s.outbox;
}

abbrev pub send_to_peer : ℕ → Message → Action
send_to_peer c m s = record s { outbox = to_peer c m ∷ s.outbox }

-- `send_messages_to_children`, one message.
unfoldable pub to_each : List ℕ → Message → List Effect → List Effect
to_each [] m outbox = outbox
to_each (c ∷ cs) m outbox = to_peer c m ∷ to_each cs m outbox

abbrev pub send_to_children : Message → Action
send_to_children m s = record s { outbox = to_each s.children m s.outbox }

abbrev pub is_some {ℓ} : {A : Type ℓ} → Option A → Bool
is_some none = false
is_some (some a) = true

-- `_notify_server_of_parent`.
unfoldable pub notify_server_of_parent : Action
notify_server_of_parent s = elim (advertised s) [
  | none ↦ s
  | some (root, level) ↦
      send_to_server (toggle_parent_search (s.search_for_parent && not (is_some s.parent)))
        (send_to_server (branch_root_message root) (send_to_server (branch_level_message level) s))
]

-- The two messages that tell children where we are.
abbrev pub tell_children : Str → ℕ → Action
tell_children root level s =
    send_to_children (branch_root_message root) (send_to_children (branch_level_message level) s)

-- `_notify_children_of_branch_values`.
unfoldable pub notify_children_of_branch_values : Action
notify_children_of_branch_values s = elim (advertised s) [
  | none ↦ s
  | some (root, level) ↦ tell_children root level s
]

-- Whether `_notify_server_of_parent` raises at its sends, of which there are none without a session.
abbrev pub raises : DistributedNetwork → Bool
raises s = s.server_fails && is_some s.session

-- `_unset_parent`.
unfoldable pub unset_parent : Action
unfolding notify_server_of_parent
unset_parent s =
    let s' = record s { parent = none } in
    elim s.session [
      | none ↦ s'
      | some username ↦
          let s'' = notify_server_of_parent s' in
          if s.server_fails then s'' else tell_children username 0 s''
    ]

abbrev pub is_parent : ℕ → Option ℕ → Bool
is_parent c none = false
is_parent c (some parent) = c == parent

-- `_on_state_changed`, for a distributed connection that was closed.
unfoldable pub on_closed : ℕ → Action
unfolding get_peer unset_parent remove_peer
on_closed c s = elim (get_peer c s.distributed_peers) [
  | none ↦ s
  | some peer ↦
      let s1 = if is_parent c s.parent then unset_parent s else s in
      if is_parent c s.parent && raises s then s1 else record s1 {
        children = remove c s1.children;
        distributed_peers = remove_peer c s1.distributed_peers;
      }
]

-- `disconnect`, which does nothing on a connection that is closed.
unfoldable pub disconnect : ℕ → Action
unfolding on_closed
disconnect c s =
    if member c s.connections
    then on_closed c (record s { connections = remove c s.connections })
    else s

-- The disconnects of a list of connections, but for those that stay.
unfoldable pub disconnect_others : List ℕ → List ℕ → Action
unfolding disconnect
disconnect_others kept [] s = s
disconnect_others kept (c ∷ cs) s =
    disconnect_others kept cs (if member c kept then s else disconnect c s)
