-- ===== src/Distributed/Invariant.antt =====
-- What holds of the distributed network of distributed.py between two events.
pub mod Closing
pub mod Branches
pub mod Steps
pub mod Gone
use aioslsk.Base.{
  ℕ, ◌+◌, ◌-◌, ◌≤◌, ◌==◌, ==→eq, ◌≡◌, refl, sym, ap, ◌∙◌, arith, ltb, leb, Bool, true, false, not,
  ◌&&◌, ◌||◌, &&-true, Bool-cases, inl, inr, if◌then◌else◌,
}
use aioslsk.Base.{
  Option, none, some, List, [], ◌∷◌, ◌++◌, length, drop, length-drop, member, remove, distinct,
  within, cases_option, elem,
}
use aioslsk.Base.{
  member-remove_self, distinct-remove, within-remove, within-remove_absent, within-member,
  within-cons, within-append, within-append_right, distinct-snoc, member-remove_ne,
}
use aioslsk.Distributed.{
  Str, DistributedPeer, DistributedNetwork, Action, new_network, get_peer, remove_peer, set_branch,
  is_some, notify_server_of_parent, notify_children_of_branch_values, unset_parent, is_parent,
  on_closed, disconnect, disconnect_others, potential_parents_cache_size, advertised, branch_values,
}
use aioslsk.Distributed.Peers.{
  ids, ids-remove_peer, ids-set_branch, ids-append, is_some-get_peer, get_peer-remove_peer,
  get_peer-set_branch, get_peer-append, written,
}
use aioslsk.Distributed.Handlers.{
  set_parent, check_if_new_parent, on_branch_written, on_distributed_branch_level,
  on_distributed_branch_root, same_root, add_child, check_if_new_child, on_peer_initialized,
  disconnect_all, reset, Event, react,
}

abbrev pub complete : Option DistributedPeer → Bool
complete none = false
complete (some p) = is_some p.branch_level && is_some p.branch_root

-- The parent is a known peer, and has told its level and its root.
abbrev pub parent_ok : Option ℕ → List DistributedPeer → Bool
parent_ok none peers = true
parent_ok (some c) peers = complete (get_peer c peers)

-- `failed` says whether sends to the server have ever failed: the handler of a closed connection may
-- then have stopped before it took the peer away.
pub record IsValid (failed : Bool) (s : DistributedNetwork) : Type 0 where
  pub failures_known : (failed || not s.server_fails) ≡ true
  pub peers_distinct : distinct (ids s.distributed_peers) ≡ true
  pub children_distinct : distinct s.children ≡ true
  pub connections_distinct : distinct s.connections ≡ true
  pub children_known : within s.children (ids s.distributed_peers) ≡ true
  pub peers_open : (failed || within (ids s.distributed_peers) s.connections) ≡ true
  pub parent_known : parent_ok s.parent s.distributed_peers ≡ true
  pub bounded : length s.potential_parents ≤ potential_parents_cache_size

-- States that agree on all that the invariant speaks of.
pub record Agrees (s t : DistributedNetwork) : Type 0 where
  pub peers : t.distributed_peers ≡ s.distributed_peers
  pub children : t.children ≡ s.children
  pub connections : t.connections ≡ s.connections
  pub parent : t.parent ≡ s.parent
  pub fails : t.server_fails ≡ s.server_fails
  pub potential : t.potential_parents ≡ s.potential_parents

pub failed_or : (f a b : Bool) → (f || a) ≡ true → (a ≡ true → b ≡ true) → (f || b) ≡ true
failed_or true a b h k = refl
failed_or false a b h k = k h

Agrees-IsValid : {f : Bool} (s t : DistributedNetwork) → Agrees s t → IsValid f s → IsValid f t
Agrees-IsValid s t a v = ground arith

pub notify_server-Agrees : (s : DistributedNetwork) → Agrees s (notify_server_of_parent s)
unfolding notify_server_of_parent
notify_server-Agrees s = ground arith

pub notify_children-Agrees :
    (s : DistributedNetwork) → Agrees s (notify_children_of_branch_values s)
unfolding notify_children_of_branch_values
notify_children-Agrees s = ground arith

pub unset_parent-Agrees :
    (s : DistributedNetwork) → Agrees (record s { parent = none }) (unset_parent s)
unfolding unset_parent
unset_parent-Agrees s = ground arith

pub notify_server-IsValid :
    {f : Bool} (s : DistributedNetwork) → IsValid f s → IsValid f (notify_server_of_parent s)
notify_server-IsValid s v = Agrees-IsValid s (notify_server_of_parent s) (notify_server-Agrees s) v

pub notify_children-IsValid :
    {f : Bool} (s : DistributedNetwork)
    → IsValid f s
    → IsValid f (notify_children_of_branch_values s)
notify_children-IsValid s v =
    Agrees-IsValid s (notify_children_of_branch_values s) (notify_children-Agrees s) v
