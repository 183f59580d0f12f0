-- ===== src/Distributed/Invariant/Closing.antt =====
-- distributed.py: the closing of connections, and the peers that it takes away.
use aioslsk.Base.{
  ℕ, ◌==◌, ◌≡◌, refl, sym, ◌∙◌, arith, Bool, true, false, within, Bool-cases, inl, inr,
}
use aioslsk.Base.{Option, none, some, List, [], ◌∷◌, member, remove, cases_option}
use aioslsk.Base.{member-remove_self, distinct-remove, within-remove, within-remove_absent}
use aioslsk.Distributed.{
  DistributedPeer, DistributedNetwork, get_peer, remove_peer, is_some, is_parent, raises,
  disconnect, disconnect_others,
}
use aioslsk.Distributed.Peers.{ids, ids-remove_peer, is_some-get_peer, get_peer-remove_peer}
use aioslsk.Distributed.Handlers.{disconnect_all, reset}
use aioslsk.Distributed.Invariant.{parent_ok, IsValid, Agrees, Agrees-IsValid, failed_or}

pub parent_ok-remove_peer :
    (parent : Option ℕ) (c : ℕ) (peers : List DistributedPeer)
    → is_parent c parent ≡ false
    → parent_ok parent peers ≡ true
    → parent_ok parent (remove_peer c peers) ≡ true
parent_ok-remove_peer none c peers n h = refl
parent_ok-remove_peer (some d) c peers n h =
    let apart : (d == c) ≡ false = ground arith in rw (get_peer-remove_peer d c peers apart) h

-- Dropping a peer that is not the parent, with its connection.
unfoldable pub drop_peer : ℕ → DistributedNetwork → DistributedNetwork
drop_peer c s = record s {
  connections = remove c s.connections;
  children = remove c s.children;
  distributed_peers = remove_peer c s.distributed_peers;
}

pub drop_peer-IsValid :
    {f : Bool} (c : ℕ) (s : DistributedNetwork)
    → is_parent c s.parent ≡ false
    → IsValid f s
    → IsValid f (drop_peer c s)
unfolding drop_peer
drop_peer-IsValid {f} c s n v =
    let peers = s.distributed_peers in
    let gone : member c (remove c (ids peers)) ≡ false =
      member-remove_self c (ids peers) v.peers_distinct in
    let child_gone : member c (remove c s.children) ≡ false =
      member-remove_self c s.children v.children_distinct in
    record {
      peers_distinct = rw ids-remove_peer (distinct-remove c (ids peers) v.peers_distinct);
      children_distinct = distinct-remove c s.children v.children_distinct;
      connections_distinct = distinct-remove c s.connections v.connections_distinct;
      children_known = rw ids-remove_peer (
          within-remove_absent c (remove c s.children) (ids peers)
            (within-remove c s.children (ids peers) v.children_known) child_gone);
      failures_known = v.failures_known;
      peers_open = rw ids-remove_peer (
          failed_or f (within (ids peers) s.connections) _ v.peers_open (λ h.
            within-remove_absent c (remove c (ids peers)) s.connections
              (within-remove c (ids peers) s.connections h) gone));
      parent_known = parent_ok-remove_peer s.parent c peers n v.parent_known;
      bounded = v.bounded;
    }

-- A connection without a peer.
pub drop_connection-IsValid :
    {f : Bool} (c : ℕ) (s : DistributedNetwork)
    → member c (ids s.distributed_peers) ≡ false
    → IsValid f s
    → IsValid f (record s { connections = remove c s.connections })
drop_connection-IsValid {f} c s n v = record {
  peers_distinct = v.peers_distinct;
  children_distinct = v.children_distinct;
  connections_distinct = distinct-remove c s.connections v.connections_distinct;
  children_known = v.children_known;
  failures_known = v.failures_known;
  peers_open =
      failed_or f (within (ids s.distributed_peers) s.connections) _ v.peers_open
        (λ h. within-remove_absent c (ids s.distributed_peers) s.connections h n);
  parent_known = v.parent_known;
  bounded = v.bounded;
}

pub orphan-IsValid :
    {f : Bool} (s : DistributedNetwork) → IsValid f s → IsValid f (record s { parent = none })
orphan-IsValid s v = ground arith

-- Where a send to the server has failed, a peer may be left without its connection.
pub lose_connection-IsValid :
    {f : Bool} (c : ℕ) (s : DistributedNetwork)
    → s.server_fails ≡ true
    → IsValid f s
    → IsValid f (record s { connections = remove c s.connections })
lose_connection-IsValid {f} c s fails v = record {
  failures_known = v.failures_known;
  peers_distinct = v.peers_distinct;
  children_distinct = v.children_distinct;
  connections_distinct = distinct-remove c s.connections v.connections_distinct;
  children_known = v.children_known;
  peers_open = let failed : f ≡ true = (let k = v.failures_known in ground arith) in rw failed refl;
  parent_known = v.parent_known;
  bounded = v.bounded;
}

-- What a disconnect comes to: nothing, a connection less, a peer less, or the parent less.
pub disconnect_parent :
    (c : ℕ) (s : DistributedNetwork)
    → raises s ≡ false
    → is_parent c s.parent ≡ true
    → member c s.connections ≡ true
    → is_some (get_peer c s.distributed_peers) ≡ true
    → Agrees (drop_peer c (record s { parent = none })) (disconnect c s)
unfolding disconnect drop_peer
disconnect_parent c s r p m k = ground arith

pub disconnect_lost :
    (c : ℕ) (s : DistributedNetwork)
    → raises s ≡ true
    → is_parent c s.parent ≡ true
    → member c s.connections ≡ true
    → is_some (get_peer c s.distributed_peers) ≡ true
    → Agrees (record s { parent = none; connections = remove c s.connections }) (disconnect c s)
unfolding disconnect
disconnect_lost c s r p m k = ground arith

pub disconnect_peer :
    (c : ℕ) (s : DistributedNetwork)
    → is_parent c s.parent ≡ false
    → member c s.connections ≡ true
    → is_some (get_peer c s.distributed_peers) ≡ true
    → Agrees (drop_peer c s) (disconnect c s)
unfolding disconnect drop_peer
disconnect_peer c s p m k = ground arith

pub disconnect_unknown :
    (c : ℕ) (s : DistributedNetwork)
    → member c s.connections ≡ true
    → is_some (get_peer c s.distributed_peers) ≡ false
    → Agrees (record s { connections = remove c s.connections }) (disconnect c s)
unfolding disconnect
disconnect_unknown c s m k = ground arith

pub disconnect_closed :
    (c : ℕ) (s : DistributedNetwork) → member c s.connections ≡ false → Agrees s (disconnect c s)
unfolding disconnect
disconnect_closed c s m = ground arith

pub disconnect-IsValid :
    {f : Bool} (c : ℕ) (s : DistributedNetwork) → IsValid f s → IsValid f (disconnect c s)
disconnect-IsValid c s v = elim (Bool-cases (member c s.connections)) [
  | inr m ↦ Agrees-IsValid s (disconnect c s) (disconnect_closed c s m) v
  | inl m ↦ elim (Bool-cases (is_some (get_peer c s.distributed_peers))) [
    | inr k ↦
        Agrees-IsValid _ (disconnect c s) (disconnect_unknown c s m k)
          (drop_connection-IsValid c s (sym (is_some-get_peer c s.distributed_peers) ∙ k) v)
    | inl k ↦ elim (Bool-cases (is_parent c s.parent)) [
      | inl p ↦
          let s' = record s { parent = none } in
          elim (Bool-cases (raises s)) [
            | inl r ↦
                Agrees-IsValid _ (disconnect c s) (disconnect_lost c s r p m k)
                  (lose_connection-IsValid c s' (ground arith) (orphan-IsValid s v))
            | inr r ↦
                Agrees-IsValid _ (disconnect c s) (disconnect_parent c s r p m k)
                  (drop_peer-IsValid c s' refl (orphan-IsValid s v))
          ]
      | inr p ↦
          Agrees-IsValid _ (disconnect c s) (disconnect_peer c s p m k) (drop_peer-IsValid c s p v)
    ]
  ]
]

pub disconnect_others-IsValid :
    {f : Bool} (kept cs : List ℕ) (s : DistributedNetwork)
    → IsValid f s
    → IsValid f (disconnect_others kept cs s)
unfolding disconnect_others
disconnect_others-IsValid kept [] s v = v
disconnect_others-IsValid kept (c ∷ cs) s v = elim (Bool-cases (member c kept)) [
  | inl e ↦ rw e (disconnect_others-IsValid kept cs s v)
  | inr e ↦ rw e (disconnect_others-IsValid kept cs (disconnect c s) (disconnect-IsValid c s v))
]

pub disconnect_all-IsValid :
    {f : Bool} (cs : List ℕ) (s : DistributedNetwork)
    → IsValid f s
    → IsValid f (disconnect_all cs s)
unfolding disconnect_all
disconnect_all-IsValid [] s v = v
disconnect_all-IsValid (c ∷ cs) s v =
    disconnect_all-IsValid cs (disconnect c s) (disconnect-IsValid c s v)

pub reset-IsValid : {f : Bool} (s : DistributedNetwork) → IsValid f s → IsValid f (reset s)
unfolding reset
reset-IsValid s v =
    let v' = disconnect_all-IsValid s.children s v in
    elim (cases_option (disconnect_all s.children s).parent) [
      | inl (p, e) ↦ rw (e, reset) (disconnect-IsValid p (disconnect_all s.children s) v')
      | inr e ↦ rw (e, reset) v'
    ]
