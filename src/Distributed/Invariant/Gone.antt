-- ===== src/Distributed/Invariant/Gone.antt =====
-- distributed.py: what a closed connection leaves behind.
use aioslsk.Base.{ℕ, ◌≡◌, refl, sym, ◌∙◌, arith, Bool, true, false, Bool-cases, inl, inr}
use aioslsk.Base.{Option, none, some, List, member, member-remove_self, within-not_member}
use aioslsk.Distributed.{
  DistributedPeer, DistributedNetwork, get_peer, is_some, is_parent, raises, disconnect,
}
use aioslsk.Distributed.Peers.{ids, ids-remove_peer, is_some-get_peer}
use aioslsk.Distributed.Handlers.{react, peer_closed}
use aioslsk.Distributed.Invariant.{parent_ok, IsValid, Agrees}
use aioslsk.Distributed.Invariant.Closing.{
  drop_peer, orphan-IsValid, disconnect_parent, disconnect_peer, disconnect_unknown,
}
use aioslsk.Distributed.Invariant.Steps.{Reaches, Reaches-IsValid}

-- No part of the state refers to the connection.
abbrev pub Gone : ℕ → DistributedNetwork → Type 0
Gone c s =
    (member c s.connections ≡ false)
    × (member c s.children ≡ false)
    × (member c (ids s.distributed_peers) ≡ false)
    × (is_parent c s.parent ≡ false)

Agrees-Gone : (c : ℕ) (s t : DistributedNetwork) → Agrees s t → Gone c s → Gone c t
Agrees-Gone c s t a g = rw (a.connections, a.children, a.peers, a.parent) g

drop_peer-Gone :
    {f : Bool} (c : ℕ) (s : DistributedNetwork)
    → IsValid f s
    → is_parent c s.parent ≡ false
    → Gone c (drop_peer c s)
unfolding drop_peer
drop_peer-Gone c s v n = (
  member-remove_self c s.connections v.connections_distinct,
  member-remove_self c s.children v.children_distinct,
  rw ids-remove_peer (member-remove_self c (ids s.distributed_peers) v.peers_distinct),
  n,
)

-- Who is not known is not the parent.
unknown_parent :
    (c : ℕ) (parent : Option ℕ) (peers : List DistributedPeer)
    → parent_ok parent peers ≡ true
    → is_some (get_peer c peers) ≡ false
    → is_parent c parent ≡ false
unknown_parent c none peers h k = refl
unknown_parent c (some d) peers h k = ground arith

disconnect-Gone :
    {f : Bool} (c : ℕ) (s : DistributedNetwork)
    → IsValid f s
    → member c s.connections ≡ true
    → raises s ≡ false
    → Gone c (disconnect c s)
disconnect-Gone c s v m r =
    let peers = s.distributed_peers in
    elim (Bool-cases (is_some (get_peer c peers))) [
      | inr k ↦
          let u : member c (ids peers) ≡ false = sym (is_some-get_peer c peers) ∙ k in
          Agrees-Gone c _ (disconnect c s) (disconnect_unknown c s m k) (
            member-remove_self c s.connections v.connections_distinct,
            within-not_member c s.children (ids peers) v.children_known u,
            u,
            unknown_parent c s.parent peers v.parent_known k,
          )
      | inl k ↦ elim (Bool-cases (is_parent c s.parent)) [
        | inl p ↦
            Agrees-Gone c _ (disconnect c s) (disconnect_parent c s r p m k)
              (drop_peer-Gone c (record s { parent = none }) (orphan-IsValid s v) refl)
        | inr p ↦
            Agrees-Gone c _ (disconnect c s) (disconnect_peer c s p m k) (drop_peer-Gone c s v p)
      ]
    ]

-- When an open connection is closed, in a state that the network comes to and in which sends to the
-- server work or there is no session, nothing refers to it any more: it is no open connection, no
-- child, no known peer and not the parent.
pub peer_closed-Gone :
    (b failed : Bool) (c : ℕ) (s : DistributedNetwork)
    → Reaches b failed s
    → member c s.connections ≡ true
    → raises s ≡ false
    → Gone c (react (peer_closed c) s)
unfolding react
peer_closed-Gone b failed c s r m w = disconnect-Gone c s (Reaches-IsValid b failed s r) m w
