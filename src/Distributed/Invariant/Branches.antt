-- ===== src/Distributed/Invariant/Branches.antt =====
-- distributed.py: the branch values of a peer, and the choice of a parent.
use aioslsk.Base.{
  ℕ, ◌==◌, ◌≡◌, refl, ap, ◌∙◌, arith, Bool, true, ◌&&◌, Bool-cases, inl, inr, if◌then◌else◌,
}
use aioslsk.Base.{Option, none, some, List, [], ◌∷◌, cases_option}
use aioslsk.Distributed.{
  Str, DistributedPeer, DistributedNetwork, raises, notify_server_of_parent, disconnect_others,
  get_peer, set_branch, is_some, is_parent,
}
use aioslsk.Distributed.Peers.{ids-set_branch, get_peer-set_branch}
use aioslsk.Distributed.Handlers.{
  set_parent, check_if_new_parent, on_branch_written, on_distributed_branch_level,
  on_distributed_branch_root, same_root,
}
use aioslsk.Distributed.Invariant.{
  complete, parent_ok, IsValid, notify_server-IsValid, notify_children-IsValid,
}
use aioslsk.Distributed.Invariant.Closing.{disconnect-IsValid, disconnect_others-IsValid}

pub set_parent-IsValid :
    {f : Bool} (c : ℕ) (s : DistributedNetwork)
    → IsValid f s
    → complete (get_peer c s.distributed_peers) ≡ true
    → IsValid f (set_parent c s)
unfolding set_parent
set_parent-IsValid c s v k =
    let s1 : DistributedNetwork = record s { parent = some c; potential_parent_tasks = [] } in
    let v1 : IsValid _ s1 = ground arith in
    let v2 =
      notify_server-IsValid _ (disconnect_others-IsValid (c ∷ s.children) s.connections s1 v1) in
    elim (Bool-cases
      (raises (notify_server_of_parent (disconnect_others (c ∷ s.children) s.connections s1)))) [
        | inl r ↦ rw r v2
        | inr r ↦ rw r (notify_children-IsValid _ v2)
      ]

pub check_if_new_parent-IsValid :
    {f : Bool} (c : ℕ) (peer : Option DistributedPeer) (s : DistributedNetwork)
    → IsValid f s
    → get_peer c s.distributed_peers ≡ peer
    → IsValid f (check_if_new_parent c peer s)
unfolding check_if_new_parent
check_if_new_parent-IsValid c none s v e = v
check_if_new_parent-IsValid c (some p) s v e =
    elim (Bool-cases (is_some p.branch_level && is_some p.branch_root)) [
      | inr k ↦ rw k v
      | inl k ↦ elim (Bool-cases (is_some s.parent)) [
        | inl q ↦ rw (k, q) (disconnect-IsValid c s v)
        | inr q ↦ rw (k, q) (set_parent-IsValid c s v (ap complete e ∙ k))
      ]
    ]

pub parent_ok-set_branch :
    (parent : Option ℕ) (c : ℕ) (level : Option ℕ) (root : Option Str)
    (peers : List DistributedPeer)
    → parent_ok parent peers ≡ true
    → (is_parent c parent ≡ true → is_some level && is_some root ≡ true)
    → parent_ok parent (set_branch c level root peers) ≡ true
parent_ok-set_branch none c level root peers h k = refl
parent_ok-set_branch (some d) c level root peers h k =
    ground (arith, get_peer-set_branch d c level root peers)

-- A parent whose peer is found is complete.
pub parent_complete :
    (parent : Option ℕ) (c : ℕ) (peers : List DistributedPeer) (p : DistributedPeer)
    → is_parent c parent ≡ true
    → get_peer c peers ≡ some p
    → parent_ok parent peers ≡ true
    → complete (some p) ≡ true
parent_complete none c peers p q e h = cc
parent_complete (some d) c peers p q e h = ground arith

pub root_known :
    (level : ℕ) (p : DistributedPeer)
    → complete (some p) ≡ true
    → is_some (if level == 0 then some p.username else p.branch_root) ≡ true
root_known level p h = ground arith

pub level_known :
    (p : DistributedPeer) → complete (some p) ≡ true → (is_some p.branch_level && true) ≡ true
level_known p h = ground arith

pub on_branch_written-IsValid :
    {f : Bool} (c : ℕ) (s : DistributedNetwork) → IsValid f s → IsValid f (on_branch_written c s)
unfolding on_branch_written
on_branch_written-IsValid c s v = elim (Bool-cases (is_parent c s.parent)) [
  | inl e ↦ rw e (notify_children-IsValid s v)
  | inr e ↦ rw e (check_if_new_parent-IsValid c (get_peer c s.distributed_peers) s v refl)
]

-- A write that leaves the parent complete.
pub set_branch-IsValid :
    {f : Bool} (c : ℕ) (level : Option ℕ) (root : Option Str) (s : DistributedNetwork)
    → IsValid f s
    → (is_parent c s.parent ≡ true → is_some level && is_some root ≡ true)
    → IsValid f (record s { distributed_peers = set_branch c level root s.distributed_peers })
set_branch-IsValid c level root s v k = record {
  failures_known = v.failures_known;
  peers_distinct = rw ids-set_branch v.peers_distinct;
  children_distinct = v.children_distinct;
  connections_distinct = v.connections_distinct;
  children_known = rw ids-set_branch v.children_known;
  peers_open = rw ids-set_branch v.peers_open;
  parent_known = parent_ok-set_branch s.parent c level root s.distributed_peers v.parent_known k;
  bounded = v.bounded;
}

pub on_distributed_branch_level-IsValid :
    {f : Bool} (level c : ℕ) (s : DistributedNetwork)
    → IsValid f s
    → IsValid f (on_distributed_branch_level level c s)
unfolding on_distributed_branch_level
on_distributed_branch_level-IsValid level c s v =
    elim (cases_option (get_peer c s.distributed_peers)) [
      | inr e ↦ rw (e, on_distributed_branch_level) v
      | inl (p, e) ↦
          let root : Option Str = if level == 0 then some p.username else p.branch_root in
          rw (e, on_distributed_branch_level)
            (on_branch_written-IsValid c _ (
              set_branch-IsValid c (some level) root s v (λ q.
                root_known level p
                  (parent_complete s.parent c s.distributed_peers p q e v.parent_known))))
    ]

pub on_distributed_branch_root-IsValid :
    {f : Bool} (root : Str) (c : ℕ) (s : DistributedNetwork)
    → IsValid f s
    → IsValid f (on_distributed_branch_root root c s)
unfolding on_distributed_branch_root
on_distributed_branch_root-IsValid root c s v =
    elim (cases_option (get_peer c s.distributed_peers)) [
      | inr e ↦ rw (e, on_distributed_branch_root) v
      | inl (p, e) ↦ elim (Bool-cases (same_root root p.branch_root)) [
        | inl same ↦ rw (e, on_distributed_branch_root) (rw same v)
        | inr other ↦
            rw (e, on_distributed_branch_root)
              (rw other (
                on_branch_written-IsValid c _ (
                  set_branch-IsValid c p.branch_level (some root) s v (λ q.
                    level_known p
                      (parent_complete s.parent c s.distributed_peers p q e v.parent_known)))))
      ]
    ]
