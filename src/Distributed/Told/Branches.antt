-- ===== src/Distributed/Told/Branches.antt =====
-- distributed.py: what the branch values of a peer leave the children told of.
use aioslsk.Base.{ℕ, ◌==◌, ◌≡◌, refl, arith, false, ◌&&◌, Bool-cases, inl, inr}
use aioslsk.Base.{Option, none, some, List, same, cases_option}
use aioslsk.Distributed.{
  Str, DistributedPeer, DistributedNetwork, branch_values, get_peer, set_branch, is_some, is_parent,
}
use aioslsk.Distributed.Peers.{get_peer-set_branch}
use aioslsk.Distributed.Told.{Told}
use aioslsk.Distributed.Handlers.{
  on_branch_written, check_if_new_parent, same_root, on_distributed_branch_level,
  on_distributed_branch_root,
}
use aioslsk.Distributed.Told.Closing.{Works, notify_children-Told, set_parent-Told, disconnect-Told}

pub check_if_new_parent-Told :
    (c : ℕ) (peer : Option DistributedPeer) (s : DistributedNetwork)
    → Works s
    → Told s
    → Told (check_if_new_parent c peer s)
unfolding check_if_new_parent
check_if_new_parent-Told c none s w h = h
check_if_new_parent-Told c (some p) s w h =
    elim (Bool-cases (is_some p.branch_level && is_some p.branch_root)) [
      | inr k ↦ rw k h
      | inl k ↦ elim (Bool-cases (is_some s.parent)) [
        | inl q ↦ rw (k, q) (disconnect-Told c s w h)
        | inr q ↦ rw (k, q) (set_parent-Told c s w)
      ]
    ]

pub branch_values-set_branch :
    (session : Option Str) (parent : Option ℕ) (c : ℕ) (level : Option ℕ) (root : Option Str)
    (peers : List DistributedPeer)
    → is_parent c parent ≡ false
    → branch_values session parent (set_branch c level root peers)
      ≡ branch_values session parent peers
unfolding branch_values
branch_values-set_branch none parent c level root peers n = refl
branch_values-set_branch (some name) none c level root peers n = refl
branch_values-set_branch (some name) (some d) c level root peers n =
    let apart : (d == c) ≡ false = ground arith in
    rw (get_peer-set_branch d c level root peers, apart) refl

-- A write to a peer: of the parent all children hear, and of another nothing changes.
pub written-Told :
    (c : ℕ) (level : Option ℕ) (root : Option Str) (s : DistributedNetwork)
    → Works s
    → Told s
    → Told (
        on_branch_written c
          (record s { distributed_peers = set_branch c level root s.distributed_peers }))
unfolding on_branch_written
written-Told c level root s w h =
    let s' : DistributedNetwork = record s {
      distributed_peers = set_branch c level root s.distributed_peers;
    } in
    elim (Bool-cases (is_parent c s.parent)) [
      | inl e ↦ rw e (notify_children-Told s')
      | inr e ↦
          let h' : Told s' =
            rw (branch_values-set_branch s.session s.parent c level root s.distributed_peers e) h in
          rw e (check_if_new_parent-Told c (get_peer c s'.distributed_peers) s' w h')
    ]

pub branch_level-Told :
    (level c : ℕ) (s : DistributedNetwork)
    → Works s
    → Told s
    → Told (on_distributed_branch_level level c s)
unfolding on_distributed_branch_level
branch_level-Told level c s w h = elim (cases_option (get_peer c s.distributed_peers)) [
  | inr e ↦ rw (e, on_distributed_branch_level) h
  | inl (p, e) ↦ rw (e, on_distributed_branch_level) (written-Told c (some level) _ s w h)
]

pub branch_root-Told :
    (root : Str) (c : ℕ) (s : DistributedNetwork)
    → Works s
    → Told s
    → Told (on_distributed_branch_root root c s)
unfolding on_distributed_branch_root
branch_root-Told root c s w h = elim (cases_option (get_peer c s.distributed_peers)) [
  | inr e ↦ rw (e, on_distributed_branch_root) h
  | inl (p, e) ↦ elim (Bool-cases (same_root root p.branch_root)) [
    | inl same ↦ rw (e, on_distributed_branch_root) (rw same h)
    | inr other ↦
        rw (e, on_distributed_branch_root)
          (rw other (written-Told c p.branch_level (some root) s w h))
  ]
]
