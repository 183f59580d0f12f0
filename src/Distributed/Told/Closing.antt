-- ===== src/Distributed/Told/Closing.antt =====
-- distributed.py: what a closing connection leaves the children told of.
use aioslsk.Base.{
  ℕ, ◌==◌, ◌≡◌, refl, ap, arith, Bool, true, false, if◌then◌else◌, Bool-cases, inl, inr,
  within_self,
}
use aioslsk.Base.{Option, none, some, List, [], ◌∷◌, member, remove, cases_option}
use aioslsk.Distributed.{
  tell_children, Str, DistributedPeer, DistributedNetwork, advertised, branch_values, get_peer,
  remove_peer, is_parent, on_closed, disconnect, disconnect_others, notify_server_of_parent,
  notify_children_of_branch_values, unset_parent,
}
use aioslsk.Distributed.Peers.{get_peer-remove_peer}
use aioslsk.Distributed.Told.{
  Told, told_values, last_level, last_root, told-quiet, told-remove, told-tell,
}
use aioslsk.Distributed.Handlers.{set_parent, reset, disconnect_all}

-- States with the same values to tell, to the same children, who know the same.
pub record Quiet (s t : DistributedNetwork) : Type 0 where
  pub session : t.session ≡ s.session
  pub parent : t.parent ≡ s.parent
  pub peers : t.distributed_peers ≡ s.distributed_peers
  pub children : t.children ≡ s.children
  pub level : (c : ℕ) → last_level c t.outbox ≡ last_level c s.outbox
  pub root : (c : ℕ) → last_root c t.outbox ≡ last_root c s.outbox

pub told_values-Quiet :
    (values : Option (Str × ℕ)) (s t : DistributedNetwork)
    → Quiet s t
    → told_values values s.children s.outbox ≡ true
    → told_values values t.children t.outbox ≡ true
told_values-Quiet none s t q h = refl
told_values-Quiet (some (root, level)) s t q h =
    rw q.children (told-quiet root level s.children s.outbox t.outbox q.level q.root h)

pub Quiet-Told : (s t : DistributedNetwork) → Quiet s t → Told s → Told t
Quiet-Told s t q h = rw (q.session, q.parent, q.peers) (told_values-Quiet (advertised s) s t q h)

pub tell_children-Told :
    (root : Str) (level : ℕ) (s : DistributedNetwork)
    → advertised s ≡ some (root, level)
    → Told (tell_children root level s)
tell_children-Told root level s e =
    rw e (told-tell root level s.children s.children s.outbox (within_self s.children))

pub notify_children-Told : (s : DistributedNetwork) → Told (notify_children_of_branch_values s)
unfolding notify_children_of_branch_values
notify_children-Told s = elim (cases_option (advertised s)) [
  | inr e ↦ rw (e, notify_children_of_branch_values) (rw e refl)
  | inl ((root, level), e) ↦
      rw (e, notify_children_of_branch_values) (tell_children-Told root level s e)
]

-- The handlers leave alone whether the sends to the server work.
abbrev pub Works : DistributedNetwork → Type 0
Works s = s.server_fails ≡ false

pub notify_server-Works : (s : DistributedNetwork) → Works s → Works (notify_server_of_parent s)
unfolding notify_server_of_parent
notify_server-Works s w = ground arith

pub disconnect-Works : (c : ℕ) (s : DistributedNetwork) → Works s → Works (disconnect c s)
unfolding disconnect
disconnect-Works c s w = ground arith

pub disconnect_others-Works :
    (kept cs : List ℕ) (s : DistributedNetwork) → Works s → Works (disconnect_others kept cs s)
unfolding disconnect_others
disconnect_others-Works kept [] s w = w
disconnect_others-Works kept (c ∷ cs) s w = elim (Bool-cases (member c kept)) [
  | inl e ↦ rw (e, disconnect_others) (disconnect_others-Works kept cs s w)
  | inr e ↦
      rw (e, disconnect_others)
        (disconnect_others-Works kept cs (disconnect c s) (disconnect-Works c s w))
]

pub disconnect_all-Works :
    (cs : List ℕ) (s : DistributedNetwork) → Works s → Works (disconnect_all cs s)
unfolding disconnect_all
disconnect_all-Works [] s w = w
disconnect_all-Works (c ∷ cs) s w =
    disconnect_all-Works cs (disconnect c s) (disconnect-Works c s w)

pub set_parent-Told : (c : ℕ) (s : DistributedNetwork) → Works s → Told (set_parent c s)
unfolding set_parent
set_parent-Told c s w =
    let s1 : DistributedNetwork = record s { parent = some c; potential_parent_tasks = [] } in
    let s2 = disconnect_others (c ∷ s.children) s.connections s1 in
    let w' = notify_server-Works s2 (disconnect_others-Works (c ∷ s.children) s.connections s1 w) in
    rw w' (notify_children-Told (notify_server_of_parent s2))

-- A disconnect takes the child away, or leaves all of them told.
pub told_values-remove :
    (values : Option (Str × ℕ)) (c : ℕ) (s : DistributedNetwork)
    → told_values values s.children s.outbox ≡ true
    → told_values values (remove c s.children) s.outbox ≡ true
told_values-remove none c s h = refl
told_values-remove (some (root, level)) c s h = told-remove root level c s.children s.outbox h

pub branch_values-remove_peer :
    (session : Option Str) (parent : Option ℕ) (c : ℕ) (peers : List DistributedPeer)
    → is_parent c parent ≡ false
    → branch_values session parent (remove_peer c peers) ≡ branch_values session parent peers
unfolding branch_values
branch_values-remove_peer none parent c peers n = refl
branch_values-remove_peer (some name) none c peers n = refl
branch_values-remove_peer (some name) (some d) c peers n =
    let apart : (d == c) ≡ false = ground arith in rw (get_peer-remove_peer d c peers apart) refl

pub on_closed_other :
    (c : ℕ) (p : DistributedPeer) (s : DistributedNetwork)
    → get_peer c s.distributed_peers ≡ some p
    → is_parent c s.parent ≡ false
    → on_closed c s ≡ record s {
      children = remove c s.children;
      distributed_peers = remove_peer c s.distributed_peers;
    }
unfolding on_closed
on_closed_other c p s e n = rw (e, on_closed) (rw n refl)

pub on_closed_parent :
    (c : ℕ) (p : DistributedPeer) (s : DistributedNetwork)
    → get_peer c s.distributed_peers ≡ some p
    → is_parent c s.parent ≡ true
    → Works s
    → on_closed c s ≡ (
        let s1 = unset_parent s in
        record s1 {
          children = remove c s1.children;
          distributed_peers = remove_peer c s1.distributed_peers;
        })
unfolding on_closed
on_closed_parent c p s e n w = rw (e, on_closed) (rw (n, w) refl)

pub on_closed_unknown :
    (c : ℕ) (s : DistributedNetwork) → get_peer c s.distributed_peers ≡ none → on_closed c s ≡ s
unfolding on_closed
on_closed_unknown c s e = rw (e, on_closed) refl

pub advertised_server :
    (name : Str) (s : DistributedNetwork)
    → s.session ≡ some name
    → advertised (notify_server_of_parent (record s { parent = none })) ≡ some (name, 0)
unfolding notify_server_of_parent branch_values
advertised_server name s e = ground arith

pub else-Told :
    (fails : Bool) (s t : DistributedNetwork)
    → fails ≡ false
    → Told t
    → Told (if fails then s else t)
else-Told true s t w h = cc
else-Told false s t w h = h

-- Without a parent, and the children told so.
pub unset_parent-Told : (s : DistributedNetwork) → Works s → Told (unset_parent s)
unfolding unset_parent branch_values
unset_parent-Told s w = elim (cases_option s.session) [
  | inr e ↦ rw (e, unset_parent) (rw e refl)
  | inl (name, e) ↦
      let s' = notify_server_of_parent (record s { parent = none }) in
      rw (e, unset_parent)
        (else-Told s.server_fails s' (tell_children name 0 s') w
          (tell_children-Told name 0 s' (advertised_server name s e)))
]

pub unset_parent-parent : (s : DistributedNetwork) → (unset_parent s).parent ≡ none
unfolding unset_parent
unset_parent-parent s = ground arith

pub on_closed-Told : (c : ℕ) (s : DistributedNetwork) → Works s → Told s → Told (on_closed c s)
on_closed-Told c s w h = elim (cases_option (get_peer c s.distributed_peers)) [
  | inr e ↦ rw (on_closed_unknown c s e) h
  | inl (p, e) ↦ elim (Bool-cases (is_parent c s.parent)) [
    | inr n ↦
        rw
          (
            on_closed_other c p s e n,
            branch_values-remove_peer s.session s.parent c s.distributed_peers n,
          )
          (told_values-remove (advertised s) c s h)
    | inl q ↦
        let s1 = unset_parent s in
        let n : is_parent c s1.parent ≡ false = ap (is_parent c) (unset_parent-parent s) in
        rw
          (
            on_closed_parent c p s e q w,
            branch_values-remove_peer s1.session s1.parent c s1.distributed_peers n,
          )
          (told_values-remove (advertised s1) c s1 (unset_parent-Told s w))
  ]
]

pub disconnect-Told : (c : ℕ) (s : DistributedNetwork) → Works s → Told s → Told (disconnect c s)
unfolding disconnect
disconnect-Told c s w h =
    let s' : DistributedNetwork = record s { connections = remove c s.connections } in
    elim (Bool-cases (member c s.connections)) [
      | inl e ↦ rw e (on_closed-Told c s' w h)
      | inr e ↦ rw e h
    ]

pub disconnect_all-Told :
    (cs : List ℕ) (s : DistributedNetwork) → Works s → Told s → Told (disconnect_all cs s)
unfolding disconnect_all
disconnect_all-Told [] s w h = h
disconnect_all-Told (c ∷ cs) s w h =
    disconnect_all-Told cs (disconnect c s) (disconnect-Works c s w) (disconnect-Told c s w h)

pub reset-Told : (s : DistributedNetwork) → Works s → Told s → Told (reset s)
unfolding reset
reset-Told s w h =
    let h' = disconnect_all-Told s.children s w h in
    let w' = disconnect_all-Works s.children s w in
    elim (cases_option (disconnect_all s.children s).parent) [
      | inl (p, e) ↦ rw (e, reset) (disconnect-Told p (disconnect_all s.children s) w' h')
      | inr e ↦ rw (e, reset) h'
    ]
