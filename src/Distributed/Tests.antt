-- ===== src/Distributed/Tests.antt =====
-- distributed.py: a parent is found, and a child joins below it.
use aioslsk.Base.{◌≡◌, refl, true, false, none, some, List, [], ◌∷◌}
use aioslsk.Distributed.{
  Str, DistributedNetwork, advertised, is_some, new_network, disconnect, branch_values, set_branch,
}
use aioslsk.Distributed.Peers.{ids}
use aioslsk.Distributed.Handlers.{
  Event, react, session_initialized, peer_opened, peer_initialized, peer_closed,
  distributed_branch_level, check_if_new_child, on_branch_written, check_if_new_parent, set_parent,
  add_child, session_destroyed, server_sends_fail,
}
use aioslsk.Distributed.Invariant.{IsValid}
use aioslsk.Distributed.Invariant.Steps.{Reaches, start, step, Reaches-IsValid, advertised_defined}
use aioslsk.Distributed.Invariant.Gone.{Gone, peer_closed-Gone}
use aioslsk.Distributed.Told.{Told, told_values}
use aioslsk.Distributed.Told.Steps.{react-Told}

abbrev us : Str
us = 1 ∷ []

-- We log in; connection 7, which we asked for, becomes the parent; connection 8 becomes a child.
abbrev events : List Event
events =
    session_initialized us
    ∷ peer_opened 7
    ∷ peer_initialized 7 (2 ∷ []) true
    ∷ distributed_branch_level 0 7
    ∷ peer_opened 8
    ∷ peer_initialized 8 (3 ∷ []) false
    ∷ []

abbrev run : List Event → DistributedNetwork → DistributedNetwork
run [] s = s
run (e ∷ es) s = run es (react e s)

abbrev joined : DistributedNetwork
joined = run events (new_network true)

joined_parent : joined.parent ≡ some 7
unfolding new_network react check_if_new_child branch_values on_branch_written check_if_new_parent
    set_branch set_parent add_child
joined_parent = refl

joined_children : joined.children ≡ 8 ∷ []
unfolding new_network react check_if_new_child branch_values on_branch_written check_if_new_parent
    set_branch set_parent add_child
joined_children = refl

joined_works : joined.server_fails ≡ false
unfolding new_network react check_if_new_child branch_values on_branch_written check_if_new_parent
    set_branch set_parent add_child
joined_works = refl

joined-Told : Told joined
unfolding new_network react check_if_new_child branch_values on_branch_written check_if_new_parent
    set_branch set_parent add_child
joined-Told = refl

joined-Reaches : Reaches true false joined
unfolding new_network react check_if_new_child branch_values on_branch_written check_if_new_parent
    set_branch set_parent add_child
joined-Reaches =
    step (peer_initialized 8 (3 ∷ []) false) false _
      (step (peer_opened 8) false _
        (step (distributed_branch_level 0 7) false _
          (step (peer_initialized 7 (2 ∷ []) true) false _
            (step (peer_opened 7) false _
              (step (session_initialized us) false (new_network true) start tt) refl)
            (refl, refl))
          tt)
        refl)
      (refl, refl)

Reaches-IsValid_example : IsValid false joined
Reaches-IsValid_example = Reaches-IsValid true false joined joined-Reaches

advertised_defined_example : is_some (advertised joined) ≡ is_some joined.session
advertised_defined_example = advertised_defined true false joined joined-Reaches

-- The parent moves to level 4 below another root.
react-Told_example : Told (react (distributed_branch_level 4 7) joined)
react-Told_example =
    react-Told true false (distributed_branch_level 4 7) joined joined-Reaches joined_works tt tt
      joined-Told

-- Who loses the parent between two sessions does not tell the children.
abbrev late : DistributedNetwork
late = run (session_destroyed ∷ peer_closed 7 ∷ session_initialized us ∷ []) joined

late_stale : told_values (advertised late) late.children late.outbox ≡ false
unfolding new_network react check_if_new_child branch_values on_branch_written check_if_new_parent
    set_branch set_parent add_child disconnect
late_stale = refl

-- The parent leaves, with the server there.
peer_closed-Gone_example : Gone 7 (react (peer_closed 7) joined)
unfolding new_network react check_if_new_child branch_values on_branch_written check_if_new_parent
    set_branch set_parent add_child
peer_closed-Gone_example = peer_closed-Gone true false 7 joined joined-Reaches refl refl

-- Where the send to the server fails, the parent that is lost stays among the peers.
abbrev lost : DistributedNetwork
lost = run (server_sends_fail true ∷ peer_closed 7 ∷ []) joined

lost_peer :
    (lost.parent ≡ none) × (ids lost.distributed_peers ≡ 7 ∷ 8 ∷ []) × (lost.connections ≡ 8 ∷ [])
unfolding new_network react check_if_new_child branch_values on_branch_written check_if_new_parent
    set_branch set_parent add_child disconnect
lost_peer = (refl, refl, refl)

lost-Reaches : Reaches true true lost
lost-Reaches =
    step (peer_closed 7) true _ (step (server_sends_fail true) false joined joined-Reaches tt) tt
