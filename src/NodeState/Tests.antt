-- ===== src/NodeState/Tests.antt =====
-- The node's state at concrete values, and the laws applied to them.
use mathlib.Core.List.{Memᴰ}
use netsy.Base.{refl, [], ◌∷◌}
use netsy.NodeState.{healthy, active, draining, State, ClusterState, new_state, set_primary}
use netsy.NodeState.Runs.{sets_primary, sets_committed, run, step, run-active}

abbrev serving : State
serving = record new_state { primary = active; health = healthy; member_id = 4 }

run-active_example : Memᴰ (sets_primary draining) (sets_committed 5 ∷ sets_primary draining ∷ [])
unfolding run step set_primary
run-active_example =
    run-active serving (sets_committed 5 ∷ sets_primary draining ∷ []) refl (λ e. cc)

abbrev cluster : ClusterState
cluster = record {
  elector = record { node_id = "n2"; member_id = 2; peer_advertise_addr = "b:1" };
  primary = record { node_id = "n1"; member_id = 1; peer_advertise_addr = "a:1" };
  node_count = 3;
}
