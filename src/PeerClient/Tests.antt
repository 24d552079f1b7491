-- ===== src/PeerClient/Tests.antt =====
-- A node that sees another Primary, loses it, and is elected.
use netsy.Base.{◌≡◌, refl, String, str_eq, true, false, some, List, [], ◌∷◌, inl}
use netsy.NodeState.{NodeInfo, new_state, no_node, starting}
use netsy.PeerClient.{
  Manager, new_manager, local, apply_cluster_state, update_connections, apply_role, notify_role,
}
use netsy.PeerClient.Connections.{str_eq-false}
use netsy.PeerClient.Laws.{Push, apply_all, IsCurrent, apply_all-IsCurrent}

abbrev node_a : NodeInfo
node_a = record { node_id = "a"; member_id = 1; peer_advertise_addr = "10.0.0.1" }

abbrev node_b : NodeInfo
node_b = record { node_id = "b"; member_id = 2; peer_advertise_addr = "10.0.0.2" }

abbrev led_by : NodeInfo → Push
led_by primary = record {
  cluster = record { elector = node_a; primary = primary; node_count = 2 };
  elector_dial_fails = false;
  primary_dial_fails = false;
}

abbrev manager : Manager
manager = record (new_manager "a") { on_primary_change = true }

abbrev pushes : List Push
pushes = led_by node_b ∷ led_by no_node ∷ led_by node_a ∷ []

follows : (apply_all (new_state, manager) (led_by node_b ∷ [])).1.primary_conn ≡ some "10.0.0.2"
unfolding apply_all apply_cluster_state update_connections new_manager new_state
follows = refl

elected : (apply_all (new_state, manager) pushes).0.primary ≡ starting
unfolding apply_all apply_cluster_state apply_role new_manager new_state
elected = refl

notified : (apply_all (new_state, manager) pushes).1.role_changes ≡ true ∷ false ∷ []
unfolding apply_all apply_cluster_state notify_role new_manager new_state
notified = refl

own_client : (apply_all (new_state, manager) pushes).1.elector_client ≡ some local
unfolding apply_all apply_cluster_state update_connections new_manager new_state
own_client = refl

differ : {A : Type 0} → (a b : String) → str_eq a b ≡ false → a ≡ b → A
differ a b h same = absurd (str_eq-false a b h same)

apply_all-IsCurrent_example : IsCurrent "a" (apply_all (new_state, manager) pushes)
unfolding new_manager new_state
apply_all-IsCurrent_example =
    apply_all-IsCurrent "a" "10.0.0.1" new_state manager pushes (inl refl, refl, λ e. cc)
      (λ e. differ "" "a" refl e, λ e. differ "" "10.0.0.1" refl e)
      (
        (λ e. differ "b" "a" refl e, λ e. differ "10.0.0.2" "10.0.0.1" refl e),
        (
          (λ e. differ "" "a" refl e, λ e. differ "" "10.0.0.1" refl e),
          ((λ e. refl, λ e. refl), tt),
        ),
      )
