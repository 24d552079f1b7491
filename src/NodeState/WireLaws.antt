-- ===== src/NodeState/WireLaws.antt =====
-- The conversions of internal/nodestate/proto.go are inverse to one another where they should be.
use netsy.Base.{◌<◌, ◌^◌, ◌≡◌, ◌⊎◌, inl, inr, ◌≢◌, arith, eq_iff}
use netsy.NodeState.{HealthState, ElectorState, PrimaryState, ClusterState, no_node}
use netsy.NodeState.Wire.{
  health_from_proto, health_to_proto, elector_from_proto, elector_to_proto, primary_from_proto,
  primary_to_proto, cluster_state_to_proto, cluster_state_from_proto,
}

-- Every state that a node sends is read back as it was.
pub states_round_trip :
    (h : HealthState) (e : ElectorState) (p : PrimaryState)
    → (health_from_proto (health_to_proto h) ≡ h)
      × (elector_from_proto (elector_to_proto e) ≡ e)
      × (primary_from_proto (primary_to_proto p) ≡ p)
unfolding health_from_proto health_to_proto elector_from_proto elector_to_proto primary_from_proto
    primary_to_proto
states_round_trip h e p = (ground arith, ground arith, ground arith)

-- A cluster state whose node count fits an int32 survives the wire, if its Primary has an ID or is
-- not set at all: of a Primary without an ID the address and the member ID are lost.
pub cluster_round_trip :
    (cs : ClusterState)
    → cs.node_count < 2 ^ 31
    → (cs.primary.node_id ≢ "") ⊎ (cs.primary ≡ no_node)
    → cluster_state_from_proto (cluster_state_to_proto cs) ≡ cs
unfolding cluster_state_from_proto cluster_state_to_proto
cluster_round_trip cs fits (inl named) = ground (arith, eq_iff cs.primary.node_id "")
cluster_round_trip cs fits (inr unset) = ground (arith, eq_iff cs.primary.node_id "")
