-- ===== src/NodeState/Wire.antt =====
-- internal/nodestate/proto.go: the states as they travel between nodes. The messages are those of
-- proto/state.proto. A message field that is not set is Go's nil, here `none`.
use netsy.Base.{ℕ, ◌+◌, ◌-◌, ◌%◌, ◌^◌, String, Option, none, some, ltb, if◌then◌else◌, str_eq}
use netsy.NodeState.{
  HealthState, loading, healthy, degraded, ElectorState, follower, leader, PrimaryState, replica,
  starting, active, draining, NodeInfo, ClusterState, no_node,
}

pub data ProtoHealth : Type 0 where
  health_unknown health_loading health_healthy health_degraded : ProtoHealth

pub data ProtoElector : Type 0 where
  elector_unknown elector_follower elector_leader : ProtoElector

pub data ProtoPrimary : Type 0 where
  primary_unknown primary_replica primary_starting primary_active primary_draining : ProtoPrimary

unfoldable pub health_from_proto : ProtoHealth → HealthState
health_from_proto health_healthy = healthy
health_from_proto health_degraded = degraded
health_from_proto _ = loading

unfoldable pub health_to_proto : HealthState → ProtoHealth
health_to_proto healthy = health_healthy
health_to_proto degraded = health_degraded
health_to_proto loading = health_loading

unfoldable pub elector_from_proto : ProtoElector → ElectorState
elector_from_proto elector_leader = leader
elector_from_proto _ = follower

unfoldable pub elector_to_proto : ElectorState → ProtoElector
elector_to_proto leader = elector_leader
elector_to_proto follower = elector_follower

unfoldable pub primary_from_proto : ProtoPrimary → PrimaryState
primary_from_proto primary_starting = starting
primary_from_proto primary_active = active
primary_from_proto primary_draining = draining
primary_from_proto _ = replica

unfoldable pub primary_to_proto : PrimaryState → ProtoPrimary
primary_to_proto starting = primary_starting
primary_to_proto active = primary_active
primary_to_proto draining = primary_draining
primary_to_proto replica = primary_replica

pub record ProtoNodeInfo : Type 0 where
  pub node_id : String
  pub member_id : ℕ
  pub peer_advertise_address : String

-- `node_count` is an int32, kept as its bit pattern.
pub record ProtoClusterState : Type 0 where
  pub elector : Option ProtoNodeInfo
  pub primary : Option ProtoNodeInfo
  pub node_count : ℕ

-- `int32(n)` of a 64-bit int keeps the low bits; `int(n)` of an int32 repeats its sign bit.
abbrev pub to_int32 : ℕ → ℕ
to_int32 n = n % 2 ^ 32

abbrev pub from_int32 : ℕ → ℕ
from_int32 n = if ltb n (2 ^ 31) then n else n + (2 ^ 64 - 2 ^ 32)

abbrev pub info_to_proto : NodeInfo → ProtoNodeInfo
info_to_proto n = record {
  node_id = n.node_id;
  member_id = n.member_id;
  peer_advertise_address = n.peer_advertise_addr;
}

-- A getter on a nil message returns the zero value.
abbrev pub info_from_proto : Option ProtoNodeInfo → NodeInfo
info_from_proto none = no_node
info_from_proto (some n) = record {
  node_id = n.node_id;
  member_id = n.member_id;
  peer_advertise_addr = n.peer_advertise_address;
}

unfoldable pub cluster_state_to_proto : ClusterState → ProtoClusterState
cluster_state_to_proto cs = record {
  elector = some (info_to_proto cs.elector);
  primary = if str_eq cs.primary.node_id "" then none else some (info_to_proto cs.primary);
  node_count = to_int32 cs.node_count;
}

unfoldable pub cluster_state_from_proto : ProtoClusterState → ClusterState
cluster_state_from_proto cs = record {
  elector = info_from_proto cs.elector;
  primary = info_from_proto cs.primary;
  node_count = from_int32 cs.node_count;
}
