-- ===== src/NodeState.antt =====
-- internal/nodestate: the states of a node, the transitions that each allows, and the calls that
-- change them. Logging and the Prometheus gauges are left out; the lock makes each call atomic.
pub mod Transitions
pub mod Runs
pub mod Wire
pub mod WireLaws
pub mod Tests
use netsy.Base.{
  ℕ, String, ◌≡◌, Bool, true, false, Option, none, some, List, [], ◌∷◌, ◌||◌, ◌==◌, if◌then◌else◌,
}

pub data HealthState : Type 0 where
  loading healthy degraded : HealthState

pub data ElectorState : Type 0 where
  follower leader : ElectorState

pub data PrimaryState : Type 0 where
  replica starting active draining : PrimaryState

-- Go compares the states as strings.
abbrev pub health_eq : HealthState → HealthState → Bool
health_eq loading loading = true
health_eq healthy healthy = true
health_eq degraded degraded = true
health_eq _ _ = false

abbrev pub elector_eq : ElectorState → ElectorState → Bool
elector_eq follower follower = true
elector_eq leader leader = true
elector_eq _ _ = false

abbrev pub primary_eq : PrimaryState → PrimaryState → Bool
primary_eq replica replica = true
primary_eq starting starting = true
primary_eq active active = true
primary_eq draining draining = true
primary_eq _ _ = false

-- The loop over the allowed states that each `valid…Transition` runs.
abbrev pub any_allowed {ℓ} : {S : Type ℓ} → (S → S → Bool) → List S → S → Bool
any_allowed eq [] to = false
any_allowed eq (allowed ∷ rest) to = eq allowed to || any_allowed eq rest to

unfoldable pub valid_health_transitions : HealthState → List HealthState
valid_health_transitions loading = healthy ∷ degraded ∷ []
valid_health_transitions healthy = degraded ∷ []
valid_health_transitions degraded = loading ∷ healthy ∷ []

unfoldable pub valid_health_transition : HealthState → HealthState → Bool
unfolding valid_health_transitions
valid_health_transition from to = any_allowed health_eq (valid_health_transitions from) to

valid_elector_transitions : ElectorState → List ElectorState
valid_elector_transitions follower = leader ∷ []
valid_elector_transitions leader = follower ∷ []

valid_elector_transition : ElectorState → ElectorState → Bool
unfolding valid_elector_transitions
valid_elector_transition from to = any_allowed elector_eq (valid_elector_transitions from) to

unfoldable pub valid_primary_transitions : PrimaryState → List PrimaryState
valid_primary_transitions replica = starting ∷ []
valid_primary_transitions starting = active ∷ replica ∷ draining ∷ []
valid_primary_transitions active = draining ∷ []
valid_primary_transitions draining = replica ∷ []

unfoldable pub valid_primary_transition : PrimaryState → PrimaryState → Bool
unfolding valid_primary_transitions
valid_primary_transition from to = any_allowed primary_eq (valid_primary_transitions from) to

pub record NodeInfo : Type 0 where
  pub node_id : String
  pub member_id : ℕ
  pub peer_advertise_addr : String

pub record ClusterState : Type 0 where
  pub elector : NodeInfo
  pub primary : NodeInfo
  pub node_count : ℕ

pub record State : Type 0 where
  pub health : HealthState
  pub elector : ElectorState
  pub primary : PrimaryState
  pub cluster : ClusterState
  pub committed : ℕ
  pub compaction : ℕ
  pub member_id : ℕ

pub data StateError : Type 0 where
  invalid_health_transition : HealthState → HealthState → StateError
  invalid_elector_transition : ElectorState → ElectorState → StateError
  invalid_primary_transition : PrimaryState → PrimaryState → StateError
  member_id_already_set : ℕ → StateError

-- Go's zero values.
abbrev pub no_node : NodeInfo
no_node = record { node_id = ""; member_id = 0; peer_advertise_addr = "" }

unfoldable pub new_state : State
new_state = record {
  health = loading;
  elector = follower;
  primary = replica;
  cluster = record { elector = no_node; primary = no_node; node_count = 0 };
  committed = 0;
  compaction = 0;
  member_id = 0;
}

unfoldable pub set_health : State → HealthState → State × Option StateError
unfolding valid_health_transition
set_health s to =
    if valid_health_transition s.health to
    then (record s { health = to }, none)
    else (s, some (invalid_health_transition s.health to))

unfoldable pub set_elector : State → ElectorState → State × Option StateError
unfolding valid_elector_transition
set_elector s to =
    if valid_elector_transition s.elector to
    then (record s { elector = to }, none)
    else (s, some (invalid_elector_transition s.elector to))

unfoldable pub set_primary : State → PrimaryState → State × Option StateError
unfolding valid_primary_transition
set_primary s to =
    if valid_primary_transition s.primary to
    then (record s { primary = to }, none)
    else (s, some (invalid_primary_transition s.primary to))

abbrev pub set_committed : State → ℕ → State
set_committed s rev = record s { committed = rev }

abbrev pub set_compaction : State → ℕ → State
set_compaction s rev = record s { compaction = rev }

unfoldable pub set_member_id : State → ℕ → State × Option StateError
set_member_id s member_id =
    if s.member_id == 0
    then (record s { member_id = member_id }, none)
    else if s.member_id == member_id
    then (s, none)
    else (s, some (member_id_already_set s.member_id))

abbrev pub set_cluster_state : State → ClusterState → State
set_cluster_state s cs = record s { cluster = cs }

abbrev pub set_cluster_elector : State → NodeInfo → State
set_cluster_elector s elector = record s { cluster = record s.cluster { elector = elector } }

abbrev pub set_cluster_primary : State → NodeInfo → State
set_cluster_primary s primary = record s { cluster = record s.cluster { primary = primary } }
