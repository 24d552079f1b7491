-- ===== src/Primary/Replicas.antt =====
-- internal/primary/replicas.go: what the Primary knows of its Replicas. The map has one entry for a
-- node ID, and its pointers are shared, so a change of an entry is a change in the map. Time is an
-- argument.
use netsy.Base.{
  ℕ, suc, ◌+◌, String, Bool, true, false, Option, none, some, List, [], ◌∷◌, ◌&&◌, ltb, ◌==◌,
  if◌then◌else◌, str_eq,
}
use netsy.NodeState.{
  HealthState, loading, healthy, degraded, PrimaryState, replica, starting, active, draining,
  health_eq,
}
use netsy.Primary.Quorum.{ReceiptCollector, contains}

-- The two states are int32 values.
pub record Replica : Type 0 where
  pub node_id : String
  pub last_heartbeat : ℕ
  pub last_receipt : ℕ
  pub receipt_count : ℕ
  pub health_state : ℕ
  pub primary_state : ℕ
  pub latest_revision : ℕ

unfoldable pub health : Replica → HealthState
health r =
    if r.health_state == 1 then healthy else if r.health_state == 2 then degraded else loading

abbrev pub health_code : HealthState → ℕ
health_code healthy = 1
health_code degraded = 2
health_code loading = 0

unfoldable pub set_health : Replica → HealthState → Replica
set_health r h = record r { health_state = health_code h }

unfoldable pub primary : Replica → PrimaryState
primary r =
    if r.primary_state == 1
    then starting
    else if r.primary_state == 2
    then active
    else if r.primary_state == 3
    then draining
    else replica

abbrev pub primary_code : PrimaryState → ℕ
primary_code starting = 1
primary_code active = 2
primary_code draining = 3
primary_code replica = 0

unfoldable pub set_primary : Replica → PrimaryState → Replica
set_primary r p = record r { primary_state = primary_code p }

-- `delete(m, id)`
unfoldable pub remove : String → List Replica → List Replica
remove id [] = []
remove id (r ∷ rs) = let rest = remove id rs in if str_eq r.node_id id then rest else r ∷ rest

abbrev pub fresh_replica : String → ℕ → Replica
fresh_replica id now = record {
  node_id = id;
  last_heartbeat = now;
  last_receipt = 0;
  receipt_count = 0;
  health_state = 0;
  primary_state = 0;
  latest_revision = 0;
}

unfoldable pub add : String → ℕ → List Replica → List Replica
unfolding remove
add id now rs = fresh_replica id now ∷ remove id rs

unfoldable pub get : String → List Replica → Option Replica
get id [] = none
get id (r ∷ rs) = let rest = get id rs in if str_eq r.node_id id then some r else rest

-- The change of the entry of one node, through its pointer.
unfoldable pub modify : String → (Replica → Replica) → List Replica → List Replica
modify id f [] = []
modify id f (r ∷ rs) = let rest = modify id f rs in (if str_eq r.node_id id then f r else r) ∷ rest

-- The loops of the three counts.
unfoldable pub count_replicas : (Replica → Bool) → List Replica → ℕ
count_replicas p [] = 0
count_replicas p (r ∷ rs) = let rest = count_replicas p rs in if p r then suc rest else rest

abbrev pub is_healthy : Replica → Bool
is_healthy r = health_eq (health r) healthy

abbrev pub has_receipted : Replica → Bool
has_receipted r = ltb 0 r.receipt_count

unfoldable pub healthy_count : List Replica → ℕ
unfolding count_replicas health
healthy_count = count_replicas is_healthy

unfoldable pub receipted_count : List Replica → ℕ
unfolding count_replicas
receipted_count = count_replicas has_receipted

abbrev pub is_eligible : Replica → Bool
is_eligible r = is_healthy r && has_receipted r

unfoldable pub healthy_for_quorum_count : List Replica → ℕ
healthy_for_quorum_count rs = count_replicas is_eligible rs

unfoldable pub heartbeat : HealthState → PrimaryState → (latest now : ℕ) → Replica → Replica
unfolding set_health set_primary
heartbeat h p latest now r =
    record (set_primary (set_health (record r { last_heartbeat = now }) h) p) {
      latest_revision = latest;
    }

unfoldable pub update_heartbeat :
    String → HealthState → PrimaryState → (latest now : ℕ) → List Replica → List Replica × Bool
unfolding get modify heartbeat
update_heartbeat id h p latest now rs = elim (get id rs) [
  | none ↦ (rs, false)
  | some e ↦ (modify id (heartbeat h p latest now) rs, true)
]

unfoldable pub receipt : HealthState → PrimaryState → (latest now : ℕ) → Replica → Replica
unfolding heartbeat
receipt h p latest now r = record (heartbeat h p latest now r) {
  last_receipt = now;
  receipt_count = r.receipt_count + 1;
}

unfoldable pub update_receipt :
    String → HealthState → PrimaryState → (latest now : ℕ) → List Replica → List Replica × Bool
unfolding get modify receipt
update_receipt id h p latest now rs = elim (get id rs) [
  | none ↦ (rs, false)
  | some e ↦ (modify id (receipt h p latest now) rs, true)
]

abbrev pub reset : List Replica → List Replica
reset rs = []

-- `unackedQuorumNodeIDs` of quorum.go.
unfoldable pub unacked_quorum_node_ids : ReceiptCollector → List Replica → List String
unacked_quorum_node_ids c [] = []
unacked_quorum_node_ids c (r ∷ rs) =
    let missing = unacked_quorum_node_ids c rs in
    if contains r.node_id c.acked
    then missing
    else if is_eligible r
    then r.node_id ∷ missing
    else missing

-- The loop of `executeQuorumTxn` that degrades the Replicas that have not answered.
unfoldable pub degrade_all : List String → List Replica → List Replica
unfolding modify
degrade_all [] rs = rs
degrade_all (id ∷ ids) rs = degrade_all ids (modify id (λ r. set_health r degraded) rs)

-- `checkDegradation` of server.go: `deadline` is degradationCount * heartbeatInterval.
unfoldable pub check_degradation : (deadline now : ℕ) → List Replica → List Replica
unfolding health set_health
check_degradation deadline now [] = []
check_degradation deadline now (r ∷ rs) =
    let rest = check_degradation deadline now rs in
    (if health_eq (health r) degraded
      then r
      else if ltb now (r.last_heartbeat + deadline)
      then r
      else set_health r degraded)
    ∷ rest
