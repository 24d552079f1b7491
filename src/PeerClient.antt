-- ===== src/PeerClient.antt =====
-- internal/peerclient/manager.go: how a node takes over the state of the cluster, and the connections
-- that it keeps to the Elector and to the Primary. A connection is the address that was dialled. The
-- node's state is shared with other parts, so it is passed in beside the manager.
pub mod Connections
pub mod Laws
pub mod Tests
use netsy.Base.{
  String, Bool, true, false, not, Option, none, some, List, [], ◌∷◌, ◌&&◌, ◌||◌, if◌then◌else◌,
  str_eq,
}
use netsy.NodeState.{
  NodeInfo, ClusterState, State, replica, starting, primary_eq, set_primary, set_cluster_state,
}

-- The local adapter, or a client on a connection.
pub data ElectorClient : Type 0 where
  local : ElectorClient
  remote : (addr : String) → ElectorClient

-- `on_primary_change` says whether the callback is set; `role_changes` are the calls of it, the
-- newest first.
pub record Manager : Type 0 where
  pub node_id : String
  pub elector_addr : String
  pub elector_conn : Option String
  pub elector_client : Option ElectorClient
  pub primary_addr : String
  pub primary_conn : Option String
  pub on_primary_change : Bool
  pub role_changes : List Bool

unfoldable pub new_manager : String → Manager
new_manager node_id = record {
  node_id = node_id;
  elector_addr = "";
  elector_conn = none;
  elector_client = none;
  primary_addr = "";
  primary_conn = none;
  on_primary_change = false;
  role_changes = [];
}

-- The manager, and whether the call succeeded.
unfoldable pub connect_elector :
    Manager → (elector_node_id addr : String) → (dial_fails : Bool) → Manager × Bool
connect_elector m elector_node_id addr dial_fails =
    if str_eq elector_node_id m.node_id
    then (record m { elector_addr = addr; elector_client = some local }, true)
    else if dial_fails
    then (m, false)
    else (
      record m {
        elector_addr = addr;
        elector_conn = some addr;
        elector_client = some (remote addr);
      },
      true,
    )

abbrev without_elector : Manager → Manager
without_elector m = record m { elector_conn = none; elector_client = none }

unfoldable pub update_elector : Manager → NodeInfo → (dial_fails : Bool) → Manager
update_elector m elector dial_fails =
    let addr = elector.peer_advertise_addr in
    if str_eq addr m.elector_addr
    then m
    else if str_eq elector.node_id m.node_id
    then record (without_elector m) { elector_addr = addr; elector_client = some local }
    else if str_eq addr ""
    then record (without_elector m) { elector_addr = "" }
    else if dial_fails
    then without_elector m
    else record m {
      elector_addr = addr;
      elector_conn = some addr;
      elector_client = some (remote addr);
    }

unfoldable pub update_primary : Manager → NodeInfo → (dial_fails : Bool) → Manager
update_primary m primary dial_fails =
    let addr = primary.peer_advertise_addr in
    if str_eq addr m.primary_addr && not (str_eq primary.node_id "")
    then m
    else if str_eq primary.node_id m.node_id
    then record m { primary_conn = none; primary_addr = addr }
    else if str_eq addr "" || str_eq primary.node_id ""
    then record m { primary_conn = none; primary_addr = "" }
    else if dial_fails
    then record m { primary_conn = none }
    else record m { primary_addr = addr; primary_conn = some addr }

-- `PrimaryClient`, `PrimaryKVClient`: the connection that calls go to.
abbrev pub primary_client : Manager → Option String
primary_client m = m.primary_conn

abbrev pub close : Manager → Manager
close m = record m { elector_conn = none; primary_conn = none }

-- The state of the node: the new cluster state, and the election of this node or of another.
unfoldable pub apply_role : State → (node_id : String) → ClusterState → State
unfolding set_primary
apply_role s node_id cs =
    let is_primary = str_eq cs.primary.node_id node_id in
    if is_primary && primary_eq s.primary replica
    then (set_primary (set_cluster_state s cs) starting).0
    else if not is_primary && primary_eq s.primary starting
    then (set_primary (set_cluster_state s cs) replica).0
    else set_cluster_state s cs

abbrev pub elector_turn : Manager → (old cs : ClusterState) → (dial_fails : Bool) → Manager
elector_turn m old cs dial_fails =
    if str_eq cs.elector.peer_advertise_addr old.elector.peer_advertise_addr
    then m
    else update_elector m cs.elector dial_fails

abbrev pub primary_turn : Manager → (old cs : ClusterState) → (dial_fails : Bool) → Manager
primary_turn m old cs dial_fails =
    if str_eq cs.primary.peer_advertise_addr old.primary.peer_advertise_addr
      && str_eq cs.primary.node_id old.primary.node_id
    then m
    else update_primary m cs.primary dial_fails

unfoldable pub update_connections :
    Manager → (old cs : ClusterState) → (elector_dial_fails primary_dial_fails : Bool) → Manager
unfolding update_elector update_primary
update_connections m old cs elector_dial_fails primary_dial_fails =
    primary_turn (elector_turn m old cs elector_dial_fails) old cs primary_dial_fails

abbrev bool_differ : Bool → Bool → Bool
bool_differ true b = not b
bool_differ false b = b

-- Whether the role of this node changed, or it is a Replica that sees its first Primary.
unfoldable pub role_changed : (node_id : String) → (old cs : ClusterState) → Bool
role_changed node_id old cs =
    let is_primary = str_eq cs.primary.node_id node_id in
    bool_differ (str_eq old.primary.node_id node_id) is_primary
    || (str_eq old.primary.node_id "" && (not (str_eq cs.primary.node_id "") && not is_primary))

unfoldable pub notify_role : Manager → (old cs : ClusterState) → Manager
unfolding role_changed
notify_role m old cs =
    if m.on_primary_change && role_changed m.node_id old cs
    then record m { role_changes = str_eq cs.primary.node_id m.node_id ∷ m.role_changes }
    else m

unfoldable pub apply_cluster_state :
    State
    → Manager
    → ClusterState
    → (elector_dial_fails primary_dial_fails : Bool) → State × Manager
unfolding apply_role update_connections notify_role
apply_cluster_state s m cs elector_dial_fails primary_dial_fails = (
  apply_role s m.node_id cs,
  notify_role (update_connections m s.cluster cs elector_dial_fails primary_dial_fails) s.cluster
      cs,
)
