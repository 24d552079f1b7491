-- ===== src/PeerClient/Laws.antt =====
-- What the connections and the role of a node are after a change of the cluster's state.
use netsy.Base.{
  String, ◌≡◌, refl, sym, ◌≢◌, ◌⊎◌, inl, inr, Bool, true, false, some, arith, Bool-cases, str_eq,
  List, [], ◌∷◌, All, ◌↔◌, ap, ◌∙◌,
}
use netsy.NodeState.{
  ClusterState, State, PrimaryState, replica, starting, active, draining, set_primary,
  valid_primary_transition, valid_primary_transitions,
}
use netsy.PeerClient.{
  Manager, update_primary, elector_turn, primary_turn, update_connections, apply_role, notify_role,
  apply_cluster_state,
}
use netsy.PeerClient.Connections.{
  IsConnected, SamePrimary, elector_turn-SamePrimary, SamePrimary-IsConnected,
  update_connections-IsConnected,
}

-- The role that the cluster's state asks of a node: an elected one is no Replica, and another one
-- does not start as Primary.
abbrev pub HasRole : Bool → PrimaryState → Type 0
HasRole true s = s ≢ replica
HasRole false s = s ≢ starting

PrimaryState-cases :
    (s : PrimaryState) → (s ≡ replica) ⊎ (s ≡ starting) ⊎ (s ≡ active) ⊎ (s ≡ draining)
PrimaryState-cases replica = inl refl
PrimaryState-cases starting = inr (inl refl)
PrimaryState-cases active = inr (inr (inl refl))
PrimaryState-cases draining = inr (inr (inr refl))

apply_role-HasRole :
    (s : State) (node_id : String) (cs : ClusterState)
    → HasRole (str_eq cs.primary.node_id node_id) (apply_role s node_id cs).primary
unfolding apply_role set_primary valid_primary_transition valid_primary_transitions
apply_role-HasRole s node_id cs = elim (Bool-cases (str_eq cs.primary.node_id node_id)) [
  | inl e ↦ elim (PrimaryState-cases s.primary) [
    | inl p ↦ simp (e, p) (λ q. cc)
    | inr (inl p) ↦ simp (e, p) (λ q. cc)
    | inr (inr (inl p)) ↦ simp (e, p) (λ q. cc)
    | inr (inr (inr p)) ↦ simp (e, p) (λ q. cc)
  ]
  | inr e ↦ elim (PrimaryState-cases s.primary) [
    | inl p ↦ simp (e, p) (λ q. cc)
    | inr (inl p) ↦ simp (e, p) (λ q. cc)
    | inr (inr (inl p)) ↦ simp (e, p) (λ q. cc)
    | inr (inr (inr p)) ↦ simp (e, p) (λ q. cc)
  ]
]

notify_role-SamePrimary :
    (m : Manager) (old cs : ClusterState) → SamePrimary m (notify_role m old cs)
unfolding notify_role
notify_role-SamePrimary m old cs = ground arith

primary_turn-id :
    (m : Manager) (old cs : ClusterState) (fails : Bool)
    → (primary_turn m old cs fails).node_id ≡ m.node_id
unfolding update_primary
primary_turn-id m old cs fails = ground arith

update_connections-id :
    (m : Manager) (old cs : ClusterState) (elector_fails primary_fails : Bool)
    → (update_connections m old cs elector_fails primary_fails).node_id ≡ m.node_id
unfolding update_connections
update_connections-id m old cs elector_fails primary_fails =
    primary_turn-id (elector_turn m old cs elector_fails) old cs primary_fails
    ∙ (elector_turn-SamePrimary m old cs elector_fails).id

apply_role-cluster :
    (s : State) (node_id : String) (cs : ClusterState) → (apply_role s node_id cs).cluster ≡ cs
unfolding apply_role set_primary
apply_role-cluster s node_id cs = ground arith

-- The state of a cluster and what dialling makes of its addresses.
pub record Push : Type 0 where
  pub cluster : ClusterState
  pub elector_dial_fails : Bool
  pub primary_dial_fails : Bool

unfoldable pub apply_all : State × Manager → List Push → State × Manager
apply_all (s, m) [] = (s, m)
apply_all (s, m) (p ∷ ps) =
    apply_all (apply_cluster_state s m p.cluster p.elector_dial_fails p.primary_dial_fails) ps

-- The address is that of the node itself exactly if the Primary is.
abbrev pub OwnsAddress : (node_id own : String) → ClusterState → Type 0
OwnsAddress node_id own cs = (cs.primary.node_id ≡ node_id) ↔ (cs.primary.peer_advertise_addr ≡ own)

-- The node as the state of its cluster has it.
abbrev pub IsCurrent : String → State × Manager → Type 0
IsCurrent node_id (s, m) =
    IsConnected m s.cluster.primary
    × (m.node_id ≡ node_id)
    × HasRole (str_eq s.cluster.primary.node_id node_id) s.primary

cluster_applied :
    (s : State) (m : Manager) (p : Push)
    → (apply_cluster_state s m p.cluster p.elector_dial_fails p.primary_dial_fails).0.cluster
      ≡ p.cluster
unfolding apply_cluster_state
cluster_applied s m p = apply_role-cluster s m.node_id p.cluster

module _ (node_id own : String) where
  conn-remote :
      (m : Manager) (old : ClusterState)
      → IsConnected m old.primary
      → m.node_id ≡ node_id
      → OwnsAddress node_id own old
      → m.primary_conn ≢ some own
  conn-remote m old (inl gone) id owns here = cc
  conn-remote m old (inr (conn, other, there, addr)) id owns here =
      let at_own : old.primary.peer_advertise_addr ≡ own = cc in other (owns.1 at_own ∙ sym id)

  apply_cluster_state-IsCurrent :
      (s : State) (m : Manager) (p : Push)
      → IsCurrent node_id (s, m)
      → OwnsAddress node_id own s.cluster
      → OwnsAddress node_id own p.cluster
      → IsCurrent node_id
          (apply_cluster_state s m p.cluster p.elector_dial_fails p.primary_dial_fails)
  unfolding apply_cluster_state
  apply_cluster_state-IsCurrent s m p h before owns =
      let remote = conn-remote m s.cluster h.0 h.1 before in
      let m' = update_connections m s.cluster p.cluster p.elector_dial_fails p.primary_dial_fails in
      let same = notify_role-SamePrimary m' s.cluster p.cluster in
      let connected =
        update_connections-IsConnected m s.cluster p.cluster p.elector_dial_fails
          p.primary_dial_fails h.0 (λ self at. remote (at ∙ ap some (owns.0 (self ∙ h.1)))) in
      let role = apply_role-HasRole s m.node_id p.cluster in
      (
        rw (apply_role-cluster s m.node_id p.cluster)
            (SamePrimary-IsConnected m' _ p.cluster.primary same connected),
        same.id
            ∙ update_connections-id m s.cluster p.cluster p.elector_dial_fails p.primary_dial_fails
            ∙ h.1,
        rw (apply_role-cluster s m.node_id p.cluster, sym h.1) role,
      )

  -- A node takes over any cluster states, one after the other, and any dial may fail. If it starts
  -- without a wrong connection or role, and in each of the states, the first included, the Primary has
  -- this node's address exactly if it is this node, then in the end it has no connection for its
  -- Primary calls or the one to the address of the last state's Primary, which is another node and
  -- named; and it is no Replica if it is the Primary of the last state, and not Starting if it is not.
  pub apply_all-IsCurrent :
      (s : State) (m : Manager) (ps : List Push)
      → IsCurrent node_id (s, m)
      → OwnsAddress node_id own s.cluster
      → All (λ p. OwnsAddress node_id own p.cluster) ps
      → IsCurrent node_id (apply_all (s, m) ps)
  unfolding apply_all
  apply_all-IsCurrent s m [] h before owns = h
  apply_all-IsCurrent s m (p ∷ ps) h before owns =
      let next = apply_cluster_state s m p.cluster p.elector_dial_fails p.primary_dial_fails in
      apply_all-IsCurrent next.0 next.1 ps (apply_cluster_state-IsCurrent s m p h before owns.0)
        (rw (cluster_applied s m p) (owns.0)) owns.1
