-- ===== src/NodeState/Runs.antt =====
-- What holds of a node's state over every sequence of the calls of internal/nodestate.
use mathlib.Core.List.{Memᴰ}
use netsy.Base.{ℕ, ◌≡◌, refl, sym, ◌∙◌, ◌≢◌, ◌⊎◌, inl, inr, List, [], ◌∷◌, arith}
use netsy.NodeState.{
  HealthState, ElectorState, PrimaryState, replica, active, draining, starting, NodeInfo,
  ClusterState, State, set_health, set_elector, set_primary, set_committed, set_compaction,
  set_member_id, set_cluster_state, set_cluster_elector, set_cluster_primary,
}

-- The exported calls that change a `State`.
pub data Call : Type 0 where
  sets_health : HealthState → Call
  sets_elector : ElectorState → Call
  sets_primary : PrimaryState → Call
  sets_committed sets_compaction sets_member_id : ℕ → Call
  sets_cluster : ClusterState → Call
  sets_cluster_elector sets_cluster_primary : NodeInfo → Call

-- A call that returns an error has changed nothing, and its caller goes on.
unfoldable pub step : State → Call → State
step s (sets_health to) = (set_health s to).0
step s (sets_elector to) = (set_elector s to).0
step s (sets_primary to) = (set_primary s to).0
step s (sets_committed rev) = set_committed s rev
step s (sets_compaction rev) = set_compaction s rev
step s (sets_member_id member_id) = (set_member_id s member_id).0
step s (sets_cluster cs) = set_cluster_state s cs
step s (sets_cluster_elector elector) = set_cluster_elector s elector
step s (sets_cluster_primary primary) = set_cluster_primary s primary

unfoldable pub run : State → List Call → State
run s [] = s
run s (c ∷ cs) = run (step s c) cs

-- The diagram of the primary state, seen from `active`.
step-active :
    (s : State) (c : Call)
    → s.primary ≡ active
    → (c ≡ sets_primary draining) ⊎ ((step s c).primary ≡ active)
unfolding step set_primary set_health set_elector set_member_id
step-active s (sets_primary to) h = ground arith
step-active s (sets_health to) h = ground arith
step-active s (sets_elector to) h = ground arith
step-active s (sets_member_id m) h = ground arith
step-active s _ h = inr h

-- A node that is the active Primary stays it through any calls, unless one of them is
-- `SetPrimary(draining)`: leadership is never given up without draining.
pub run-active :
    (s : State) (cs : List Call)
    → s.primary ≡ active
    → (run s cs).primary ≢ active
    → Memᴰ (sets_primary draining) cs
unfolding run
run-active s [] h moved = absurd (moved h)
run-active s (c ∷ cs) h moved = elim (step-active s c h) [
  | inl drains ↦ Memᴰ.head (sym drains)
  | inr still ↦ Memᴰ.tail (run-active (step s c) cs still moved)
]

step-replica :
    (s : State) (c : Call)
    → s.primary ≡ replica
    → (c ≡ sets_primary starting) ⊎ ((step s c).primary ≡ replica)
unfolding step set_primary set_health set_elector set_member_id
step-replica s (sets_primary to) h = ground arith
step-replica s (sets_health to) h = ground arith
step-replica s (sets_elector to) h = ground arith
step-replica s (sets_member_id m) h = ground arith
step-replica s _ h = inr h

-- A node that starts a run as a replica and does not end it as one was told to start as Primary.
pub run-replica :
    (s : State) (cs : List Call)
    → s.primary ≡ replica
    → (run s cs).primary ≢ replica
    → Memᴰ (sets_primary starting) cs
unfolding run
run-replica s [] h moved = absurd (moved h)
run-replica s (c ∷ cs) h moved = elim (step-replica s c h) [
  | inl starts ↦ Memᴰ.head (sym starts)
  | inr still ↦ Memᴰ.tail (run-replica (step s c) cs still moved)
]

step-member_id : (s : State) (c : Call) → s.member_id ≢ 0 → (step s c).member_id ≡ s.member_id
unfolding step set_primary set_health set_elector set_member_id
step-member_id s (sets_primary to) h = ground arith
step-member_id s (sets_health to) h = ground arith
step-member_id s (sets_elector to) h = ground arith
step-member_id s (sets_member_id m) h = ground arith
step-member_id s _ h = refl

-- Once a node knows its member ID, no calls change it.
pub run-member_id :
    (s : State) (cs : List Call) → s.member_id ≢ 0 → (run s cs).member_id ≡ s.member_id
unfolding run
run-member_id s [] h = refl
run-member_id s (c ∷ cs) h =
    let kept = step-member_id s c h in run-member_id (step s c) cs (λ e. h (sym kept ∙ e)) ∙ kept
