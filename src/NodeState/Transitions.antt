-- ===== src/NodeState/Transitions.antt =====
-- The transition tables of internal/nodestate against the diagrams that their comments draw.
use netsy.Base.{◌≡◌, refl, ◌⊎◌, inl, inr, true, none, some, arith, Bool-cases}
use netsy.NodeState.{
  HealthState, loading, healthy, degraded, ElectorState, follower, leader, PrimaryState, replica,
  starting, active, draining, State, invalid_health_transition, invalid_elector_transition,
  invalid_primary_transition, set_health, set_elector, set_primary, valid_health_transition,
  valid_elector_transition, valid_primary_transition,
}

pub data HealthEdge : HealthState → HealthState → Type 0 where
  loaded : HealthEdge loading healthy
  load_failed : HealthEdge loading degraded
  degrade : HealthEdge healthy degraded
  reload : HealthEdge degraded loading
  recover : HealthEdge degraded healthy

pub data ElectorEdge : ElectorState → ElectorState → Type 0 where
  win : ElectorEdge follower leader
  lose : ElectorEdge leader follower

pub data PrimaryEdge : PrimaryState → PrimaryState → Type 0 where
  elected : PrimaryEdge replica starting
  preflight_done : PrimaryEdge starting active
  superseded : PrimaryEdge starting replica
  stopped_early : PrimaryEdge starting draining
  drain : PrimaryEdge active draining
  drained : PrimaryEdge draining replica

ruleset health_edges = (loaded, load_failed, degrade, reload, recover)

ruleset primary_edges = (elected, preflight_done, superseded, stopped_early, drain, drained)

valid_health_sound :
    (from to : HealthState) → valid_health_transition from to ≡ true → HealthEdge from to
unfolding valid_health_transition
valid_health_sound from to h = grind (arith, health_edges)

valid_health_complete :
    {from to : HealthState} → HealthEdge from to → valid_health_transition from to ≡ true
unfolding valid_health_transition
valid_health_complete loaded = refl
valid_health_complete load_failed = refl
valid_health_complete degrade = refl
valid_health_complete reload = refl
valid_health_complete recover = refl

valid_elector_sound :
    (from to : ElectorState) → valid_elector_transition from to ≡ true → ElectorEdge from to
unfolding valid_elector_transition
valid_elector_sound from to h = grind (arith, win, lose)

valid_elector_complete :
    {from to : ElectorState} → ElectorEdge from to → valid_elector_transition from to ≡ true
unfolding valid_elector_transition
valid_elector_complete win = refl
valid_elector_complete lose = refl

valid_primary_sound :
    (from to : PrimaryState) → valid_primary_transition from to ≡ true → PrimaryEdge from to
unfolding valid_primary_transition
valid_primary_sound from to h = grind (arith, primary_edges)

valid_primary_complete :
    {from to : PrimaryState} → PrimaryEdge from to → valid_primary_transition from to ≡ true
unfolding valid_primary_transition
valid_primary_complete elected = refl
valid_primary_complete preflight_done = refl
valid_primary_complete superseded = refl
valid_primary_complete stopped_early = refl
valid_primary_complete drain = refl
valid_primary_complete drained = refl

-- Either the diagram has an edge to the new state, and `SetPrimary` returns no error and sets the
-- primary state and nothing else; or it has none, and the call reports both states and leaves the
-- node as it was.
pub set_primary_lem :
    (s : State) (to : PrimaryState)
    → (PrimaryEdge s.primary to × (set_primary s to ≡ (record s { primary = to }, none)))
      ⊎ ((¬ PrimaryEdge s.primary to)
          × (set_primary s to ≡ (s, some (invalid_primary_transition s.primary to))))
set_primary_lem s to = elim (Bool-cases (valid_primary_transition s.primary to)) [
  | inl e ↦ inl (valid_primary_sound s.primary to e, unfold set_primary in ground arith)
  | inr e ↦
      inr (λ edge. ground (arith, valid_primary_complete edge), unfold set_primary in ground arith)
]

-- Either the diagram has an edge to the new state, and `SetHealth` returns no error and sets the
-- health state and nothing else; or it has none, and the call reports both states and leaves the
-- node as it was.
pub set_health_lem :
    (s : State) (to : HealthState)
    → (HealthEdge s.health to × (set_health s to ≡ (record s { health = to }, none)))
      ⊎ ((¬ HealthEdge s.health to)
          × (set_health s to ≡ (s, some (invalid_health_transition s.health to))))
set_health_lem s to = elim (Bool-cases (valid_health_transition s.health to)) [
  | inl e ↦ inl (valid_health_sound s.health to e, unfold set_health in ground arith)
  | inr e ↦
      inr (λ edge. ground (arith, valid_health_complete edge), unfold set_health in ground arith)
]

-- Either the diagram has an edge to the new state, and `SetElector` returns no error and sets the
-- elector state and nothing else; or it has none, and the call reports both states and leaves the
-- node as it was.
pub set_elector_lem :
    (s : State) (to : ElectorState)
    → (ElectorEdge s.elector to × (set_elector s to ≡ (record s { elector = to }, none)))
      ⊎ ((¬ ElectorEdge s.elector to)
          × (set_elector s to ≡ (s, some (invalid_elector_transition s.elector to))))
set_elector_lem s to = elim (Bool-cases (valid_elector_transition s.elector to)) [
  | inl e ↦ inl (valid_elector_sound s.elector to e, unfold set_elector in ground arith)
  | inr e ↦
      inr (λ edge. ground (arith, valid_elector_complete edge), unfold set_elector in ground arith)
]
