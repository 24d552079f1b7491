-- ===== src/Elector/Election.antt =====
-- internal/elector/primary_election.go: one round of an election. The answers of the nodes are
-- arguments: a candidate, or none if the node could not be contacted.
use netsy.Base.{
  ℕ, zero, suc, ◌+◌, ◌/◌, Bool, true, false, not, Option, none, some, List, [], ◌∷◌, ◌&&◌, ◌||◌,
  ltb, ◌==◌, if◌then◌else◌, length, ℤ, pos, negsuc,
}
use netsy.NodeState.{
  NodeInfo, HealthState, healthy, degraded, PrimaryState, replica, starting, active, draining,
  health_eq, primary_eq,
}

pub record Candidate : Type 0 where
  pub info : NodeInfo
  pub health_state : HealthState
  pub primary_state : PrimaryState
  pub latest_revision : ℕ
  pub start_time : ℕ

pub data ElectionError : Type 0 where
  previous_primary_busy no_registered_nodes too_few_contacted : ElectionError
  non_replica no_healthy_candidates : ElectionError

pub data Election {ℓ} (A : Type ℓ) : Type ℓ where
  ok : A → Election A
  err : ElectionError → Election A

-- An entry of the node map, with its heartbeat data and what the node answers if it is contacted;
-- the local node always answers.
pub record Entry : Type 0 where
  pub from_map : Candidate
  pub contact : Option Candidate

-- The polls of `checkPreviousPrimary` until its deadline: no answer, or the state of the node.
unfoldable pub poll_previous : List (Option PrimaryState) → Option ElectionError
poll_previous [] = none
poll_previous (none ∷ rest) = poll_previous rest
poll_previous (some replica ∷ rest) = none
poll_previous (some active ∷ rest) = some previous_primary_busy
poll_previous (some draining ∷ rest) = poll_previous rest
poll_previous (some starting ∷ rest) = poll_previous rest

-- `checkLocalPreviousPrimary`
abbrev pub check_local_previous : PrimaryState → Option ElectionError
check_local_previous replica = none
check_local_previous _ = some previous_primary_busy

-- The previous Primary: not known, the local node in its state, or another one that is polled.
pub data Previous : Type 0 where
  none_known : Previous
  local_previous : PrimaryState → Previous
  remote_previous : List (Option PrimaryState) → Previous

unfoldable pub check_previous_primary : Previous → Option ElectionError
unfolding poll_previous
check_previous_primary none_known = none
check_previous_primary (local_previous p) = check_local_previous p
check_previous_primary (remote_previous polls) = poll_previous polls

unfoldable pub candidates_from_node_map : List Entry → List Candidate
candidates_from_node_map [] = []
candidates_from_node_map (e ∷ es) = e.from_map ∷ candidates_from_node_map es

unfoldable pub contacted : List Entry → List Candidate
contacted [] = []
contacted (e ∷ es) = let rest = contacted es in elim e.contact [ none ↦ rest | some c ↦ c ∷ rest ]

-- The contactability rules: a quorum below -1 has none.
unfoldable pub enough_contacted : ℤ → (answers total : ℕ) → Bool
enough_contacted (pos n) answers total = not (ltb answers total)
enough_contacted (negsuc zero) answers total = not (ltb answers (total / 2 + 1))
enough_contacted (negsuc (suc n)) answers total = true

abbrev pub is_disabled : ℤ → Bool
is_disabled (pos n) = n == 0
is_disabled (negsuc n) = false

unfoldable pub collect_node_states : ℤ → List Entry → Election (List Candidate)
unfolding candidates_from_node_map contacted enough_contacted
collect_node_states quorum entries =
    if length entries == 0
    then err no_registered_nodes
    else if is_disabled quorum
    then ok (candidates_from_node_map entries)
    else if enough_contacted quorum (length (contacted entries)) (length entries)
    then ok (contacted entries)
    else err too_few_contacted

unfoldable pub filter_candidates : (Candidate → Bool) → List Candidate → List Candidate
filter_candidates p [] = []
filter_candidates p (c ∷ cs) = let rest = filter_candidates p cs in if p c then c ∷ rest else rest

abbrev pub is_active : Candidate → Bool
is_active c = primary_eq c.primary_state active

abbrev pub is_healthy : Candidate → Bool
is_healthy c = health_eq c.health_state healthy

abbrev pub only : List Candidate → Option Candidate
only (c ∷ []) = some c
only _ = none

unfoldable pub find_active_primary : List Candidate → Option Candidate
unfolding filter_candidates
find_active_primary cs = only (filter_candidates is_active cs)

-- Whether a node that is not degraded is no Replica.
abbrev pub blocks : Candidate → Bool
blocks c = not (health_eq c.health_state degraded) && not (primary_eq c.primary_state replica)

unfoldable pub check_non_replica_states : List Candidate → Bool
check_non_replica_states [] = false
check_non_replica_states (c ∷ cs) = blocks c || check_non_replica_states cs

-- The order of the sort: the greater revision first, then the later start.
abbrev pub goes_before : Candidate → Candidate → Bool
goes_before a b =
    if a.latest_revision == b.latest_revision
    then ltb b.start_time a.start_time
    else ltb b.latest_revision a.latest_revision

-- The head of the sorted list.
abbrev pub better : Candidate → Option Candidate → Candidate
better c none = c
better c (some d) = if goes_before d c then d else c

unfoldable pub winner : List Candidate → Option Candidate
winner [] = none
winner (c ∷ cs) = let rest = winner cs in some (better c rest)

abbrev pub win : Option Candidate → Election Candidate
win none = err no_healthy_candidates
win (some c) = ok c

unfoldable pub choose_primary : List Candidate → Election Candidate
unfolding find_active_primary check_non_replica_states filter_candidates winner
choose_primary cs = elim (find_active_primary cs) [
  | some c ↦ ok c
  | none ↦
      if check_non_replica_states cs
      then err non_replica
      else win (winner (filter_candidates is_healthy cs))
]

abbrev pub choose : Election (List Candidate) → Election Candidate
choose (err e) = err e
choose (ok cs) = choose_primary cs

-- The elected node is the `info` of the candidate.
unfoldable pub elect_primary_once : Previous → ℤ → List Entry → Election Candidate
unfolding check_previous_primary collect_node_states choose_primary
elect_primary_once previous quorum entries = elim (check_previous_primary previous) [
  | some e ↦ err e
  | none ↦ choose (collect_node_states quorum entries)
]
