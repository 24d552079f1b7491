-- ===== src/Bootstrap/Register.antt =====
-- The registration of a node in `Run` of internal/bootstrap/loader.go: with the Elector, or with
-- itself if it is the Elector. Waiting is one call of a list of attempts.
use netsy.Base.{
  ℕ, zero, suc, ◌+◌, ◌*◌, Bool, Option, none, some, List, [], ◌∷◌, leb, ltb, if◌then◌else◌, is_some,
}
use netsy.NodeState.{State, StateError, set_member_id}
use netsy.NodeState.Wire.{ProtoClusterState, cluster_state_from_proto}
use netsy.PeerClient.{Manager, apply_cluster_state}
use netsy.Bootstrap.{
  BootError, register_failed, elector_not_connected, canceled, cluster_state_failed, state_failed,
}

-- proto.RegisterNodeResponse
pub record Registration : Type 0 where
  pub member_id : ℕ
  pub cluster_state : Option ProtoClusterState

-- What an attempt meets: the client, its answer, and whether the context ends during the wait.
pub record Attempt : Type 0 where
  pub connected : Bool
  pub answer : Option Registration
  pub cancelled : Bool

pub data Registered : Type 0 where
  registered : Registration → (waits : List ℕ) → Registered
  refused : BootError → (waits : List ℕ) → Registered

abbrev pub max_registration_attempts : ℕ
max_registration_attempts = 3

-- In milliseconds.
abbrev pub first_backoff : ℕ
first_backoff = 500

abbrev pub next_backoff : ℕ → ℕ
next_backoff backoff = if ltb backoff 5000 then backoff * 2 else backoff

-- After a failed attempt: the last one is an error, and before another the loop waits.
abbrev pub after_failure :
    BootError
    → (attempt : ℕ) → (waits : List ℕ) → (cancelled : Bool) → (rest : Option Registered)
    → Option Registered
after_failure e attempt waits cancelled rest =
    if leb max_registration_attempts attempt
    then some (refused e waits)
    else if cancelled
    then some (refused canceled waits)
    else rest

abbrev pub after_answer :
    Option Registration
    → (attempt : ℕ) → (waits : List ℕ) → (cancelled : Bool) → (rest : Option Registered)
    → Option Registered
after_answer (some r) attempt waits cancelled rest = some (registered r waits)
after_answer none attempt waits cancelled rest =
    after_failure register_failed attempt waits cancelled rest

abbrev pub register_turn :
    Attempt → (attempt : ℕ) → (waits : List ℕ) → (rest : Option Registered) → Option Registered
register_turn m attempt waits rest =
    if m.connected
    then after_answer m.answer attempt waits m.cancelled rest
    else after_failure elector_not_connected attempt waits m.cancelled rest

-- The loop of the attempts, which has no bound of its own: `fuel` is the number of its turns, and
-- without fuel there is no result. `waits` are the waits so far, the last first.
unfoldable pub register_loop :
    (fuel attempt backoff : ℕ) → (waits : List ℕ) → (meets : ℕ → Attempt) → Option Registered
register_loop zero attempt backoff waits meets = none
register_loop (suc fuel) attempt backoff waits meets =
    let rest = register_loop fuel (attempt + 1) (next_backoff backoff) (backoff ∷ waits) meets in
    register_turn (meets attempt) attempt waits rest

abbrev pub register_with_elector : (fuel : ℕ) → (meets : ℕ → Attempt) → Option Registered
register_with_elector fuel meets = register_loop fuel 1 first_backoff [] meets

-- The Elector's own node asks itself once.
abbrev pub register_self : Option Registration → Registered
register_self (some r) = registered r []
register_self none = refused register_failed []

-- The cluster's state: that of the answer if it names an Elector, and else that of one more call.
-- `asked` is its answer, if there is a client to ask and it does not fail.
abbrev pub cluster_state_of :
    Option ProtoClusterState → (asked : Option ProtoClusterState) → Option ProtoClusterState
cluster_state_of none asked = asked
cluster_state_of (some cs) asked = if is_some cs.elector then some cs else asked

-- The node with what it learnt, or an error and its state.
pub data Joined : Type 0 where
  joined : State → Manager → Joined
  not_joined : State → BootError → Joined

abbrev pub apply_answer :
    State
    → Manager
    → (elector_dial_fails primary_dial_fails : Bool) → Option ProtoClusterState
    → Joined
apply_answer s m elector_fails primary_fails none = not_joined s cluster_state_failed
apply_answer s m elector_fails primary_fails (some cs) =
    let (s', m') =
      apply_cluster_state s m (cluster_state_from_proto cs) elector_fails primary_fails in
    joined s' m'

abbrev pub after_member_id :
    Manager
    → (elector_dial_fails primary_dial_fails : Bool) → Option ProtoClusterState
    → State × Option StateError
    → Joined
after_member_id m elector_fails primary_fails cs (s, some e) = not_joined s (state_failed e)
after_member_id m elector_fails primary_fails cs (s, none) =
    apply_answer s m elector_fails primary_fails cs

unfoldable pub join :
    State
    → Manager
    → (asked : Option ProtoClusterState) → (elector_dial_fails primary_dial_fails : Bool)
    → Registered
    → Joined
unfolding set_member_id apply_cluster_state cluster_state_from_proto
join s m asked elector_fails primary_fails (refused e waits) = not_joined s e
join s m asked elector_fails primary_fails (registered r waits) =
    after_member_id m elector_fails primary_fails (cluster_state_of r.cluster_state asked)
      (set_member_id s r.member_id)
