-- ===== src/Primary/Compaction.antt =====
-- internal/primary/compaction.go: the cycle that raises the compaction revision of the cluster, and
-- the handlers of internal/node/server.go that answer it. What a call over the network meets is an
-- argument.
use netsy.Base.{
  ℕ, ◌-◌, String, Bool, true, false, not, Option, none, some, List, [], ◌∷◌, ◌||◌, leb,
  if◌then◌else◌, str_eq,
}
use netsy.NodeState.{active, primary_eq, set_compaction}
use netsy.LocalDb.Compact.{persist_compaction_revision}
use netsy.Watch.Manager.{Manager, min_watch_revision, lower, set_watch_admission_floor}
use netsy.Primary.LeaderTxn.{Server, compact_message, run_compaction}

-- `GetMinWatchRevision` of a node.
abbrev pub get_min_watch_revision : Manager → (committed : ℕ) → ℕ
get_min_watch_revision m committed = elim (min_watch_revision m) [ none ↦ committed | some n ↦ n ]

-- A call arrives and is answered, or the request is lost, or its answer is.
pub data Delivery : Type 0 where
  delivered lost_request lost_reply : Delivery

-- A registered node: its address, its answer to the query for its minimum (`none` is an error), its
-- watches when the notice comes, and what the two notices and the rollback meet.
pub record Registration : Type 0 where
  pub address : String
  pub min_answer : Option ℕ
  pub watches : Manager
  pub first : Delivery
  pub second : Delivery
  pub rollback : Delivery

-- The loop of queries: `none` ends the cycle.
unfoldable pub global_min : List Registration → Option ℕ → Option (Option ℕ)
global_min [] min = some min
global_min (g ∷ gs) min =
    if str_eq g.address ""
    then none
    else elim g.min_answer [ none ↦ none | some n ↦ global_min gs (lower n min) ]

-- `SendCompactionNotice`: what becomes of the node's watches, and whether the caller reads a yes.
unfoldable pub send_compaction_notice : Manager → (revision : ℕ) → Delivery → Manager × Bool
unfolding set_watch_admission_floor
send_compaction_notice m revision delivered = set_watch_admission_floor m revision
send_compaction_notice m revision lost_request = (m, false)
send_compaction_notice m revision lost_reply = ((set_watch_admission_floor m revision).0, false)

unfoldable pub notify_twice : Registration → (revision : ℕ) → Manager × Bool
unfolding send_compaction_notice
notify_twice g revision =
    let one = send_compaction_notice g.watches revision g.first in
    if one.1 then one else send_compaction_notice one.0 revision g.second

abbrev pub watches_of : List Registration → List Manager
watches_of [] = []
watches_of (g ∷ gs) = g.watches ∷ watches_of gs

-- The loop of notices. Nodes do not share state, so each rollback stands with the node's notice.
unfoldable pub notify_all : (previous revision : ℕ) → List Registration → List Manager × Bool
unfolding notify_twice
notify_all previous revision [] = ([], true)
notify_all previous revision (g ∷ gs) =
    let (m, confirmed) = notify_twice g revision in
    let (ms, all_confirmed) = notify_all previous revision gs in
    if not confirmed
    then (m ∷ watches_of gs, false)
    else if all_confirmed
    then (m ∷ ms, true)
    else ((send_compaction_notice m previous g.rollback).0 ∷ ms, false)

-- The end of the protocol, once all nodes have confirmed.
unfoldable pub commit_compaction : Server → (revision now : ℕ) → (persist_fails : Bool) → Server
unfolding persist_compaction_revision
commit_compaction ps revision now persist_fails = if persist_fails then ps else record ps {
  db = persist_compaction_revision ps.db revision now;
  state = set_compaction ps.state revision;
  broadcast = compact_message revision ∷ ps.broadcast;
  tasks = run_compaction revision ∷ ps.tasks;
}

unfoldable pub run_compaction_protocol :
    Server → List Registration → (revision now : ℕ) → (persist_fails : Bool) → Server × List Manager
unfolding notify_all commit_compaction
run_compaction_protocol ps gs revision now persist_fails =
    let (ms, all_confirmed) = notify_all ps.state.compaction revision gs in
    (if all_confirmed then commit_compaction ps revision now persist_fails else ps, ms)

-- The revision that the cycle proposes, if it does.
unfoldable pub proposed_revision : Server → List Registration → Option ℕ
unfolding global_min
proposed_revision ps gs = elim (global_min gs none) [
  | none ↦ none
  | some min ↦ elim min [
    | none ↦ none
    | some n ↦ if leb n 1 || leb (n - 1) ps.state.compaction then none else some (n - 1)
  ]
]

-- `registrations` is `none` if they cannot be listed.
unfoldable pub run_compaction_cycle :
    Server
    → (registrations : Option (List Registration)) → (now : ℕ) (persist_fails : Bool)
    → Server × List Manager
unfolding run_compaction_protocol proposed_revision
run_compaction_cycle ps none now persist_fails = (ps, [])
run_compaction_cycle ps (some gs) now persist_fails =
    if not (primary_eq ps.state.primary active)
    then (ps, watches_of gs)
    else elim (proposed_revision ps gs) [
      | none ↦ (ps, watches_of gs)
      | some revision ↦ run_compaction_protocol ps gs revision now persist_fails
    ]
