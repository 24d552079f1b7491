-- ===== src/Replication/Degradation.antt =====
-- internal/replication/degradation.go: a Replica that stays behind the committed revision for the
-- grace period degrades itself. The grace period is not measured: a check may fire at any time.
use netsy.Base.{
  ℕ, ◌+◌, ◌%◌, ◌^◌, Bool, true, false, Option, none, some, List, [], ◌∷◌, ltb, leb, ◌==◌,
  if◌then◌else◌, not, select,
}
use netsy.NodeState.{degraded, health_eq, set_health}
use netsy.LocalDb.{latest_revision}
use netsy.Replication.{Follower, LagCheck}

unfoldable pub degrade_self : Follower → Follower
unfolding set_health
degrade_self f =
    if health_eq f.state.health degraded
    then f
    else record f { state = (set_health f.state degraded).0 }

-- The context of the check is cancelled.
unfoldable pub cancel_check : ℕ → List LagCheck → List LagCheck
cancel_check seq [] = []
cancel_check seq (c ∷ cs) =
    (if c.check_seq == seq then record c { live = false } else c) ∷ cancel_check seq cs

abbrev pub cancel_armed : Option ℕ → List LagCheck → List LagCheck
cancel_armed none checks = checks
cancel_armed (some seq) checks = cancel_check seq checks

unfoldable pub cancel_committed_revision_lag_check : Follower → Follower
unfolding cancel_check
cancel_committed_revision_lag_check f = record f {
  lag_checks = cancel_armed f.lag_check_cancel f.lag_checks;
  lag_check_cancel = none;
}

-- `lagCheckSeq` is a uint64.
abbrev pub arm_lag_check : Follower → ℕ → Follower
arm_lag_check f committed =
    let seq = (f.lag_check_seq + 1) % 2 ^ 64 in
    record f {
      lag_check_seq = seq;
      lag_check_cancel = some seq;
      lag_checks =
          record { target_revision = committed; check_seq = seq; live = true }
          ∷ cancel_armed f.lag_check_cancel f.lag_checks;
    }

-- `read_fails`: the query for the latest revision fails.
unfoldable pub schedule_committed_revision_lag_check :
    Follower → (committed : ℕ) → (read_fails : Bool) → Follower
unfolding cancel_committed_revision_lag_check cancel_check
schedule_committed_revision_lag_check f committed read_fails =
    if committed == 0
    then cancel_committed_revision_lag_check f
    else if read_fails
    then f
    else if leb committed (latest_revision f.db.records)
    then cancel_committed_revision_lag_check f
    else arm_lag_check f committed

unfoldable pub clear_committed_revision_lag_check : Follower → (seq : ℕ) → Follower
clear_committed_revision_lag_check f seq =
    if seq == f.lag_check_seq then record f { lag_check_cancel = none } else f

-- The goroutine of a check has returned.
abbrev pub without_check : ℕ → List LagCheck → List LagCheck
without_check seq = select (λ (c : LagCheck). not (c.check_seq == seq))

-- What the goroutine of a check does once its timer has fired; a cancelled one only returns.
unfoldable pub fire_lag_check : Follower → LagCheck → (read_fails : Bool) → Follower
unfolding degrade_self clear_committed_revision_lag_check
fire_lag_check f c read_fails =
    let g = record f { lag_checks = without_check c.check_seq f.lag_checks } in
    if not c.live
    then g
    else clear_committed_revision_lag_check
        (if read_fails
          then g
          else if ltb (latest_revision g.db.records) c.target_revision
          then degrade_self g
          else g)
        c.check_seq
