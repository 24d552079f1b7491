-- ===== src/Replication/Answers.antt =====
-- The answers of a follower along one message.
use netsy.Base.{
  ℕ, ◌+◌, ◌≡◌, ◌∙◌, Option, none, some, List, [], ◌∷◌, inl, inr, ◌==◌, ◌&&◌, Bool-cases,
  if◌then◌else◌,
}
use netsy.NodeState.{healthy, health_eq, set_committed, set_compaction}
use netsy.LocalDb.{Db, Result, ok, err}
use netsy.Watch.Manager.{Manager}
use netsy.Primary.LeaderTxn.{record_message, commit_message, compact_message}
use netsy.Replication.{Follower, PrimaryMessage, initial, broadcast, FollowError}
use netsy.Replication.Stream.{
  Outside, Handled, going, failed, panicked, handle, handle_initial, handle_record, handle_commit,
  handle_compact, seed_compaction, initialised, with_manager, check_lag, Persisted, stored, lost,
  persist, after_persist, send_receipt,
}
use netsy.Replication.StreamLaws.{OnLeft, degrade_self-Rest, schedule-Rest}

-- The answers on a channel.
unfoldable pub count_answers : ℕ → List (ℕ × Option FollowError) → ℕ
count_answers ch [] = 0
count_answers ch ((c, e) ∷ rest) = (if c == ch then 1 else 0) + count_answers ch rest

module _ (a : List (ℕ × Option FollowError)) where
  abbrev Same : Follower → Type 0
  Same g = g.answers ≡ a

  with_manager-Same : (f : Follower) (m : Option Manager) → Same f → OnLeft Same (with_manager f m)
  with_manager-Same f none h = tt
  with_manager-Same f (some m) h = h

  initialised-Same :
      (f : Follower) (committed compaction : ℕ) (db : Result Db)
      → Same f
      → OnLeft Same (initialised f committed compaction db)
  initialised-Same f committed compaction (err e) h = h
  initialised-Same f committed compaction (ok after) h =
      with_manager-Same
        (record f {
          db = after;
          state = set_compaction (set_committed f.state committed) compaction;
        })
        _ h

  check_lag-Same :
      (committed : ℕ) (o : Outside) (out : Handled)
      → OnLeft Same out
      → OnLeft Same (check_lag committed o out)
  check_lag-Same committed o (failed f e) h = h
  check_lag-Same committed o panicked h = h
  check_lag-Same committed o (going f) h = elim (Bool-cases (health_eq f.state.health healthy)) [
    | inr e ↦ simp e h
    | inl e ↦ simp e ((schedule-Rest f committed o.read_latest_fails).answers ∙ h)
  ]

  after_persist-Same :
      (f : Follower) (rev : ℕ) (o : Outside) (out : Persisted)
      → Same f
      → OnLeft Same (after_persist f rev o out)
  unfolding send_receipt
  after_persist-Same f rev o (lost e left) h = h
  after_persist-Same f rev o (stored row after) h =
      elim (Bool-cases (o.first_send_fails && o.second_send_fails)) [
        | inl e ↦ simp e ((degrade_self-Rest _).answers ∙ h)
        | inr e ↦ simp e h
      ]

  pub handle-Same :
      (f : Follower) (msg : PrimaryMessage) (o : Outside) → Same f → OnLeft Same (handle f msg o)
  unfolding handle handle_initial handle_record handle_commit handle_compact
  handle-Same f (initial committed compaction) o h =
      initialised-Same f committed compaction (seed_compaction f.db compaction o) h
  handle-Same f (broadcast (record_message r)) o h =
      after_persist-Same f r.revision o (persist f.db r f.state.committed o) h
  handle-Same f (broadcast (commit_message committed)) o h =
      check_lag-Same committed o _
        (with_manager-Same (record f { state = set_committed f.state committed }) _ h)
  handle-Same f (broadcast (compact_message rev)) o h =
      elim (Bool-cases o.persist_compaction_fails) [ inl e ↦ simp e h | inr e ↦ simp e h ]
