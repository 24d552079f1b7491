-- ===== src/Replication/Stream.antt =====
-- The handlers of the messages on a Follow stream, and `processStream`, of
-- internal/replication/follower.go.
use netsy.Base.{ℕ, Bool, true, false, not, Option, none, some, ◌∷◌, ◌&&◌, leb, ◌==◌, if◌then◌else◌}
use netsy.NodeState.{healthy, health_eq, set_committed, set_compaction}
use netsy.LocalDb.{Record, Db, DbError, Result, ok, err, sql_failed, replicate_conflict}
use netsy.LocalDb.Compact.{
  execute_compaction, latest_compaction_revision, persist_compaction_revision,
}
use netsy.LocalDb.Replicate.{replicate_record, delete_revision, replicate_tentative_record}
use netsy.Watch.Manager.{Manager, enqueue_watch_revision, advance_committed_revision}
use netsy.Primary.LeaderTxn.{record_message, commit_message, compact_message}
use netsy.Replication.{
  Follower, PrimaryMessage, initial, broadcast, FollowError, send_failed, db_failed,
}
use netsy.Replication.Degradation.{degrade_self, schedule_committed_revision_lag_check}

-- What happens outside while a message is handled. The flags say which calls fail; the two sends
-- are those of a receipt.
pub record Outside : Type 0 where
  pub now : ℕ
  pub read_compaction_fails : Bool
  pub persist_compaction_fails : Bool
  pub insert_fails : Bool
  pub delete_fails : Bool
  pub overwrite_fails : Bool
  pub read_latest_fails : Bool
  pub first_send_fails : Bool
  pub second_send_fails : Bool

-- The follower after a message: the stream goes on, or it ends with an error, or a panic ends the
-- process.
pub data Handled : Type 0 where
  going : Follower → Handled
  failed : Follower → FollowError → Handled
  panicked : Handled

-- The persistence of the compaction revision in `handleInitial`.
unfoldable pub seed_compaction : Db → (compaction : ℕ) → Outside → Result Db
unfolding persist_compaction_revision
seed_compaction db compaction o =
    if compaction == 0
    then ok db
    else if o.read_compaction_fails
    then err sql_failed
    else if not (latest_compaction_revision db == 0)
    then ok db
    else if o.persist_compaction_fails
    then err sql_failed
    else ok (persist_compaction_revision db compaction o.now)

abbrev pub with_manager : Follower → Option Manager → Handled
with_manager f none = panicked
with_manager f (some m) = going (record f { watch_manager = m })

abbrev pub advance : Follower → (committed : ℕ) → Handled
advance f committed = with_manager f (advance_committed_revision f.watch_manager f.db committed)

abbrev pub initialised : Follower → (committed compaction : ℕ) → Result Db → Handled
initialised f committed compaction (err e) = failed f (db_failed e)
initialised f committed compaction (ok db) =
    advance
      (record f { db = db; state = set_compaction (set_committed f.state committed) compaction })
      committed

unfoldable pub handle_initial : Follower → (committed compaction : ℕ) → Outside → Handled
unfolding seed_compaction advance_committed_revision
handle_initial f committed compaction o =
    initialised f committed compaction (seed_compaction f.db compaction o)

-- errors.Is(err, ErrReplicateConflict)
abbrev pub is_conflict {ℓ} : {A : Type ℓ} → Result A → Bool
is_conflict (err replicate_conflict) = true
is_conflict _ = false

-- Whether `ReplicateTentativeRecord` goes on to delete the row of the revision.
unfoldable pub overwrites : Db → Record → (committed now : ℕ) → Bool
unfolding replicate_record
overwrites db r committed now =
    not (leb r.revision committed) && is_conflict (replicate_record db r now)

abbrev pub without_row : Db → ℕ → Db
without_row db rev = record db { records = delete_revision rev db.records }

-- `ReplicateTentativeRecord` is no transaction: an error after the deletion leaves the row deleted.
-- The error comes with the database that it leaves.
pub data Persisted : Type 0 where
  stored : Record → Db → Persisted
  lost : DbError → Db → Persisted

abbrev pub persisted : (left : Db) → Result (Record × Db) → Persisted
persisted left (ok (row, after)) = stored row after
persisted left (err e) = lost e left

unfoldable pub persist : Db → Record → (committed : ℕ) → Outside → Persisted
unfolding overwrites delete_revision replicate_tentative_record
persist db r committed o =
    if o.insert_fails
    then lost sql_failed db
    else if overwrites db r committed o.now
    then if o.delete_fails
      then lost sql_failed db
      else if o.overwrite_fails
      then lost sql_failed (without_row db r.revision)
      else persisted (without_row db r.revision) (replicate_tentative_record db r committed o.now)
    else persisted db (replicate_tentative_record db r committed o.now)

-- A receipt is sent twice at most; after that the Replica degrades itself.
unfoldable pub send_receipt : Follower → (revision : ℕ) → Outside → Handled
unfolding degrade_self
send_receipt f revision o =
    if o.first_send_fails && o.second_send_fails
    then failed (degrade_self f) send_failed
    else going (record f { receipts = revision ∷ f.receipts })

abbrev pub after_persist : Follower → (revision : ℕ) → Outside → Persisted → Handled
after_persist f revision o (lost e left) = failed (record f { db = left }) (db_failed e)
after_persist f revision o (stored row after) =
    send_receipt
      (record f { db = after; watch_manager = enqueue_watch_revision f.watch_manager revision })
      revision o

unfoldable pub handle_record : Follower → Record → Outside → Handled
unfolding persist enqueue_watch_revision send_receipt
handle_record f r o = after_persist f r.revision o (persist f.db r f.state.committed o)

-- The lag check of a Healthy node.
abbrev pub check_lag : (committed : ℕ) → Outside → Handled → Handled
check_lag committed o (going f) =
    if health_eq f.state.health healthy
    then going (schedule_committed_revision_lag_check f committed o.read_latest_fails)
    else going f
check_lag committed o (failed f e) = failed f e
check_lag committed o panicked = panicked

unfoldable pub handle_commit : Follower → (committed : ℕ) → Outside → Handled
unfolding schedule_committed_revision_lag_check advance_committed_revision
handle_commit f committed o =
    check_lag committed o (advance (record f { state = set_committed f.state committed }) committed)

-- The goroutine that `handleCompact` starts, if its compaction does not fail.
abbrev pub compact_rows : Follower → (compaction now : ℕ) → Follower
compact_rows f compaction now = record f { db = (execute_compaction f.db compaction now).0 }

-- The compaction itself is left to a goroutine, which may run at any time.
unfoldable pub handle_compact : Follower → (compaction : ℕ) → Outside → Handled
unfolding persist_compaction_revision
handle_compact f compaction o =
    if o.persist_compaction_fails
    then failed f (db_failed sql_failed)
    else going (record f {
      db = persist_compaction_revision f.db compaction o.now;
      state = set_compaction f.state compaction;
      compactions = compaction ∷ f.compactions;
    })

unfoldable pub handle : Follower → PrimaryMessage → Outside → Handled
unfolding handle_initial handle_record handle_commit handle_compact
handle f (initial committed compaction) o = handle_initial f committed compaction o
handle f (broadcast (record_message r)) o = handle_record f r o
handle f (broadcast (commit_message committed)) o = handle_commit f committed o
handle f (broadcast (compact_message compaction)) o = handle_compact f compaction o
