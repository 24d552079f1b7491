-- ===== src/Replication/StreamLaws.antt =====
-- What a Follow stream does to the rows of a Replica, and which receipts it sends.
use netsy.Base.{ℕ, ◌≤◌, ◌≡◌, refl, ◌≢◌, Bool, true, some, List, arith, inl, inr, Bool-cases}
use netsy.NodeState.{set_health}
use netsy.LocalDb.{Record, Db, Result, ok, err, find_record_by_rev}
use netsy.LocalDb.Replicate.{records_equal_for_replication, replicate_tentative_record}
use netsy.LocalDb.ReplicateLaws.{
  find-delete_revision, tentative-keeps_committed, tentative-keeps_other, tentative-idempotent,
}
use netsy.Primary.LeaderTxn.{record_message, commit_message, compact_message}
use netsy.Replication.{Follower, PrimaryMessage, initial, broadcast}
use netsy.Replication.Degradation.{
  degrade_self, schedule_committed_revision_lag_check, cancel_committed_revision_lag_check,
}
use netsy.Replication.Stream.{
  Outside, Handled, going, failed, panicked, Persisted, stored, lost, persist, persisted,
  overwrites, without_row,
}

-- No message names a committed revision below `low`.
abbrev pub CommitsFrom : ℕ → PrimaryMessage → Type 0
CommitsFrom low (initial committed compaction) = low ≤ committed
CommitsFrom low (broadcast (commit_message committed)) = low ≤ committed
CommitsFrom low (broadcast (record_message r)) = Unit
CommitsFrom low (broadcast (compact_message rev)) = Unit

-- What holds of the follower after a message, if the stream goes on and if it ends with an error.
abbrev pub OnHandled : (P R : Follower → Type 0) → Handled → Type 0
OnHandled P R (going f) = P f
OnHandled P R (failed f e) = R f
OnHandled P R panicked = Unit

abbrev pub OnLeft : (Follower → Type 0) → Handled → Type 0
OnLeft P = OnHandled P P

-- The parts of a follower that a change of its health or of its lag checks leaves alone.
pub record Rest (f g : Follower) : Type 0 where
  pub db : g.db ≡ f.db
  pub committed : g.state.committed ≡ f.state.committed
  pub receipts : g.receipts ≡ f.receipts
  pub watch_manager : g.watch_manager ≡ f.watch_manager
  pub answers : g.answers ≡ f.answers

pub degrade_self-Rest : (f : Follower) → Rest f (degrade_self f)
unfolding degrade_self set_health
degrade_self-Rest f = ground arith

pub cancel-Rest : (f : Follower) → Rest f (cancel_committed_revision_lag_check f)
unfolding cancel_committed_revision_lag_check
cancel-Rest f = ground arith

pub schedule-Rest :
    (f : Follower) (committed : ℕ) (fails : Bool)
    → Rest f (schedule_committed_revision_lag_check f committed fails)
unfolding schedule_committed_revision_lag_check cancel_committed_revision_lag_check
schedule-Rest f committed fails = ground arith

-- Rows up to a committed revision stay.
abbrev pub KeepsBelow : ℕ → List Record → List Record → Type 0
KeepsBelow low rs rs' =
    (rev : ℕ) (q : Record)
    → rev ≤ low
    → find_record_by_rev rev rs ≡ some q
    → find_record_by_rev rev rs' ≡ some q

-- The record reads as a row that is the same for replication, and every other row as before.
pub record Copied (db : Db) (r row : Record) (after : Db) : Type 0 where
  pub reads : find_record_by_rev r.revision after.records ≡ some row
  pub same : records_equal_for_replication row r ≡ true
  pub others :
      (rev : ℕ) (q : Record)
      → r.revision ≢ rev
      → find_record_by_rev rev db.records ≡ some q
      → find_record_by_rev rev after.records ≡ some q

abbrev pub PersistOutcome : Db → Record → ℕ → Persisted → Type 0
PersistOutcome db r committed (stored row after) =
    Copied db r row after × KeepsBelow committed db.records after.records
PersistOutcome db r committed (lost e left) = KeepsBelow committed db.records left.records

module _ (db : Db) (r : Record) (committed : ℕ) (o : Outside) where
  persisted-PersistOutcome :
      (left : Db) (out : Result (Record × Db))
      → KeepsBelow committed db.records left.records
      → replicate_tentative_record db r committed o.now ≡ out
      → PersistOutcome db r committed (persisted left out)
  persisted-PersistOutcome left (err e) k h = k
  persisted-PersistOutcome left (ok (row, after)) k h =
      let again = tentative-idempotent db r committed o.now row after 0 0 h in
      (
        record {
          reads = again.0;
          same = again.1;
          others = λ rev q. tentative-keeps_other db r committed o.now row after rev q h;
        },
        λ rev q. tentative-keeps_committed db r committed o.now row after rev q h,
      )

  without_row-KeepsBelow :
      overwrites db r committed o.now ≡ true
      → KeepsBelow committed db.records (without_row db r.revision).records
  unfolding overwrites
  without_row-KeepsBelow above rev q below there =
      ground (arith, find-delete_revision r.revision rev db.records)

  pub persist-PersistOutcome : PersistOutcome db r committed (persist db r committed o)
  unfolding persist
  persist-PersistOutcome = elim (Bool-cases o.insert_fails) [
    | inl e ↦ simp e (λ rev q below there. there)
    | inr fine ↦ elim (Bool-cases (overwrites db r committed o.now)) [
      | inr keep ↦
          simp (fine, keep) (persisted-PersistOutcome db _ (λ rev q below there. there) refl)
      | inl over ↦ elim (Bool-cases o.delete_fails) [
        | inl e ↦ simp (fine, over, e) (λ rev q below there. there)
        | inr deleted ↦ elim (Bool-cases o.overwrite_fails) [
          | inl e ↦ simp (fine, over, deleted, e) (without_row-KeepsBelow over)
          | inr e ↦
              simp (fine, over, deleted, e)
                (persisted-PersistOutcome (without_row db r.revision) _
                  (without_row-KeepsBelow over) refl)
        ]
      ]
    ]
  ]
