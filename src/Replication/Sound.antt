-- ===== src/Replication/Sound.antt =====
-- The revisions of the table along the messages of a Follow stream (follower.go).
use netsy.Base.{ℕ, ◌≡◌, refl, Option, none, some, ◌&&◌, inl, inr, Bool-cases}
use netsy.NodeState.{health_eq, healthy, set_committed, set_compaction}
use netsy.LocalDb.{Record, Db, Result, ok, err}
use netsy.LocalDb.CompactedTo.{persist_compaction-records}
use netsy.LocalDb.Replicate.{replicate_tentative_record}
use netsy.LocalDb.Sound.{IsSound, delete_revision-IsSound, tentative-IsSound}
use netsy.Watch.Manager.{Manager}
use netsy.Primary.LeaderTxn.{record_message, commit_message, compact_message}
use netsy.Replication.{Follower, PrimaryMessage, initial, broadcast}
use netsy.Replication.Stream.{
  Outside, Handled, going, failed, panicked, Persisted, stored, lost, persist, persisted,
  overwrites, without_row, with_manager, initialised, check_lag, send_receipt, after_persist,
  handle, handle_initial, handle_record, handle_commit, handle_compact, seed_compaction,
}
use netsy.Replication.StreamLaws.{OnLeft, Rest, degrade_self-Rest, schedule-Rest}
use netsy.Replication.KeepLaws.{seed_compaction-records}

abbrev pub HasSound : Follower → Type 0
HasSound f = IsSound f.db.records

pub Rest-HasSound : (f g : Follower) → Rest f g → HasSound f → HasSound g
Rest-HasSound f g rest h = rw (rest.db) h

abbrev OnPersisted : Persisted → Type 0
OnPersisted (stored row after) = IsSound after.records
OnPersisted (lost e left) = IsSound left.records

module _ (db : Db) (r : Record) (committed : ℕ) (o : Outside) (w : IsSound db.records) where
  persisted-IsSound :
      (left : Db) (out : Result (Record × Db))
      → IsSound left.records
      → replicate_tentative_record db r committed o.now ≡ out
      → OnPersisted (persisted left out)
  persisted-IsSound left (err e) k h = k
  persisted-IsSound left (ok (row, after)) k h =
      tentative-IsSound db r committed o.now row after w h

  persist-IsSound : OnPersisted (persist db r committed o)
  unfolding persist
  persist-IsSound =
      let without = delete_revision-IsSound r.revision db.records w in
      elim (Bool-cases o.insert_fails) [
        | inl e ↦ simp e w
        | inr fine ↦ elim (Bool-cases (overwrites db r committed o.now)) [
          | inr keep ↦ simp (fine, keep) (persisted-IsSound db _ w refl)
          | inl over ↦ elim (Bool-cases o.delete_fails) [
            | inl e ↦ simp (fine, over, e) w
            | inr deleted ↦ elim (Bool-cases o.overwrite_fails) [
              | inl e ↦ simp (fine, over, deleted, e) without
              | inr e ↦
                  simp (fine, over, deleted, e)
                    (persisted-IsSound (without_row db r.revision) _ without refl)
            ]
          ]
        ]
      ]

with_manager-HasSound :
    (f : Follower) (m : Option Manager) → HasSound f → OnLeft HasSound (with_manager f m)
with_manager-HasSound f none h = tt
with_manager-HasSound f (some m) h = h

initialised-HasSound :
    (f : Follower) (committed compaction : ℕ) (db : Result Db)
    → HasSound f
    → ((after : Db) → db ≡ ok after → after.records ≡ f.db.records)
    → OnLeft HasSound (initialised f committed compaction db)
initialised-HasSound f committed compaction (err e) h same = h
initialised-HasSound f committed compaction (ok after) h same =
    with_manager-HasSound
      (record f { db = after; state = set_compaction (set_committed f.state committed) compaction })
      _ (rw (same after refl) h)

check_lag-HasSound :
    (committed : ℕ) (o : Outside) (out : Handled)
    → OnLeft HasSound out
    → OnLeft HasSound (check_lag committed o out)
check_lag-HasSound committed o (failed f e) h = h
check_lag-HasSound committed o panicked h = h
check_lag-HasSound committed o (going f) h = elim (Bool-cases (health_eq f.state.health healthy)) [
  | inr e ↦ simp e h
  | inl e ↦ simp e (Rest-HasSound f _ (schedule-Rest f committed o.read_latest_fails) h)
]

send_receipt-HasSound :
    (f : Follower) (revision : ℕ) (o : Outside)
    → HasSound f
    → OnLeft HasSound (send_receipt f revision o)
unfolding send_receipt
send_receipt-HasSound f revision o h =
    elim (Bool-cases (o.first_send_fails && o.second_send_fails)) [
      | inl e ↦ simp e (Rest-HasSound f _ (degrade_self-Rest f) h)
      | inr e ↦ simp e h
    ]

after_persist-HasSound :
    (f : Follower) (revision : ℕ) (o : Outside) (out : Persisted)
    → OnPersisted out
    → OnLeft HasSound (after_persist f revision o out)
after_persist-HasSound f revision o (lost e left) p = p
after_persist-HasSound f revision o (stored row after) p = send_receipt-HasSound _ revision o p

pub handle-HasSound :
    (f : Follower) (msg : PrimaryMessage) (o : Outside)
    → HasSound f
    → OnLeft HasSound (handle f msg o)
unfolding handle handle_initial handle_record handle_commit handle_compact
handle-HasSound f (initial committed compaction) o h =
    initialised-HasSound f committed compaction (seed_compaction f.db compaction o) h
      (seed_compaction-records f.db compaction o)
handle-HasSound f (broadcast (record_message r)) o h =
    after_persist-HasSound f r.revision o (persist f.db r f.state.committed o)
      (persist-IsSound f.db r f.state.committed o h)
handle-HasSound f (broadcast (commit_message committed)) o h =
    check_lag-HasSound committed o _
      (with_manager-HasSound (record f { state = set_committed f.state committed }) _ h)
handle-HasSound f (broadcast (compact_message rev)) o h =
    elim (Bool-cases o.persist_compaction_fails) [
      | inl e ↦ simp e h
      | inr e ↦ simp e (rw (persist_compaction-records f.db rev o.now) h)
    ]
