-- ===== src/Replication/ReceiptLaws.antt =====
-- A Replica sends a receipt only for a record that its table holds.
use netsy.Base.{
  ℕ, ◌≡◌, refl, Bool, Option, none, some, List, [], ◌∷◌, arith, All, inl, inr, ◌==◌, ◌&&◌,
  Bool-cases,
}
use netsy.NodeState.{healthy, health_eq, set_committed, set_compaction}
use netsy.LocalDb.CompactedTo.{persist_compaction-records}
use netsy.LocalDb.{Record, Db, Result, ok, err, find_record_by_rev}
use netsy.Watch.Manager.{Manager}
use netsy.Primary.LeaderTxn.{record_message, commit_message, compact_message}
use netsy.Replication.{Follower, PrimaryMessage, initial, broadcast}
use netsy.Replication.Stream.{
  Outside, Handled, going, failed, panicked, handle, handle_initial, handle_record, handle_commit,
  handle_compact, seed_compaction, initialised, with_manager, check_lag, Persisted, stored, lost,
  persist, after_persist, send_receipt,
}
use netsy.Replication.Lifecycle.{waiting, Received, message, eof, recv_error, process_stream}
use netsy.Replication.StreamLaws.{
  OnHandled, Copied, PersistOutcome, persist-PersistOutcome, schedule-Rest,
}
use netsy.Replication.SessionLaws.{OnSession, Allowed, continue_with-OnSession}
use netsy.Replication.KeepLaws.{seed_compaction-records}

abbrev pub IsStored : List Record → ℕ → Type 0
IsStored rs rev = (q : Record) × (find_record_by_rev rev rs ≡ some q)

-- Every revision that a receipt was sent for is stored.
abbrev pub HasReceipted : Follower → Type 0
HasReceipted f = All (IsStored f.db.records) f.receipts

abbrev pub Anything : Follower → Type 0
Anything f = Unit

IsStored-weaken :
    (rs rs' : List Record) (revs : List ℕ)
    → ((rev : ℕ) → IsStored rs rev → IsStored rs' rev)
    → All (IsStored rs) revs
    → All (IsStored rs') revs
IsStored-weaken rs rs' [] keep h = tt
IsStored-weaken rs rs' (rev ∷ revs) keep h = (keep rev h.0, IsStored-weaken rs rs' revs keep h.1)

Copied-IsStored :
    (db : Db) (r row : Record) (after : Db) (rev : ℕ)
    → Copied db r row after
    → IsStored db.records rev
    → IsStored after.records rev
Copied-IsStored db r row after rev c (q, there) = elim (Bool-cases (r.revision == rev)) [
  | inl e ↦ let same : r.revision ≡ rev = ground arith in (row, rw (← same) (c.reads))
  | inr e ↦ (q, c.others rev q (ground arith) there)
]

with_manager-HasReceipted :
    (f : Follower) (m : Option Manager)
    → HasReceipted f
    → OnHandled HasReceipted Anything (with_manager f m)
with_manager-HasReceipted f none h = tt
with_manager-HasReceipted f (some m) h = h

initialised-HasReceipted :
    (f : Follower) (committed compaction : ℕ) (db : Result Db)
    → HasReceipted f
    → ((after : Db) → db ≡ ok after → after.records ≡ f.db.records)
    → OnHandled HasReceipted Anything (initialised f committed compaction db)
initialised-HasReceipted f committed compaction (err e) h same = tt
initialised-HasReceipted f committed compaction (ok after) h same =
    with_manager-HasReceipted
      (record f { db = after; state = set_compaction (set_committed f.state committed) compaction })
      _ (rw (same after refl) h)

check_lag-HasReceipted :
    (committed : ℕ) (o : Outside) (out : Handled)
    → OnHandled HasReceipted Anything out
    → OnHandled HasReceipted Anything (check_lag committed o out)
check_lag-HasReceipted committed o (failed f e) h = tt
check_lag-HasReceipted committed o panicked h = tt
check_lag-HasReceipted committed o (going f) h =
    elim (Bool-cases (health_eq f.state.health healthy)) [
      | inr e ↦ simp e h
      | inl e ↦
          let rest = schedule-Rest f committed o.read_latest_fails in
          simp e (rw (rest.receipts, rest.db) h)
    ]

after_persist-HasReceipted :
    (f : Follower) (r : Record) (o : Outside) (out : Persisted)
    → HasReceipted f
    → PersistOutcome f.db r f.state.committed out
    → OnHandled HasReceipted Anything (after_persist f r.revision o out)
unfolding send_receipt
after_persist-HasReceipted f r o (lost e left) h p = tt
after_persist-HasReceipted f r o (stored row after) h p =
    elim (Bool-cases (o.first_send_fails && o.second_send_fails)) [
      | inl e ↦ simp e tt
      | inr e ↦ simp e (
        (row, p.0.reads),
        IsStored-weaken f.db.records after.records f.receipts
            (λ rev. Copied-IsStored f.db r row after rev p.0) h,
      )
    ]

handle-HasReceipted :
    (f : Follower) (msg : PrimaryMessage) (o : Outside)
    → HasReceipted f
    → OnHandled HasReceipted Anything (handle f msg o)
unfolding handle handle_initial handle_record handle_commit handle_compact
handle-HasReceipted f (initial committed compaction) o h =
    initialised-HasReceipted f committed compaction (seed_compaction f.db compaction o) h
      (seed_compaction-records f.db compaction o)
handle-HasReceipted f (broadcast (record_message r)) o h =
    after_persist-HasReceipted f r o (persist f.db r f.state.committed o) h
      (persist-PersistOutcome f.db r f.state.committed o)
handle-HasReceipted f (broadcast (commit_message committed)) o h =
    check_lag-HasReceipted committed o _
      (with_manager-HasReceipted (record f { state = set_committed f.state committed }) _ h)
handle-HasReceipted f (broadcast (compact_message rev)) o h =
    elim (Bool-cases o.persist_compaction_fails) [
      | inl e ↦ simp e tt
      | inr e ↦ simp e (rw (persist_compaction-records f.db rev o.now) h)
    ]

any_event : (r : Received) → Allowed (λ msg. Unit {0}) r
any_event (message msg o) = tt
any_event eof = tt
any_event recv_error = tt

any_events : (events : List Received) → All (Allowed (λ msg. Unit {0})) events
any_events [] = tt
any_events (r ∷ rs) = (any_event r, any_events rs)

-- Receipts are sound: as long as a Follow stream goes on, whatever messages it has brought, tentative
-- records that were overwritten among them, the table of the Replica holds every revision that a
-- receipt was sent for, if it did so before.
pub process_stream-HasReceipted :
    (ch : ℕ) (f : Follower) (pending : Bool) (events : List Received)
    → HasReceipted f
    → OnSession HasReceipted Anything (process_stream ch f pending events)
process_stream-HasReceipted ch f pending events h =
    continue_with-OnSession HasReceipted Anything (λ msg. Unit {0}) ch (λ f w a h. h)
      (λ f w a h. tt) (λ f h. tt) (λ f msg o h q. handle-HasReceipted f msg o h) (waiting f pending)
      events h (any_events events)
