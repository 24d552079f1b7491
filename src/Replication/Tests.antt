-- ===== src/Replication/Tests.antt =====
-- A follower at concrete states.
use netsy.Base.{
  ℕ, Option, map, Bytes, ◌≡◌, refl, true, false, none, some, List, [], ◌∷◌, arith, bytes_equal,
  length,
}
use netsy.NodeState.{State, active, healthy, new_state}
use netsy.LocalDb.{Record, find_record_by_rev, latest_revision, insert_row, unique_conflict}
use netsy.LocalDb.Compact.{compact_row, to_compact, has_newer}
use netsy.LocalDb.Sample.{db, rows, row, key_a, key_b, first_b}
use netsy.LocalDb.Replicate.{records_equal_for_replication}
use netsy.Watch.Manager.{Manager, insert_revision}
use netsy.Primary.LeaderTxn.{record_message, commit_message, compact_message}
use netsy.Primary.Sample.{one, no_like, server, outside, create_b, server-IsConsistent}
use netsy.Replication.{Follower, initial, broadcast, new_follower}
use netsy.Replication.Stream.{Outside, going}
use netsy.Replication.Lifecycle.{
  Received, message, eof, Session, waiting, returned, crashed, continue_with, process_stream, Round,
  run, require_initial, start,
}
use netsy.Replication.SessionLaws.{OnSession}
use netsy.Replication.KeepLaws.{
  HasKept, Event, hears, compacts, follow_events, follow_events-HasKept,
}
use netsy.Replication.ReceiptLaws.{HasReceipted, Anything, process_stream-HasReceipted}
use netsy.Replication.Copies.{IsFine, AllCopies}
use netsy.Replication.Cluster.{Step, run_cluster}
use netsy.Replication.Synced.{IsSynced, OnGoing}
use netsy.Replication.ClusterLaws.{run_cluster-IsSynced}
use netsy.Replication.LagLaws.{
  IsArmed, LagEvent, committed, stopped, fired, lag_run, lag_run-IsArmed,
}
use netsy.Replication.Answers.{count_answers}
use netsy.Replication.AnswerLaws.{OnLoop, run-OnLoop}

-- A client watches the second key.
abbrev watches_b : Manager
watches_b = record {
  watchers =
      record {
        id = 1;
        watches =
            record {
              watch_id = 1;
              key = key_b;
              range_end = [];
              start_revision = 0;
              prev_kv = false;
              filters_no_put = false;
              filters_no_delete = false;
            }
            ∷ [];
        inbox = [];
      }
      ∷ [];
  watch_admission_floor = 0;
  pending = [];
  closed = [];
}

abbrev state : State
state = record new_state { health = healthy; committed = 2 }

abbrev replica : Follower
replica = new_follower "n2" state db watches_b

abbrev calm : Outside
calm = record {
  now = 9;
  read_compaction_fails = false;
  persist_compaction_fails = false;
  insert_fails = false;
  delete_fails = false;
  overwrite_fails = false;
  read_latest_fails = false;
  first_send_fails = false;
  second_send_fails = false;
}

-- A tentative record, another one of the same revision in its place, and the commit.
abbrev messages : List Received
messages =
    message (initial 2 0) calm
    ∷ message (broadcast (record_message (row 3 key_a false 1 2 3))) calm
    ∷ message (broadcast (record_message first_b)) calm
    ∷ message (broadcast (commit_message 3)) calm
    ∷ []

-- The Primary compacts up to the second revision, and the compaction runs behind a record.
abbrev events : List Event
events =
    hears (initial 2 0) calm
    ∷ hears (broadcast (compact_message 2)) calm
    ∷ hears (broadcast (record_message first_b)) calm
    ∷ compacts 2 20
    ∷ hears (broadcast (commit_message 3)) calm
    ∷ []

-- The first row has been emptied, since a newer one has its key.
abbrev values_of : Option Follower → List (ℕ × Bytes)
values_of none = []
values_of (some f) = map (λ (r : Record). (r.revision, r.value)) f.db.records

compacted_run : values_of (follow_events events replica) ≡ (3, 8 ∷ []) ∷ (2, 7 ∷ []) ∷ (1, []) ∷ []
unfolding follow_events new_follower insert_row unique_conflict bytes_equal insert_revision
    find_record_by_rev compact_row to_compact latest_revision has_newer
compacted_run = refl

abbrev or_replica : Option Follower → Follower
or_replica none = replica
or_replica (some f) = f

follow_events-HasKept_example : HasKept 2 2 rows (or_replica (follow_events events replica))
unfolding follow_events new_follower insert_row unique_conflict bytes_equal insert_revision
    find_record_by_rev compact_row to_compact
follow_events-HasKept_example =
    follow_events-HasKept replica (or_replica (follow_events events replica)) events 2 2
      (omega arith) (omega arith, (tt, (tt, (omega arith, (omega arith, tt))))) refl

process_stream-HasReceipted_example :
    OnSession HasReceipted Anything (process_stream 0 replica false messages)
unfolding new_follower
process_stream-HasReceipted_example = process_stream-HasReceipted 0 replica false messages tt

-- The first try finds no quorum, the second one goes to object storage.
abbrev steps : List Step
steps =
    record {
      request = create_b;
      around = record outside { receipts = []; timer_won = true };
      replica_around = λ m. calm;
    }
    ∷ record { request = create_b; around = outside; replica_around = λ m. calm }
    ∷ []

rows-AllCopies : AllCopies rows rows
unfolding records_equal_for_replication bytes_equal
rows-AllCopies = (refl, (refl, tt))

replica-IsSynced : IsSynced server replica
unfolding new_follower
replica-IsSynced = record {
  tentative = none;
  copies = rows;
  shape = refl;
  next_revision = tt;
  agree = rows-AllCopies;
  committed = refl;
  keys = ((refl, tt), tt);
}

calm-IsFine : IsFine calm
calm-IsFine = record { inserts = refl; deletes = refl; overwrite = refl; sends = refl }

run_cluster-IsSynced_example :
    let out = run_cluster one no_like server (going replica) steps in OnGoing (IsSynced out.0) out.1
run_cluster-IsSynced_example =
    run_cluster-IsSynced one no_like server replica steps server-IsConsistent replica-IsSynced refl
      ((λ m. calm-IsFine), ((λ m. calm-IsFine), tt))

abbrev lag_events : List LagEvent
lag_events =
    committed 5 false
    ∷ committed 6 false
    ∷ fired (record { target_revision = 6; check_seq = 2; live = true }) false
    ∷ stopped
    ∷ []

lag_run-IsArmed_example : IsArmed (lag_run replica lag_events)
unfolding new_follower
lag_run-IsArmed_example = lag_run-IsArmed replica lag_events tt

-- Two tries of which the second reaches the Primary.
abbrev rounds : List Round
rounds =
    record {
      cancelled = false;
      remote = record { node_state = none; connected = true; follow_fails = false };
      events = [];
      cancelled_in_delay = false;
    }
    ∷ record {
      cancelled = false;
      remote = record { node_state = some active; connected = true; follow_fails = false };
      events = message (initial 2 0) calm ∷ eof ∷ [];
      cancelled_in_delay = true;
    }
    ∷ []

-- The Primary is another node.
abbrev remote_state : State
remote_state = record state {
  cluster = record new_state.cluster {
    primary = record new_state.cluster.primary { node_id = "n1" };
  };
}

abbrev started : Follower
started = (start (require_initial (new_follower "n2" remote_state db watches_b))).0

run-OnLoop_example : OnLoop 0 0 (run started rounds)
unfolding start new_follower count_answers
run-OnLoop_example = run-OnLoop started 0 rounds refl

-- What the stream has sent and committed.
abbrev summary : Session → List ℕ × ℕ × ℕ
summary (waiting f pending) = (f.receipts, f.state.committed, length f.db.records)
summary (returned f delivered e) = (f.receipts, f.state.committed, 0)
summary crashed = ([], 0, 0)

stream_run : summary (process_stream 0 replica false messages) ≡ (3 ∷ 3 ∷ [], 3, 3)
unfolding new_follower continue_with insert_row unique_conflict bytes_equal find_record_by_rev
    records_equal_for_replication insert_revision latest_revision
stream_run = refl
