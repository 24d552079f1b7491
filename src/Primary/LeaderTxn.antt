-- ===== src/Primary/LeaderTxn.antt =====
-- `LeaderTxn`, `executeObjectStorageTxn`, `executeQuorumTxn` and `startObjectStorageRecovery` of
-- internal/primary/leader_txn.go, and `writeRecord` of write_record.go. The gate serialises the
-- transactions, so a transaction is one step of the server. What the outside answers while it runs
-- is an argument.
use netsy.Base.{
  ℕ, ◌+◌, String, Bool, true, false, not, Option, none, some, List, ◌∷◌, ◌&&◌, ◌==◌, if◌then◌else◌,
  length, ℤ, pos, Bytes,
}
use netsy.NodeState.{State, active, draining, primary_eq, set_primary, set_committed}
use netsy.LocalDb.{Record, Db, DbError, compare_revision_failed, latest_revision}
use netsy.LocalDb as LocalDb
use netsy.LocalDb.Insert.{insert_record}
use netsy.Etcd.{RangeRequest, RangeResponse, TxnRequest, TxnResponse, sort_none}
use netsy.CommonApi.{RangeError, RangeResult, range}
use netsy.CommonApi as CommonApi
use netsy.Primary.Quorum.{
  TxnStrategy, ReceiptCollector, select_txn_strategy, new_receipt_collector, collect_stream, wait,
}
use netsy.Primary.Replicas.{Replica, healthy_for_quorum_count, unacked_quorum_node_ids, degrade_all}
use netsy.Primary.ChunkBuffer.{ChunkBuffer, buffer_record, transition_to_draining}
use netsy.Primary.Txn.{
  TxnError, not_accepting_writes, client_gone, begin_failed, upload_failed, commit_failed,
  quorum_not_met, insert_failed, range_failed, TxnResult, ok, err, parse_txn_request,
  build_txn_response,
}

pub data Message : Type 0 where
  record_message : Record → Message
  commit_message compact_message : ℕ → Message

-- What is left to a goroutine or to the snapshot worker.
pub data Task : Type 0 where
  rollback_flush : Task
  recover_upload : Record → Task
  snapshot_check : (revision record_size : ℕ) → Task
  run_compaction : (revision : ℕ) → Task

-- `broadcast` holds the messages to the followers, the newest first, and `uploaded` the records
-- that synchronous writes have put into object storage.
pub record Server : Type 0 where
  pub state : State
  pub db : Db
  pub next_revision_id : ℕ
  pub replicas : List Replica
  pub chunk_buffer : ChunkBuffer
  pub broadcast : List Message
  pub tasks : List Task
  pub uploaded : List Record
  pub node_id : String
  pub quorum : ℤ

-- What happens outside while a transaction runs. `meanwhile` is what other handlers make of the
-- registry of Replicas during the wait for Receipts.
pub record Outside : Type 0 where
  pub now : ℕ
  pub cancelled : Bool
  pub begin_fails : Bool
  pub insert_fails : Bool
  pub commit_fails : Bool
  pub receipts : List (String × ℕ)
  pub timer_won : Bool
  pub meanwhile : List Replica → List Replica
  pub first_upload : Bool
  pub second_upload : Bool
  pub buffer_upload : Bool

-- `writeRecord` retries once.
abbrev pub write_record : Outside → Bool
write_record o = if o.first_upload then true else o.second_upload

-- `startObjectStorageRecovery`: the loop of uploads is a task.
unfoldable pub start_object_storage_recovery : Server → Record → Server
unfolding transition_to_draining
start_object_storage_recovery ps row = record ps {
  state = transition_to_draining ps.state;
  tasks = recover_upload row ∷ ps.tasks;
}

-- `checkAndCreateSnapshot` of leader_snapshot.go, with a snapshot worker.
abbrev pub check_and_create_snapshot : Server → (revision record_size : ℕ) → Server
check_and_create_snapshot ps revision record_size =
    if ps.state.committed == 0
    then ps
    else record ps { tasks = snapshot_check ps.state.committed record_size ∷ ps.tasks }

-- errors.Is(err, ErrCompareRevisionFailed)
abbrev pub is_compare_failure : DbError → Bool
is_compare_failure compare_revision_failed = true
is_compare_failure _ = false

module _ (size : Record → ℕ) where
  -- `tx_db` is the database with the transaction's writes in it.
  unfoldable pub execute_object_storage_txn :
      Server → (tx_db : Db) → Record → Outside → Server × Option TxnError
  unfolding start_object_storage_recovery set_primary
  execute_object_storage_txn ps tx_db row o =
      let kept = record ps { uploaded = row ∷ ps.uploaded } in
      if not (write_record o)
      then (start_object_storage_recovery ps row, some upload_failed)
      else if o.commit_fails
      then (record kept { state = (set_primary ps.state draining).0 }, some commit_failed)
      else (
        check_and_create_snapshot
            (record kept {
              db = tx_db;
              next_revision_id = ps.next_revision_id + 1;
              state = set_committed ps.state row.revision;
              broadcast = commit_message row.revision ∷ record_message row ∷ ps.broadcast;
            })
            row.revision (size row),
        none,
      )

  -- The collector of the revision, once the Receipts of the wait have come in.
  abbrev pub collected : Record → TxnStrategy → Outside → ReceiptCollector
  collected row strategy o =
      collect_stream (new_receipt_collector row.revision strategy.required) o.receipts

  -- A quorum that was not met.
  unfoldable pub roll_back : Server → Record → TxnStrategy → Outside → Server
  unfolding collect_stream unacked_quorum_node_ids degrade_all
  roll_back ps row strategy o =
      let rs = o.meanwhile ps.replicas in
      record ps {
        broadcast = record_message row ∷ ps.broadcast;
        replicas = degrade_all (unacked_quorum_node_ids (collected row strategy o) rs) rs;
        tasks = rollback_flush ∷ ps.tasks;
      }

  unfoldable pub commit_quorum : Server → (tx_db : Db) → Record → Outside → Server
  unfolding buffer_record
  commit_quorum ps tx_db row o =
      let (buffer, state, fine) =
        buffer_record size ps.chunk_buffer (set_committed ps.state row.revision) row o.now
          o.buffer_upload in
      check_and_create_snapshot
        (record ps {
          db = tx_db;
          next_revision_id = ps.next_revision_id + 1;
          state = state;
          replicas = o.meanwhile ps.replicas;
          broadcast = commit_message row.revision ∷ record_message row ∷ ps.broadcast;
          chunk_buffer = buffer;
        })
        row.revision (size row)

  unfoldable pub execute_quorum_txn :
      Server → (tx_db : Db) → Record → TxnStrategy → Outside → Server × Option TxnError
  unfolding roll_back commit_quorum collect_stream
  execute_quorum_txn ps tx_db row strategy o =
      if not (wait (collected row strategy o) o.timer_won)
      then (roll_back ps row strategy o, some quorum_not_met)
      else if o.commit_fails
      then (
        record ps {
          broadcast = record_message row ∷ ps.broadcast;
          replicas = o.meanwhile ps.replicas;
        },
        some commit_failed,
      )
      else (commit_quorum ps tx_db row o, none)

  -- A commit-or-rollback of an inserted record by the path that the strategy names.
  unfoldable pub execute :
      Server → (tx_db : Db) → Record → TxnStrategy → Outside → Server × Option TxnError
  unfolding execute_quorum_txn execute_object_storage_txn
  execute ps tx_db row strategy o =
      if strategy.use_quorum
      then execute_quorum_txn ps tx_db row strategy o
      else execute_object_storage_txn ps tx_db row o

  abbrev pub strategy_of : Server → TxnStrategy
  strategy_of ps =
      select_txn_strategy ps.quorum ps.state.cluster.node_count
        (healthy_for_quorum_count ps.replicas)

  abbrev pub Reply : Type 0
  Reply = TxnResult (Option Record × TxnResponse)

  abbrev pub reply_committed : Record → Server × Option TxnError → Server × Reply
  reply_committed row (ps, some e) = (ps, err e)
  reply_committed row (ps, none) = (ps, ok (some row, build_txn_response (some row) none))

  abbrev pub key_request : Bytes → RangeRequest
  key_request key = record {
    key = key;
    range_end = none;
    limit = pos 0;
    revision = pos 0;
    sort_order = sort_none;
    sort_target = 0;
    serializable = false;
    keys_only = false;
    count_only = false;
    min_mod_revision = pos 0;
    max_mod_revision = pos 0;
    min_create_revision = pos 0;
    max_create_revision = pos 0;
  }

  abbrev pub reply_range : RangeResult RangeResponse → Reply
  reply_range (CommonApi.err e) = err (range_failed e)
  reply_range (CommonApi.ok resp) = ok (none, build_txn_response none (some resp))

  -- What becomes of the insertion: `like` is SQL's.
  unfoldable pub after_insert :
      (like : Bytes → Bytes → Bool)
      → Server
      → (failure_ops : ℕ) → Record
      → Outside
      → LocalDb.Result (Record × Db)
      → Server × Reply
  unfolding execute range build_txn_response select_txn_strategy healthy_for_quorum_count
  after_insert like ps failure_ops row o (LocalDb.ok (inserted, tx_db)) =
      reply_committed inserted (execute ps tx_db inserted (strategy_of ps) o)
  after_insert like ps failure_ops row o (LocalDb.err e) =
      if is_compare_failure e && failure_ops == 1
      then (ps, reply_range (range like ps.db (key_request row.key) ps.state.committed))
      else (ps, err (insert_failed e))

  -- The fields that the Primary sets in the parsed record.
  abbrev pub assigned : Server → Record → Record
  assigned ps parsed = record parsed { leader_id = ps.node_id; revision = ps.next_revision_id }

  -- From the validated request on.
  unfoldable pub after_parse :
      (like : Bytes → Bytes → Bool)
      → Server
      → (failure_ops : ℕ) → Outside
      → TxnResult Record
      → Server × Reply
  unfolding after_insert insert_record
  after_parse like ps failure_ops o (err e) = (ps, err e)
  after_parse like ps failure_ops o (ok parsed) =
      let row = assigned ps parsed in
      if o.begin_fails
      then (ps, err begin_failed)
      else after_insert like ps failure_ops row o (insert_record ps.db row o.now o.insert_fails)

  unfoldable pub leader_txn :
      (like : Bytes → Bytes → Bool) → Server → TxnRequest → Outside → Server × Reply
  unfolding after_parse parse_txn_request
  leader_txn like ps r o =
      if not (primary_eq ps.state.primary active)
      then (ps, err not_accepting_writes)
      else if o.cancelled
      then (ps, err client_gone)
      else after_parse like ps (length r.failure) o (parse_txn_request r)

-- `initializeRevisionCounter` of server.go.
unfoldable pub initialize_revision_counter : Server → Server
unfolding latest_revision
initialize_revision_counter ps = record ps { next_revision_id = latest_revision ps.db.records + 1 }
