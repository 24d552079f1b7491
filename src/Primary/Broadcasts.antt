-- ===== src/Primary/Broadcasts.antt =====
-- The messages that a transaction broadcasts to the followers, and the record that they carry.
use netsy.Base.{
  ℕ, ◌<◌, ◌≡◌, refl, ap, ◌∙◌, Bool, false, Option, none, some, ◌∷◌, arith, ◌⊎◌, inl, inr, Bytes,
  Bool-cases, ◌==◌, ◌&&◌, length,
}
use netsy.NodeState.{active, primary_eq}
use netsy.LocalDb.{
  Record, Db, unique_conflict, insert_row, latest_revision, live_row, latest_for_key,
}
use netsy.LocalDb as LocalDb
use netsy.LocalDb.Insert.{insert_record}
use netsy.LocalDb.NoConflict.{insert_record-free}
use netsy.LocalDb.InsertLaws.{insert_record-inv}
use netsy.LocalDb.Latest.{IsWellFormed}
use netsy.Etcd.{TxnRequest, TxnResponse, RangeResponse}
use netsy.CommonApi.{RangeResult}
use netsy.CommonApi as CommonApi
use netsy.Primary.Quorum.{TxnStrategy, wait}
use netsy.Primary.Txn.{TxnError, TxnResult, ok, err, parse_txn_request}
use netsy.Primary.LeaderTxn.{
  record_message, commit_message, Server, Outside, write_record, collected,
  execute_object_storage_txn, execute_quorum_txn, execute, roll_back, commit_quorum, strategy_of,
  reply_committed, reply_range, is_compare_failure, after_insert, after_parse, assigned, leader_txn,
  check_and_create_snapshot, start_object_storage_recovery,
}
use netsy.Primary.Commits.{without_failure}

-- The record that a transaction broadcasts has the next revision and clashes with no row.
pub record IsFresh (ps : Server) (row : Record) : Type 0 where
  pub revision : row.revision ≡ ps.next_revision_id
  pub free : unique_conflict row ps.db.records ≡ false

abbrev pub Sent : Server → Record → Server × Option TxnError → Type 0
Sent ps row (qs, none) =
    qs.broadcast ≡ commit_message row.revision ∷ record_message row ∷ ps.broadcast
Sent ps row (qs, some e) =
    (qs.broadcast ≡ ps.broadcast) ⊎ (qs.broadcast ≡ record_message row ∷ ps.broadcast)

snapshot-broadcast :
    (qs : Server) (revision n : ℕ)
    → (check_and_create_snapshot qs revision n).broadcast ≡ qs.broadcast
snapshot-broadcast qs revision n = ground arith

module _ (size : Record → ℕ) (ps : Server) (o : Outside) (tx_db : Db) (row : Record) where
  object_storage-Sent : Sent ps row (execute_object_storage_txn size ps tx_db row o)
  unfolding execute_object_storage_txn start_object_storage_recovery
  object_storage-Sent = elim (Bool-cases (write_record o)) [
    | inr lost ↦ simp lost (inl refl)
    | inl there ↦ elim (Bool-cases o.commit_fails) [
      | inl fails ↦ simp (there, fails) (inl refl)
      | inr fine ↦ simp (there, fine) (snapshot-broadcast _ row.revision (size row))
    ]
  ]

  quorum-Sent :
      (strategy : TxnStrategy) → Sent ps row (execute_quorum_txn size ps tx_db row strategy o)
  unfolding execute_quorum_txn roll_back commit_quorum
  quorum-Sent strategy = elim (Bool-cases (wait (collected size row strategy o) o.timer_won)) [
    | inr missed ↦ simp missed (inr refl)
    | inl met ↦ elim (Bool-cases o.commit_fails) [
      | inl fails ↦ simp (met, fails) (inr refl)
      | inr fine ↦ simp (met, fine) (snapshot-broadcast _ row.revision (size row))
    ]
  ]

  execute-Sent : (strategy : TxnStrategy) → Sent ps row (execute size ps tx_db row strategy o)
  unfolding execute
  execute-Sent strategy = elim (Bool-cases strategy.use_quorum) [
    | inl quorum ↦ simp quorum (quorum-Sent strategy)
    | inr sync ↦ simp sync object_storage-Sent
  ]

abbrev pub TxnSent : Server → Server × TxnResult (Option Record × TxnResponse) → Type 0
TxnSent ps (qs, err e) =
    (qs.broadcast ≡ ps.broadcast)
    ⊎ ((row : Record) × IsFresh ps row × (qs.broadcast ≡ record_message row ∷ ps.broadcast))
TxnSent ps (qs, ok (none, resp)) = qs.broadcast ≡ ps.broadcast
TxnSent ps (qs, ok (some row, resp)) =
    IsFresh ps row
    × (qs.broadcast ≡ commit_message row.revision ∷ record_message row ∷ ps.broadcast)

module _ (size : Record → ℕ) (like : Bytes → Bytes → Bool) (ps : Server) (o : Outside)
    (w : IsWellFormed ps.db.records)
    (new : latest_revision ps.db.records < ps.next_revision_id) where
  committed-TxnSent :
      (row : Record) (out : Server × Option TxnError)
      → IsFresh ps row
      → Sent ps row out
      → TxnSent ps (reply_committed size row out)
  committed-TxnSent row (qs, none) fresh h = (fresh, h)
  committed-TxnSent row (qs, some e) fresh (inl h) = inl h
  committed-TxnSent row (qs, some e) fresh (inr h) = inr (row, fresh, h)

  range-TxnSent : (out : RangeResult RangeResponse) → TxnSent ps (ps, reply_range size out)
  range-TxnSent (CommonApi.err e) = inl refl
  range-TxnSent (CommonApi.ok resp) = refl

  after_insert-TxnSent :
      (failure_ops : ℕ) (row : Record) (out : LocalDb.Result (Record × Db))
      → row.revision ≡ ps.next_revision_id
      → insert_record ps.db row o.now o.insert_fails ≡ out
      → TxnSent ps (after_insert size like ps failure_ops row o out)
  unfolding after_insert
  after_insert-TxnSent failure_ops row (LocalDb.err e) rev h =
      elim (Bool-cases (is_compare_failure e && failure_ops == 1)) [
        | inl compared ↦ simp compared (range-TxnSent _)
        | inr other ↦ simp other (inl refl)
      ]
  after_insert-TxnSent failure_ops row (LocalDb.ok (inserted, tx_db)) rev h =
      let done = without_failure ps.db row o.now o.insert_fails inserted tx_db h in
      let above : latest_revision ps.db.records < row.revision = rw rev new in
      let (agreed, is_next, rows, rest) =
        insert_record-inv ps.db row o.now inserted tx_db w above done in
      committed-TxnSent inserted _
        (record {
          revision = ap (λ (q : Record). q.revision) is_next ∙ rev;
          free = insert_record-free ps.db row o.now o.insert_fails inserted tx_db h;
        })
        (execute-Sent size ps o tx_db inserted (strategy_of size ps))

  after_parse-TxnSent :
      (failure_ops : ℕ) (parsed : TxnResult Record)
      → TxnSent ps (after_parse size like ps failure_ops o parsed)
  unfolding after_parse
  after_parse-TxnSent failure_ops (err e) = inl refl
  after_parse-TxnSent failure_ops (ok parsed) = elim (Bool-cases o.begin_fails) [
    | inl fails ↦ simp fails (inl refl)
    | inr begun ↦
        simp begun (after_insert-TxnSent failure_ops (assigned size ps parsed) _ refl refl)
  ]

  pub leader_txn-TxnSent : (r : TxnRequest) → TxnSent ps (leader_txn size like ps r o)
  unfolding leader_txn
  leader_txn-TxnSent r = elim (Bool-cases (primary_eq ps.state.primary active)) [
    | inr passive ↦ simp passive (inl refl)
    | inl serving ↦ elim (Bool-cases o.cancelled) [
      | inl gone ↦ simp (serving, gone) (inl refl)
      | inr here ↦
          simp (serving, here) (after_parse-TxnSent (length r.failure) (parse_txn_request r))
    ]
  ]
