-- ===== src/Primary/Durable.antt =====
-- Where the record of an answered transaction is kept.
use std.Path.{subst}
use netsy.Base.{
  ℕ, ◌≤◌, ◌≡◌, String, Bool, true, Option, none, some, List, ◌∷◌, arith, ◌⊎◌, inl, inr, Bytes,
  Bool-cases, ◌==◌, ◌&&◌, length, ℤ,
}
use netsy.NodeState.{active, primary_eq}
use netsy.LocalDb.{Record, Db}
use netsy.LocalDb as LocalDb
use netsy.Etcd.{TxnRequest, TxnResponse, RangeResponse}
use netsy.CommonApi.{RangeResult}
use netsy.CommonApi as CommonApi
use netsy.Primary.Quorum.{TxnStrategy, required_receipts, select_txn_strategy, wait}
use netsy.Primary.Replicas.{healthy_for_quorum_count}
use netsy.Primary.Receipts.{NoRepeat, AllIn, senders, wait_sound}
use netsy.Primary.Txn.{TxnError, TxnResult, ok, err, parse_txn_request}
use netsy.Primary.LeaderTxn.{
  Server, Outside, write_record, collected, execute_object_storage_txn, execute_quorum_txn, execute,
  strategy_of, reply_committed, reply_range, is_compare_failure, after_insert, after_parse,
  assigned, leader_txn, check_and_create_snapshot,
}

-- The majority that a strategy with a quorum asks for.
strategy_quorum :
    (quorum : ℤ) (node_count eligible : ℕ)
    → let strategy = select_txn_strategy quorum node_count eligible in
      strategy.use_quorum ≡ true
      → (strategy.required ≡ required_receipts quorum node_count) × (1 ≤ strategy.required)
unfolding select_txn_strategy
strategy_quorum quorum node_count eligible h = ground arith

module _ (ps : Server) (o : Outside) where
  abbrev pub HasQuorum : (revision : ℕ) → Type 0
  HasQuorum revision =
      (ids : List String) × NoRepeat ids
      × AllIn ids (senders revision o.receipts)
      × (required_receipts ps.quorum ps.state.cluster.node_count ≤ length ids)
      × (1 ≤ length ids)

  abbrev pub InStorage : Record → Server → Type 0
  InStorage row qs =
      ((o.first_upload ≡ true) ⊎ (o.second_upload ≡ true)) × (qs.uploaded ≡ row ∷ ps.uploaded)

  abbrev pub Durable : Record → Server → Type 0
  Durable row qs = InStorage row qs ⊎ HasQuorum row.revision

  abbrev DurableOutcome : Record → Server × Option TxnError → Type 0
  DurableOutcome row (qs, none) = Durable row qs
  DurableOutcome row (qs, some e) = Unit

  abbrev DurableReply : Server × TxnResult (Option Record × TxnResponse) → Type 0
  DurableReply (qs, ok (some row, resp)) = Durable row qs
  DurableReply (qs, ok (none, resp)) = Unit
  DurableReply (qs, err e) = Unit

  snapshot-uploaded :
      (qs : Server) (revision n : ℕ)
      → (check_and_create_snapshot qs revision n).uploaded ≡ qs.uploaded
  snapshot-uploaded qs revision n = ground arith

  one_attempt : write_record o ≡ true → (o.first_upload ≡ true) ⊎ (o.second_upload ≡ true)
  one_attempt there = ground arith

  module _ (size : Record → ℕ) (tx_db : Db) (row : Record) where
    object_storage-Durable : DurableOutcome row (execute_object_storage_txn size ps tx_db row o)
    unfolding execute_object_storage_txn
    object_storage-Durable = elim (Bool-cases (write_record o)) [
      | inr lost ↦ simp lost tt
      | inl there ↦ elim (Bool-cases o.commit_fails) [
        | inl fails ↦ simp (there, fails) tt
        | inr fine ↦
            simp (there, fine)
              (inl (one_attempt there, snapshot-uploaded _ row.revision (size row)))
      ]
    ]

    quorum-Durable :
        (strategy : TxnStrategy)
        → strategy.required ≡ required_receipts ps.quorum ps.state.cluster.node_count
        → 1 ≤ strategy.required
        → DurableOutcome row (execute_quorum_txn size ps tx_db row strategy o)
    unfolding execute_quorum_txn
    quorum-Durable strategy same positive =
        elim (Bool-cases (wait (collected size row strategy o) o.timer_won)) [
          | inr missed ↦ simp missed tt
          | inl met ↦
              let (once, all, enough) =
                wait_sound row.revision strategy.required o.receipts positive o.timer_won met in
              let found : HasQuorum row.revision = (
                (collected size row strategy o).acked,
                once,
                all,
                omega (arith, enough, same),
                omega (arith, enough, positive),
              ) in
              elim (Bool-cases o.commit_fails) [
                | inl fails ↦ simp (met, fails) tt
                | inr fine ↦ simp (met, fine) (inr found)
              ]
        ]

    execute-Durable : DurableOutcome row (execute size ps tx_db row (strategy_of size ps) o)
    unfolding execute
    execute-Durable = elim (Bool-cases (strategy_of size ps).use_quorum) [
      | inl quorum ↦
          let (same, positive) =
            strategy_quorum ps.quorum ps.state.cluster.node_count
              (healthy_for_quorum_count ps.replicas) quorum in
          simp quorum (quorum-Durable (strategy_of size ps) same positive)
      | inr sync ↦ simp sync object_storage-Durable
    ]

    reply_committed-Durable :
        (out : Server × Option TxnError)
        → DurableOutcome row out
        → DurableReply (reply_committed size row out)
    reply_committed-Durable (qs, some e) h = tt
    reply_committed-Durable (qs, none) h = h

  module _ (size : Record → ℕ) (like : Bytes → Bytes → Bool) where
    range-Durable : (out : RangeResult RangeResponse) → DurableReply (ps, reply_range size out)
    range-Durable (CommonApi.err e) = tt
    range-Durable (CommonApi.ok resp) = tt

    after_insert-Durable :
        (failure_ops : ℕ) (row : Record) (out : LocalDb.Result (Record × Db))
        → DurableReply (after_insert size like ps failure_ops row o out)
    unfolding after_insert
    after_insert-Durable failure_ops row (LocalDb.err e) =
        elim (Bool-cases (is_compare_failure e && failure_ops == 1)) [
          | inl compared ↦ simp compared (range-Durable _)
          | inr other ↦ simp other tt
        ]
    after_insert-Durable failure_ops row (LocalDb.ok (inserted, tx_db)) =
        reply_committed-Durable size tx_db inserted _ (execute-Durable size tx_db inserted)

    after_parse-Durable :
        (failure_ops : ℕ) (parsed : TxnResult Record)
        → DurableReply (after_parse size like ps failure_ops o parsed)
    unfolding after_parse
    after_parse-Durable failure_ops (err e) = tt
    after_parse-Durable failure_ops (ok parsed) = elim (Bool-cases o.begin_fails) [
      | inl fails ↦ simp fails tt
      | inr begun ↦ simp begun (after_insert-Durable failure_ops (assigned size ps parsed) _)
    ]

    reply-Durable : (r : TxnRequest) → DurableReply (leader_txn size like ps r o)
    unfolding leader_txn
    reply-Durable r = elim (Bool-cases (primary_eq ps.state.primary active)) [
      | inr passive ↦ simp passive tt
      | inl serving ↦ elim (Bool-cases o.cancelled) [
        | inl gone ↦ simp (serving, gone) tt
        | inr here ↦
            simp (serving, here) (after_parse-Durable (length r.failure) (parse_txn_request r))
      ]
    ]

    -- A transaction that answers with a record has made it durable first: one of the two attempts
    -- put it into object storage, or Receipts for its revision came in from distinct nodes, at least
    -- as many as the configuration requires and at least one.
    pub leader_txn-Durable :
        (r : TxnRequest) (qs : Server) (row : Record) (resp : TxnResponse)
        → leader_txn size like ps r o ≡ (qs, ok (some row, resp))
        → Durable row qs
    leader_txn-Durable r qs row resp h = subst DurableReply h (reply-Durable r)
