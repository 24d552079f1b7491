-- ===== src/Primary/Outcomes.antt =====
-- What the two paths of a write leave behind when they commit and when they fail.
use netsy.Base.{ℕ, ◌+◌, ◌≡◌, refl, Bool, Option, none, some, arith, inl, inr, Bool-cases, ◌==◌}
use netsy.NodeState.{State, PrimaryState, draining, set_primary, set_committed}
use netsy.LocalDb.{Record, Db}
use netsy.Primary.Quorum.{TxnStrategy, wait}
use netsy.Primary.ChunkBuffer.{ChunkBuffer, buffer_record, transition_to_draining}
use netsy.Primary.Txn.{TxnError}
use netsy.Primary.LeaderTxn.{
  Server, Outside, write_record, collected, execute, execute_object_storage_txn, execute_quorum_txn,
  roll_back, commit_quorum, start_object_storage_recovery, check_and_create_snapshot,
}

-- The write is the newest of the server, and is committed.
pub record Committed (ps : Server) (tx_db : Db) (row : Record) (qs : Server) : Type 0 where
  pub stored : qs.db ≡ tx_db
  pub counted : qs.next_revision_id ≡ ps.next_revision_id + 1
  pub visible : qs.state.committed ≡ row.revision

-- No trace of the write is left that a client can see, and its revision is free.
pub record Kept (ps qs : Server) : Type 0 where
  pub stored : qs.db ≡ ps.db
  pub counted : qs.next_revision_id ≡ ps.next_revision_id
  pub visible : qs.state.committed ≡ ps.state.committed

pub Kept-refl : (ps : Server) → Kept ps ps
Kept-refl ps = record { stored = refl; counted = refl; visible = refl }

abbrev pub Outcome : (ps : Server) (tx_db : Db) (row : Record) → Server × Option TxnError → Type 0
Outcome ps tx_db row (qs, none) = Committed ps tx_db row qs
Outcome ps tx_db row (qs, some e) = Kept ps qs

set_primary-committed : (s : State) (p : PrimaryState) → (set_primary s p).0.committed ≡ s.committed
unfolding set_primary
set_primary-committed s p = ground arith

transition_to_draining-committed : (s : State) → (transition_to_draining s).committed ≡ s.committed
unfolding transition_to_draining
transition_to_draining-committed s = ground (arith, set_primary-committed s draining)

module _ {ps : Server} {tx_db : Db} {row : Record} (qs : Server) (record_size : ℕ) where
  snapshot-Committed :
      Committed ps tx_db row qs
      → Committed ps tx_db row (check_and_create_snapshot qs row.revision record_size)
  snapshot-Committed c = elim (Bool-cases (qs.state.committed == 0)) [
    | inl none_yet ↦ simp none_yet c
    | inr some_yet ↦
        simp some_yet (record { stored = c.stored; counted = c.counted; visible = c.visible })
  ]

module _ (size : Record → ℕ) where
  buffer_record-committed :
      (b : ChunkBuffer) (s : State) (r : Record) (now : ℕ) (uploaded : Bool)
      → (buffer_record size b s r now uploaded).1.committed ≡ s.committed
  unfolding buffer_record
  buffer_record-committed b s r now uploaded = ground (arith, transition_to_draining-committed s)

  module _ (ps : Server) (tx_db : Db) (row : Record) (o : Outside) where
    object_storage-Outcome : Outcome ps tx_db row (execute_object_storage_txn size ps tx_db row o)
    unfolding execute_object_storage_txn start_object_storage_recovery
    object_storage-Outcome = elim (Bool-cases (write_record o)) [
      | inr lost ↦ simp lost (record {
        stored = refl;
        counted = refl;
        visible = transition_to_draining-committed ps.state;
      })
      | inl there ↦ elim (Bool-cases o.commit_fails) [
        | inl fails ↦
            simp (there, fails)
              (record {
                stored = refl;
                counted = refl;
                visible = set_primary-committed ps.state draining;
              })
        | inr fine ↦
            simp (there, fine)
              (snapshot-Committed _ _ (record { stored = refl; counted = refl; visible = refl }))
      ]
    ]

    commit_quorum-Committed : Committed ps tx_db row (commit_quorum size ps tx_db row o)
    unfolding commit_quorum
    commit_quorum-Committed =
        let same =
          buffer_record-committed ps.chunk_buffer (set_committed ps.state row.revision) row o.now
            o.buffer_upload in
        snapshot-Committed _ _ (record { stored = refl; counted = refl; visible = same })

    quorum-Outcome :
        (strategy : TxnStrategy)
        → Outcome ps tx_db row (execute_quorum_txn size ps tx_db row strategy o)
    unfolding execute_quorum_txn roll_back
    quorum-Outcome strategy = elim (Bool-cases (wait (collected size row strategy o) o.timer_won)) [
      | inr missed ↦ simp missed (record { stored = refl; counted = refl; visible = refl })
      | inl met ↦ elim (Bool-cases o.commit_fails) [
        | inl fails ↦ simp (met, fails) (record { stored = refl; counted = refl; visible = refl })
        | inr fine ↦ simp (met, fine) commit_quorum-Committed
      ]
    ]

    pub execute-Outcome :
        (strategy : TxnStrategy) → Outcome ps tx_db row (execute size ps tx_db row strategy o)
    unfolding execute
    execute-Outcome strategy = elim (Bool-cases strategy.use_quorum) [
      | inl quorum ↦ simp quorum (quorum-Outcome strategy)
      | inr sync ↦ simp sync object_storage-Outcome
    ]
