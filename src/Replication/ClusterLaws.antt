-- ===== src/Replication/ClusterLaws.antt =====
-- A Primary that serves transactions and a Replica that follows it.
use netsy.Base.{
  ℕ, ◌<◌, ◌≡◌, refl, ◌≢◌, sym, ◌∙◌, Bool, Option, none, some, List, [], ◌∷◌, arith, All, inl, inr,
  Bytes,
}
use netsy.LocalDb.{Record}
use netsy.LocalDb.Latest.{fresh-Distinct}
use netsy.Etcd.{TxnResponse}
use netsy.Primary.Txn.{TxnResult, ok, err}
use netsy.Primary.LeaderTxn.{Message, record_message, commit_message, Server, leader_txn}
use netsy.Primary.Commits.{
  IsConsistent, TxnOutcome, leader_txn-TxnOutcome, step-IsConsistent, above_latest,
}
use netsy.Primary.Broadcasts.{IsFresh, TxnSent, leader_txn-TxnSent}
use netsy.Replication.{Follower}
use netsy.Replication.Stream.{Outside, Handled, going, failed, panicked, handle, handle_record}
use netsy.Replication.Copies.{copy_revision, IsFine, HasRevision, persist-IsAdded}
use netsy.Replication.Cluster.{Step, deliver, delivered, run_cluster}
use netsy.Replication.Synced.{
  IsSynced, OnGoing, Holds, after_persist-Holds, handle_commit-Holds, then-OnGoing, OnGoing-map,
}

module _ (ps : Server) (f : Follower) (around : Message → Outside)
    (fine : (m : Message) → IsFine (around m)) (c : IsConsistent ps) (s : IsSynced ps f) where
  handle_record-Holds :
      (row : Record)
      → IsFresh ps row
      → OnGoing
          (λ g. Holds g row s.copies ps.state.committed)
          (deliver around f (record_message row ∷ []))
  unfolding deliver handle handle_record
  handle_record-Holds row fresh =
      let above = above_latest ps c in
      let differ : All (λ r. r.revision ≢ row.revision) ps.db.records =
        fresh-Distinct row.revision ps.db.records (rw (fresh.revision) above) in
      let next : HasRevision row.revision s.tentative = rw (fresh.revision) (s.next_revision) in
      let bound : f.state.committed < row.revision =
        omega (arith, s.committed, c.committed_le, c.next_is, fresh.revision) in
      let added =
        persist-IsAdded f.db row f.state.committed (around (record_message row)) s.tentative
          s.copies ps.db.records s.shape next s.agree differ fresh.free bound
          (fine (record_message row)) in
      rw (← s.committed) (
        after_persist-Holds f row s.copies (around (record_message row)) (fine (record_message row))
          _ s.keys added)

  unchanged-IsSynced :
      (qs : Server)
      → qs.db ≡ ps.db
      → qs.next_revision_id ≡ ps.next_revision_id
      → qs.state.committed ≡ ps.state.committed
      → qs.broadcast ≡ []
      → OnGoing (IsSynced (delivered qs)) (deliver around f qs.broadcast)
  unfolding deliver
  unchanged-IsSynced qs db next committed sent = rw sent (record {
    tentative = s.tentative;
    copies = s.copies;
    shape = s.shape;
    next_revision = rw next (s.next_revision);
    agree = rw db (s.agree);
    committed = s.committed ∙ sym committed;
    keys = s.keys;
  })

  tentative-IsSynced :
      (qs : Server) (row : Record)
      → qs.db ≡ ps.db
      → qs.next_revision_id ≡ ps.next_revision_id
      → qs.state.committed ≡ ps.state.committed
      → IsFresh ps row
      → (g : Follower) → Holds g row s.copies ps.state.committed
      → IsSynced (delivered qs) g
  tentative-IsSynced qs row db next committed fresh g h = record {
    tentative = some h.head;
    copies = s.copies;
    shape = h.shape;
    next_revision = copy_revision h.head row h.same ∙ fresh.revision ∙ sym next;
    agree = rw db (s.agree);
    committed = h.committed ∙ sym committed;
    keys = h.keys;
  }

  committed-IsSynced :
      (qs : Server) (row : Record)
      → qs.db.records ≡ row ∷ ps.db.records
      → qs.state.committed ≡ row.revision
      → (g : Follower) → Holds g row s.copies row.revision
      → IsSynced (delivered qs) g
  committed-IsSynced qs row rows committed g h = record {
    tentative = none;
    copies = h.head ∷ s.copies;
    shape = h.shape;
    next_revision = tt;
    agree = rw rows (h.same, s.agree);
    committed = h.committed ∙ sym committed;
    keys = h.keys;
  }

  outcome-IsSynced :
      (out : Server × TxnResult (Option Record × TxnResponse))
      → ps.broadcast ≡ []
      → TxnOutcome ps out
      → TxnSent ps out
      → OnGoing (IsSynced (delivered out.0)) (deliver around f out.0.broadcast)
  unfolding deliver
  outcome-IsSynced (qs, err e) empty h (inl sent) =
      unchanged-IsSynced qs h.stored h.counted h.visible (sent ∙ empty)
  outcome-IsSynced (qs, err e) empty h (inr (row, fresh, sent)) =
      rw (sent, empty)
        (OnGoing-map _ _ _ (handle_record-Holds row fresh)
          (tentative-IsSynced qs row h.stored h.counted h.visible fresh))
  outcome-IsSynced (qs, ok (none, resp)) empty h sent =
      unchanged-IsSynced qs h.stored h.counted h.visible (sent ∙ empty)
  outcome-IsSynced (qs, ok (some row, resp)) empty h (fresh, sent) =
      rw (sent, empty)
        (then-OnGoing _ _ _ _ (handle_record-Holds row fresh) (λ g held.
          OnGoing-map _ _ _
            (handle_commit-Holds g row s.copies ps.state.committed row.revision
              (around (commit_message row.revision)) held)
            (committed-IsSynced qs row h.stored (h.visible ∙ sym h.revision))))

module _ (size : Record → ℕ) (like : Bytes → Bytes → Bool) where
  step-IsSynced :
      (ps : Server) (f : Follower) (s : Step)
      → ((m : Message) → IsFine (s.replica_around m))
      → IsConsistent ps
      → IsSynced ps f
      → ps.broadcast ≡ []
      → let qs = (leader_txn size like ps s.request s.around).0 in
        OnGoing (IsSynced (delivered qs)) (deliver s.replica_around f qs.broadcast)
  step-IsSynced ps f s fine c synced empty =
      outcome-IsSynced ps f s.replica_around fine c synced
        (leader_txn size like ps s.request s.around) empty
        (leader_txn-TxnOutcome size like ps s.around c.well_formed (above_latest ps c) s.request)
        (leader_txn-TxnSent size like ps s.around c.well_formed (above_latest ps c) s.request)

  delivered-IsConsistent : (ps : Server) → IsConsistent ps → IsConsistent (delivered ps)
  delivered-IsConsistent ps c = record {
    well_formed = c.well_formed;
    next_is = c.next_is;
    committed_le = c.committed_le;
  }

  abbrev pub AllFine : List Step → Type 0
  AllFine = All (λ (s : Step). (m : Message) → IsFine (s.replica_around m))

  going_on :
      (ps : Server) (h : Handled) (steps : List Step)
      → AllFine steps
      → IsConsistent ps
      → ps.broadcast ≡ []
      → OnGoing (IsSynced ps) h
      → let out = run_cluster size like ps h steps in OnGoing (IsSynced out.0) out.1
  unfolding run_cluster
  going_on ps h [] fine c empty synced = synced
  going_on ps (going f) (s ∷ rest) fine c empty synced =
      let qs = (leader_txn size like ps s.request s.around).0 in
      going_on (delivered qs) (deliver s.replica_around f qs.broadcast) rest fine.1
        (delivered-IsConsistent qs (step-IsConsistent size like ps s.request s.around c).0) refl
        (step-IsSynced ps f s fine.0 c synced empty)
  going_on ps (failed f e) (s ∷ rest) fine c empty synced = absurd synced
  going_on ps panicked (s ∷ rest) fine c empty synced = absurd synced

  -- A Replica that follows stays in agreement with its Primary. From a consistent Primary and a
  -- Replica in agreement with it, whatever transactions the Primary serves, those that fail and are
  -- rolled back after their record was broadcast among them: once each transaction's messages have
  -- come, and nothing on the Replica has failed, its stream goes on, its table holds the Primary's
  -- rows, the same for replication and in the same order, with at most one row more, which has the
  -- next revision and is not committed, and both have the same committed revision.
  pub run_cluster-IsSynced :
      (ps : Server) (f : Follower) (steps : List Step)
      → IsConsistent ps
      → IsSynced ps f
      → ps.broadcast ≡ []
      → AllFine steps
      → let out = run_cluster size like ps (going f) steps in OnGoing (IsSynced out.0) out.1
  run_cluster-IsSynced ps f steps c synced empty fine =
      going_on ps (going f) steps fine c empty synced
