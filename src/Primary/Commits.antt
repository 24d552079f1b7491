-- ===== src/Primary/Commits.antt =====
-- What a transaction of the Primary changes, and the invariant of its revisions.
use netsy.Base.{
  ℕ, ◌+◌, ◌≤◌, ◌<◌, ◌≡◌, refl, ap, ◌∙◌, Bool, true, false, Option, none, some, List, [], ◌∷◌, arith,
  inl, inr, Bytes, Bool-cases, ◌==◌, ◌&&◌, length,
}
use std.Path.{subst}
use netsy.NodeState.{active, primary_eq}
use netsy.LocalDb.{Record, Db, DbError, latest_revision}
use netsy.LocalDb as LocalDb
use netsy.LocalDb.Latest.{IsWellFormed, latest_revision-newest}
use netsy.LocalDb.Insert.{insert_record}
use netsy.LocalDb.InsertLaws.{insert_record-inv, insert_record-IsWellFormed}
use netsy.Etcd.{TxnRequest, TxnResponse, RangeResponse}
use netsy.CommonApi.{RangeResult}
use netsy.CommonApi as CommonApi
use netsy.Primary.Txn.{TxnError, TxnResult, ok, err, parse_txn_request, build_txn_response}
use netsy.Primary.LeaderTxn.{
  Server, Outside, strategy_of, reply_committed, reply_range, is_compare_failure, after_insert,
  after_parse, assigned, leader_txn, initialize_revision_counter,
}
use netsy.Primary.Outcomes.{Kept, Kept-refl, Outcome, execute-Outcome}

-- The row is the newest of the table, has the revision that was next, and is answered.
pub record Written (ps qs : Server) (row : Record) (resp : TxnResponse) : Type 0 where
  pub revision : row.revision ≡ ps.next_revision_id
  pub stored : qs.db.records ≡ row ∷ ps.db.records
  pub counted : qs.next_revision_id ≡ ps.next_revision_id + 1
  pub visible : qs.state.committed ≡ ps.next_revision_id
  pub answered : (resp.header_revision ≡ ps.next_revision_id) × (resp.succeeded ≡ true)
  pub well_formed : IsWellFormed qs.db.records

abbrev pub TxnOutcome : Server → Server × TxnResult (Option Record × TxnResponse) → Type 0
TxnOutcome ps (qs, err e) = Kept ps qs
TxnOutcome ps (qs, ok (none, resp)) = Kept ps qs
TxnOutcome ps (qs, ok (some row, resp)) = Written ps qs row resp

pub without_failure :
    (db : Db) (r : Record) (now : ℕ) (fails : Bool) (row : Record) (after : Db)
    → insert_record db r now fails ≡ LocalDb.ok (row, after)
    → insert_record db r now false ≡ LocalDb.ok (row, after)
unfolding insert_record
without_failure db r now fails row after h = ground arith

module _ (size : Record → ℕ) (like : Bytes → Bytes → Bool) (ps : Server) (o : Outside)
    (w : IsWellFormed ps.db.records)
    (new : latest_revision ps.db.records < ps.next_revision_id) where
  committed-TxnOutcome :
      (row : Record) (tx_db : Db) (out : Server × Option TxnError)
      → row.revision ≡ ps.next_revision_id
      → tx_db.records ≡ row ∷ ps.db.records
      → IsWellFormed tx_db.records
      → Outcome ps tx_db row out
      → TxnOutcome ps (reply_committed size row out)
  unfolding build_txn_response
  committed-TxnOutcome row tx_db (qs, some e) rev inserted good h = h
  committed-TxnOutcome row tx_db (qs, none) rev inserted good h = record {
    revision = rev;
    stored = ap (λ (d : Db). d.records) h.stored ∙ inserted;
    counted = h.counted;
    visible = h.visible ∙ rev;
    answered = (rev, refl);
    well_formed = rw (h.stored) good;
  }

  range-TxnOutcome : (out : RangeResult RangeResponse) → TxnOutcome ps (ps, reply_range size out)
  range-TxnOutcome (CommonApi.err e) = Kept-refl ps
  range-TxnOutcome (CommonApi.ok resp) = Kept-refl ps

  after_insert-TxnOutcome :
      (failure_ops : ℕ) (row : Record) (out : LocalDb.Result (Record × Db))
      → row.revision ≡ ps.next_revision_id
      → insert_record ps.db row o.now o.insert_fails ≡ out
      → TxnOutcome ps (after_insert size like ps failure_ops row o out)
  unfolding after_insert
  after_insert-TxnOutcome failure_ops row (LocalDb.err e) rev h =
      elim (Bool-cases (is_compare_failure e && failure_ops == 1)) [
        | inl compared ↦ simp compared (range-TxnOutcome _)
        | inr other ↦ simp other (Kept-refl ps)
      ]
  after_insert-TxnOutcome failure_ops row (LocalDb.ok (inserted, tx_db)) rev h =
      let done = without_failure ps.db row o.now o.insert_fails inserted tx_db h in
      let above : latest_revision ps.db.records < row.revision = rw rev new in
      let (agreed, is_next, rows, rest) =
        insert_record-inv ps.db row o.now inserted tx_db w above done in
      committed-TxnOutcome inserted tx_db _ (ap (λ (q : Record). q.revision) is_next ∙ rev) rows
        (insert_record-IsWellFormed ps.db row o.now inserted tx_db w above done)
        (execute-Outcome size ps tx_db inserted o (strategy_of size ps))

  after_parse-TxnOutcome :
      (failure_ops : ℕ) (parsed : TxnResult Record)
      → TxnOutcome ps (after_parse size like ps failure_ops o parsed)
  unfolding after_parse
  after_parse-TxnOutcome failure_ops (err e) = Kept-refl ps
  after_parse-TxnOutcome failure_ops (ok parsed) = elim (Bool-cases o.begin_fails) [
    | inl fails ↦ simp fails (Kept-refl ps)
    | inr begun ↦
        simp begun (after_insert-TxnOutcome failure_ops (assigned size ps parsed) _ refl refl)
  ]

  pub leader_txn-TxnOutcome : (r : TxnRequest) → TxnOutcome ps (leader_txn size like ps r o)
  unfolding leader_txn
  leader_txn-TxnOutcome r = elim (Bool-cases (primary_eq ps.state.primary active)) [
    | inr passive ↦ simp passive (Kept-refl ps)
    | inl serving ↦ elim (Bool-cases o.cancelled) [
      | inl gone ↦ simp (serving, gone) (Kept-refl ps)
      | inr here ↦
          simp (serving, here) (after_parse-TxnOutcome (length r.failure) (parse_txn_request r))
    ]
  ]

-- The revision counter is one above the table's, and no revision that is not stored is committed.
pub record IsConsistent (ps : Server) : Type 0 where
  pub well_formed : IsWellFormed ps.db.records
  pub next_is : ps.next_revision_id ≡ latest_revision ps.db.records + 1
  pub committed_le : ps.state.committed ≤ latest_revision ps.db.records

-- The server once it has counted the revisions of a table that is well formed.
initialize-IsConsistent :
    (ps : Server)
    → IsWellFormed ps.db.records
    → ps.state.committed ≤ latest_revision ps.db.records
    → IsConsistent (initialize_revision_counter ps)
unfolding initialize_revision_counter
initialize-IsConsistent ps w le = record { well_formed = w; next_is = refl; committed_le = le }

pub above_latest :
    (ps : Server) → IsConsistent ps → latest_revision ps.db.records < ps.next_revision_id
above_latest ps c = omega (arith, c.next_is)

Kept-IsConsistent :
    (ps qs : Server)
    → IsConsistent ps
    → Kept ps qs
    → IsConsistent qs × (ps.state.committed ≤ qs.state.committed)
Kept-IsConsistent ps qs c h = (
  record {
    well_formed = rw (h.stored) c.well_formed;
    next_is = rw (h.stored, h.counted) c.next_is;
    committed_le = rw (h.stored, h.visible) c.committed_le;
  },
  omega (arith, h.visible),
)

TxnOutcome-IsConsistent :
    (ps : Server) (out : Server × TxnResult (Option Record × TxnResponse))
    → IsConsistent ps
    → TxnOutcome ps out
    → IsConsistent out.0 × (ps.state.committed ≤ out.0.state.committed)
TxnOutcome-IsConsistent ps (qs, err e) c h = Kept-IsConsistent ps qs c h
TxnOutcome-IsConsistent ps (qs, ok (none, resp)) c h = Kept-IsConsistent ps qs c h
TxnOutcome-IsConsistent ps (qs, ok (some row, resp)) c h =
    let newest =
      ap latest_revision h.stored
      ∙ latest_revision-newest row ps.db.records (rw (h.revision) (above_latest ps c)) in
    (
      record {
        well_formed = h.well_formed;
        next_is = omega (arith, newest, h.counted, h.revision, c.next_is);
        committed_le = omega (arith, newest, h.visible, h.revision);
      },
      omega (arith, h.visible, c.next_is, c.committed_le),
    )

-- One transaction after the other, each with what happens outside meanwhile.
unfoldable pub serve :
    (size : Record → ℕ) (like : Bytes → Bytes → Bool)
    → Server
    → List (TxnRequest × Outside)
    → Server
unfolding leader_txn
serve size like ps [] = ps
serve size like ps ((r, o) ∷ rest) = serve size like (leader_txn size like ps r o).0 rest

module _ (size : Record → ℕ) (like : Bytes → Bytes → Bool) where
  pub step-IsConsistent :
      (ps : Server) (r : TxnRequest) (o : Outside)
      → IsConsistent ps
      → let qs = (leader_txn size like ps r o).0 in
        IsConsistent qs × (ps.state.committed ≤ qs.state.committed)
  step-IsConsistent ps r o c =
      TxnOutcome-IsConsistent ps (leader_txn size like ps r o) c
        (leader_txn-TxnOutcome size like ps o c.well_formed (above_latest ps c) r)

  -- Whatever transactions a Primary serves, and whatever fails meanwhile, a consistent server stays
  -- consistent: its table is well formed, its revision counter is one above the table's latest
  -- revision, and no revision is committed that is not stored. The committed revision never falls.
  pub serve-IsConsistent :
      (txns : List (TxnRequest × Outside)) (ps : Server)
      → IsConsistent ps
      → IsConsistent (serve size like ps txns)
        × (ps.state.committed ≤ (serve size like ps txns).state.committed)
  unfolding serve
  serve-IsConsistent [] ps c = (c, omega arith)
  serve-IsConsistent ((r, o) ∷ rest) ps c =
      let (kept, grown) = step-IsConsistent ps r o c in
      let qs = (leader_txn size like ps r o).0 in
      let (good, later) = serve-IsConsistent rest qs kept in (good, omega arith)

  module _ (ps : Server) (r : TxnRequest) (o : Outside) (qs : Server) (c : IsConsistent ps) where
    -- A transaction of a consistent server that answers with a record has stored the record in front
    -- of the table, under the next revision, has committed and counted that revision, and has
    -- answered success with it; the table is still well formed.
    pub leader_txn-Written :
        (row : Record) (resp : TxnResponse)
        → leader_txn size like ps r o ≡ (qs, ok (some row, resp))
        → Written ps qs row resp
    leader_txn-Written row resp h =
        subst (TxnOutcome ps) h
          (leader_txn-TxnOutcome size like ps o c.well_formed (above_latest ps c) r)

    -- A transaction of a consistent server that ends in an error, whatever failed and when, leaves
    -- the database, the revision counter and the committed revision as they were.
    pub leader_txn-rolled_back :
        (e : TxnError) → leader_txn size like ps r o ≡ (qs, err e) → Kept ps qs
    leader_txn-rolled_back e h =
        subst (TxnOutcome ps) h
          (leader_txn-TxnOutcome size like ps o c.well_formed (above_latest ps c) r)
