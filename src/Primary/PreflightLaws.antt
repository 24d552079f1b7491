-- ===== src/Primary/PreflightLaws.antt =====
-- A pass of the preflight that succeeds makes the Primary consistent, and all that it commits durable.
use std.Path.{subst}
use netsy.Base.{
  ℕ, ◌≤◌, ◌≡◌, refl, Bool, Option, none, some, List, [], ◌∷◌, arith, All, ◌⊎◌, inl, inr, ltb, ◌==◌,
  ◌||◌, Bool-cases, select, All-sort_by, sort_by-All, select-All,
}
use netsy.LocalDb.{Record, Db, Result, ok, err, latest_revision}
use netsy.LocalDb.Latest.{RowOk, IsWellFormed}
use netsy.LocalDb.FindAll.{find_records_after_revision}
use netsy.LocalDb.Compact.{
  latest_compaction_revision, derive_compaction_revision, persist_compaction_revision,
}
use netsy.LocalDb.CompactedTo.{latest-persist_compaction_revision, persist_compaction-records}
use netsy.Datastore.{Chunk, list_chunks}
use netsy.Datastore.ImportLaws.{IsUploaded, HasChunk, IsFaithful}
use netsy.Primary.LeaderTxn.{Server}
use netsy.Primary.Commits.{IsConsistent}
use netsy.Primary.Preflight.{
  Pass, PreflightError, Uploads, settle_compaction, Outcome, activate, after_uploads, after_initial,
  after_import, snapshot_revision, run_preflight_pass,
}
use netsy.Primary.PreflightSteps.{
  ChunksOk, OnImport, import_chunks-OnImport, OnInitial, insert_initial-OnInitial, OnUploads,
  upload_records-OnUploads,
}

-- Every row is at or below the durable revision, or is in object storage by itself.
abbrev pub IsDurable : ℕ → List Chunk → Record → Type 0
IsDurable durable objects r = (r.revision ≤ durable) ⊎ IsUploaded r objects

selected-IsDurable :
    (durable : ℕ) (objects : List Chunk) (rs : List Record)
    → All (λ r. IsUploaded r objects) (select (λ (r : Record). ltb durable r.revision) rs)
    → All (IsDurable durable objects) rs
selected-IsDurable durable objects [] h = tt
selected-IsDurable durable objects (r ∷ rs) h = elim (Bool-cases (ltb durable r.revision)) [
  | inl e ↦
      let k : IsUploaded r objects
          × All (λ r. IsUploaded r objects) (select (λ (r : Record). ltb durable r.revision) rs) =
        simp e at h in
      (inr k.0, selected-IsDurable durable objects rs k.1)
  | inr e ↦ (inl (ground arith), selected-IsDurable durable objects rs (simp e at h))
]

-- What the Primary has reached when a pass has succeeded. `durable` is the revision of the latest
-- snapshot or of a chunk that was found.
pub record Ready (p : Pass) (objects : List Chunk) (qs : Server) (objects' : List Chunk)
    : Type 0 where
  pub consistent : IsConsistent qs
  pub all_committed : qs.state.committed ≡ latest_revision qs.db.records
  pub compaction_known : qs.state.compaction ≡ latest_compaction_revision qs.db
  pub durable : ℕ
  pub from :
      (durable ≡ snapshot_revision p.latest_snapshot) ⊎ HasChunk durable (list_chunks objects 0)
  pub rows : All (IsDurable durable objects') qs.db.records

abbrev pub OnPass : Pass → List Chunk → Outcome → Type 0
OnPass p objects (qs, objects', none) = Ready p objects qs objects'
OnPass p objects (qs, objects', some e) = IsWellFormed qs.db.records

persisted-latest :
    (db : Db) (now : ℕ)
    → latest_compaction_revision db ≡ 0
    → let rev = derive_compaction_revision db in
      rev ≡ latest_compaction_revision (persist_compaction_revision db rev now)
persisted-latest db now h =
    let rev = derive_compaction_revision db in
    ground (arith, latest-persist_compaction_revision db rev now)

-- The settled compaction revision is the database's, whose rows are as before.
abbrev OnSettled : Db → Result (ℕ × Db) → Type 0
OnSettled before (err e) = Unit
OnSettled before (ok (compaction, db)) =
    (compaction ≡ latest_compaction_revision db) × (db.records ≡ before.records)

settle-OnSettled : (p : Pass) (db : Db) → OnSettled db (settle_compaction p db)
unfolding settle_compaction
settle-OnSettled p db = elim (Bool-cases p.read_compaction_fails) [
  | inl e ↦ simp e tt
  | inr read ↦ elim (Bool-cases (latest_compaction_revision db == 0)) [
    | inr e ↦ simp (read, e) (refl, refl)
    | inl unset ↦ elim (Bool-cases (p.derive_fails || p.persist_fails)) [
      | inl e ↦ simp (read, unset, e) tt
      | inr fine ↦
          let at_zero : latest_compaction_revision db ≡ 0 = ground arith in
          simp (read, unset, fine)
            (
              persisted-latest db p.now at_zero,
              persist_compaction-records db (derive_compaction_revision db) p.now,
            )
    ]
  ]
]

module _ (p : Pass) (objects : List Chunk) (durable : ℕ)
    (from : (durable ≡ snapshot_revision p.latest_snapshot)
      ⊎ HasChunk durable (list_chunks objects 0)) where
  activate-OnPass :
      (ps : Server) (objects' : List Chunk) (settled : Result (ℕ × Db))
      → IsWellFormed ps.db.records
      → All (IsDurable durable objects') ps.db.records
      → OnSettled ps.db settled
      → OnPass p objects (activate p ps objects' settled)
  activate-OnPass ps objects' (err e) w rows h = w
  activate-OnPass ps objects' (ok (compaction, db)) w rows h =
      elim (Bool-cases p.read_latest_fails) [
        | inl e ↦ simp e (rw (h.1) w)
        | inr fine ↦ simp fine (record {
          consistent = record {
            well_formed = rw (h.1) w;
            next_is = refl;
            committed_le = omega arith;
          };
          all_committed = refl;
          compaction_known = h.0;
          durable = durable;
          from = from;
          rows = rw (h.1) rows;
        })
      ]

listed_positive :
    (objects : List Chunk) → All (λ (c : Chunk). 1 ≤ c.revision) (list_chunks objects 0)
unfolding list_chunks
listed_positive objects =
    sort_by-All (λ (c : Chunk). 1 ≤ c.revision) (λ (c : Chunk). c.revision) _ (above_zero objects)
  where
    above_zero :
        (cs : List Chunk)
        → All (λ (c : Chunk). 1 ≤ c.revision) (select (λ (c : Chunk). ltb 0 c.revision) cs)
    above_zero [] = tt
    above_zero (c ∷ cs) = elim (Bool-cases (ltb 0 c.revision)) [
      | inl e ↦ simp e (ground arith, above_zero cs)
      | inr e ↦ simp e (above_zero cs)
    ]

listed-ChunksOk : (objects : List Chunk) → ChunksOk objects → ChunksOk (list_chunks objects 0)
unfolding list_chunks
listed-ChunksOk objects h =
    sort_by-All (λ (c : Chunk). All RowOk c.records) (λ (c : Chunk). c.revision) _
      (select-All (λ (c : Chunk). All RowOk c.records) (λ (c : Chunk). ltb 0 c.revision) objects h)

module _ (same : Chunk → Chunk → Bool) (faithful : IsFaithful same) (p : Pass)
    (objects : List Chunk) where
  uploads-OnPass :
      (durable : ℕ) (ps : Server) (out : Uploads × Option PreflightError)
      → ((durable ≡ snapshot_revision p.latest_snapshot) ⊎ HasChunk durable (list_chunks objects 0))
      → IsWellFormed ps.db.records
      → OnUploads same faithful p (find_records_after_revision ps.db durable) objects out
      → OnPass p objects (after_uploads p ps out)
  unfolding find_records_after_revision
  uploads-OnPass durable ps (u, some e) from w h = w
  uploads-OnPass durable ps (u, none) from w h =
      let stored = All-sort_by (λ r. IsUploaded r u.objects) (λ (r : Record). r.revision) _ h.0 in
      activate-OnPass p objects durable from (record ps { broadcast = u.messages }) u.objects
        (settle_compaction p ps.db) w (selected-IsDurable durable u.objects ps.db.records stored)
        (settle-OnSettled p ps.db)

  initial-OnPass :
      (durable : ℕ) (ps : Server) (out : Db × Option PreflightError)
      → ((durable ≡ snapshot_revision p.latest_snapshot) ⊎ HasChunk durable (list_chunks objects 0))
      → OnInitial out
      → OnPass p objects (after_initial same p ps objects durable out)
  initial-OnPass durable ps (db, some e) from w = w
  initial-OnPass durable ps (db, none) from w = elim (Bool-cases p.find_fails) [
    | inl e ↦ simp e w
    | inr fine ↦ simp fine (
        uploads-OnPass durable (record ps { db = db }) _ from w
          (upload_records-OnUploads same faithful p (find_records_after_revision db durable)
            (record { objects = objects; messages = ps.broadcast })))
  ]

  import-OnPass :
      (ps : Server) (out : Db × ℕ × Option PreflightError)
      → OnImport (list_chunks objects 0) ps.db (snapshot_revision p.latest_snapshot) out
      → OnPass p objects (after_import same p ps objects (latest_revision ps.db.records) out)
  import-OnPass ps (db, durable, some e) h = h
  import-OnPass ps (db, durable, none) h = initial-OnPass durable ps _ h.from (
      insert_initial-OnInitial p ps.node_id durable (latest_revision ps.db.records) db h.well_formed
        (λ at_zero none_yet.
          let same_db = h.nothing at_zero (listed_positive objects) in
          rw same_db (rw none_yet (omega arith))))

  pub pass-OnPass :
      (ps : Server)
      → IsWellFormed ps.db.records
      → ChunksOk objects
      → OnPass p objects (run_preflight_pass same p ps objects)
  unfolding run_preflight_pass
  pass-OnPass ps w good = elim (Bool-cases p.read_fails) [
    | inl e ↦ simp e w
    | inr read ↦ elim (Bool-cases p.snapshot_fails) [
      | inl e ↦ simp (read, e) w
      | inr found ↦
          elim (Bool-cases
            (ltb (latest_revision ps.db.records) (snapshot_revision p.latest_snapshot))) [
              | inl e ↦ simp (read, found, e) w
              | inr ahead ↦ elim (Bool-cases p.list_fails) [
                | inl e ↦ simp (read, found, ahead, e) w
                | inr listed ↦
                    simp (read, found, ahead, listed)
                      (import-OnPass ps _ (
                        import_chunks-OnImport p (latest_revision ps.db.records)
                          (list_chunks objects 0) ps.db (snapshot_revision p.latest_snapshot) w
                          (listed-ChunksOk objects good)))
              ]
            ]
    ]
  ]

  -- A pass of the preflight that returns nil, over a well-formed table and over chunks whose rows
  -- are such as a Primary writes, has made the Primary consistent: all of its rows are committed, the
  -- next revision is one above them, and the compaction revision in memory is the database's. And
  -- all that it commits is durable: a row is at or below the revision of the latest snapshot or of a
  -- chunk that was found, or an object of its own holds it.
  pub run_preflight_pass-Ready :
      (ps qs : Server) (objects' : List Chunk)
      → IsWellFormed ps.db.records
      → ChunksOk objects
      → run_preflight_pass same p ps objects ≡ (qs, objects', none)
      → Ready p objects qs objects'
  run_preflight_pass-Ready ps qs objects' w good h =
      subst (OnPass p objects) h (pass-OnPass ps w good)
