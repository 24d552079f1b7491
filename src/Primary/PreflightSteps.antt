-- ===== src/Primary/PreflightSteps.antt =====
-- The steps of a pass of the preflight: the import, the initial record and the uploads.
use netsy.Base.{
  ℕ, ◌≤◌, ◌<◌, ◌≡◌, refl, sym, ◌∙◌, Bool, true, false, Option, none, some, List, [], ◌∷◌, arith,
  All, ◌⊎◌, inl, inr, leb, ltb, ◌==◌, ◌&&◌, Bool-cases, String,
}
use netsy.LocalDb.{Record, Db, Result, ok, err, latest_revision}
use netsy.LocalDb.Latest.{RowOk, IsWellFormed}
use netsy.LocalDb.Insert.{insert_record}
use netsy.LocalDb.InsertLaws.{insert_record-IsWellFormed}
use netsy.Datastore.{Chunk}
use netsy.Datastore.ImportLaws.{
  IsUploaded, HasChunk, IsFaithful, OnWritten, put_if_absent-OnWritten, download-IsWellFormed,
}
use netsy.Primary.LeaderTxn.{record_message}
use netsy.Primary.Commits.{without_failure}
use netsy.Primary.Preflight.{
  Pass, PreflightError, interrupted, max, import_turn, import_chunks, initial_record,
  inserted_initial, insert_initial, Uploads, upload_turn, upload_records,
}

-- The rows of every chunk are such as a Primary writes.
abbrev pub ChunksOk : List Chunk → Type 0
ChunksOk = All (λ (c : Chunk). All RowOk c.records)

-- After the loop over the chunks without an error.
pub record Imported (chunks : List Chunk) (before : Db) (durable : ℕ) (after : Db) (raised : ℕ)
    : Type 0 where
  pub well_formed : IsWellFormed after.records
  pub rises : durable ≤ raised
  pub from : (raised ≡ durable) ⊎ HasChunk raised chunks
  pub nothing : raised ≡ 0 → All (λ (c : Chunk). 1 ≤ c.revision) chunks → after ≡ before

abbrev pub OnImport : List Chunk → Db → ℕ → Db × ℕ × Option PreflightError → Type 0
OnImport chunks before durable (after, raised, none) = Imported chunks before durable after raised
OnImport chunks before durable (after, raised, some e) = IsWellFormed after.records

raised_from :
    (durable : ℕ) (c : Chunk) (raised : ℕ) (cs : List Chunk)
    → (raised ≡ max durable c.revision) ⊎ HasChunk raised cs
    → (raised ≡ durable) ⊎ HasChunk raised (c ∷ cs)
raised_from durable c raised cs (inr there) = inr (inr there)
raised_from durable c raised cs (inl e) = elim (Bool-cases (ltb durable c.revision)) [
  | inl up ↦ inr (inl (sym (e ∙ simp up refl)))
  | inr same ↦ inl (e ∙ simp same refl)
]

max-OnImport :
    (c : Chunk) (cs : List Chunk) (db between : Db) (durable : ℕ)
    (out : Db × ℕ × Option PreflightError)
    → OnImport cs between (max durable c.revision) out
    → OnImport (c ∷ cs) db durable out
max-OnImport c cs db between durable (after, raised, some e) h = h
max-OnImport c cs db between durable (after, raised, none) h = record {
  well_formed = h.well_formed;
  rises = let up = h.rises in ground arith;
  from = raised_from durable c raised cs h.from;
  nothing = λ zero positive. absurd (let up = h.rises in let p = positive.0 in ground arith);
}

turn-OnImport :
    (c : Chunk) (cs : List Chunk) (e : Option PreflightError) (skipped : Bool)
    (rest : Db → Db × ℕ × Option PreflightError) (db : Db) (durable : ℕ) (imported : Db × Bool)
    → IsWellFormed db.records
    → IsWellFormed imported.0.records
    → ((after : Db)
        → IsWellFormed after.records
        → OnImport cs after (max durable c.revision) (rest after))
    → OnImport
        (c ∷ cs)
        db
        durable
        (import_turn e skipped rest db durable (max durable c.revision) imported)
turn-OnImport c cs (some e) skipped rest db durable imported w w' keep = w
turn-OnImport c cs none true rest db durable imported w w' keep =
    max-OnImport c cs db db durable (rest db) (keep db w)
turn-OnImport c cs none false rest db durable (after, true) w w' keep =
    max-OnImport c cs db after durable (rest after) (keep after w')
turn-OnImport c cs none false rest db durable (after, false) w w' keep = w'

pub import_chunks-OnImport :
    (p : Pass) (latest : ℕ) (chunks : List Chunk) (db : Db) (durable : ℕ)
    → IsWellFormed db.records
    → ChunksOk chunks
    → OnImport chunks db durable (import_chunks p latest chunks db durable)
unfolding import_chunks
import_chunks-OnImport p latest [] db durable w good = record {
  well_formed = w;
  rises = omega arith;
  from = inl refl;
  nothing = λ zero positive. refl;
}
import_chunks-OnImport p latest (c ∷ cs) db durable w good =
    turn-OnImport c cs (interrupted (p.at_chunk c.revision)) (leb c.revision latest) _ db durable _
      w (download-IsWellFormed db c p.now (p.download_fails c.revision) w good.0)
      (λ after w'. import_chunks-OnImport p latest cs after (max durable c.revision) w' good.1)

-- The initial record goes into an empty table.
abbrev pub OnInitial : Db × Option PreflightError → Type 0
OnInitial (db, none) = IsWellFormed db.records
OnInitial (db, some e) = IsWellFormed db.records

inserted-OnInitial :
    (p : Pass) (node_id : String) (db : Db) (out : Result (Record × Db))
    → IsWellFormed db.records
    → latest_revision db.records < 1
    → insert_record db (initial_record node_id) p.now p.insert_fails ≡ out
    → OnInitial (inserted_initial db out)
inserted-OnInitial p node_id db (err e) w empty h = w
inserted-OnInitial p node_id db (ok (row, after)) w empty h =
    insert_record-IsWellFormed db (initial_record node_id) p.now row after w empty
      (without_failure db (initial_record node_id) p.now p.insert_fails row after h)

pub insert_initial-OnInitial :
    (p : Pass) (node_id : String) (durable latest : ℕ) (db : Db)
    → IsWellFormed db.records
    → (durable ≡ 0 → latest ≡ 0 → latest_revision db.records < 1)
    → OnInitial (insert_initial p node_id durable latest db)
unfolding insert_initial
insert_initial-OnInitial p node_id durable latest db w empty =
    elim (Bool-cases (durable == 0 && latest == 0)) [
      | inr e ↦ simp e w
      | inl e ↦
          let at_zero : durable ≡ 0 = ground arith in
          let none_yet : latest ≡ 0 = ground arith in
          simp e (inserted-OnInitial p node_id db _ w (empty at_zero none_yet) refl)
    ]

module _ (same : Chunk → Chunk → Bool) (faithful : IsFaithful same) (p : Pass) where
  abbrev pub OnUploads : List Record → List Chunk → Uploads × Option PreflightError → Type 0
  OnUploads rs before (u, some e) = Unit
  OnUploads rs before (u, none) =
      All (λ r. IsUploaded r u.objects) rs
      × ((q : Record) → IsUploaded q before → IsUploaded q u.objects)

  joined-OnUploads :
      (r : Record) (rs : List Record) (before between : List Chunk)
      (out : Uploads × Option PreflightError)
      → IsUploaded r between
      → ((q : Record) → IsUploaded q before → IsUploaded q between)
      → OnUploads rs between out
      → OnUploads (r ∷ rs) before out
  joined-OnUploads r rs before between (u, some e) there keep h = tt
  joined-OnUploads r rs before between (u, none) there keep h =
      ((h.1 r there, h.0), λ q old. h.1 q (keep q old))

  turn-OnUploads :
      (r : Record) (rs : List Record) (e : Option PreflightError)
      (rest : Uploads → Uploads × Option PreflightError) (u : Uploads)
      (written : Option (List Chunk))
      → OnWritten same faithful r u.objects written
      → ((v : Uploads) → OnUploads rs v.objects (rest v))
      → OnUploads (r ∷ rs) u.objects (upload_turn e rest r u written)
  turn-OnUploads r rs (some e) rest u written h keep = tt
  turn-OnUploads r rs none rest u none h keep = tt
  turn-OnUploads r rs none rest u (some objects) h keep =
      joined-OnUploads r rs u.objects objects (rest _) h.0 h.1
        (keep (record { objects = objects; messages = record_message r ∷ u.messages }))

  pub upload_records-OnUploads :
      (rs : List Record) (u : Uploads) → OnUploads rs u.objects (upload_records same p rs u)
  unfolding upload_records
  upload_records-OnUploads [] u = (tt, λ q there. there)
  upload_records-OnUploads (r ∷ rs) u =
      turn-OnUploads r rs (interrupted (p.at_record r.revision)) (upload_records same p rs) u _
        (put_if_absent-OnWritten same faithful u.objects r p.now (p.put_fails r.revision)
          (p.get_fails r.revision))
        (upload_records-OnUploads rs)
