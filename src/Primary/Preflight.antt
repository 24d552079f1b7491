-- ===== src/Primary/Preflight.antt =====
-- internal/primary/preflight.go: what a node does between its election and its service as the active
-- Primary. A chunk's revision names it; `same` compares the bytes of two files.
use netsy.Base.{
  ℕ, ◌+◌, String, Bool, true, false, not, Option, none, some, List, [], ◌∷◌, ◌&&◌, ◌||◌, leb, ltb,
  ◌==◌, if◌then◌else◌,
}
use netsy.NodeState.{set_committed, set_compaction}
use netsy.LocalDb.{Record, Db, Result, ok, err, sql_failed, latest_revision}
use netsy.LocalDb.Find.{metadata_record}
use netsy.LocalDb.FindAll.{find_records_after_revision}
use netsy.LocalDb.Insert.{insert_record}
use netsy.LocalDb.Compact.{
  latest_compaction_revision, derive_compaction_revision, persist_compaction_revision,
}
use netsy.Datastore.{Chunk, list_chunks, marshal_chunk, put_if_absent, download_and_import_file}
use netsy.Primary.LeaderTxn.{Message, record_message, commit_message, Server}

pub data PreflightError : Type 0 where
  read_failed snapshot_failed behind_snapshot list_failed canceled preflight_stopped :
      PreflightError
  import_failed insert_failed write_failed compaction_failed : PreflightError

-- What a turn of one of the two loops finds first: the context is done, or the node is no longer
-- Starting.
pub data Interrupt : Type 0 where
  undisturbed done left_starting : Interrupt

-- What happens outside during one pass. The latest snapshot is `none` if there is none. The turns of
-- the loops are told apart by their revisions.
pub record Pass : Type 0 where
  pub now : ℕ
  pub latest_snapshot : Option ℕ
  pub read_fails : Bool
  pub snapshot_fails : Bool
  pub list_fails : Bool
  pub at_chunk : ℕ → Interrupt
  pub download_fails : ℕ → Bool
  pub insert_fails : Bool
  pub find_fails : Bool
  pub at_record : ℕ → Interrupt
  pub put_fails : ℕ → Bool
  pub get_fails : ℕ → Bool
  pub read_compaction_fails : Bool
  pub derive_fails : Bool
  pub persist_fails : Bool
  pub read_latest_fails : Bool

-- "_netsy"
abbrev pub initial_record_key : List ℕ
initial_record_key = 95 ∷ 110 ∷ 101 ∷ 116 ∷ 115 ∷ 121 ∷ []

abbrev pub initial_record : String → Record
initial_record node_id = record metadata_record {
  revision = 1;
  key = initial_record_key;
  created = true;
  leader_id = node_id;
}

-- A loop has the state that it leaves, and the error that it ends with.
abbrev pub interrupted : Interrupt → Option PreflightError
interrupted undisturbed = none
interrupted done = some canceled
interrupted left_starting = some preflight_stopped

abbrev pub max : ℕ → ℕ → ℕ
max a b = if ltb a b then b else a

-- A turn over a chunk: what interrupts it, whether the chunk is skipped, the turns that are left,
-- and the import.
abbrev pub import_turn :
    Option PreflightError
    → (skipped : Bool) → (Db → Db × ℕ × Option PreflightError)
    → Db
    → (durable raised : ℕ) → Db × Bool
    → Db × ℕ × Option PreflightError
import_turn (some e) skipped rest db durable raised imported = (db, durable, some e)
import_turn none true rest db durable raised imported = rest db
import_turn none false rest db durable raised (after, true) = rest after
import_turn none false rest db durable raised (after, false) = (after, raised, some import_failed)

-- The loop over the chunks: the database, the durable revision and an error.
unfoldable pub import_chunks :
    Pass → (latest_local : ℕ) → List Chunk → Db → (durable : ℕ) → Db × ℕ × Option PreflightError
unfolding download_and_import_file
import_chunks p latest [] db durable = (db, durable, none)
import_chunks p latest (c ∷ cs) db durable =
    import_turn (interrupted (p.at_chunk c.revision)) (leb c.revision latest)
      (λ after. import_chunks p latest cs after (max durable c.revision)) db durable
      (max durable c.revision) (download_and_import_file db c p.now (p.download_fails c.revision))

-- An empty cluster gets its first record.
abbrev pub inserted_initial : Db → Result (Record × Db) → Db × Option PreflightError
inserted_initial db (ok (row, after)) = (after, none)
inserted_initial db (err e) = (db, some insert_failed)

unfoldable pub insert_initial :
    Pass → String → (durable latest_local : ℕ) → Db → Db × Option PreflightError
unfolding insert_record
insert_initial p node_id durable latest db =
    if durable == 0 && latest == 0
    then inserted_initial db (insert_record db (initial_record node_id) p.now p.insert_fails)
    else (db, none)

-- What the loop over the records changes: the objects, and the messages to the followers.
pub record Uploads : Type 0 where
  pub objects : List Chunk
  pub messages : List Message

abbrev pub upload_turn :
    Option PreflightError
    → (Uploads → Uploads × Option PreflightError)
    → Record
    → Uploads
    → Option (List Chunk)
    → Uploads × Option PreflightError
upload_turn (some e) rest r u written = (u, some e)
upload_turn none rest r u none = (u, some write_failed)
upload_turn none rest r u (some objects) =
    rest (record { objects = objects; messages = record_message r ∷ u.messages })

module _ (same : Chunk → Chunk → Bool) where
  -- `writeRecordIfMissing`
  abbrev pub write_record_if_missing :
      List Chunk → Record → (now : ℕ) → (put_fails get_fails : Bool) → Option (List Chunk)
  write_record_if_missing objects r now put_fails get_fails =
      put_if_absent same objects (marshal_chunk r now) put_fails get_fails

  unfoldable pub upload_records : Pass → List Record → Uploads → Uploads × Option PreflightError
  unfolding put_if_absent
  upload_records p [] u = (u, none)
  upload_records p (r ∷ rs) u =
      upload_turn (interrupted (p.at_record r.revision)) (upload_records p rs) r u (
        write_record_if_missing u.objects r p.now (p.put_fails r.revision) (p.get_fails r.revision))

-- The compaction revision: read, or derived and persisted.
unfoldable pub settle_compaction : Pass → Db → Result (ℕ × Db)
unfolding derive_compaction_revision persist_compaction_revision
settle_compaction p db =
    let current = latest_compaction_revision db in
    if p.read_compaction_fails
    then err sql_failed
    else if not (current == 0)
    then ok (current, db)
    else if p.derive_fails || p.persist_fails
    then err sql_failed
    else ok (
      derive_compaction_revision db,
      persist_compaction_revision db (derive_compaction_revision db) p.now,
    )

-- The Primary and object storage, and the error of the pass.
abbrev pub Outcome : Type 0
Outcome = Server × List Chunk × Option PreflightError

abbrev pub activate : Pass → Server → List Chunk → Result (ℕ × Db) → Outcome
activate p ps objects (err e) = (ps, objects, some compaction_failed)
activate p ps objects (ok (compaction, db)) =
    let latest = latest_revision db.records in
    let settled = record ps { db = db; state = set_compaction ps.state compaction } in
    if p.read_latest_fails then (settled, objects, some read_failed) else (
      record settled {
        state = set_committed settled.state latest;
        next_revision_id = latest + 1;
        broadcast = commit_message latest ∷ ps.broadcast;
      },
      objects,
      none,
    )

abbrev pub after_uploads : Pass → Server → Uploads × Option PreflightError → Outcome
after_uploads p ps (u, some e) = (record ps { broadcast = u.messages }, u.objects, some e)
after_uploads p ps (u, none) =
    activate p (record ps { broadcast = u.messages }) u.objects (settle_compaction p ps.db)

abbrev pub snapshot_revision : Option ℕ → ℕ
snapshot_revision none = 0
snapshot_revision (some revision) = revision

module _ (same : Chunk → Chunk → Bool) where
  abbrev pub after_initial :
      Pass → Server → List Chunk → (durable : ℕ) → Db × Option PreflightError → Outcome
  after_initial p ps objects durable (db, some e) = (record ps { db = db }, objects, some e)
  after_initial p ps objects durable (db, none) =
      if p.find_fails
      then (record ps { db = db }, objects, some read_failed)
      else after_uploads p (record ps { db = db })
          (upload_records same p (find_records_after_revision db durable)
            (record { objects = objects; messages = ps.broadcast }))

  abbrev pub after_import :
      Pass → Server → List Chunk → (latest_local : ℕ) → Db × ℕ × Option PreflightError → Outcome
  after_import p ps objects latest (db, durable, some e) = (record ps { db = db }, objects, some e)
  after_import p ps objects latest (db, durable, none) =
      after_initial p ps objects durable (insert_initial p ps.node_id durable latest db)

  unfoldable pub run_preflight_pass : Pass → Server → List Chunk → Outcome
  unfolding import_chunks insert_initial upload_records settle_compaction
      find_records_after_revision list_chunks latest_revision
  run_preflight_pass p ps objects =
      let latest = latest_revision ps.db.records in
      let snapshot = snapshot_revision p.latest_snapshot in
      if p.read_fails
      then (ps, objects, some read_failed)
      else if p.snapshot_fails
      then (ps, objects, some snapshot_failed)
      else if ltb latest snapshot
      then (ps, objects, some behind_snapshot)
      else if p.list_fails
      then (ps, objects, some list_failed)
      else after_import p ps objects latest
          (import_chunks p latest (list_chunks objects 0) ps.db snapshot)
