-- ===== src/Datastore.antt =====
-- internal/datastore and `PutIfAbsent` of internal/storage: the chunk files in object storage, and
-- their import. A chunk is named by its revision, as `ChunkKey` names it.
pub mod Keys
pub mod KeyLaws
pub mod ImportLaws
pub mod Tests
use netsy.Base.{
  ℕ, Bool, true, false, not, Option, none, some, List, [], ◌∷◌, ◌&&◌, ltb, leb, ◌==◌, if◌then◌else◌,
  select, sort_by,
}
use netsy.LocalDb.{Record, Db, Result, ok, err}
use netsy.LocalDb.Replicate.{replicate_record}

-- The records of a chunk file; `readable` is false if the reader reports an error behind them.
-- `created_at` is the time in the file's header.
pub record Chunk : Type 0 where
  pub revision : ℕ
  pub records : List Record
  pub readable : Bool
  pub created_at : ℕ

unfoldable pub find_chunk : (revision : ℕ) → List Chunk → Option Chunk
find_chunk revision [] = none
find_chunk revision (c ∷ cs) =
    let rest = find_chunk revision cs in if c.revision == revision then some c else rest

-- `ListChunks`: those above a revision, the oldest first.
unfoldable pub list_chunks : List Chunk → (from_revision : ℕ) → List Chunk
list_chunks store from_revision =
    sort_by (λ (c : Chunk). c.revision) (select (λ (c : Chunk). ltb from_revision c.revision) store)

-- `ListChunksForCleanup`
unfoldable pub list_chunks_for_cleanup : List Chunk → (up_to_revision : ℕ) → List Chunk
list_chunks_for_cleanup store up_to_revision =
    sort_by (λ (c : Chunk). c.revision)
      (select (λ (c : Chunk). leb c.revision up_to_revision) store)

-- `MarshalChunk`: one record, and the time of the writing.
abbrev pub marshal_chunk : Record → (now : ℕ) → Chunk
marshal_chunk r now = record {
  revision = r.revision;
  records = r ∷ [];
  readable = true;
  created_at = now;
}

-- `PutIfAbsent` once the object is known to be there; `same` compares the bytes of two files.
module _ (same : Chunk → Chunk → Bool) where
  abbrev pub already_there :
      List Chunk → Chunk → (get_fails : Bool) → Option Chunk → Option (List Chunk)
  already_there store c get_fails none = some (c ∷ store)
  already_there store c get_fails (some existing) =
      if get_fails then none else if same existing c then some store else none

  -- The objects after the call, or `none` for an error.
  unfoldable pub put_if_absent :
      List Chunk → Chunk → (put_fails get_fails : Bool) → Option (List Chunk)
  unfolding find_chunk
  put_if_absent store c put_fails get_fails =
      if put_fails then none else already_there store c get_fails (find_chunk c.revision store)

-- The records of a file, one after the other: the database, and whether all went in.
abbrev pub next_import : (Db → Db × Bool) → Db → Result (Record × Db) → Db × Bool
next_import rest db (ok (row, after)) = rest after
next_import rest db (err e) = (db, false)

unfoldable pub import_records : (now : ℕ) → List Record → Db → Db × Bool
unfolding replicate_record
import_records now [] db = (db, true)
import_records now (r ∷ rs) db = next_import (import_records now rs) db (replicate_record db r now)

-- `DownloadAndImportFile`
unfoldable pub download_and_import_file :
    Db → Chunk → (now : ℕ) → (download_fails : Bool) → Db × Bool
unfolding import_records
download_and_import_file db c now download_fails =
    if download_fails
    then (db, false)
    else let (after, fine) = import_records now c.records db in (after, fine && c.readable)
