-- ===== src/LocalDb.antt =====
-- internal/localdb: the records of a node's SQLite database, as the list of the table's rows with
-- the latest insertion first. A query is a function of the rows, written from its SQL text.
pub mod Insert
pub mod InsertLaws
pub mod NoConflict
pub mod Compact
pub mod CompactLaws
pub mod CompactedTo
pub mod Find
pub mod FindAll
pub mod FindStream
pub mod StreamOrder
pub mod StreamLaws
pub mod FindOrder
pub mod FindLaws
pub mod Replicate
pub mod ReplicateLaws
pub mod ReplicateRows
pub mod Sound
pub mod Sample
pub mod Tests
pub mod Latest
use netsy.Base.{
  ℕ, suc, ◌+◌, String, ◌≡◌, Bool, true, false, not, Option, none, some, List, [], ◌∷◌, ◌&&◌, ◌||◌,
  ltb, leb, ◌==◌, if◌then◌else◌, Bytes, bytes_equal, length, ℤ,
}

-- proto.Record. A timestamp is a number of nanoseconds, a nil timestamp is `none`; RFC3339Nano text
-- holds every nanosecond, so a column gives back the time that was written.
pub record Record : Type 0 where
  pub revision : ℕ
  pub key : Bytes
  pub created : Bool
  pub deleted : Bool
  pub create_revision : ℕ
  pub prev_revision : ℕ
  pub version : ℕ
  pub lease : ℤ
  pub dek : ℕ
  pub value : Bytes
  pub created_at : Option ℕ
  pub compacted_at : Option ℕ
  pub leader_id : String
  pub replicated_at : Option ℕ
  pub crc : ℕ

pub record Compaction : Type 0 where
  pub compaction_revision : ℕ
  pub created_at : ℕ

pub record Db : Type 0 where
  pub records : List Record
  pub compactions : List Compaction

-- What the queries report.
pub data DbError : Type 0 where
  invalid_record compare_revision_failed create_key_exists delete_key_not_found : DbError
  unique_constraint_failed invalid_insert_id zero_revision replicate_conflict no_rows : DbError
  invalid_order integrity_error sql_failed : DbError

pub data Result {ℓ} (A : Type ℓ) : Type ℓ where
  ok : A → Result A
  err : DbError → Result A

-- Of two rows the one that `ORDER BY revision DESC` puts first.
abbrev pub newer : Record → Option Record → Record
newer r none = r
newer r (some q) = if ltb r.revision q.revision then q else r

-- SELECT … FROM records WHERE key = k ORDER BY revision DESC LIMIT 1
unfoldable pub latest_for_key : Bytes → List Record → Option Record
latest_for_key k [] = none
latest_for_key k (r ∷ rs) =
    let rest = latest_for_key k rs in if bytes_equal r.key k then some (newer r rest) else rest

-- SELECT COALESCE(MAX(revision), 0) FROM records; also `LatestRevision`, which orders and takes one.
unfoldable pub latest_revision : List Record → ℕ
latest_revision [] = 0
latest_revision (r ∷ rs) =
    let rest = latest_revision rs in if ltb rest r.revision then r.revision else rest

-- SELECT COUNT(*) FROM records
abbrev pub record_count : List Record → ℕ
record_count = length

-- SELECT revision, compacted_at FROM records WHERE revision = rev
unfoldable pub find_record_by_rev : ℕ → List Record → Option Record
find_record_by_rev rev [] = none
find_record_by_rev rev (r ∷ rs) =
    let rest = find_record_by_rev rev rs in if r.revision == rev then some r else rest

-- The primary key and the unique index on (key, create_revision, prev_revision).
abbrev pub clashes : Record → Record → Bool
clashes row r =
    r.revision == row.revision
    || (bytes_equal r.key row.key
        && (r.create_revision == row.create_revision && r.prev_revision == row.prev_revision))

unfoldable pub unique_conflict : Record → List Record → Bool
unique_conflict row [] = false
unique_conflict row (r ∷ rs) = clashes row r || unique_conflict row rs

-- INSERT of a row whose columns are not null.
unfoldable pub insert_row : Db → Record → Result Db
insert_row db row =
    if unique_conflict row db.records
    then err unique_constraint_failed
    else ok (record db { records = row ∷ db.records })

unfoldable pub verify_integrity : Db → Result (Unit {0})
verify_integrity db =
    if record_count db.records == latest_revision db.records then ok tt else err integrity_error

abbrev pub truncate : Db → Db
truncate db = record { records = []; compactions = [] }

-- A key that reads as present: its latest row is no tombstone.
abbrev pub live_row : Option Record → Option Record
live_row none = none
live_row (some r) = if r.deleted then none else some r

abbrev pub live : Bytes → List Record → Option Record
live k rs = live_row (latest_for_key k rs)

-- The revision of a row that a query may not find; Go's and SQL's default is 0.
abbrev pub revision_of : Option Record → ℕ
revision_of none = 0
revision_of (some r) = r.revision
