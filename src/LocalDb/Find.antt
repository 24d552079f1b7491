-- ===== src/LocalDb/Find.antt =====
-- internal/localdb/find.go. The WHERE clause of a range is one of the five that the callers build;
-- the order of keys is SQLite's for BLOB values, which compares bytes.
use Prim.Native.Nat.{compare, Ordering}
use netsy.Base.{
  ℕ, ◌+◌, Bool, true, false, not, none, List, [], ◌∷◌, ◌&&◌, ◌||◌, leb, ◌==◌, if◌then◌else◌, Bytes,
  length, select, take, pos,
}
use netsy.LocalDb.{Record, Db, Result, ok, err, invalid_order}
use netsy.LocalDb.Compact.{has_newer}

-- memcmp, and then the length: SQLite's order of BLOB values, and `bytes.Compare`.
unfoldable pub bytes_less : Bytes → Bytes → Bool
bytes_less [] [] = false
bytes_less [] (b ∷ bs) = true
bytes_less (a ∷ as') [] = false
bytes_less (a ∷ as') (b ∷ bs) =
    let rest = bytes_less as' bs in
    elim (compare a b) [ Ordering.lt ↦ true | Ordering.eq ↦ rest | Ordering.gt ↦ false ]

-- The rows of `filtered`: those that the WHERE clause lets through, at most `revision` if it is set.
unfoldable pub filtered : (Bytes → Bool) → ℕ → List Record → List Record
filtered where_key revision =
    select (λ r. where_key r.key && (revision == 0 || leb r.revision revision))

-- rn = 1 AND deleted = 0: the newest row of its key among `filtered`, and no tombstone.
unfoldable pub is_current : List Record → Record → Bool
is_current rows r = not (has_newer r.key r.revision rows) && not r.deleted

unfoldable pub current_rows : (Bytes → Bool) → ℕ → List Record → List Record
unfolding filtered is_current
current_rows where_key revision rs =
    let rows = filtered where_key revision rs in select (is_current rows) rows

pub data Order : Type 0 where
  asc desc other : Order

-- A row of the UNION ALL: its count and its record. The metadata row has the key '', a TEXT.
pub record OutRow : Type 0 where
  pub records_count : ℕ
  pub is_metadata : Bool
  pub record_of : Record

-- ORDER BY key: SQLite puts a TEXT before every BLOB.
unfoldable pub row_less : OutRow → OutRow → Bool
row_less a b =
    if a.is_metadata
    then not b.is_metadata
    else not b.is_metadata && bytes_less a.record_of.key b.record_of.key

abbrev pub before : Order → OutRow → OutRow → Bool
before desc a b = row_less b a
before _ a b = row_less a b

-- A stable sort by one comparison.
unfoldable pub insert_sorted : Order → OutRow → List OutRow → List OutRow
insert_sorted o a [] = a ∷ []
insert_sorted o a (b ∷ bs) =
    let rest = insert_sorted o a bs in if before o b a then b ∷ rest else a ∷ b ∷ bs

unfoldable pub sort_rows : Order → List OutRow → List OutRow
sort_rows o [] = []
sort_rows o (a ∷ rest) = insert_sorted o a (sort_rows o rest)

-- The row that the first SELECT makes up.
abbrev pub metadata_record : Record
metadata_record = record {
  revision = 0;
  key = [];
  created = false;
  deleted = false;
  create_revision = 0;
  prev_revision = 0;
  version = 0;
  lease = pos 0;
  dek = 0;
  value = [];
  created_at = none;
  compacted_at = none;
  leader_id = "";
  replicated_at = none;
  crc = 0;
}

abbrev pub metadata_row : ℕ → OutRow
metadata_row n = record { records_count = n; is_metadata = true; record_of = metadata_record }

unfoldable pub as_rows : List Record → List OutRow
as_rows [] = []
as_rows (r ∷ rs) = record { records_count = 0; is_metadata = false; record_of = r } ∷ as_rows rs

unfoldable pub records_of : List OutRow → List Record
records_of [] = []
records_of (a ∷ rest) = a.record_of ∷ records_of rest

-- LIMIT limit+1, if there is a limit.
abbrev pub limited {ℓ} : {A : Type ℓ} → ℕ → List A → List A
limited limit rows = if limit == 0 then rows else take (limit + 1) rows

-- The loop over the rows: the first one is taken for the metadata.
unfoldable pub scan_rows : List OutRow → List Record × ℕ
scan_rows [] = ([], 0)
scan_rows (first ∷ rest) = (records_of rest, first.records_count)

unfoldable pub query_rows : Order → ℕ → List Record → List OutRow
query_rows o limit current =
    limited limit (sort_rows o (metadata_row (length current) ∷ as_rows current))

unfoldable pub find_records_by :
    Db → (where_key : Bytes → Bool) → (revision limit : ℕ) → Order → Result (List Record × ℕ)
unfolding query_rows
find_records_by db where_key revision limit other = err invalid_order
find_records_by db where_key revision limit o =
    ok (scan_rows (query_rows o limit (current_rows where_key revision db.records)))
