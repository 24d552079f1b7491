-- ===== src/LocalDb/Insert.antt =====
-- internal/localdb/insert.go: `InsertRecord` and its SQL statement. A column that the statement
-- makes null is `none`; SQLite checks NOT NULL in the order of the columns, and uniqueness last.
use netsy.Base.{
  ℕ, ◌+◌, Bool, true, false, Option, none, some, [], ◌∷◌, ◌&&◌, ◌||◌, ltb, ◌==◌, if◌then◌else◌,
  Bytes, is_negative, is_some, str_eq,
}
use netsy.LocalDb.{
  Record, Db, Result, ok, err, invalid_record, compare_revision_failed, create_key_exists,
  delete_key_not_found, invalid_insert_id, sql_failed, latest_for_key, latest_revision, insert_row,
  live_row, revision_of,
}

abbrev pub is_empty : Bytes → Bool
is_empty [] = true
is_empty (b ∷ bs) = false

-- The check at the head of `InsertRecord`. The fields that are numbers here cannot be negative.
unfoldable pub invalid_for_insert : Record → Bool
invalid_for_insert r =
    r.revision == 0
    || (is_empty r.key
        || (is_negative r.lease
            || (ltb 0 r.create_revision
                || (ltb 0 r.version
                    || (is_some r.created_at
                        || (is_some r.compacted_at
                            || (str_eq r.leader_id ""
                                || (is_some r.replicated_at
                                    || (ltb 0 r.crc || (r.created && r.deleted))))))))))

-- CASE WHEN ?3 = 1 THEN CASE WHEN (SELECT deleted …) = 0 THEN null ELSE 1 END ELSE 0 END
unfoldable pub created_column : Record → Option Record → Option Bool
created_column r current =
    if r.created then (if is_some current then none else some true) else some false

unfoldable pub deleted_column : Record → Option Record → Option Bool
deleted_column r current =
    if r.deleted then (if is_some current then some true else none) else some false

unfoldable pub create_revision_column : Option Record → ℕ → ℕ
create_revision_column none latest = latest + 1
create_revision_column (some current) latest = current.create_revision

unfoldable pub prev_revision_column : Record → Option Record → Option ℕ
prev_revision_column r current =
    if ltb 0 r.prev_revision
    then (if r.prev_revision == revision_of current then some r.prev_revision else none)
    else if ltb 0 (revision_of current)
    then none
    else some 0

abbrev version_of : Option Record → ℕ
version_of none = 0
version_of (some r) = r.version

unfoldable pub version_column : Record → Option Record → ℕ
version_column r latest = if r.deleted then 0 else version_of latest + 1

-- The row of the SELECT: `latest` is latest_revision_for_key, `max` is latest_revision_for_table.
unfoldable pub selected_row : Record → Option Record → ℕ → ℕ → Bool → Bool → ℕ → Record
unfolding create_revision_column version_column
selected_row r latest max now created deleted prev_revision = record {
  revision = r.revision;
  key = r.key;
  created = created;
  deleted = deleted;
  create_revision = create_revision_column (live_row latest) max;
  prev_revision = prev_revision;
  version = version_column r latest;
  lease = r.lease;
  dek = r.dek;
  value = r.value;
  created_at = some now;
  compacted_at = none;
  leader_id = r.leader_id;
  replicated_at = none;
  crc = 0;
}

abbrev pub returning : Record → Result Db → Result (Record × Db)
returning row (err e) = err e
returning row (ok db) = if ltb row.revision 1 then err invalid_insert_id else ok (row, db)

-- The NOT NULL columns, and then the insertion.
unfoldable pub insert_columns :
    Db → Record → ℕ → Option Bool → Option Bool → Option ℕ → Result (Record × Db)
unfolding selected_row
insert_columns db r now none deleted prev = err create_key_exists
insert_columns db r now (some created) none prev = err delete_key_not_found
insert_columns db r now (some created) (some deleted) none = err compare_revision_failed
insert_columns db r now (some created) (some deleted) (some prev) =
    let row =
      selected_row r (latest_for_key r.key db.records) (latest_revision db.records) now created
        deleted prev in
    returning row (insert_row db row)

unfoldable pub insert_sql : Db → Record → ℕ → Result (Record × Db)
unfolding created_column deleted_column prev_revision_column insert_columns
insert_sql db r now =
    let current = live_row (latest_for_key r.key db.records) in
    insert_columns db r now (created_column r current) (deleted_column r current)
      (prev_revision_column r current)

-- `fails` says that the statement fails for a reason of SQLite's own, such as a full disk.
unfoldable pub insert_record : Db → Record → (now : ℕ) (fails : Bool) → Result (Record × Db)
unfolding invalid_for_insert insert_sql
insert_record db r now fails =
    if invalid_for_insert r
    then err invalid_record
    else if fails
    then err sql_failed
    else insert_sql db r now
