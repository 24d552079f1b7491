-- ===== src/LocalDb/Replicate.antt =====
-- internal/localdb/replicate.go: copies of the Primary's records.
use netsy.Base.{
  ℕ, Bool, true, false, Option, none, some, List, [], ◌∷◌, ◌&&◌, not, leb, ◌==◌, if◌then◌else◌,
  bytes_equal, int_eq, str_eq,
}
use netsy.LocalDb.{
  Record, Db, Result, ok, err, zero_revision, unique_constraint_failed, no_rows, replicate_conflict,
  find_record_by_rev, insert_row,
}

abbrev pub bool_eq : Bool → Bool → Bool
bool_eq true b = b
bool_eq false b = not b

unfoldable pub same_timestamp : Option ℕ → Option ℕ → Bool
same_timestamp none none = true
same_timestamp none (some b) = false
same_timestamp (some a) none = false
same_timestamp (some a) (some b) = a == b

unfoldable pub records_equal_for_replication : Record → Record → Bool
unfolding same_timestamp
records_equal_for_replication a b =
    a.revision == b.revision
    && (bytes_equal a.key b.key
        && (bool_eq a.created b.created
            && (bool_eq a.deleted b.deleted
                && (a.create_revision == b.create_revision
                    && (a.prev_revision == b.prev_revision
                        && (a.version == b.version
                            && (int_eq a.lease b.lease
                                && (a.dek == b.dek
                                    && (bytes_equal a.value b.value
                                        && (str_eq a.leader_id b.leader_id
                                            && (same_timestamp a.created_at b.created_at
                                                && same_timestamp a.compacted_at
                                                    b.compacted_at)))))))))))

-- The row that the INSERT writes: `replicated_at` is stamped, and the table has no crc column.
abbrev pub stamped : Record → ℕ → Record
stamped r now = record r { replicated_at = some now; crc = 0 }

-- The answer to a duplicate: the existing row if it is the same record.
unfoldable pub duplicate : Db → Record → Option Record → Result (Record × Db)
duplicate db r none = err no_rows
duplicate db r (some existing) =
    if records_equal_for_replication existing r then ok (existing, db) else err replicate_conflict

abbrev pub recover_duplicate : Db → Record → Record → Result Db → Result (Record × Db)
recover_duplicate db r row (ok after) = ok (row, after)
recover_duplicate db r row (err e) = elim e [
  | unique_constraint_failed ↦ duplicate db r (find_record_by_rev r.revision db.records)
  | other ↦ err other
]

unfoldable pub replicate_record : Db → Record → ℕ → Result (Record × Db)
unfolding duplicate
replicate_record db r now =
    if r.revision == 0
    then err zero_revision
    else recover_duplicate db r (stamped r now) (insert_row db (stamped r now))

-- DELETE FROM records WHERE revision = rev
unfoldable pub delete_revision : ℕ → List Record → List Record
delete_revision rev [] = []
delete_revision rev (r ∷ rs) =
    let rest = delete_revision rev rs in if r.revision == rev then rest else r ∷ rest

abbrev pub overwrite_conflict : Db → Record → ℕ → Result (Record × Db) → Result (Record × Db)
overwrite_conflict db r now (ok inserted) = ok inserted
overwrite_conflict db r now (err e) = elim e [
  | replicate_conflict ↦
      replicate_record (record db { records = delete_revision r.revision db.records }) r now
  | other ↦ err other
]

unfoldable pub replicate_tentative_record : Db → Record → (committed now : ℕ) → Result (Record × Db)
unfolding delete_revision
replicate_tentative_record db r committed now =
    if leb r.revision committed
    then replicate_record db r now
    else overwrite_conflict db r now (replicate_record db r now)
