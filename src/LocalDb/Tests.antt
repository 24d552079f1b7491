-- ===== src/LocalDb/Tests.antt =====
-- The database at concrete tables: runs of the operations, and the laws applied to them.
use netsy.Base.{
  ◌+◌, ◌≡◌, refl, true, false, some, [], ◌∷◌, All, arith, bytes_equal, if◌then◌else◌, ◌⊎◌,
}
use netsy.LocalDb.{
  Record, Db, ok, err, create_key_exists, latest_revision, latest_for_key, live, insert_row,
  unique_conflict,
}
use netsy.LocalDb.Insert.{insert_record}
use netsy.LocalDb.InsertLaws.{insert_record_lem, live-insert_record, answer, next_version, refusal}
use netsy.LocalDb.Replicate.{replicate_tentative_record, stamped, replicate_record}
use netsy.LocalDb.Compact.{
  execute_compaction, derive_compaction_revision, to_compact, compact_row, has_newer,
}
use netsy.LocalDb.CompactLaws.{live-execute_compaction}
use netsy.LocalDb.CompactedTo.{derive_compaction_revision_lem, IsCompactedTo, HasUncompacted}
use netsy.LocalDb.Find.{
  find_records_by, asc, desc, current_rows, sort_rows, as_rows, records_of, insert_sorted, row_less,
  bytes_less, scan_rows,
}
use netsy.LocalDb.FindLaws.{sorted_records}
use netsy.LocalDb.Sample.{
  first_a, second_a, first_b, new_b, rows, db, after_b, key_a, key_b, db-IsWellFormed, b_valid,
  b_new, b_inserted,
}

-- A creation of a key that is present is refused as such, not as a failed comparison.
exists_refused : insert_record db (record new_b { key = key_a }) 6 false ≡ err create_key_exists
unfolding insert_record latest_for_key bytes_equal
exists_refused = refl

insert_record_lem_example :
    insert_record db new_b 6 false
    ≡ answer db
        (next_version (live key_b rows) new_b (latest_revision rows) 6)
        (refusal (live key_b rows) new_b)
insert_record_lem_example = insert_record_lem db new_b 6 db-IsWellFormed b_valid b_new

live-insert_record_example :
    live key_a (first_b ∷ rows)
    ≡ (if bytes_equal key_b key_a then some first_b else live key_a rows)
live-insert_record_example =
    live-insert_record db new_b 6 first_b after_b db-IsWellFormed b_new b_inserted key_a

-- Revision 2, replaced: revision 1 of the same key is compacted, and the row that is present is not.
compaction_run :
    (execute_compaction db 2 9).0.records
    ≡ second_a ∷ record first_a { value = []; compacted_at = some 9 } ∷ []
unfolding execute_compaction has_newer bytes_equal compact_row to_compact
compaction_run = refl

live-execute_compaction_example : live key_a (execute_compaction db 2 9).0.records ≡ live key_a rows
live-execute_compaction_example = live-execute_compaction db 2 9 key_a

derive_compaction_revision_lem_example :
    All (IsCompactedTo (derive_compaction_revision db)) rows
    × ((derive_compaction_revision db ≡ latest_revision rows)
        ⊎ HasUncompacted (derive_compaction_revision db + 1) rows)
derive_compaction_revision_lem_example =
    derive_compaction_revision_lem db (omega arith, (omega arith, tt))

abbrev copy : Record
copy = stamped first_b 20

abbrev replica : Db
replica = record { records = copy ∷ rows; compactions = [] }

replicated : replicate_tentative_record db first_b 2 20 ≡ ok (copy, replica)
unfolding replicate_tentative_record replicate_record insert_row unique_conflict bytes_equal
replicated = refl

-- The keys a and b, of which a has two revisions.
find_run : find_records_by after_b (λ k. true) 0 1 asc ≡ ok (second_a ∷ [], 2)
unfolding find_records_by sort_rows insert_sorted row_less bytes_less current_rows has_newer
    bytes_equal scan_rows as_rows records_of
find_run = refl

desc_sorted :
    sorted_records desc (current_rows (λ k. true) 0 (first_b ∷ rows)) ≡ first_b ∷ second_a ∷ []
unfolding sort_rows insert_sorted row_less bytes_less current_rows has_newer bytes_equal records_of
    as_rows
desc_sorted = refl
