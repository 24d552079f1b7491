-- ===== src/LocalDb/FindAll.antt =====
-- `FindRecordsAfterRevision` and `FindAllRecordsForSnapshot` of internal/localdb/find.go.
use netsy.Base.{ℕ, List, ltb, leb, select, sort_by}
use netsy.LocalDb.{Record, Db}

-- WHERE revision > ? ORDER BY revision ASC
unfoldable pub find_records_after_revision : Db → (revision : ℕ) → List Record
find_records_after_revision db revision =
    sort_by (λ (r : Record). r.revision)
      (select (λ (r : Record). ltb revision r.revision) db.records)

-- WHERE revision <= ? ORDER BY revision ASC
unfoldable pub find_all_records_for_snapshot : Db → (up_to_revision : ℕ) → List Record
find_all_records_for_snapshot db up_to_revision =
    sort_by (λ (r : Record). r.revision)
      (select (λ (r : Record). leb r.revision up_to_revision) db.records)
