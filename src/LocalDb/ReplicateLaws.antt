-- ===== src/LocalDb/ReplicateLaws.antt =====
-- What replication does to the rows: copies are readable, repeatable, and never touch a committed
-- row.
use text.Mathlib.TextPositions.{eq_refl}
use netsy.Base.{
  ℕ, ◌≤◌, ◌⊎◌, ◌≢◌, ◌≡◌, refl, Bool, true, false, Option, none, some, List, [], ◌∷◌, arith, ◌==◌,
  bytes_equal_refl, int_eq, ℤ, pos, negsuc, leb, if◌then◌else◌, Bool-cases, Option-cases, inl, inr,
}
use netsy.LocalDb.{
  Record, Db, Result, ok, err, replicate_conflict, find_record_by_rev, insert_row, unique_conflict,
}
use netsy.LocalDb.Replicate.{
  bool_eq, same_timestamp, records_equal_for_replication, stamped, replicate_record,
  delete_revision, overwrite_conflict, replicate_tentative_record,
}

bool_eq_refl : (b : Bool) → bool_eq b b ≡ true
bool_eq_refl b = ground arith

int_eq_refl : (a : ℤ) → int_eq a a ≡ true
int_eq_refl (pos n) = ground arith
int_eq_refl (negsuc n) = ground arith

same_timestamp_refl : (t : Option ℕ) → same_timestamp t t ≡ true
unfolding same_timestamp
same_timestamp_refl none = refl
same_timestamp_refl (some n) = ground arith

-- The stamp and the crc are not compared.
pub stamped-equal : (r : Record) (now : ℕ) → records_equal_for_replication (stamped r now) r ≡ true
unfolding records_equal_for_replication
stamped-equal r now = ground (
  arith,
  bytes_equal_refl r.key,
  bytes_equal_refl r.value,
  bool_eq_refl r.created,
  bool_eq_refl r.deleted,
  int_eq_refl r.lease,
  eq_refl r.leader_id,
  same_timestamp_refl r.created_at,
  same_timestamp_refl r.compacted_at,
)

pub find-unique_conflict :
    (row : Record) (rs : List Record) {q : Record}
    → find_record_by_rev row.revision rs ≡ some q
    → unique_conflict row rs ≡ true
unfolding find_record_by_rev unique_conflict
find-unique_conflict row [] e = cc
find-unique_conflict row (r ∷ rs) {q} e = ground (arith, find-unique_conflict row rs {q = q})

pub find-delete_revision :
    (rev j : ℕ) (rs : List Record)
    → find_record_by_rev j (delete_revision rev rs)
      ≡ (if rev == j then none else find_record_by_rev j rs)
unfolding find_record_by_rev delete_revision
find-delete_revision rev j [] = ground arith
find-delete_revision rev j (r ∷ rs) = ground (arith, find-delete_revision rev j rs)

-- The two ways in which `ReplicateRecord` succeeds.
pub replicate_record-inv :
    (db : Db) (r : Record) (now : ℕ) (row : Record) (after : Db)
    → replicate_record db r now ≡ ok (row, after)
    → ((row ≡ stamped r now)
        × (after ≡ record db { records = stamped r now ∷ db.records })
        × (unique_conflict (stamped r now) db.records ≡ false))
      ⊎ ((find_record_by_rev r.revision db.records ≡ some row)
          × (records_equal_for_replication row r ≡ true)
          × (after ≡ db))
unfolding replicate_record insert_row
replicate_record-inv db r now row after h =
    elim (Bool-cases (unique_conflict (stamped r now) db.records)) [
      | inl clash ↦ elim (Option-cases (find_record_by_rev r.revision db.records)) [
        | inl missing ↦ ground arith
        | inr (q, found) ↦ inr (ground arith, ground arith, ground arith)
      ]
      | inr free ↦ inl (ground arith, ground arith, free)
    ]

-- A copy never replaces a row that is there.
replicate_record-keeps :
    (db : Db) (r : Record) (now : ℕ) (row : Record) (after : Db) (rev : ℕ) (q : Record)
    → replicate_record db r now ≡ ok (row, after)
    → find_record_by_rev rev db.records ≡ some q
    → find_record_by_rev rev after.records ≡ some q
unfolding find_record_by_rev
replicate_record-keeps db r now row after rev q h there =
    elim (replicate_record-inv db r now row after h) [
      | inl (e, f, free) ↦ rw f (
          ground (
            arith,
            λ (same : r.revision ≡ rev).
                find-unique_conflict (stamped r now) db.records {q = q} (rw same there),
          ))
      | inr (found, same, f) ↦ rw f there
    ]

replicate_record-reads :
    (db : Db) (r : Record) (now : ℕ) (row : Record) (after : Db)
    → replicate_record db r now ≡ ok (row, after)
    → (find_record_by_rev r.revision after.records ≡ some row)
      × (records_equal_for_replication row r ≡ true)
      × (r.revision ≢ 0)
replicate_record-reads db r now row after h = elim (replicate_record-inv db r now row after h) [
  | inl (e, f, free) ↦ (
    rw (f, e) (unfold find_record_by_rev in ground arith),
    rw e (stamped-equal r now),
    unfold replicate_record in ground arith,
  )
  | inr (found, same, f) ↦ (rw f found, same, unfold replicate_record in ground arith)
]

replicate_record_again :
    (db : Db) (r : Record) (now : ℕ) (row : Record)
    → r.revision ≢ 0
    → find_record_by_rev r.revision db.records ≡ some row
    → records_equal_for_replication row r ≡ true
    → replicate_record db r now ≡ ok (row, db)
unfolding replicate_record insert_row
replicate_record_again db r now row positive found same =
    ground (arith, find-unique_conflict (stamped r now) db.records {q = row} found)

overwrite_conflict-inv :
    (db : Db) (r : Record) (now : ℕ) (res : Result (Record × Db)) (row : Record) (after : Db)
    → overwrite_conflict db r now res ≡ ok (row, after)
    → (res ≡ ok (row, after))
      ⊎ (replicate_record (record db { records = delete_revision r.revision db.records }) r now
          ≡ ok (row, after))
overwrite_conflict-inv db r now (ok x) row after h = inl h
overwrite_conflict-inv db r now (err replicate_conflict) row after h = inr h
overwrite_conflict-inv db r now (err _) row after h = inl h

-- The ways in which `ReplicateTentativeRecord` succeeds: as `ReplicateRecord` does, or, above the
-- committed revision, after the old row of that revision is deleted.
pub tentative-inv :
    (db : Db) (r : Record) (committed now : ℕ) (row : Record) (after : Db)
    → replicate_tentative_record db r committed now ≡ ok (row, after)
    → (replicate_record db r now ≡ ok (row, after))
      ⊎ ((leb r.revision committed ≡ false)
          × (replicate_record (record db { records = delete_revision r.revision db.records }) r now
              ≡ ok (row, after)))
unfolding replicate_tentative_record
tentative-inv db r committed now row after h = elim (Bool-cases (leb r.revision committed)) [
  | inl e ↦ inl (ground arith)
  | inr e ↦
      elim (overwrite_conflict-inv db r now (replicate_record db r now) row after (ground arith)) [
        | inl first ↦ inl first
        | inr second ↦ inr (e, second)
      ]
]

-- Replicating a record, tentative or not, never changes or removes a row at or below the committed
-- revision.
pub tentative-keeps_committed :
    (db : Db) (r : Record) (committed now : ℕ) (row : Record) (after : Db) (rev : ℕ) (q : Record)
    → replicate_tentative_record db r committed now ≡ ok (row, after)
    → rev ≤ committed
    → find_record_by_rev rev db.records ≡ some q
    → find_record_by_rev rev after.records ≡ some q
tentative-keeps_committed db r committed now row after rev q h below there =
    elim (tentative-inv db r committed now row after h) [
      | inl copied ↦ replicate_record-keeps db r now row after rev q copied there
      | inr (above, copied) ↦
          replicate_record-keeps (record db { records = delete_revision r.revision db.records }) r
            now row after rev q copied (rw find-delete_revision (ground arith))
    ]

-- A row of another revision stays as it is.
pub tentative-keeps_other :
    (db : Db) (r : Record) (committed now : ℕ) (row : Record) (after : Db) (rev : ℕ) (q : Record)
    → replicate_tentative_record db r committed now ≡ ok (row, after)
    → r.revision ≢ rev
    → find_record_by_rev rev db.records ≡ some q
    → find_record_by_rev rev after.records ≡ some q
tentative-keeps_other db r committed now row after rev q h other there =
    elim (tentative-inv db r committed now row after h) [
      | inl copied ↦ replicate_record-keeps db r now row after rev q copied there
      | inr (above, copied) ↦
          replicate_record-keeps (record db { records = delete_revision r.revision db.records }) r
            now row after rev q copied (rw find-delete_revision (ground arith))
    ]

-- After a record has been replicated its revision reads as the returned row, which has the fields
-- of the record that matter to replication; and to replicate it again, at any committed revision,
-- returns the same row and changes nothing.
pub tentative-idempotent :
    (db : Db) (r : Record) (committed now : ℕ) (row : Record) (after : Db) (committed' later : ℕ)
    → replicate_tentative_record db r committed now ≡ ok (row, after)
    → (find_record_by_rev r.revision after.records ≡ some row)
      × (records_equal_for_replication row r ≡ true)
      × (replicate_tentative_record after r committed' later ≡ ok (row, after))
tentative-idempotent db r committed now row after committed' later h =
    let reads = read in
    (
      reads.0,
      reads.1,
      unfold replicate_tentative_record in
          ground (arith, replicate_record_again after r later row reads.2 reads.0 reads.1),
    )
  where
    read :
        (find_record_by_rev r.revision after.records ≡ some row)
        × (records_equal_for_replication row r ≡ true)
        × (r.revision ≢ 0)
    read = elim (tentative-inv db r committed now row after h) [
      | inl copied ↦ replicate_record-reads db r now row after copied
      | inr (above, copied) ↦ replicate_record-reads _ r now row after copied
    ]
