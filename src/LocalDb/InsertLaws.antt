-- ===== src/LocalDb/InsertLaws.antt =====
-- `InsertRecord` against a store that compares and swaps.
use netsy.Base.{
  ℕ, ◌+◌, ◌≤◌, ◌<◌, ◌≡◌, refl, sym, ap, ◌∙◌, false, Option, none, some, List, ◌∷◌, arith, All,
  Bytes, bytes_equal, ◌==◌, Bool-cases, inl, inr, if◌then◌else◌,
}
use netsy.LocalDb.{
  Record, Db, DbError, create_key_exists, delete_key_not_found, compare_revision_failed, Result, ok,
  err, latest_for_key, latest_revision, live_row, live, revision_of, insert_row,
}
use netsy.LocalDb.Latest.{
  RowOk, IsWellFormed, OnSome, latest_for_key-OnSome, latest_for_key-le-latest, update_no_conflict,
  create_no_conflict, latest_for_key-newest, fresh-Distinct,
}
use netsy.LocalDb.Insert.{invalid_for_insert, insert_record}

-- What a client that knows the present row of the key may expect: a creation needs an absent key,
-- a deletion a present one, and the revision that the client names has to be the present one (0 for
-- an absent key).
abbrev pub refusal : Option Record → Record → Option DbError
refusal none r =
    if r.deleted
    then some delete_key_not_found
    else if r.prev_revision == 0
    then none
    else some compare_revision_failed
refusal (some current) r =
    if r.created
    then some create_key_exists
    else if r.prev_revision == current.revision
    then none
    else some compare_revision_failed

-- The first version of a key that was absent, or the next version of a present one.
abbrev pub next_version : Option Record → Record → ℕ → ℕ → Record
next_version current r latest now = record {
  revision = r.revision;
  key = r.key;
  created = r.created;
  deleted = r.deleted;
  create_revision = elim current [ none ↦ latest + 1 | some c ↦ c.create_revision ];
  prev_revision = r.prev_revision;
  version = if r.deleted then 0 else elim current [ none ↦ 1 | some c ↦ c.version + 1 ];
  lease = r.lease;
  dek = r.dek;
  value = r.value;
  created_at = some now;
  compacted_at = none;
  leader_id = r.leader_id;
  replicated_at = none;
  crc = 0;
}

abbrev pub answer : Db → Record → Option DbError → Result (Record × Db)
answer db row (some e) = err e
answer db row none = ok (row, record db { records = row ∷ db.records })

module _ (db : Db) (r : Record) (now : ℕ) (w : IsWellFormed db.records)
    (valid : invalid_for_insert r ≡ false) (new : latest_revision db.records < r.revision) where
  open db use {records}

  absent_case :
      (o : Option Record)
      → latest_for_key r.key records ≡ o
      → live_row o ≡ none
      → OnSome RowOk o
      → insert_record db r now false
        ≡ answer db (next_version none r (latest_revision records) now) (refusal none r)
  unfolding insert_record insert_row
  absent_case none e gone good =
      ground (
        arith,
        create_no_conflict (next_version none r (latest_revision records) now) records w.rows,
      )
  absent_case (some q) e gone good = ground (
    arith,
    good.tombstone_version,
    create_no_conflict (next_version none r (latest_revision records) now) records w.rows,
  )

  present_case :
      (q : Record)
      → latest_for_key r.key records ≡ some q
      → q.deleted ≡ false
      → RowOk q
      → insert_record db r now false
        ≡ answer db (next_version (some q) r (latest_revision records) now) (refusal (some q) r)
  unfolding insert_record insert_row
  present_case q e there good = ground (
    arith,
    good.positive,
    update_no_conflict (next_version (some q) r (latest_revision records) now) records w.rows,
  )

  cases :
      (o : Option Record)
      → latest_for_key r.key records ≡ o
      → OnSome RowOk o
      → insert_record db r now false
        ≡ answer db
            (next_version (live_row o) r (latest_revision records) now)
            (refusal (live_row o) r)
  cases none e good = absent_case none e refl good
  cases (some q) e good = elim (Bool-cases q.deleted) [
    | inl gone ↦ rw gone (absent_case (some q) e (ground arith) good)
    | inr there ↦ rw there (present_case q e there good)
  ]

  -- On a well-formed table, and for a valid record whose revision is above all of the table's,
  -- `InsertRecord`, where the statement itself does not fail, does what a store that compares and
  -- swaps does: it refuses with the same error, or it puts the next version of the key in front of the
  -- rows and changes no other.
  pub insert_record_lem :
      insert_record db r now false
      ≡ answer db
          (next_version (live r.key records) r (latest_revision records) now)
          (refusal (live r.key records) r)
  insert_record_lem =
      cases (latest_for_key r.key records) refl (latest_for_key-OnSome RowOk r.key records w.rows)

answer-inv :
    (db : Db) (expected : Record) (o : Option DbError) (row : Record) (after : Db)
    → answer db expected o ≡ ok (row, after)
    → (o ≡ none)
      × (row ≡ expected)
      × (after.records ≡ row ∷ db.records)
      × (after.compactions ≡ db.compactions)
answer-inv db expected none row after h = ground arith
answer-inv db expected (some x) row after h = ground arith

live-RowOk : (k : Bytes) (rs : List Record) → All RowOk rs → OnSome RowOk (live k rs)
live-RowOk k rs h = go (latest_for_key k rs) (latest_for_key-OnSome RowOk k rs h)
  where
    go : (o : Option Record) → OnSome RowOk o → OnSome RowOk (live_row o)
    go none p = tt
    go (some q) p = elim (Bool-cases q.deleted) [ inl e ↦ simp e tt | inr e ↦ simp e p ]

pub live-le-latest : (k : Bytes) (rs : List Record) → revision_of (live k rs) ≤ latest_revision rs
live-le-latest k rs = ground (arith, latest_for_key-le-latest k rs)

next_version-RowOk :
    (o : Option Record) (r : Record) (latest now : ℕ)
    → OnSome RowOk o
    → revision_of o ≤ latest
    → latest < r.revision
    → refusal o r ≡ none
    → RowOk (next_version o r latest now)
next_version-RowOk none r latest now good bound new agreed = ground arith
next_version-RowOk (some q) r latest now good bound new agreed =
    let created_before = good.create_le in ground arith

module _ (db : Db) (r : Record) (now : ℕ) (row : Record) (after : Db) (w : IsWellFormed db.records)
    (new : latest_revision db.records < r.revision)
    (inserted : insert_record db r now false ≡ ok (row, after)) where
  accepted : invalid_for_insert r ≡ false
  unfolding insert_record
  accepted = ground arith

  pub insert_record-inv :
      (refusal (live r.key db.records) r ≡ none)
      × (row ≡ next_version (live r.key db.records) r (latest_revision db.records) now)
      × (after.records ≡ row ∷ db.records)
      × (after.compactions ≡ db.compactions)
  insert_record-inv =
      answer-inv db _ (refusal (live r.key db.records) r) row after
        (sym (insert_record_lem db r now w accepted new) ∙ inserted)

  row_revision : row.revision ≡ r.revision
  row_revision = ap (λ (q : Record). q.revision) insert_record-inv.1

  row_key : row.key ≡ r.key
  row_key = ap (λ (q : Record). q.key) insert_record-inv.1

  row_deleted : row.deleted ≡ r.deleted
  row_deleted = ap (λ (q : Record). q.deleted) insert_record-inv.1

  -- After a successful insertion into a well-formed table the written key reads as the new row, or
  -- as absent if the row is a tombstone, and every other key reads as before.
  pub live-insert_record :
      (k : Bytes)
      → live k after.records ≡ (
          if bytes_equal r.key k then (if r.deleted then none else some row) else live k db.records)
  live-insert_record k = rw (insert_record-inv.2) (
      rw (latest_for_key-newest k row db.records (omega (arith, row_revision)))
        (ground (arith, row_key, row_deleted)))

  -- A successful insertion into a well-formed table keeps it well formed.
  pub insert_record-IsWellFormed : IsWellFormed after.records
  insert_record-IsWellFormed = rw (insert_record-inv.2) (record {
    rows = (row_ok, w.rows);
    distinct = (fresh-Distinct row.revision db.records newest, w.distinct);
  })
    where
      newest : latest_revision db.records < row.revision
      newest = omega (arith, row_revision)

      row_ok : RowOk row
      row_ok = rw (insert_record-inv.1) (
          next_version-RowOk (live r.key db.records) r (latest_revision db.records) now
            (live-RowOk r.key db.records w.rows) (live-le-latest r.key db.records) new
            insert_record-inv.0)
