-- ===== src/LocalDb/NoConflict.antt =====
-- A row that `InsertRecord` returns clashes with no row that was there.
use std.Path.{subst}
use netsy.Base.{ℕ, ◌≡◌, refl, Bool, false, Option, none, some, inl, inr, Bool-cases, ltb}
use netsy.LocalDb.{Record, Db, Result, ok, err, unique_conflict, insert_row}
use netsy.LocalDb.Insert.{insert_record, insert_sql, insert_columns, returning, invalid_for_insert}

-- An inserted row clashes with no row of the table.
abbrev OnInserted : Db → Result (Record × Db) → Type 0
OnInserted db (err e) = Unit
OnInserted db (ok (row, after)) = unique_conflict row db.records ≡ false

returning-OnInserted : (db : Db) (row : Record) → OnInserted db (returning row (insert_row db row))
unfolding insert_row
returning-OnInserted db row = elim (Bool-cases (unique_conflict row db.records)) [
  | inl e ↦ simp e tt
  | inr e ↦ elim (Bool-cases (ltb row.revision 1)) [
    | inl low ↦ simp (e, low) tt
    | inr fine ↦ simp (e, fine) refl
  ]
]

insert_columns-OnInserted :
    (db : Db) (r : Record) (now : ℕ) (created deleted : Option Bool) (prev : Option ℕ)
    → OnInserted db (insert_columns db r now created deleted prev)
unfolding insert_columns
insert_columns-OnInserted db r now none deleted prev = tt
insert_columns-OnInserted db r now (some created) none prev = tt
insert_columns-OnInserted db r now (some created) (some deleted) none = tt
insert_columns-OnInserted db r now (some created) (some deleted) (some prev) =
    returning-OnInserted db _

insert_record-OnInserted :
    (db : Db) (r : Record) (now : ℕ) (fails : Bool) → OnInserted db (insert_record db r now fails)
unfolding insert_record insert_sql
insert_record-OnInserted db r now fails = elim (Bool-cases (invalid_for_insert r)) [
  | inl e ↦ simp e tt
  | inr valid ↦ elim (Bool-cases fails) [
    | inl e ↦ simp (valid, e) tt
    | inr e ↦ simp (valid, e) (insert_columns-OnInserted db r now _ _ _)
  ]
]

pub insert_record-free :
    (db : Db) (r : Record) (now : ℕ) (fails : Bool) (row : Record) (after : Db)
    → insert_record db r now fails ≡ ok (row, after)
    → unique_conflict row db.records ≡ false
insert_record-free db r now fails row after h =
    subst (OnInserted db) h (insert_record-OnInserted db r now fails)
