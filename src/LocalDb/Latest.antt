-- ===== src/LocalDb/Latest.antt =====
-- The invariant of the records table, and laws of the queries for the latest row.

use netsy.Base.{
  ℕ, ◌≤◌, ◌<◌, ◌≡◌, refl, ◌≢◌, true, false, Option, none, some, List, [], ◌∷◌, arith, All, Bytes,
  bytes_equal, ltb, Bool-cases, inl, inr, if◌then◌else◌,
}
use netsy.LocalDb.{Record, newer, latest_for_key, latest_revision, revision_of, unique_conflict}

-- A row follows the row that it replaces, and its key was created no later than it.
pub record RowOk (r : Record) : Type 0 where
  pub positive : 1 ≤ r.revision
  pub prev_older : r.prev_revision < r.revision
  pub create_le : r.create_revision ≤ r.revision
  pub tombstone_version : r.deleted ≡ true → r.version ≡ 0

-- No two rows have one revision.
abbrev pub Distinct : List Record → Type 0
Distinct [] = Unit
Distinct (r ∷ rs) = All (λ q. q.revision ≢ r.revision) rs × Distinct rs

pub record IsWellFormed (rs : List Record) : Type 0 where
  pub rows : All RowOk rs
  pub distinct : Distinct rs

pub latest_for_key-le-latest :
    (k : Bytes) (rs : List Record) → revision_of (latest_for_key k rs) ≤ latest_revision rs
unfolding latest_for_key latest_revision
latest_for_key-le-latest k [] = omega arith
latest_for_key-le-latest k (r ∷ rs) = ground (arith, latest_for_key-le-latest k rs)

-- A row with the newest revision of the table is the latest of its key and of no other key.
pub latest_for_key-newest :
    (k : Bytes) (row : Record) (rs : List Record)
    → latest_revision rs < row.revision
    → latest_for_key k (row ∷ rs)
      ≡ (if bytes_equal row.key k then some row else latest_for_key k rs)
unfolding latest_for_key
latest_for_key-newest k row rs h = ground (arith, latest_for_key-le-latest k rs)

pub latest_revision-newest :
    (row : Record) (rs : List Record)
    → latest_revision rs < row.revision
    → latest_revision (row ∷ rs) ≡ row.revision
unfolding latest_revision
latest_revision-newest row rs h = ground arith

pub fresh-Distinct :
    (n : ℕ) (rs : List Record) → latest_revision rs < n → All (λ q. q.revision ≢ n) rs
unfolding latest_revision
fresh-Distinct n [] h = tt
fresh-Distinct n (r ∷ rs) h = (ground arith, fresh-Distinct n rs (ground arith))

-- An update of the latest row of its key clashes with no row.
pub update_no_conflict :
    (row : Record) (rs : List Record)
    → All RowOk rs
    → latest_revision rs < row.revision
    → revision_of (latest_for_key row.key rs) ≤ row.prev_revision
    → unique_conflict row rs ≡ false
unfolding latest_for_key latest_revision unique_conflict
update_no_conflict row [] ok_rows new latest = refl
update_no_conflict row (r ∷ rs) ok_rows new latest =
    let positive = ok_rows.0.prev_older in ground (arith, update_no_conflict row rs ok_rows.1)

-- Nor does a row of a key that is created after all of them.
pub create_no_conflict :
    (row : Record) (rs : List Record)
    → All RowOk rs
    → latest_revision rs < row.revision
    → latest_revision rs < row.create_revision
    → unique_conflict row rs ≡ false
unfolding latest_revision unique_conflict
create_no_conflict row [] ok_rows new created = refl
create_no_conflict row (r ∷ rs) ok_rows new created =
    let created_before = ok_rows.0.create_le in ground (arith, create_no_conflict row rs ok_rows.1)

abbrev pub OnSome : (Record → Type 0) → Option Record → Type 0
OnSome P none = Unit
OnSome P (some r) = P r

module _ (P : Record → Type 0) where
  newer-OnSome : (r : Record) (o : Option Record) → P r → OnSome P o → P (newer r o)
  newer-OnSome r none p q = p
  newer-OnSome r (some s) p q = elim (Bool-cases (ltb r.revision s.revision)) [
    | inl e ↦ rw e q
    | inr e ↦ rw e p
  ]

  -- What holds of every row holds of the latest row of a key.
  pub latest_for_key-OnSome :
      (k : Bytes) (rs : List Record) → All P rs → OnSome P (latest_for_key k rs)
  unfolding latest_for_key
  latest_for_key-OnSome k [] h = tt
  latest_for_key-OnSome k (r ∷ rs) h = elim (Bool-cases (bytes_equal r.key k)) [
    | inl e ↦ rw e (newer-OnSome r (latest_for_key k rs) h.0 (latest_for_key-OnSome k rs h.1))
    | inr e ↦ rw e (latest_for_key-OnSome k rs h.1)
  ]
