-- ===== src/LocalDb/StreamLaws.antt =====
-- The pages of a range query, one behind the other.
use netsy.Base.{
  ℕ, ◌≤◌, ◌≡◌, refl, sym, ap, ◌∙◌, ◌≢◌, Bool, true, false, List, [], ◌∷◌, arith, All, inl, inr,
  Bytes, bytes_equal, bytes_equal_iff, Bool-cases, select, select-All,
}
use netsy.LocalDb.{Record}
use netsy.LocalDb.Latest.{Distinct}
use netsy.LocalDb.Compact.{has_newer}
use netsy.LocalDb.Find.{
  filtered, is_current, current_rows, asc, OutRow, records_of, insert_sorted, row_less, as_rows,
  sort_rows,
}
use netsy.LocalDb.FindLaws.{sorted_records, IsData, as_rows-IsData, sort_rows-IsData}
use netsy.LocalDb.FindStream.{insert_by_key, sort_by_key}
use netsy.LocalDb.StreamOrder.{Differ, KeysDiffer}

-- The current rows of a table without two rows of one revision have different keys.
newer_at :
    (k : Bytes) (rev : ℕ) (rows : List Record)
    → has_newer k rev rows ≡ false
    → All (λ (q : Record). bytes_equal q.key k ≡ true → q.revision ≤ rev) rows
unfolding has_newer
newer_at k rev [] h = tt
newer_at k rev (q ∷ qs) h = (λ e. ground arith, newer_at k rev qs (ground arith))

-- What holds of all rows holds of these.
abbrev Within : List Record → List Record → Type 1
Within rows rs = (P : Record → Type 0) → All P rows → All P rs

keys_differ :
    (rows : List Record) (r q : Record)
    → is_current rows r ≡ true
    → is_current rows q ≡ true
    → q.revision ≢ r.revision
    → ((P : Record → Type 0) → All P rows → P r)
    → ((P : Record → Type 0) → All P rows → P q)
    → bytes_equal r.key q.key ≡ false
unfolding is_current
keys_differ rows r q now_r now_q other at_r at_q = elim (Bool-cases (bytes_equal r.key q.key)) [
  | inr e ↦ e
  | inl e ↦
      let back = (bytes_equal_iff q.key r.key).1 (sym ((bytes_equal_iff r.key q.key).0 e)) in
      let older = at_q _ (newer_at r.key r.revision rows (ground arith)) back in
      let newer = at_r _ (newer_at q.key q.revision rows (ground arith)) e in
      absurd (other (omega arith))
]

current-Differ :
    (rows rs : List Record) (r : Record)
    → ((P : Record → Type 0) → All P rows → P r)
    → Within rows rs
    → is_current rows r ≡ true
    → All (λ (q : Record). q.revision ≢ r.revision) rs
    → Differ r (select (is_current rows) rs)
unfolding is_current
current-Differ rows [] r at_r within now d = tt
current-Differ rows (q ∷ qs) r at_r within now d =
    let rest = current-Differ rows qs r at_r (λ P all. (within P all).1) now d.1 in
    elim (Bool-cases (is_current rows q)) [
      | inr e ↦ simp e rest
      | inl e ↦ simp e (keys_differ rows r q now e d.0 at_r (λ P all. (within P all).0), rest)
    ]

select-KeysDiffer :
    (rows rs : List Record)
    → Within rows rs
    → Distinct rs
    → KeysDiffer (select (is_current rows) rs)
select-KeysDiffer rows [] within d = tt
select-KeysDiffer rows (r ∷ rs) within d =
    let rest = select-KeysDiffer rows rs (λ P all. (within P all).1) d.1 in
    elim (Bool-cases (is_current rows r)) [
      | inr e ↦ simp e rest
      | inl e ↦ simp e (
        current-Differ rows rs r (λ P all. (within P all).0) (λ P all. (within P all).1) e d.0,
        rest,
      )
    ]

select-Distinct : (p : Record → Bool) (rs : List Record) → Distinct rs → Distinct (select p rs)
select-Distinct p [] d = tt
select-Distinct p (r ∷ rs) d =
    let rest = select-Distinct p rs d.1 in
    elim (Bool-cases (p r)) [
      | inl e ↦ simp e (select-All (λ (q : Record). q.revision ≢ r.revision) p rs d.0, rest)
      | inr e ↦ simp e rest
    ]

pub current-KeysDiffer :
    (where_key : Bytes → Bool) (revision : ℕ) (rs : List Record)
    → Distinct rs
    → KeysDiffer (current_rows where_key revision rs)
unfolding current_rows filtered
current-KeysDiffer where_key revision rs d =
    select-KeysDiffer (filtered where_key revision rs) (filtered where_key revision rs)
      (λ P all. all) (select-Distinct _ rs d)

-- The order of the pages is that of `FindRecordsBy`.
insert_sorted-records :
    (a : OutRow) (rows : List OutRow)
    → IsData a
    → All IsData rows
    → records_of (insert_sorted asc a rows) ≡ insert_by_key asc a.record_of (records_of rows)
unfolding records_of insert_sorted insert_by_key row_less
insert_sorted-records a [] d ds = refl
insert_sorted-records a (b ∷ rest) d ds =
    ground (arith, d.0, ds.0.0, insert_sorted-records a rest d ds.1)

pub sorted_records-eq-sort :
    (current : List Record) → sorted_records asc current ≡ sort_by_key asc current
unfolding as_rows sort_rows sort_by_key records_of
sorted_records-eq-sort [] = refl
sorted_records-eq-sort (r ∷ rs) =
    insert_sorted-records (record { records_count = 0; is_metadata = false; record_of = r })
      (sort_rows asc (as_rows rs)) (refl, refl)
      (sort_rows-IsData asc (as_rows rs) (as_rows-IsData rs))
    ∙ ap (insert_by_key asc r) (sorted_records-eq-sort rs)
