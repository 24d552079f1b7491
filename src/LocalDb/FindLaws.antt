-- ===== src/LocalDb/FindLaws.antt =====
-- What `FindRecordsBy` returns in each order.

use mathlib.Core.List.{Perm}
use mathlib.Core.List.Perm
use netsy.Base.{
  ℕ, zero, suc, ◌≡◌, refl, ap, sym, ◌∙◌, Bool, false, List, [], ◌∷◌, ◌++◌, map, arith, ◌==◌,
  if◌then◌else◌, Bytes, length, take, All, Bool-cases, inl, inr,
}
use netsy.LocalDb.{Record, Db, ok}
use netsy.LocalDb.Find.{
  bytes_less, current_rows, Order, asc, desc, OutRow, row_less, before, insert_sorted, sort_rows,
  metadata_row, metadata_record, as_rows, records_of, limited, scan_rows, find_records_by,
}
use netsy.LocalDb.FindOrder.{IsOrdered, sort_rows-IsOrdered, sort_rows-perm}

-- A row that comes from a record.
abbrev pub IsData : OutRow → Type 0
IsData a = (a.is_metadata ≡ false) × (a.records_count ≡ 0)

pub as_rows-IsData : (rs : List Record) → All IsData (as_rows rs)
unfolding as_rows
as_rows-IsData [] = tt
as_rows-IsData (r ∷ rs) = ((refl, refl), as_rows-IsData rs)

insert_sorted-IsData :
    (o : Order) (a : OutRow) (rows : List OutRow)
    → IsData a
    → All IsData rows
    → All IsData (insert_sorted o a rows)
unfolding insert_sorted
insert_sorted-IsData o a [] d ds = (d, tt)
insert_sorted-IsData o a (b ∷ rest) d ds = elim (Bool-cases (before o b a)) [
  | inl first ↦ simp first (ds.0, insert_sorted-IsData o a rest d ds.1)
  | inr later ↦ simp later (d, ds)
]

pub sort_rows-IsData :
    (o : Order) (rows : List OutRow) → All IsData rows → All IsData (sort_rows o rows)
unfolding sort_rows
sort_rows-IsData o [] ds = tt
sort_rows-IsData o (a ∷ rest) ds =
    insert_sorted-IsData o a (sort_rows o rest) ds.0 (sort_rows-IsData o rest ds.1)

-- The metadata row goes first in ascending order, and last in descending order.
insert_metadata-asc :
    (n : ℕ) (rows : List OutRow)
    → All IsData rows
    → insert_sorted asc (metadata_row n) rows ≡ metadata_row n ∷ rows
unfolding insert_sorted row_less
insert_metadata-asc n [] ds = refl
insert_metadata-asc n (b ∷ rest) ds = ground (arith, ds.0.0)

insert_metadata-desc :
    (n : ℕ) (rows : List OutRow)
    → All IsData rows
    → insert_sorted desc (metadata_row n) rows ≡ rows ++ metadata_row n ∷ []
unfolding insert_sorted row_less
insert_metadata-desc n [] ds = refl
insert_metadata-desc n (b ∷ rest) ds = ground (arith, ds.0.0, insert_metadata-desc n rest ds.1)

records_of-take : (n : ℕ) (rows : List OutRow) → records_of (take n rows) ≡ take n (records_of rows)
unfolding records_of
records_of-take zero rows = refl
records_of-take (suc n) [] = refl
records_of-take (suc n) (a ∷ rest) = ap (◌∷◌ a.record_of) (records_of-take n rest)

records_of-append :
    (rows more : List OutRow) → records_of (rows ++ more) ≡ records_of rows ++ records_of more
unfolding records_of
records_of-append [] more = refl
records_of-append (a ∷ rest) more = ap (◌∷◌ a.record_of) (records_of-append rest more)

-- The current rows in the order of their keys.
abbrev pub sorted_records : Order → List Record → List Record
sorted_records o current = records_of (sort_rows o (as_rows current))

scan_limited :
    (limit n : ℕ) (rows : List OutRow)
    → scan_rows (limited limit (metadata_row n ∷ rows))
      ≡ ((if limit == 0 then records_of rows else take limit (records_of rows)), n)
unfolding scan_rows records_of
scan_limited zero n rows = refl
scan_limited (suc limit) n rows = ground (arith, records_of-take (suc limit) rows)

scan_metadata_last :
    (n : ℕ) (rows : List OutRow) (r : Record) (rs : List Record)
    → All IsData rows
    → records_of rows ≡ r ∷ rs
    → scan_rows (rows ++ metadata_row n ∷ []) ≡ (rs ++ metadata_record ∷ [], 0)
unfolding scan_rows records_of
scan_metadata_last n [] r rs ds e = cc
scan_metadata_last n (a ∷ rest) r rs ds e =
    ground (arith, ds.0.1, records_of-append rest (metadata_row n ∷ []))

sort_metadata-asc :
    (n : ℕ) (rows : List OutRow)
    → All IsData rows
    → sort_rows asc (metadata_row n ∷ rows) ≡ metadata_row n ∷ sort_rows asc rows
unfolding sort_rows
sort_metadata-asc n rows ds =
    insert_metadata-asc n (sort_rows asc rows) (sort_rows-IsData asc rows ds)

sort_metadata-desc :
    (n : ℕ) (rows : List OutRow)
    → All IsData rows
    → sort_rows desc (metadata_row n ∷ rows) ≡ sort_rows desc rows ++ metadata_row n ∷ []
unfolding sort_rows
sort_metadata-desc n rows ds =
    insert_metadata-desc n (sort_rows desc rows) (sort_rows-IsData desc rows ds)

-- In ascending order `FindRecordsBy` returns the current rows by key, the first `limit` of them if
-- there is a limit, and the number of all of them.
pub find_records_by-asc :
    (db : Db) (where_key : Bytes → Bool) (revision limit : ℕ)
    → let current = current_rows where_key revision db.records in
      find_records_by db where_key revision limit asc
      ≡ ok (
        (if limit == 0
            then sorted_records asc current
            else take limit (sorted_records asc current)),
        length current,
      )
unfolding find_records_by
find_records_by-asc db where_key revision limit =
    let current = current_rows where_key revision db.records in
    rw (sort_metadata-asc (length current) (as_rows current) (as_rows-IsData current))
      (ap ok (scan_limited limit (length current) (sort_rows asc (as_rows current))))

-- In descending order the metadata row comes last: `FindRecordsBy` without a limit loses the first
-- of the current rows, returns the made-up record after the others, and counts 0 of them.
pub find_records_by-desc :
    (db : Db) (where_key : Bytes → Bool) (revision : ℕ) (r : Record) (rs : List Record)
    → sorted_records desc (current_rows where_key revision db.records) ≡ r ∷ rs
    → find_records_by db where_key revision 0 desc ≡ ok (rs ++ metadata_record ∷ [], 0)
unfolding find_records_by
find_records_by-desc db where_key revision r rs e =
    let current = current_rows where_key revision db.records in
    rw (sort_metadata-desc (length current) (as_rows current) (as_rows-IsData current)) (
      ap ok (
        scan_metadata_last (length current) (sort_rows desc (as_rows current)) r rs
          (sort_rows-IsData desc (as_rows current) (as_rows-IsData current)) e))

records_of-eq-map : (rows : List OutRow) → records_of rows ≡ map (λ (a : OutRow). a.record_of) rows
unfolding records_of
records_of-eq-map [] = refl
records_of-eq-map (a ∷ rest) = ap (◌∷◌ a.record_of) (records_of-eq-map rest)

records_of-as_rows : (rs : List Record) → records_of (as_rows rs) ≡ rs
unfolding records_of as_rows
records_of-as_rows [] = refl
records_of-as_rows (r ∷ rs) = ap (◌∷◌ r) (records_of-as_rows rs)

-- No record has a key that is less than the key of the record before it.
abbrev pub KeyAfter : Record → List Record → Type 0
KeyAfter r [] = Unit
KeyAfter r (q ∷ rest) = bytes_less q.key r.key ≡ false

abbrev pub KeysAscend : List Record → Type 0
KeysAscend [] = Unit
KeysAscend (r ∷ rest) = KeyAfter r rest × KeysAscend rest

records_of-KeysAscend :
    (rows : List OutRow) → All IsData rows → IsOrdered asc rows → KeysAscend (records_of rows)
unfolding records_of row_less
records_of-KeysAscend [] ds h = tt
records_of-KeysAscend (a ∷ []) ds h = (tt, tt)
records_of-KeysAscend (a ∷ b ∷ rest) ds h =
    (ground (arith, h.0, ds.0.0, ds.1.0.0), records_of-KeysAscend (b ∷ rest) ds.1 h.1)

-- The records that are returned in ascending order are the current rows, each as often, and their
-- keys ascend.
pub sorted_records_lem :
    (current : List Record)
    → Perm (sorted_records asc current) current × KeysAscend (sorted_records asc current)
sorted_records_lem current = (
  rw records_of-eq-map (
      Perm.trans (Perm.map _ (sort_rows-perm asc (as_rows current))) (
        rw (sym (records_of-eq-map (as_rows current)) ∙ records_of-as_rows current)
          (Perm.refl current))),
  records_of-KeysAscend (sort_rows asc (as_rows current))
      (sort_rows-IsData asc (as_rows current) (as_rows-IsData current))
      (sort_rows-IsOrdered asc (as_rows current)),
)

length-insert_sorted :
    (o : Order) (a : OutRow) (rows : List OutRow)
    → length (insert_sorted o a rows) ≡ suc (length rows)
unfolding insert_sorted
length-insert_sorted o a [] = refl
length-insert_sorted o a (b ∷ rest) = ground (arith, length-insert_sorted o a rest)

length-sort_rows : (o : Order) (rows : List OutRow) → length (sort_rows o rows) ≡ length rows
unfolding sort_rows
length-sort_rows o [] = refl
length-sort_rows o (a ∷ rest) =
    length-insert_sorted o a (sort_rows o rest) ∙ ap suc (length-sort_rows o rest)

length-records_of : (rows : List OutRow) → length (records_of rows) ≡ length rows
unfolding records_of
length-records_of [] = refl
length-records_of (a ∷ rest) = ap suc (length-records_of rest)

length-as_rows : (rs : List Record) → length (as_rows rs) ≡ length rs
unfolding as_rows
length-as_rows [] = refl
length-as_rows (r ∷ rs) = ap suc (length-as_rows rs)

pub length-sorted_records :
    (o : Order) (current : List Record) → length (sorted_records o current) ≡ length current
length-sorted_records o current =
    length-records_of (sort_rows o (as_rows current))
    ∙ length-sort_rows o (as_rows current)
    ∙ length-as_rows current
