-- ===== src/LocalDb/FindStream.antt =====
-- `FindRecordsForRangeStream` of internal/localdb/find.go: a page of the rows that a range query finds,
-- behind a key.
use netsy.Base.{ℕ, Bool, true, List, [], ◌∷◌, ◌==◌, if◌then◌else◌, Bytes, select, take}
use netsy.LocalDb.{Record, Db, Result, ok, err, invalid_order}
use netsy.LocalDb.Find.{bytes_less, current_rows, Order, desc, other}

-- ORDER BY key: whether a row stands before another. No two rows of a page have one key.
abbrev pub key_before : Order → Record → Record → Bool
key_before desc a b = bytes_less b.key a.key
key_before _ a b = bytes_less a.key b.key

unfoldable pub insert_by_key : Order → Record → List Record → List Record
insert_by_key o r [] = r ∷ []
insert_by_key o r (q ∷ qs) =
    let rest = insert_by_key o r qs in if key_before o q r then q ∷ rest else r ∷ q ∷ qs

unfoldable pub sort_by_key : Order → List Record → List Record
unfolding insert_by_key
sort_by_key o [] = []
sort_by_key o (r ∷ rs) = insert_by_key o r (sort_by_key o rs)

-- AND key > ?, or <, if there is a key to go on from.
abbrev pub past_cursor : Order → (after_key : Bytes) → Record → Bool
past_cursor o [] r = true
past_cursor desc (b ∷ bs) r = bytes_less r.key (b ∷ bs)
past_cursor _ (b ∷ bs) r = bytes_less (b ∷ bs) r.key

-- LIMIT ?, if there is a limit.
abbrev pub limit_rows : ℕ → List Record → List Record
limit_rows limit rows = if limit == 0 then rows else take limit rows

abbrev pub stream_rows :
    Db → (where_key : Bytes → Bool) → (revision : ℕ) → Order → (after_key : Bytes) → List Record
stream_rows db where_key revision o after_key =
    sort_by_key o (select (past_cursor o after_key) (current_rows where_key revision db.records))

unfoldable pub find_records_for_range_stream :
    Db
    → (where_key : Bytes → Bool) → (revision limit : ℕ) → Order
    → (after_key : Bytes) → Result (List Record)
unfolding sort_by_key current_rows
find_records_for_range_stream db where_key revision limit other after_key = err invalid_order
find_records_for_range_stream db where_key revision limit o after_key =
    ok (limit_rows limit (stream_rows db where_key revision o after_key))
