-- ===== src/CommonApi/RangeLaws.antt =====
-- What `Range` answers, in ascending and in descending order, and when it panics.
use netsy.Base.{
  ℕ, zero, suc, ◌≡◌, ◌≢◌, refl, sym, ap, ◌∙◌, Bool, true, false, Option, none, some, List, [], ◌∷◌,
  ◌++◌, ◌&&◌, arith, ltb, ◌==◌, ◌↔◌, if◌then◌else◌, length, take, length-take-le, length-take-ge,
  Bytes,
}
use netsy.LocalDb.{Record, Db}
use netsy.LocalDb as LocalDb
use netsy.LocalDb.Find.{asc, desc, current_rows, find_records_by, metadata_record}
use netsy.LocalDb.FindLaws.{
  sorted_records, find_records_by-asc, find_records_by-desc, length-sorted_records,
}
use netsy.Etcd.{RangeRequest, descend}
use netsy.CommonApi.Query.{Where, build_range_query, range_end_prefix_value, matches}
use netsy.CommonApi.{
  ok, err, index_panic, validate_range_request, records_to_key_values, positive_part, order_of,
  with_kvs, range_response, answer_range, run_query, range,
}

-- The rows of an ascending answer: all, or the first `limit`.
abbrev pub page : (limit : ℕ) → List Record → List Record
page limit current =
    if limit == 0 then sorted_records asc current else take limit (sorted_records asc current)

length-page :
    (limit : ℕ) (current : List Record)
    → ltb (length (page limit current)) (length current)
      ≡ (ltb 0 limit && ltb limit (length current))
length-page zero current = ground (arith, length-sorted_records asc current)
length-page (suc limit) current = ground (
  arith,
  length-sorted_records asc current,
  length-take-le (suc limit) (sorted_records asc current),
  length-take-ge (suc limit) (sorted_records asc current),
)

no_prefix : (key : Bytes) → range_end_prefix_value key ≡ none → key ≡ []
unfolding range_end_prefix_value
no_prefix [] e = refl
no_prefix (b ∷ []) e = cc
no_prefix (b ∷ c ∷ rest) e = ground (arith, no_prefix (c ∷ rest))

no_query : (r : RangeRequest) → build_range_query r ≡ none → range_end_prefix_value r.key ≡ none
unfolding build_range_query
no_query r e = ground arith

empty_query : (r : RangeRequest) → r.key ≡ [] → build_range_query r ≡ none
unfolding build_range_query range_end_prefix_value
empty_query r e = rw e refl

ltb_zero : (n : ℕ) → ltb n 0 ≡ false
ltb_zero n = ground arith

keys-no_panic : (rs : List Record) → records_to_key_values rs ≢ err index_panic
unfolding records_to_key_values
keys-no_panic [] e = cc
keys-no_panic (r ∷ rs) e = ground (arith, keys-no_panic rs)

response-no_panic :
    (count_only : Bool) (committed : ℕ) (rs : List Record) (total : ℕ)
    → range_response count_only committed rs total ≢ err index_panic
unfolding range_response
response-no_panic true committed rs total e = cc
response-no_panic false committed rs total e = ground (arith, keys-no_panic rs)

module _ (like : Bytes → Bytes → Bool) (db : Db) (r : RangeRequest) (committed : ℕ)
    (valid : validate_range_request r ≡ none) where
  range-valid : range like db r committed ≡ run_query like db r committed (build_range_query r)
  unfolding range run_query
  range-valid = rw (valid, range) refl

  range-found :
      (w : Where) (rows : List Record) (total : ℕ)
      → build_range_query r ≡ some w
      → find_records_by db
          (matches like w)
          (positive_part r.revision)
          (positive_part r.limit)
          (order_of r.sort_order)
        ≡ LocalDb.ok (rows, total)
      → range like db r committed ≡ range_response r.count_only committed rows total
  unfolding run_query range_response
  range-found w rows total query found = range-valid ∙ (rw query (rw (found, run_query) refl))

  answer-no_panic :
      (out : LocalDb.Result (List Record × ℕ)) → answer_range like r committed out ≢ err index_panic
  answer-no_panic (LocalDb.err e) h = cc
  answer-no_panic (LocalDb.ok (rows, total)) h =
      response-no_panic r.count_only committed rows total h

  query-panic : (w : Option Where) → run_query like db r committed w ≡ err index_panic → w ≡ none
  unfolding run_query
  query-panic none e = refl
  query-panic (some w) e = absurd (answer-no_panic _ e)

  -- A valid request makes `Range` panic exactly if its key is empty.
  pub range-index_panic : (range like db r committed ≡ err index_panic) ↔ (r.key ≡ [])
  unfolding run_query
  range-index_panic = (
    λ e. no_prefix r.key (no_query r (query-panic (build_range_query r) (sym range-valid ∙ e))),
    λ e. range-valid ∙ ap (run_query like db r committed) (empty_query r e),
  )

  -- A valid request with a key, not in descending order, is answered from the rows that are present
  -- at its revision and match its query: with their number, and with the keys of all of them or of
  -- the first `limit` in the order of keys. `More` is set exactly if the limit has cut some off. A
  -- compacted row among those returned makes it an error.
  pub range-asc :
      (w : Where)
      → build_range_query r ≡ some w
      → order_of r.sort_order ≡ asc
      → let current = current_rows (matches like w) (positive_part r.revision) db.records in
        let limit = positive_part r.limit in
        let more = ltb 0 limit && ltb limit (length current) in
        range like db r committed ≡ (
          if r.count_only
          then ok (record {
            header_revision = committed;
            kvs = [];
            count = length current;
            more = more;
          })
          else with_kvs committed
              (length current)
              more
              (records_to_key_values (page limit current)))
  unfolding range_response
  range-asc w query order =
      let current = current_rows (matches like w) (positive_part r.revision) db.records in
      let limit = positive_part r.limit in
      range-found w (page limit current) (length current) query
        (rw order (find_records_by-asc db (matches like w) (positive_part r.revision) limit))
      ∙ rw (length-page limit current) refl

  -- A valid request in descending order and without a limit loses the greatest of the keys that it
  -- should return, returns a made-up record with an empty key at the end, and counts none.
  pub range-desc :
      (w : Where) (first : Record) (rest : List Record)
      → build_range_query r ≡ some w
      → r.sort_order ≡ descend
      → positive_part r.limit ≡ 0
      → r.count_only ≡ false
      → sorted_records desc (current_rows (matches like w) (positive_part r.revision) db.records)
        ≡ first ∷ rest
      → range like db r committed
        ≡ with_kvs committed 0 false (records_to_key_values (rest ++ metadata_record ∷ []))
  unfolding range_response
  range-desc w first rest query order no_limit kvs sorted =
      range-found w (rest ++ metadata_record ∷ []) 0 query (
        rw (order, no_limit)
          (find_records_by-desc db (matches like w) (positive_part r.revision) first rest sorted))
      ∙ rw (kvs, ltb_zero (length (rest ++ metadata_record ∷ []))) refl
