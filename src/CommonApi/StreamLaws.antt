-- ===== src/CommonApi/StreamLaws.antt =====
-- The chunks of a stream against the answer of `Range` (range.go).
use netsy.Base.{
  ℕ, ◌-◌, ◌^◌, ◌<◌, ◌≡◌, ◌≢◌, refl, sym, ap, ◌∙◌, Bool, true, List, [], ◌∷◌, ◌&&◌, arith, ltb, ◌==◌,
  length, take, select, All, take_all, Bytes, Bool-cases, inl, inr, is_some,
}
use netsy.LocalDb.{Record, Db}
use netsy.LocalDb.Find.{asc}
use netsy.LocalDb.FindStream.{sort_by_key, past_cursor}
use std.Path.{subst}
use netsy.LocalDb.StreamOrder.{length-sort, sort-IsStrict, sort-All}
use netsy.LocalDb.StreamLaws.{current-KeysDiffer, sorted_records-eq-sort}
use netsy.Etcd.{RangeRequest, RangeResponse, KeyValue, SortOrder, sort_none, ascend, descend}
use netsy.CommonApi.{
  RangeResult, ok, err, range, with_kvs, order_of, to_key_value, prepend, records_to_key_values,
  positive_part,
}
use netsy.CommonApi.RangeLaws.{page, range-asc}
use netsy.CommonApi.Query.{Where, matches}
use netsy.CommonApi.ChunkSize.{InBounds, new_chunk_sizer}
use netsy.CommonApi.Stream.{
  Turn, total_limit, is_none_order, stream_loop, first_cursor, range_stream,
}
use netsy.CommonApi.StreamAnswers.{
  Plain, key_values, key_values-ok, IsAnswer, calm_turn, found_rows, IsStreamed,
}
use netsy.CommonApi.StreamChunks.{loop-IsAnswer}

stream-begins :
    (like : Bytes → Bytes → Bool) (size : List KeyValue → ℕ) (db : Db) (r : RangeRequest)
    (committed : ℕ) (w : Where) (meets : ℕ → Turn) (fuel : ℕ)
    → IsStreamed like db r w
    → range_stream like size r committed meets fuel
      ≡ stream_loop like size r committed w meets fuel (first_cursor like size r committed w meets)
unfolding range_stream stream_loop
stream-begins like size db r committed w meets fuel s =
    rw (s.valid, range_stream, s.order, s.query, s.keys) refl

select_every : (rs : List Record) → select (past_cursor asc []) rs ≡ rs
select_every [] = refl
select_every (q ∷ qs) = ap (◌∷◌ q) (select_every qs)

pub total_pos : (limit : ℕ) → 0 < total_limit limit
total_pos limit = ground arith

pub new_chunk_sizer-InBounds : InBounds new_chunk_sizer
unfolding new_chunk_sizer
new_chunk_sizer-InBounds = omega arith

-- The answer of `Range` that is no error.
prepend-ok :
    (kv : KeyValue) (out : RangeResult (List KeyValue)) (kvs : List KeyValue)
    → prepend kv out ≡ ok kvs
    → (rest : List KeyValue) × (out ≡ ok rest) × (kvs ≡ kv ∷ rest)
prepend-ok kv (ok rest) kvs h = (rest, refl, cc)
prepend-ok kv (err e) kvs h = cc

pub Plain-ok :
    (rs : List Record) (kvs : List KeyValue) → records_to_key_values rs ≡ ok kvs → All Plain rs
unfolding records_to_key_values
Plain-ok [] kvs h = tt
Plain-ok (q ∷ qs) kvs h = elim (Bool-cases (is_some q.compacted_at)) [
  | inl e ↦ absurd (ground arith)
  | inr e ↦
      let first = prepend-ok (to_key_value q) (records_to_key_values qs) kvs (simp e at h) in
      (e, Plain-ok qs first.0 first.1)
]

none_order-asc : (o : SortOrder) → is_none_order o ≡ true → order_of o ≡ asc
none_order-asc sort_none h = refl
none_order-asc ascend h = refl
none_order-asc descend h = cc

with_kvs-page :
    (committed count : ℕ) (more : Bool) (rows : List Record) (answer : RangeResponse)
    (out : RangeResult (List KeyValue))
    → records_to_key_values rows ≡ out
    → with_kvs committed count more out ≡ ok answer
    → All Plain rows
      × (answer.kvs ≡ key_values rows)
      × (answer.header_revision ≡ committed)
      × (answer.count ≡ count)
      × (answer.more ≡ more)
with_kvs-page committed count more rows answer (err e) h k = cc
with_kvs-page committed count more rows answer (ok kvs) h k =
    let plain = Plain-ok rows kvs h in
    let all : kvs ≡ key_values rows = cc (h, key_values-ok rows plain) in
    (plain, cc (k, all), cc k, cc k, cc k)

page_is_taken :
    (limit : ℕ) (current : List Record)
    → length current < 2 ^ 63
    → take (total_limit limit - 0) (sort_by_key asc current) ≡ page limit current
page_is_taken limit current fits = elim (Bool-cases (limit == 0)) [
  | inl e ↦ simp e (
      take_all (2 ^ 63 - 1 - 0) (sort_by_key asc current) (omega (arith, length-sort current, fits))
      ∙ sym (sorted_records-eq-sort current))
  | inr e ↦
      let same : limit - 0 ≡ limit = omega arith in
      simp e (rw (same, sorted_records-eq-sort current) refl)
]

more_is_set :
    (limit : ℕ) (current : List Record)
    → length current < 2 ^ 63
    → ltb (total_limit limit) (length (sort_by_key asc current))
      ≡ (ltb 0 limit && ltb limit (length current))
more_is_set limit current fits = rw (length-sort current) (ground arith)

module _ (like : Bytes → Bytes → Bool) (size : List KeyValue → ℕ) (db : Db) (r : RangeRequest)
    (committed : ℕ) (w : Where) (s : IsStreamed like db r w) where
  abbrev found : List Record
  found = found_rows like db r w

  abbrev limit : ℕ
  limit = positive_part r.limit

  range-page :
      (answer : RangeResponse)
      → range like db r committed ≡ ok answer
      → All Plain (page limit found)
        × (answer.kvs ≡ key_values (page limit found))
        × (answer.header_revision ≡ committed)
        × (answer.count ≡ length found)
        × (answer.more ≡ (ltb 0 limit && ltb limit (length found)))
  range-page answer h =
      let asked =
        range-asc like db r committed s.valid w s.query (none_order-asc r.sort_order s.order) in
      let rows : with_kvs committed (length found) (ltb 0 limit && ltb limit (length found))
            (records_to_key_values (page limit found))
          ≡ ok answer =
        simp s.keys at (sym asked ∙ h) in
      with_kvs-page committed (length found) _ (page limit found) answer _ refl rows

  page-take :
      length found < 2 ^ 63
      → (take (total_limit limit - 0) (sort_by_key asc found) ≡ page limit found)
        × (ltb (total_limit limit) (length (sort_by_key asc found))
            ≡ (ltb 0 limit && ltb limit (length found)))
  page-take fits = (page_is_taken limit found fits, more_is_set limit found fits)

  -- Over a table that stays the same and without a failure in a turn, with more turns than rows found
  -- and fewer rows found than `int64` holds, a valid stream that has a key, asks for more than the count
  -- and has no order of its own, over a table without two rows of one revision and without an empty key
  -- among the rows found, ends without an error wherever `Range` answers the request; the keys of its
  -- responses, one after the other, are those of the answer, and only the last response has the
  -- revision, the count and More, which are the answer's.
  pub range_stream-range :
      (meets : ℕ → Turn) (fuel : ℕ) (answer : RangeResponse)
      → ((i : ℕ) → meets i ≡ calm_turn db)
      → length found < fuel
      → length found < 2 ^ 63
      → range like db r committed ≡ ok answer
      → IsAnswer answer.kvs
          (record {
            header_revision = answer.header_revision;
            count = answer.count;
            more = answer.more;
          })
          (range_stream like size r committed meets fuel)
  range_stream-range meets fuel answer calm enough fits h =
      let rows = sort_by_key asc found in
      let strict =
        sort-IsStrict found
          (current-KeysDiffer (matches like w) (positive_part r.revision) db.records s.distinct) in
      let keyed = sort-All (λ (q : Record). q.key ≢ []) found s.keyed in
      let same = page-take fits in
      let asked = range-page answer h in
      rw
        (
          stream-begins like size db r committed w meets fuel s,
          asked.1,
          asked.2,
          asked.3 ∙ sym (length-sort found),
          asked.4 ∙ sym same.1,
          sym same.0,
        )
        (loop-IsAnswer like size db r committed w meets calm rows refl strict keyed fuel
          (first_cursor like size r committed w meets)
          (record {
            sizer = new_chunk_sizer-InBounds;
            below = total_pos limit;
            within = omega arith;
            place = select_every rows;
          })
          (omega (arith, length-sort found, enough)) (subst (All Plain) (sym same.0) asked.0))
