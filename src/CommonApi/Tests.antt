-- ===== src/CommonApi/Tests.antt =====
-- `Range` at concrete requests, and the laws applied to them.
use netsy.Base.{
  zero, suc, ℕ, List, arith, true, ◌≡◌, refl, Bool, false, some, [], ◌∷◌, ◌&&◌, ltb, length, Bytes,
  bytes_equal, pos,
}
use netsy.LocalDb.Find.{
  find_records_by, scan_rows, current_rows, sort_rows, insert_sorted, row_less, bytes_less, as_rows,
  records_of, metadata_record,
}
use netsy.LocalDb.Compact.{has_newer}
use netsy.LocalDb.Sample.{db, second_a, first_b, rows, after_b}
use netsy.Etcd.{RangeRequest, KeyValue, sort_none, descend}
use netsy.CommonApi.{with_kvs, records_to_key_values, range, validate_range_request}
use netsy.CommonApi.Query.{every_key, build_range_query, matches}
use netsy.CommonApi.Stream.{Turn, range_stream}
use netsy.CommonApi.StreamAnswers.{IsAnswer, IsStreamed, calm_turn, key_values}
use netsy.CommonApi.StreamKeys.{IsKeyed, IsRising}
use netsy.CommonApi.StreamSafety.{range_stream-IsRising}
use netsy.CommonApi.StreamLaws.{range_stream-range}
use netsy.CommonApi.RangeLaws.{page, range-asc, range-desc}

-- All keys, at most one.
abbrev all_keys : RangeRequest
all_keys = record {
  key = 0 ∷ [];
  range_end = some (0 ∷ []);
  limit = pos 1;
  revision = pos 0;
  sort_order = sort_none;
  sort_target = 0;
  serializable = false;
  keys_only = false;
  count_only = false;
  min_mod_revision = pos 0;
  max_mod_revision = pos 0;
  min_create_revision = pos 0;
  max_create_revision = pos 0;
}

abbrev all_desc : RangeRequest
all_desc = record all_keys { sort_order = descend; limit = pos 0 }

abbrev no_like : Bytes → Bytes → Bool
no_like pattern k = false

range-asc_example :
    range no_like after_b all_keys 3
    ≡ with_kvs 3
        (length (current_rows (matches no_like every_key) 0 (first_b ∷ rows)))
        (ltb 0 1 && ltb 1 (length (current_rows (matches no_like every_key) 0 (first_b ∷ rows))))
        (records_to_key_values
          (page 1 (current_rows (matches no_like every_key) 0 (first_b ∷ rows))))
unfolding validate_range_request build_range_query bytes_equal
range-asc_example = range-asc no_like after_b all_keys 3 refl every_key refl refl

range-desc_example :
    range no_like after_b all_desc 3
    ≡ with_kvs 3 0 false (records_to_key_values (second_a ∷ metadata_record ∷ []))
unfolding validate_range_request build_range_query sort_rows bytes_equal records_of as_rows
    current_rows matches has_newer insert_sorted row_less bytes_less
range-desc_example =
    range-desc no_like after_b all_desc 3 refl every_key first_b (second_a ∷ []) refl refl refl refl
      refl

-- A chunk and its turn, and the stream of a request with a limit of one key.
abbrev calm : ℕ → Turn
calm i = calm_turn after_b

abbrev no_size : List KeyValue → ℕ
no_size kvs = 0

all_keys-IsStreamed : IsStreamed no_like after_b all_keys every_key
unfolding validate_range_request build_range_query bytes_equal current_rows matches has_newer
all_keys-IsStreamed = record {
  valid = refl;
  order = refl;
  query = refl;
  keys = refl;
  distinct = ground arith;
  keyed = ground arith;
}

range_stream-range_example :
    IsAnswer
      (key_values (second_a ∷ []))
      (record { header_revision = 3; count = 2; more = true })
      (range_stream no_like no_size all_keys 3 calm 5)
unfolding validate_range_request build_range_query bytes_equal current_rows matches has_newer range
    records_to_key_values sort_rows insert_sorted row_less bytes_less as_rows find_records_by
    scan_rows records_of
range_stream-range_example =
    range_stream-range no_like no_size after_b all_keys 3 every_key all_keys-IsStreamed calm 5
      (record { header_revision = 3; kvs = key_values (second_a ∷ []); count = 2; more = true })
      (λ i. refl) (ground arith) (ground arith) refl

-- At most two keys, from a table that loses its last key between the turns, with a query that fails.
abbrev two_keys : RangeRequest
two_keys = record all_keys { limit = pos 2 }

abbrev changing : ℕ → Turn
changing zero = calm_turn after_b
changing (suc i) = record (calm_turn db) { query_fails = true }

changing-IsKeyed : (i : ℕ) → IsKeyed (changing i).db.records
changing-IsKeyed zero = ground arith
changing-IsKeyed (suc i) = ground arith

range_stream-IsRising_example : IsRising [] 2 (range_stream no_like no_size two_keys 3 changing 3)
range_stream-IsRising_example =
    range_stream-IsRising no_like no_size two_keys 3 changing changing-IsKeyed 3 (omega arith)
