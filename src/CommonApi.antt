-- ===== src/CommonApi.antt =====
-- internal/commonapi: the Range logic that clients, replicas and failed transactions share.
pub mod Query
pub mod Stream
pub mod StreamAnswers
pub mod StreamChunks
pub mod StreamLaws
pub mod StreamSafety
pub mod StreamKeys
pub mod RangeLaws
pub mod ChunkSize
pub mod Tests
use netsy.Base.{
  ℕ, Bool, true, false, not, Option, none, some, List, [], ◌∷◌, ◌&&◌, ltb, ◌==◌, if◌then◌else◌,
  length, is_some, ℤ, pos, negsuc, is_negative, int_eq, Bytes,
}
use netsy.LocalDb.{Record, Db, DbError}
use netsy.LocalDb as LocalDb
use netsy.LocalDb.Find.{Order, asc, desc, find_records_by}
use netsy.Etcd.{RangeRequest, RangeResponse, KeyValue, SortOrder, descend}
use Query.{Where, build_range_query, matches}

pub data RangeError : Type 0 where
  invalid_argument unimplemented compacted index_panic : RangeError
  db_error : DbError → RangeError

pub data RangeResult {ℓ} (A : Type ℓ) : Type ℓ where
  ok : A → RangeResult A
  err : RangeError → RangeResult A

abbrev pub is_set : ℤ → Bool
is_set n = not (int_eq n (pos 0))

unfoldable pub validate_range_request : RangeRequest → Option RangeError
validate_range_request r =
    if is_negative r.limit
    then some invalid_argument
    else if r.keys_only
    then some unimplemented
    else if is_set r.max_create_revision
    then some unimplemented
    else if is_set r.max_mod_revision
    then some unimplemented
    else if is_set r.min_mod_revision
    then some unimplemented
    else if is_set r.min_create_revision
    then some unimplemented
    else if r.serializable
    then some unimplemented
    else if ltb 0 r.sort_target
    then some unimplemented
    else none

abbrev pub to_key_value : Record → KeyValue
to_key_value r = record {
  key = r.key;
  create_revision = r.create_revision;
  mod_revision = r.revision;
  value = r.value;
  version = r.version;
  lease = r.lease;
}

abbrev pub prepend : KeyValue → RangeResult (List KeyValue) → RangeResult (List KeyValue)
prepend kv (ok kvs) = ok (kv ∷ kvs)
prepend kv (err e) = err e

unfoldable pub records_to_key_values : List Record → RangeResult (List KeyValue)
records_to_key_values [] = ok []
records_to_key_values (r ∷ rows) =
    let rest = records_to_key_values rows in
    if is_some r.compacted_at then err compacted else prepend (to_key_value r) rest

-- `revision > 0` and `limit > 0` are the tests of `FindRecordsBy`: a negative number is not set.
abbrev pub positive_part : ℤ → ℕ
positive_part (pos n) = n
positive_part (negsuc n) = 0

abbrev pub order_of : SortOrder → Order
order_of descend = desc
order_of _ = asc

abbrev pub with_kvs :
    (committed count : ℕ) (more : Bool) → RangeResult (List KeyValue) → RangeResult RangeResponse
with_kvs committed count more (err e) = err e
with_kvs committed count more (ok kvs) =
    ok (record { header_revision = committed; kvs = kvs; count = count; more = more })

unfoldable pub range_response :
    (count_only : Bool) (committed : ℕ) → List Record → (total : ℕ) → RangeResult RangeResponse
range_response count_only committed rows total =
    let more = ltb (length rows) total in
    if count_only
    then ok (record { header_revision = committed; kvs = []; count = total; more = more })
    else with_kvs committed total more (records_to_key_values rows)

-- SQL's LIKE is not part of the program: `like pattern key`.
module _ (like : Bytes → Bytes → Bool) where
  abbrev pub answer_range :
      RangeRequest → ℕ → LocalDb.Result (List Record × ℕ) → RangeResult RangeResponse
  answer_range r committed (LocalDb.err e) = err (db_error e)
  answer_range r committed (LocalDb.ok (rows, total)) =
      range_response r.count_only committed rows total

  unfoldable pub run_query : Db → RangeRequest → ℕ → Option Where → RangeResult RangeResponse
  unfolding range_response
  run_query db r committed none = err index_panic
  run_query db r committed (some w) = answer_range r committed (
      find_records_by db (matches like w) (positive_part r.revision) (positive_part r.limit)
        (order_of r.sort_order))

  unfoldable pub range : Db → RangeRequest → (committed : ℕ) → RangeResult RangeResponse
  unfolding run_query
  range db r committed = elim (validate_range_request r) [
    | some e ↦ err e
    | none ↦ run_query db r committed (build_range_query r)
  ]
