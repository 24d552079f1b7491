-- ===== src/CommonApi/Stream.antt =====
-- `RangeStream` of internal/commonapi/range.go: the answer of a range in chunks.
use netsy.Base.{
  ℕ, zero, suc, ◌+◌, ◌-◌, ◌^◌, Bool, true, false, not, Option, none, some, List, [], ◌∷◌, ◌&&◌,
  ◌||◌, ltb, ◌==◌, if◌then◌else◌, length, take, Bytes,
}
use netsy.LocalDb.{Record, Db, DbError, sql_failed}
use netsy.LocalDb as LocalDb
use netsy.LocalDb.Find.{asc, find_records_by}
use netsy.LocalDb.FindStream.{find_records_for_range_stream}
use netsy.Etcd.{RangeRequest, KeyValue, SortOrder, ascend, descend}
use netsy.CommonApi.{
  RangeError, index_panic, unimplemented, db_error, RangeResult, ok, err, validate_range_request,
  records_to_key_values, positive_part,
}
use netsy.CommonApi.Query.{Where, build_range_query, matches}
use netsy.CommonApi.ChunkSize.{ChunkSizer, new_chunk_sizer, observe, lesser}

pub data StreamError : Type 0 where
  cancelled send_failed : StreamError
  range_failed : RangeError → StreamError

-- The header's revision, the count and More, which only the last response has.
pub record Summary : Type 0 where
  pub header_revision : ℕ
  pub count : ℕ
  pub more : Bool

pub record StreamResponse : Type 0 where
  pub kvs : List KeyValue
  pub summary : Option Summary

-- The responses that were sent, in their order, and the error at the end.
pub record Streamed : Type 0 where
  pub sent : List StreamResponse
  pub error : Option StreamError

-- What a turn of the loop meets: the table as it is then, the end of the context, and failures of its
-- two queries and of its send.
pub record Turn : Type 0 where
  pub db : Db
  pub is_cancelled : Bool
  pub query_fails : Bool
  pub count_fails : Bool
  pub send_fails : Bool

-- The variables of the loop.
pub record Cursor : Type 0 where
  pub turn : ℕ
  pub sizer : ChunkSizer
  pub count : ℕ
  pub after_key : Bytes

abbrev pub ended : StreamError → Option Streamed
ended e = some (record { sent = []; error = some e })

-- A response that was sent before what comes next. `none` is the loop without fuel.
abbrev pub sent_first : StreamResponse → Option Streamed → Option Streamed
sent_first response none = none
sent_first response (some s) = some (record s { sent = response ∷ s.sent })

abbrev pub send_last : (send_fails : Bool) → StreamResponse → Option Streamed
send_last send_fails response =
    if send_fails then ended send_failed else some (record { sent = response ∷ []; error = none })

-- math.MaxInt64 stands for no limit.
abbrev pub total_limit : (limit : ℕ) → ℕ
total_limit limit = if limit == 0 then 2 ^ 63 - 1 else limit

-- `kvs[len(kvs)-1].Key`, which panics without a key.
unfoldable pub last_key : List KeyValue → Option Bytes
last_key [] = none
last_key (kv ∷ kvs) = elim (last_key kvs) [ none ↦ some kv.key | some k ↦ some k ]

abbrev pub is_none_order : SortOrder → Bool
is_none_order ascend = false
is_none_order descend = false
is_none_order _ = true

-- `size` is the encoded size of a response with these keys and values.
module _ (like : Bytes → Bytes → Bool) (size : List KeyValue → ℕ) (r : RangeRequest) (committed : ℕ)
    (w : Where) (meets : ℕ → Turn) where
  abbrev pub with_total :
      Turn → List KeyValue → (more : Bool) → LocalDb.Result (List Record × ℕ) → Option Streamed
  with_total m kvs more (LocalDb.err e) = ended (range_failed (db_error e))
  with_total m kvs more (LocalDb.ok (rows, total)) = send_last m.send_fails (record {
    kvs = kvs;
    summary = some (record { header_revision = committed; count = total; more = more });
  })

  -- The number of all keys, by a query that asks for one row.
  abbrev pub count_all : Turn → LocalDb.Result (List Record × ℕ)
  count_all m =
      if m.count_fails
      then LocalDb.err sql_failed
      else find_records_by m.db (matches like w) (positive_part r.revision) 1 asc

  -- The last response: if the limit has cut keys off, it counts them all.
  abbrev pub finish : Turn → List KeyValue → (more : Bool) → (count : ℕ) → Option Streamed
  finish m kvs more count =
      with_total m kvs more (if more then count_all m else LocalDb.ok ([], count))

  abbrev pub go_on :
      (Cursor → Option Streamed) → Cursor → List KeyValue → (last : Option Bytes) → Option Streamed
  go_on next c kvs none = ended (range_failed index_panic)
  go_on next c kvs (some k) = next (record {
    turn = suc c.turn;
    sizer = observe c.sizer (size kvs);
    count = c.count + length kvs;
    after_key = k;
  })

  abbrev pub after_kvs :
      (Cursor → Option Streamed)
      → Cursor
      → (more : Bool) → RangeResult (List KeyValue)
      → Option Streamed
  after_kvs next c more (err e) = ended (range_failed e)
  after_kvs next c more (ok kvs) =
      let m = meets c.turn in
      let response : StreamResponse = record { kvs = kvs; summary = none } in
      let last = last_key kvs in
      if not more || (c.count + length kvs == total_limit (positive_part r.limit))
      then finish m kvs more (c.count + length kvs)
      else if m.send_fails
      then ended send_failed
      else sent_first response (go_on next c kvs last)

  abbrev pub after_rows :
      (Cursor → Option Streamed)
      → Cursor
      → (chunk_limit : ℕ) → LocalDb.Result (List Record)
      → Option Streamed
  after_rows next c chunk_limit (LocalDb.err e) = ended (range_failed (db_error e))
  after_rows next c chunk_limit (LocalDb.ok rows) =
      let more = ltb chunk_limit (length rows) in
      after_kvs next c more (records_to_key_values (if more then take chunk_limit rows else rows))

  abbrev pub chunk_limit : Cursor → ℕ
  chunk_limit c = lesser c.sizer.keys (total_limit (positive_part r.limit) - c.count)

  abbrev pub stream_turn : (Cursor → Option Streamed) → Cursor → Option Streamed
  stream_turn next c =
      let m = meets c.turn in
      if m.is_cancelled
      then ended cancelled
      else if m.query_fails
      then ended (range_failed (db_error sql_failed))
      else after_rows next c (chunk_limit c) (
          find_records_for_range_stream m.db (matches like w) (positive_part r.revision)
            (chunk_limit c + 1) asc c.after_key)

  -- The loop; `fuel` is the number of its turns.
  unfoldable pub stream_loop : (fuel : ℕ) → Cursor → Option Streamed
  unfolding records_to_key_values last_key find_records_for_range_stream find_records_by observe
  stream_loop zero c = none
  stream_loop (suc fuel) c = stream_turn (stream_loop fuel) c

  abbrev pub count_only_answer :
      (send_fails : Bool) → LocalDb.Result (List Record × ℕ) → Option Streamed
  count_only_answer send_fails (LocalDb.err e) = ended (range_failed (db_error e))
  count_only_answer send_fails (LocalDb.ok (rows, total)) =
      let limit = positive_part r.limit in
      send_last send_fails (record {
        kvs = [];
        summary = some (record {
          header_revision = committed;
          count = total;
          more = ltb 0 limit && ltb limit total;
        });
      })

  abbrev pub first_cursor : Cursor
  first_cursor = record { turn = 0; sizer = new_chunk_sizer; count = 0; after_key = [] }

  abbrev pub stream_query : (fuel : ℕ) → Option Streamed
  stream_query fuel =
      if r.count_only
      then count_only_answer (meets 0).send_fails (count_all (meets 0))
      else stream_loop fuel first_cursor

module _ (like : Bytes → Bytes → Bool) (size : List KeyValue → ℕ) where
  abbrev pub stream_where :
      RangeRequest → ℕ → (meets : ℕ → Turn) → (fuel : ℕ) → Option Where → Option Streamed
  stream_where r committed meets fuel none = ended (range_failed index_panic)
  stream_where r committed meets fuel (some w) = stream_query like size r committed w meets fuel

  unfoldable pub range_stream :
      RangeRequest → (committed : ℕ) → (meets : ℕ → Turn) → (fuel : ℕ) → Option Streamed
  unfolding stream_loop new_chunk_sizer
  range_stream r committed meets fuel = elim (validate_range_request r) [
    | some e ↦ ended (range_failed e)
    | none ↦
        if not (is_none_order r.sort_order)
        then ended (range_failed unimplemented)
        else stream_where r committed meets fuel (build_range_query r)
  ]
