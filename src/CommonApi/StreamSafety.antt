-- ===== src/CommonApi/StreamSafety.antt =====
-- Streams while the table changes and calls fail (range.go).
use netsy.Base.{
  ℕ, zero, suc, ◌+◌, ◌-◌, ◌≤◌, ◌<◌, ◌≡◌, refl, Bool, true, false, not, Option, none, some, List, [],
  ◌||◌, arith, ltb, ◌==◌, if◌then◌else◌, length, take, Bytes, length-take-le, Bool-cases, inl, inr,
}
use std.Path.{subst}
use netsy.LocalDb.{Record}
use netsy.LocalDb as LocalDb
use netsy.LocalDb.FindStream.{find_records_for_range_stream}
use netsy.LocalDb.StreamOrder.{last_row_key}
use netsy.Etcd.{RangeRequest, KeyValue}
use netsy.CommonApi.{
  RangeResult, ok, err, unimplemented, validate_range_request, records_to_key_values, positive_part,
}
use netsy.CommonApi.Query.{Where, build_range_query, matches}
use netsy.CommonApi.ChunkSize.{InBounds, observe, observe-InBounds}
use netsy.CommonApi.Stream.{
  cancelled, range_failed, Summary, send_last, Streamed, sent_first, Turn, Cursor, total_limit,
  ended, with_total, after_kvs, go_on, after_rows, chunk_limit, stream_turn, stream_loop,
  first_cursor, count_only_answer, stream_query, stream_where, is_none_order, range_stream,
}
use netsy.CommonApi.StreamAnswers.{key_values, key_values-ok, all_kvs, last_key-map, length-map}
use netsy.CommonApi.StreamChunks.{lesser-bounds}
use netsy.CommonApi.StreamLaws.{Plain-ok, new_chunk_sizer-InBounds, total_pos}
use netsy.CommonApi.StreamKeys.{
  IsKeyed, IsRising, IsChunk, take-IsChunk, limit_rows-IsChunk, sent-IsRising, sent_first-IsRising,
}

ended-IsRising : (k : Bytes) (room : ℕ) → IsRising k room (ended cancelled)
unfolding all_kvs
ended-IsRising k room = (tt, tt, omega arith)

module _ (like : Bytes → Bytes → Bool) (size : List KeyValue → ℕ) (r : RangeRequest) (committed : ℕ)
    (w : Where) (meets : ℕ → Turn) (tables : (i : ℕ) → IsKeyed (meets i).db.records) where
  abbrev total : ℕ
  total = total_limit (positive_part r.limit)

  with_total-IsRising :
      (k : Bytes) (room : ℕ) (m : Turn) (rows : List Record) (more : Bool)
      (out : LocalDb.Result (List Record × ℕ))
      → IsChunk k rows
      → length rows ≤ room
      → IsRising k room (with_total like size r committed w meets m (key_values rows) more out)
  unfolding all_kvs
  with_total-IsRising k room m rows more (LocalDb.err e) c fits = ended-IsRising k room
  with_total-IsRising k room m rows more (LocalDb.ok (found, n)) c fits =
      elim (Bool-cases m.send_fails) [
        | inl e ↦ simp e (ended-IsRising k room)
        | inr e ↦ simp e (sent-IsRising k room rows c fits)
      ]

  -- A turn from a cursor, and what is known of the turns behind it.
  module _ (next : Cursor → Option Streamed) (c : Cursor) (fuel : ℕ) (bounds : InBounds c.sizer)
      (below : c.count < total) (enough : total - c.count < suc fuel)
      (ih : (c' : Cursor)
        → InBounds c'.sizer
        → c'.count < total
        → total - c'.count < fuel
        → IsRising c'.after_key (total - c'.count) (next c')) where
    abbrev room : ℕ
    room = total - c.count

    gone_on :
        (rows : List Record) (k : Option Bytes)
        → IsChunk c.after_key rows
        → 1 ≤ length rows
        → c.count + length (key_values rows) < total
        → last_row_key rows ≡ k
        → IsRising c.after_key room (
            sent_first
              (record { kvs = key_values rows; summary = none })
              (go_on like size r committed w meets next c (key_values rows) k))
    gone_on rows none chunk some_rows left last =
        let fits : length rows ≤ room = omega (arith, length-map rows, left) in
        sent-IsRising c.after_key room rows chunk fits
    gone_on rows (some k) chunk some_rows left last =
        let fits : length rows ≤ room = omega (arith, length-map rows, left) in
        let rest : total - (c.count + length (key_values rows)) ≡ room - length rows =
          omega (arith, length-map rows) in
        let fewer : total - (c.count + length (key_values rows)) < fuel =
          omega (arith, length-map rows, some_rows, enough, left) in
        sent_first-IsRising c.after_key k room rows _ chunk last fits (
          rw rest at (
            ih
              (record {
                turn = suc c.turn;
                sizer = observe c.sizer (size (key_values rows));
                count = c.count + length (key_values rows);
                after_key = k;
              })
              (observe-InBounds c.sizer _ bounds) left fewer))

    page-IsRising :
        (n : ℕ) (rows : List Record) (more : Bool)
        → IsChunk c.after_key rows
        → length rows ≤ n
        → n ≤ room
        → 1 ≤ n
        → (more ≡ true → length rows ≡ n)
        → IsRising c.after_key room
            (after_kvs like size r committed w meets next c more (ok (key_values rows)))
    page-IsRising n rows more chunk fits n_le pos full =
        let fits' : length rows ≤ room = omega (arith, fits, n_le) in
        elim (Bool-cases (not more || (c.count + length (key_values rows) == total))) [
          | inl done ↦
              simp done
                (with_total-IsRising c.after_key room (meets c.turn) rows more _ chunk fits')
          | inr open_end ↦ elim (Bool-cases (meets c.turn).send_fails) [
            | inl e ↦ simp (open_end, e) (ended-IsRising c.after_key room)
            | inr e ↦
                let filled : length rows ≡ n = full (ground arith) in
                let left : c.count + length (key_values rows) < total =
                  ground (arith, length-map rows, fits', below) in
                simp (open_end, e)
                  (rw (last_key-map rows)
                    (gone_on rows _ chunk (omega (arith, filled, pos)) left refl))
          ]
        ]

    read-IsRising :
        (n : ℕ) (rows : List Record) (more : Bool) (out : RangeResult (List KeyValue))
        → records_to_key_values rows ≡ out
        → IsChunk c.after_key rows
        → length rows ≤ n
        → n ≤ room
        → 1 ≤ n
        → (more ≡ true → length rows ≡ n)
        → IsRising c.after_key room (after_kvs like size r committed w meets next c more out)
    read-IsRising n rows more (err e) h chunk fits n_le pos full = ended-IsRising c.after_key room
    read-IsRising n rows more (ok kvs) h chunk fits n_le pos full =
        let all : kvs ≡ key_values rows = cc (h, key_values-ok rows (Plain-ok rows kvs h)) in
        rw all (page-IsRising n rows more chunk fits n_le pos full)

    rows-IsRising :
        (n : ℕ) (rows : List Record)
        → IsChunk c.after_key rows
        → n ≤ room
        → 1 ≤ n
        → IsRising c.after_key room
            (after_rows like size r committed w meets next c n (LocalDb.ok rows))
    rows-IsRising n rows chunk n_le pos = elim (Bool-cases (ltb n (length rows))) [
      | inl e ↦
          let cut : length (take n rows) ≡ n = length-take-le n rows (ground arith) in
          simp e (
            read-IsRising n (take n rows) true _ refl (take-IsChunk c.after_key n rows chunk)
              (omega (arith, cut)) n_le pos (λ h. cut))
      | inr e ↦ simp e (read-IsRising n rows false _ refl chunk (ground arith) n_le pos (λ h. cc h))
    ]

    turn-IsRising : IsRising c.after_key room (stream_turn like size r committed w meets next c)
    unfolding find_records_for_range_stream
    turn-IsRising =
        let n = chunk_limit like size r committed w meets c in
        let least = lesser-bounds c.sizer.keys room in
        let chunk =
          limit_rows-IsChunk (meets c.turn).db (matches like w) (positive_part r.revision)
            c.after_key (n + 1) (tables c.turn) in
        elim (Bool-cases (meets c.turn).is_cancelled) [
          | inl e ↦ simp e (ended-IsRising c.after_key room)
          | inr e ↦ elim (Bool-cases (meets c.turn).query_fails) [
            | inl f ↦ simp (e, f) (ended-IsRising c.after_key room)
            | inr f ↦
                simp (e, f)
                  (rows-IsRising n _ chunk least.0
                    (least.1 bounds.at_least_one (omega (arith, below))))
          ]
        ]

  loop-IsRising :
      (fuel : ℕ) (c : Cursor)
      → InBounds c.sizer
      → c.count < total
      → total - c.count < fuel
      → IsRising c.after_key (total - c.count) (stream_loop like size r committed w meets fuel c)
  unfolding stream_loop
  loop-IsRising zero c bounds below enough = absurd (omega arith)
  loop-IsRising (suc fuel) c bounds below enough =
      turn-IsRising (stream_loop like size r committed w meets fuel) c fuel bounds below enough
        (loop-IsRising fuel)

  -- An answer without keys.
  send_last-IsRising :
      (k : Bytes) (room : ℕ) (send_fails : Bool) (s : Summary)
      → IsRising k room (send_last send_fails (record { kvs = []; summary = some s }))
  unfolding all_kvs
  send_last-IsRising k room true s = ended-IsRising k room
  send_last-IsRising k room false s = (tt, tt, omega arith)

  count_only-IsRising :
      (k : Bytes) (room : ℕ) (send_fails : Bool) (out : LocalDb.Result (List Record × ℕ))
      → IsRising k room (count_only_answer like size r committed w meets send_fails out)
  count_only-IsRising k room send_fails (LocalDb.err e) = ended-IsRising k room
  count_only-IsRising k room send_fails (LocalDb.ok (rows, n)) =
      send_last-IsRising k room send_fails _

  query-IsRising :
      (fuel : ℕ)
      → total < fuel
      → IsRising [] total (stream_query like size r committed w meets fuel)
  query-IsRising fuel enough = elim (Bool-cases r.count_only) [
    | inl e ↦ simp e (count_only-IsRising [] total (meets 0).send_fails _)
    | inr e ↦
        let start = first_cursor like size r committed w meets in
        let whole : total - 0 ≡ total = omega arith in
        let run =
          loop-IsRising fuel start new_chunk_sizer-InBounds (total_pos (positive_part r.limit))
            (rw whole enough) in
        simp e (
          subst (λ n. IsRising [] n (stream_loop like size r committed w meets fuel start)) whole
            run)
  ]

module _ (like : Bytes → Bytes → Bool) (size : List KeyValue → ℕ) (r : RangeRequest) (committed : ℕ)
    (meets : ℕ → Turn) (tables : (i : ℕ) → IsKeyed (meets i).db.records) (fuel : ℕ)
    (enough : total_limit (positive_part r.limit) < fuel) where
  where-IsRising :
      (q : Option Where)
      → IsRising []
          (total_limit (positive_part r.limit))
          (stream_where like size r committed meets fuel q)
  where-IsRising none = ended-IsRising [] _
  where-IsRising (some w) = query-IsRising like size r committed w meets tables fuel enough

  -- Whatever the table is in each turn, as long as it has no two rows of one revision and no empty
  -- key, whatever calls fail, and with more turns than the limit (2^63 - 1, if there is none): the
  -- stream ends, and the keys that it has sent ascend, so that none comes twice, and are no more than
  -- the limit.
  pub range_stream-IsRising :
      IsRising []
        (total_limit (positive_part r.limit))
        (range_stream like size r committed meets fuel)
  unfolding range_stream
  range_stream-IsRising =
      elim (validate_range_request r)
        as (λ e. IsRising [] (total_limit (positive_part r.limit)) (elim e [
          | some e ↦ ended (range_failed e)
          | none ↦
              if not (is_none_order r.sort_order)
              then ended (range_failed unimplemented)
              else stream_where like size r committed meets fuel (build_range_query r)
        ])) [
          | some e ↦ ended-IsRising [] _
          | none ↦ elim (Bool-cases (is_none_order r.sort_order)) [
            | inl e ↦ simp e (where-IsRising (build_range_query r))
            | inr e ↦ simp e (ended-IsRising [] _)
          ]
        ]
