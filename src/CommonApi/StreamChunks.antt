-- ===== src/CommonApi/StreamChunks.antt =====
-- The chunks of a stream, one after the other (range.go).
use netsy.Base.{
  ℕ, zero, suc, ◌+◌, ◌-◌, ◌≤◌, ◌<◌, ◌≡◌, ◌≢◌, refl, sym, ap, ◌∙◌, Bool, true, false, Option, none,
  some, List, [], ◌∷◌, ◌++◌, arith, ltb, ◌==◌, length, take, drop, select, All, All-append,
  take_all, take-take-suc, drop-drop, length-drop, take-append-drop, length-take-le, Bytes,
  Bool-cases, inl, inr,
}
use netsy.LocalDb.{Record, Db}
use netsy.LocalDb as LocalDb
use netsy.LocalDb.Find.{asc}
use netsy.LocalDb.FindLaws.{find_records_by-asc}
use netsy.LocalDb.FindStream.{sort_by_key, past_cursor, find_records_for_range_stream}
use std.Path.{subst}
use mathlib.Core.Path.{ap₂}
use mathlib.Core.List.{append-nil}
use netsy.LocalDb.StreamOrder.{
  past-IsUpward, length-sort, last-All, take-All, drop-All, last-none, IsStrict, behind,
  sort-select, select-behind, last_row_key,
}
use netsy.Etcd.{RangeRequest, KeyValue}
use netsy.CommonApi.{ok, positive_part}
use netsy.CommonApi.Query.{Where, matches}
use netsy.CommonApi.ChunkSize.{InBounds, lesser, observe, observe-InBounds}
use netsy.CommonApi.Stream.{
  Summary, Streamed, Turn, Cursor, total_limit, sent_first, after_kvs, go_on, after_rows,
  chunk_limit, stream_loop,
}
use netsy.CommonApi.StreamAnswers.{
  Plain, key_values, key_values-ok, last_key-map, length-map, map-append, all_kvs, summaries,
  IsAnswer, sent_first-IsAnswer, calm_turn, found_rows,
}

pub lesser-bounds : (a b : ℕ) → (lesser a b ≤ b) × (1 ≤ a → 1 ≤ b → 1 ≤ lesser a b)
lesser-bounds a b = (ground arith, λ h k. ground arith)

past-behind :
    (k : Bytes) (rs : List Record) → k ≢ [] → select (past_cursor asc k) rs ≡ select (behind k) rs
past-behind [] rs h = absurd (h refl)
past-behind (b ∷ bs) rs h = refl

-- The cursor stands behind the first `count` of the rows.
pub record IsPlace (rows : List Record) (total : ℕ) (c : Cursor) : Type 0 where
  pub sizer : InBounds c.sizer
  pub below : c.count < total
  pub within : c.count ≤ length rows
  pub place : select (past_cursor asc c.after_key) rows ≡ drop c.count rows

module _ (like : Bytes → Bytes → Bool) (size : List KeyValue → ℕ) (db : Db) (r : RangeRequest)
    (committed : ℕ) (w : Where) (meets : ℕ → Turn) (calm : (i : ℕ) → meets i ≡ calm_turn db)
    (rows : List Record) (sorted : rows ≡ sort_by_key asc (found_rows like db r w))
    (strict : IsStrict rows) (keyed : All (λ (q : Record). q.key ≢ []) rows) where
  abbrev total : ℕ
  total = total_limit (positive_part r.limit)

  abbrev answer_summary : Summary
  answer_summary = record {
    header_revision = committed;
    count = length rows;
    more = ltb total (length rows);
  }

  abbrev rest_of : Cursor → List Record
  rest_of c = drop c.count rows

  abbrev rest_page : Cursor → List Record
  rest_page c = take (total - c.count) (rest_of c)

  module _ (next : Cursor → Option Streamed) (c : Cursor) (at : IsPlace rows total c)
      (plain : All Plain (rest_page c)) (n : ℕ) (n_le : n ≤ total - c.count) where
    -- The rows that are left end within the chunk.
    last_chunk :
        length (rest_of c) ≤ n
        → IsAnswer (key_values (rest_page c)) answer_summary (
            after_rows like size r committed w meets next c n
              (LocalDb.ok (take (suc n) (rest_of c))))
    unfolding all_kvs summaries
    last_chunk short =
        let all : take (total - c.count) (rest_of c) ≡ rest_of c =
          take_all _ _ (omega (arith, short, n_le)) in
        let plain' : All Plain (rest_of c) = rw all at plain in
        let no_more : ltb n (length (rest_of c)) ≡ false = ground (arith, short) in
        let counted : c.count + length (key_values (rest_of c)) ≡ length rows =
          omega (arith, length-map (rest_of c), length-drop c.count rows, at.within) in
        let fits : ltb total (length rows) ≡ false =
          ground (arith, short, n_le, length-drop c.count rows, at.below) in
        rw
          (
            take_all (suc n) (rest_of c) (omega (arith, short)),
            no_more,
            key_values-ok (rest_of c) plain',
            calm c.turn,
            all,
            counted,
            fits,
          )
          (refl, append-nil _, refl)

    -- The page is the chunk and the page behind it.
    page_split : take n (rest_of c) ++ take (total - c.count - n) (drop n (rest_of c)) ≡ rest_page c
    page_split =
        let sum : n + (total - c.count - n) ≡ total - c.count = omega (arith, n_le) in
        take-append-drop n (total - c.count - n) (rest_of c) ∙ ap (λ n. take n (rest_of c)) sum

    -- More rows are left than the chunk holds.
    more_chunks :
        n < length (rest_of c)
        → after_rows like size r committed w meets next c n (LocalDb.ok (take (suc n) (rest_of c)))
          ≡ after_kvs like size r committed w meets next c true
              (ok (key_values (take n (rest_of c))))
    more_chunks long =
        let more : ltb n (length (take (suc n) (rest_of c))) ≡ true =
          ground (arith, length-take-le (suc n) (rest_of c)) in
        let plain' =
          (All-append Plain (take n (rest_of c)) _ (subst (All Plain) (sym page_split) plain)).0 in
        rw (more, take-take-suc n (rest_of c), key_values-ok _ plain') refl

    length-chunk : n < length (rest_of c) → length (key_values (take n (rest_of c))) ≡ n
    length-chunk long =
        length-map (take n (rest_of c)) ∙ length-take-le n (rest_of c) (omega (arith, long))

    -- The limit ends the stream, and the keys are counted.
    limit_reached :
        n < length (rest_of c)
        → c.count + n ≡ total
        → IsAnswer (key_values (rest_page c)) answer_summary (
            after_kvs like size r committed w meets next c true
              (ok (key_values (take n (rest_of c)))))
    unfolding all_kvs summaries
    limit_reached long reached =
        let size_of = length-chunk long in
        let done : (c.count + length (key_values (take n (rest_of c))) == total) ≡ true =
          ground (arith, size_of, reached) in
        let exceeds : ltb total (length rows) ≡ true =
          ground (arith, long, length-drop c.count rows) in
        let same : total - c.count ≡ n = omega (arith, reached) in
        let counted : length (found_rows like db r w) ≡ length rows =
          sym (ap length sorted ∙ length-sort (found_rows like db r w)) in
        rw
          (
            done,
            calm c.turn,
            find_records_by-asc db (matches like w) (positive_part r.revision) 1,
            counted,
            exceeds,
            same,
          )
          (refl, append-nil _, refl)

    last_row-key : (k : Bytes) → last_row_key (take n (rest_of c)) ≡ some k → k ≢ []
    last_row-key k last =
        last-All (λ (q : Bytes). q ≢ []) (take n (rest_of c)) k
          (take-All _ n (rest_of c) (drop-All _ c.count rows keyed)) last

    -- Otherwise the loop goes on behind the last key of the chunk.
    next-IsPlace :
        (k : Bytes)
        → n < length (rest_of c)
        → c.count + n ≢ total
        → last_row_key (take n (rest_of c)) ≡ some k
        → IsPlace rows total (record {
          turn = suc c.turn;
          sizer = observe c.sizer (size (key_values (take n (rest_of c))));
          count = c.count + length (key_values (take n (rest_of c)));
          after_key = k;
        })
    next-IsPlace k long differ last =
        let size_of = length-chunk long in
        record {
          sizer = observe-InBounds c.sizer _ at.sizer;
          below = omega (arith, size_of, n_le, differ, at.below);
          within = omega (arith, size_of, long, length-drop c.count rows);
          place =
              past-behind k rows (last_row-key k last)
              ∙ select-behind c.count n rows k strict last
              ∙ drop-drop c.count n rows
              ∙ ap (λ m. drop (c.count + m) rows) (sym size_of);
        }

    -- What the loop says of the cursor behind the chunk.
    abbrev Answers : Cursor → Type 0
    Answers c' =
        IsPlace rows total c'
        → length (rest_of c') < length (rest_of c)
        → All Plain (rest_page c')
        → IsAnswer (key_values (rest_page c')) answer_summary (next c')

    gone_on :
        (k : Option Bytes)
        → ((c' : Cursor) → Answers c')
        → 1 ≤ n
        → n < length (rest_of c)
        → c.count + n ≢ total
        → last_row_key (take n (rest_of c)) ≡ k
        → IsAnswer (key_values (rest_page c)) answer_summary (
            sent_first
              (record { kvs = key_values (take n (rest_of c)); summary = none })
              (go_on like size r committed w meets next c (key_values (take n (rest_of c))) k))
    gone_on none ih pos long differ last = absurd (
        omega (arith, last-none (take n (rest_of c)) last, length-take-le n (rest_of c), long, pos))
    gone_on (some k) ih pos long differ last =
        let place = next-IsPlace k long differ last in
        let size_of = length-chunk long in
        let behind_it : drop (c.count + length (key_values (take n (rest_of c)))) rows
            ≡ drop n (rest_of c) =
          ap (λ m. drop (c.count + m) rows) size_of ∙ sym (drop-drop c.count n rows) in
        let left_of : total - (c.count + length (key_values (take n (rest_of c))))
            ≡ total - c.count - n =
          omega (arith, size_of) in
        let page_of = ap₂ (λ m (xs : List Record). take m xs) left_of behind_it in
        let rest_plain =
          (All-append Plain (take n (rest_of c)) _ (subst (All Plain) (sym page_split) plain)).1 in
        sent_first-IsAnswer (key_values (take n (rest_of c))) _ (key_values (rest_page c))
          answer_summary _
          (ih _ place (rw behind_it (omega (arith, length-drop n (rest_of c), long, pos)))
            (rw page_of rest_plain))
          (rw page_of (sym (map-append (take n (rest_of c)) _) ∙ ap key_values page_split))

    turn-IsAnswer :
        ((c' : Cursor) → Answers c')
        → 1 ≤ n
        → IsAnswer (key_values (rest_page c)) answer_summary (
            after_rows like size r committed w meets next c n
              (LocalDb.ok (take (suc n) (rest_of c))))
    turn-IsAnswer ih pos = elim (Bool-cases (ltb n (length (rest_of c)))) [
      | inr short ↦ last_chunk (ground arith)
      | inl long ↦
          let below : n < length (rest_of c) = ground arith in
          rw (more_chunks below) (elim (Bool-cases (c.count + n == total)) [
            | inl e ↦ limit_reached below (ground arith)
            | inr e ↦
                let differ : c.count + n ≢ total = ground arith in
                let size_of = length-chunk below in
                let open_end : (c.count + length (key_values (take n (rest_of c))) == total)
                    ≡ false =
                  rw size_of e in
                rw (open_end, calm c.turn, last_key-map (take n (rest_of c)))
                  (gone_on _ ih pos below differ refl)
          ])
    ]

  page_rows :
      (c : Cursor) (n : ℕ)
      → IsPlace rows total c
      → find_records_for_range_stream db
          (matches like w)
          (positive_part r.revision)
          (n + 1)
          asc
          c.after_key
        ≡ LocalDb.ok (take (suc n) (rest_of c))
  unfolding find_records_for_range_stream
  page_rows c n at =
      let not_zero : (n + 1 == 0) ≡ false = ground arith in
      let next : n + 1 ≡ suc n = omega arith in
      let behind_it =
        sort-select (past_cursor asc c.after_key) (found_rows like db r w)
          (past-IsUpward c.after_key)
        ∙ ap (select (past_cursor asc c.after_key)) (sym sorted)
        ∙ at.place in
      rw (not_zero, next, behind_it) refl

  -- The loop from a cursor, with more turns than rows are left.
  pub loop-IsAnswer :
      (fuel : ℕ) (c : Cursor)
      → IsPlace rows total c
      → length (rest_of c) < fuel
      → All Plain (rest_page c)
      → IsAnswer
          (key_values (rest_page c))
          answer_summary
          (stream_loop like size r committed w meets fuel c)
  unfolding stream_loop
  loop-IsAnswer zero c at enough plain = absurd (omega arith)
  loop-IsAnswer (suc fuel) c at enough plain =
      let bounds = lesser-bounds c.sizer.keys (total - c.count) in
      let pos = bounds.1 at.sizer.at_least_one (omega (arith, at.below)) in
      let n = chunk_limit like size r committed w meets c in
      let next = stream_loop like size r committed w meets fuel in
      rw (calm c.turn) (
        subst
          (λ out.
            IsAnswer (key_values (rest_page c)) answer_summary
              (after_rows like size r committed w meets next c n out))
          (sym (page_rows c n at))
          (turn-IsAnswer next c at plain n bounds.0
            (λ c' at' less plain'. loop-IsAnswer fuel c' at' (omega (arith, less, enough)) plain')
            pos))
