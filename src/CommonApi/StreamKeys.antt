-- ===== src/CommonApi/StreamKeys.antt =====
-- The keys that a stream sends, in their order (range.go).
use netsy.Base.{
  ℕ, zero, suc, ◌-◌, ◌==◌, ◌≤◌, ◌≡◌, ◌≢◌, refl, sym, Bool, true, false, Option, none, some, List,
  [], ◌∷◌, ◌++◌, arith, length, take, select, All, All-imp, All-join, length-append, Bytes,
  Bool-cases, Option-cases, inl, inr, select-All,
}
use netsy.LocalDb.{Record, Db}
use netsy.LocalDb.Latest.{Distinct}
use netsy.LocalDb.Find.{asc, bytes_less, current_rows, filtered}
use netsy.LocalDb.FindOrder.{bytes_less_asymm}
use netsy.LocalDb.FindStream.{past_cursor, limit_rows, stream_rows, sort_by_key}
use netsy.LocalDb.StreamOrder.{
  IsStrict, bytes_less_irrefl, bytes_less_trans, last_row_key, last-All, take-All, sort-IsStrict,
  sort-All, sort-select, past-IsUpward, last-some,
}
use mathlib.Core.List.{append-nil}
use netsy.LocalDb.StreamLaws.{current-KeysDiffer}
use netsy.Etcd.{KeyValue}
use netsy.CommonApi.Stream.{Streamed, sent_first}
use netsy.CommonApi.StreamAnswers.{key_values, all_kvs, length-map}

-- A table without two rows of one revision and without an empty key.
abbrev pub IsKeyed : List Record → Type 0
IsKeyed rs = Distinct rs × All (λ (q : Record). q.key ≢ []) rs

-- Each key comes before all that follow it.
abbrev pub IsAscending : List KeyValue → Type 0
IsAscending [] = Unit
IsAscending (kv ∷ kvs) =
    All (λ (q : KeyValue). bytes_less kv.key q.key ≡ true) kvs × IsAscending kvs

-- Whether a key is behind the cursor.
abbrev past_key : Bytes → Bytes → Bool
past_key [] x = true
past_key (b ∷ bs) x = bytes_less (b ∷ bs) x

-- The loop has ended, and its keys ascend behind a key and are at most `room`.
abbrev pub IsRising : Bytes → ℕ → Option Streamed → Type 0
IsRising k room none = ⊥
IsRising k room (some out) =
    IsAscending (all_kvs out.sent)
    × All (λ (q : KeyValue). past_key k q.key ≡ true) (all_kvs out.sent)
    × (length (all_kvs out.sent) ≤ room)

-- The rows of a chunk behind a key.
pub record IsChunk (k : Bytes) (rows : List Record) : Type 0 where
  pub strict : IsStrict rows
  pub past : All (λ (q : Record). past_key k q.key ≡ true) rows
  pub keyed : All (λ (q : Record). q.key ≢ []) rows

All-map :
    (P : Bytes → Type 0) (rs : List Record)
    → All (λ (q : Record). P q.key) rs
    → All (λ (q : KeyValue). P q.key) (key_values rs)
All-map P [] w = tt
All-map P (r ∷ rs) w = (w.0, All-map P rs w.1)

key_values-IsAscending : (rs : List Record) → IsStrict rs → IsAscending (key_values rs)
key_values-IsAscending [] w = tt
key_values-IsAscending (r ∷ rs) w =
    (All-map (λ x. bytes_less r.key x ≡ true) rs w.0, key_values-IsAscending rs w.1)

take-IsStrict : (n : ℕ) (rs : List Record) → IsStrict rs → IsStrict (take n rs)
take-IsStrict zero rs w = tt
take-IsStrict (suc n) [] w = tt
take-IsStrict (suc n) (r ∷ rs) w = (take-All _ n rs w.0, take-IsStrict n rs w.1)

pub take-IsChunk :
    (k : Bytes) (n : ℕ) (rows : List Record) → IsChunk k rows → IsChunk k (take n rows)
take-IsChunk k n rows c = record {
  strict = take-IsStrict n rows c.strict;
  past = take-All _ n rows c.past;
  keyed = take-All _ n rows c.keyed;
}

select-IsStrict : (p : Record → Bool) (rs : List Record) → IsStrict rs → IsStrict (select p rs)
select-IsStrict p [] w = tt
select-IsStrict p (r ∷ rs) w =
    let rest = select-IsStrict p rs w.1 in
    elim (Bool-cases (p r)) [
      | inl e ↦ simp e (select-All (λ (q : Record). bytes_less r.key q.key ≡ true) p rs w.0, rest)
      | inr e ↦ simp e rest
    ]

selected : (p : Record → Bool) (rs : List Record) → All (λ (q : Record). p q ≡ true) (select p rs)
selected p [] = tt
selected p (r ∷ rs) = elim (Bool-cases (p r)) [
  | inl e ↦ simp e (refl, selected p rs)
  | inr e ↦ simp e (selected p rs)
]

selected_past :
    (k : Bytes) (rs : List Record)
    → All (λ (q : Record). past_key k q.key ≡ true) (select (past_cursor asc k) rs)
selected_past [] rs = selected (past_cursor asc []) rs
selected_past (b ∷ bs) rs = selected (past_cursor asc (b ∷ bs)) rs

module _ (db : Db) (where_key : Bytes → Bool) (revision : ℕ) (k : Bytes) where
  abbrev current : List Record
  current = current_rows where_key revision db.records

  current-keyed :
      All (λ (q : Record). q.key ≢ []) db.records → All (λ (q : Record). q.key ≢ []) current
  unfolding current_rows filtered
  current-keyed w = select-All _ _ _ (select-All _ _ db.records w)

  stream_rows-IsChunk : IsKeyed db.records → IsChunk k (stream_rows db where_key revision asc k)
  stream_rows-IsChunk w =
      let order = sort-select (past_cursor asc k) current (past-IsUpward k) in
      let sorted = sort-IsStrict current (current-KeysDiffer where_key revision db.records w.0) in
      record {
        strict = rw order (select-IsStrict (past_cursor asc k) (sort_by_key asc current) sorted);
        past = sort-All _ (select (past_cursor asc k) current) (selected_past k current);
        keyed = sort-All _ _ (select-All _ (past_cursor asc k) current (current-keyed w.1));
      }

  pub limit_rows-IsChunk :
      (limit : ℕ)
      → IsKeyed db.records
      → IsChunk k (limit_rows limit (stream_rows db where_key revision asc k))
  limit_rows-IsChunk limit w = elim (Bool-cases (limit == 0)) [
    | inl e ↦ simp e (stream_rows-IsChunk w)
    | inr e ↦ simp e (take-IsChunk k limit _ (stream_rows-IsChunk w))
  ]

last-empty : (rs : List Record) → last_row_key rs ≡ none → rs ≡ []
last-empty [] h = refl
last-empty (r ∷ rs) h = absurd (last-some r rs h)

-- Each row of a chunk is the last one or comes before it.
last_bound :
    (rs : List Record) (last : Bytes)
    → IsStrict rs
    → last_row_key rs ≡ some last
    → All (λ (q : Record). bytes_less last q.key ≡ false) rs
unfolding last_row_key
last_bound [] last w h = cc
last_bound (r ∷ rs) last w h = elim (Option-cases (last_row_key rs)) [
  | inl e ↦
      let it : r.key ≡ last = ground arith in
      let none_left : rs ≡ [] = last-empty rs e in
      rw none_left (rw (sym it) (bytes_less_irrefl r.key), tt)
  | inr (x, e) ↦
      let it : last_row_key rs ≡ some last = ground arith in
      (
        bytes_less_asymm r.key last (last-All (λ q. bytes_less r.key q ≡ true) rs last w.0 it),
        last_bound rs last w.1 it,
      )
]

-- Between a key that is not behind another and one that is.
less_between :
    (a k x : Bytes) → bytes_less k a ≡ false → bytes_less k x ≡ true → bytes_less a x ≡ true
less_between a k x h less = elim (Bool-cases (bytes_less a x)) [
  | inl e ↦ e
  | inr e ↦ cc (h, bytes_less_trans k x a less e)
]

past_between :
    (k last x : Bytes) → past_key k last ≡ true → bytes_less last x ≡ true → past_key k x ≡ true
past_between [] last x h less = refl
past_between (b ∷ bs) last x h less =
    bytes_less_trans (b ∷ bs) last x h (bytes_less_asymm last x less)

past_last : (last x : Bytes) → last ≢ [] → past_key last x ≡ true → bytes_less last x ≡ true
past_last [] x h less = absurd (h refl)
past_last (b ∷ bs) x h less = less

-- Keys that ascend, and more behind the last of them.
append-IsAscending :
    (rs : List Record) (last : Bytes) (kvs : List KeyValue)
    → IsStrict rs
    → All (λ (q : Record). bytes_less last q.key ≡ false) rs
    → All (λ (q : KeyValue). bytes_less last q.key ≡ true) kvs
    → IsAscending kvs
    → IsAscending (key_values rs ++ kvs)
append-IsAscending [] last kvs w upto past h = h
append-IsAscending (r ∷ rs) last kvs w upto past h = (
  All-join _ (key_values rs) kvs (All-map (λ x. bytes_less r.key x ≡ true) rs w.0)
      (All-imp _ _ (λ q. less_between r.key last q.key upto.0) kvs past),
  append-IsAscending rs last kvs w.1 upto.1 past h,
)

-- A response with the rows of a chunk, the last that is sent; its summary and the error do not matter.
pub sent-IsRising :
    (k : Bytes) (room : ℕ) (rows : List Record)
    → IsChunk k rows
    → length rows ≤ room
    → IsRising k room (
        some
          (record { sent = record { kvs = key_values rows; summary = none } ∷ []; error = none }))
unfolding all_kvs
sent-IsRising k room rows c fits = rw (append-nil (key_values rows)) (
  key_values-IsAscending rows c.strict,
  All-map (λ x. past_key k x ≡ true) rows c.past,
  rw (length-map rows) fits,
)

-- A response with a chunk, and the stream behind its last key.
pub sent_first-IsRising :
    (k last : Bytes) (room : ℕ) (rows : List Record) (out : Option Streamed)
    → IsChunk k rows
    → last_row_key rows ≡ some last
    → length rows ≤ room
    → IsRising last (room - length rows) out
    → IsRising k room (sent_first (record { kvs = key_values rows; summary = none }) out)
unfolding all_kvs
sent_first-IsRising k last room rows none c e fits h = h
sent_first-IsRising k last room rows (some out) c e fits h =
    let differ = last-All (λ x. x ≢ []) rows last c.keyed e in
    let past = All-imp _ _ (λ q. past_last last q.key differ) (all_kvs out.sent) h.1 in
    let upto = last_bound rows last c.strict e in
    let after = last-All (λ x. past_key k x ≡ true) rows last c.past e in
    (
      append-IsAscending rows last (all_kvs out.sent) c.strict upto past h.0,
      All-join _ (key_values rows) _ (All-map (λ x. past_key k x ≡ true) rows c.past)
          (All-imp _ _ (λ q. past_between k last q.key after) (all_kvs out.sent) past),
      omega (arith, length-append (key_values rows) (all_kvs out.sent), length-map rows, fits, h.2),
    )
