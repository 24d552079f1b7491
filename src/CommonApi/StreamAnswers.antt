-- ===== src/CommonApi/StreamAnswers.antt =====
-- What a stream has sent (range.go).
use netsy.Base.{
  suc, ◌≡◌, ◌≢◌, refl, ap, ◌∙◌, Bool, true, false, Option, none, some, List, [], ◌∷◌, ◌++◌, map,
  length, All, Bytes, is_some,
}
use netsy.LocalDb.{Record, Db}
use netsy.LocalDb.Latest.{Distinct}
use netsy.LocalDb.Find.{current_rows}
use netsy.LocalDb.StreamOrder.{last_row_key}
use netsy.Etcd.{RangeRequest, KeyValue}
use netsy.CommonApi.{ok, to_key_value, validate_range_request, records_to_key_values, positive_part}
use netsy.CommonApi.Query.{Where, build_range_query, matches}
use netsy.CommonApi.Stream.{
  Summary, StreamResponse, Streamed, Turn, last_key, sent_first, is_none_order,
}

-- A row that is not compacted, and the keys and values of such rows.
abbrev pub Plain : Record → Type 0
Plain r = is_some r.compacted_at ≡ false

abbrev pub key_values : List Record → List KeyValue
key_values = map to_key_value

pub key_values-ok :
    (rs : List Record) → All Plain rs → records_to_key_values rs ≡ ok (key_values rs)
unfolding records_to_key_values
key_values-ok [] w = refl
key_values-ok (r ∷ rs) w = rw (w.0, key_values-ok rs w.1) refl

pub last_key-map : (rs : List Record) → last_key (key_values rs) ≡ last_row_key rs
unfolding last_key last_row_key
last_key-map [] = refl
last_key-map (r ∷ rs) = rw (last_key-map rs) refl

pub length-map : (rs : List Record) → length (key_values rs) ≡ length rs
length-map [] = refl
length-map (r ∷ rs) = ap suc (length-map rs)

pub map-append : (xs ys : List Record) → key_values (xs ++ ys) ≡ key_values xs ++ key_values ys
map-append [] ys = refl
map-append (x ∷ xs) ys = ap (◌∷◌ (to_key_value x)) (map-append xs ys)

-- What was sent: all the keys and values, and the summaries.
unfoldable pub all_kvs : List StreamResponse → List KeyValue
all_kvs [] = []
all_kvs (s ∷ ss) = s.kvs ++ all_kvs ss

unfoldable pub summaries : List StreamResponse → List (Option Summary)
summaries [] = []
summaries (s ∷ ss) = s.summary ∷ summaries ss

-- All responses but the last are without a summary.
abbrev pub IsLast : Summary → List (Option Summary) → Type 0
IsLast s [] = ⊥
IsLast s (x ∷ []) = x ≡ some s
IsLast s (x ∷ y ∷ rest) = (x ≡ none) × IsLast s (y ∷ rest)

-- The loop has ended without an error, and has sent these keys and values, and in its last response
-- this summary.
abbrev pub IsAnswer : List KeyValue → Summary → Option Streamed → Type 0
IsAnswer kvs s none = ⊥
IsAnswer kvs s (some out) =
    (out.error ≡ none) × (all_kvs out.sent ≡ kvs) × IsLast s (summaries out.sent)

IsLast-cons : (s : Summary) (rest : List (Option Summary)) → IsLast s rest → IsLast s (none ∷ rest)
IsLast-cons s [] h = absurd h
IsLast-cons s (x ∷ rest) h = (refl, h)

pub sent_first-IsAnswer :
    (first kvs all : List KeyValue) (s : Summary) (out : Option Streamed)
    → IsAnswer kvs s out
    → first ++ kvs ≡ all
    → IsAnswer all s (sent_first (record { kvs = first; summary = none }) out)
unfolding all_kvs summaries
sent_first-IsAnswer first kvs all s none h e = h
sent_first-IsAnswer first kvs all s (some out) h e =
    (h.0, ap (λ k. first ++ k) h.1 ∙ e, IsLast-cons s (summaries out.sent) h.2)

abbrev pub calm_turn : Db → Turn
calm_turn db = record {
  db = db;
  is_cancelled = false;
  query_fails = false;
  count_fails = false;
  send_fails = false;
}

abbrev pub found_rows : (Bytes → Bytes → Bool) → Db → RangeRequest → Where → List Record
found_rows like db r w = current_rows (matches like w) (positive_part r.revision) db.records

-- A request of a stream that is valid, has a key, asks for keys and not in an order of its own, over a
-- table without two rows of one revision and without an empty key among those that it finds.
pub record IsStreamed (like : Bytes → Bytes → Bool) (db : Db) (r : RangeRequest) (w : Where)
    : Type 0 where
  pub valid : validate_range_request r ≡ none
  pub order : is_none_order r.sort_order ≡ true
  pub query : build_range_query r ≡ some w
  pub keys : r.count_only ≡ false
  pub distinct : Distinct db.records
  pub keyed : All (λ (q : Record). q.key ≢ []) (found_rows like db r w)
