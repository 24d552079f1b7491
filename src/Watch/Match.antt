-- ===== src/Watch/Match.antt =====
-- `isWatchMatch` and `isInRange` of internal/watch/watcher.go. `none` is a panic.
use netsy.Base.{
  ℕ, Bool, true, false, not, Option, none, some, [], ◌∷◌, ◌++◌, ◌&&◌, ◌||◌, ltb, ◌==◌,
  if◌then◌else◌, Bytes, bytes_equal,
}
use netsy.LocalDb.{Record}
use netsy.LocalDb.Find.{bytes_less}
use netsy.CommonApi.Query.{range_end_prefix_value, zero_byte, no_bytes}

-- A start revision of 0 is none; a negative one is refused when the watch is created.
pub record WatchEntry : Type 0 where
  pub watch_id : ℕ
  pub key : Bytes
  pub range_end : Bytes
  pub start_revision : ℕ
  pub prev_kv : Bool
  pub filters_no_put : Bool
  pub filters_no_delete : Bool

-- bytes.TrimRight(key, "\x00")
unfoldable pub trim_zeros : Bytes → Bytes
trim_zeros [] = []
trim_zeros (b ∷ bs) = let rest = trim_zeros bs in if no_bytes rest && b == 0 then [] else b ∷ rest

-- bytes.HasPrefix(key, prefix)
unfoldable pub has_prefix : (key prefix : Bytes) → Bool
has_prefix key [] = true
has_prefix [] (p ∷ ps) = false
has_prefix (k ∷ ks) (p ∷ ps) = let rest = has_prefix ks ps in k == p && rest

abbrev is_prefix_end : Bytes → Option Bytes → Bool
is_prefix_end range_end none = false
is_prefix_end range_end (some p) = bytes_equal range_end p

unfoldable pub in_range_cases :
    (key range_key range_end : Bytes) → (prefix_end : Option Bytes) → Bool
unfolding trim_zeros has_prefix
in_range_cases key range_key range_end prefix_end =
    if no_bytes range_end || bytes_equal range_end (range_key ++ zero_byte)
    then bytes_equal key (trim_zeros range_key)
    else if bytes_equal range_key zero_byte && bytes_equal range_end zero_byte
    then true
    else if bytes_equal range_end zero_byte
    then not (bytes_less key range_key)
    else if is_prefix_end range_end prefix_end
    then has_prefix key range_key
    else not (bytes_less key range_key) && bytes_less key range_end

-- The prefix value is computed for a key that is not empty, and panics at an empty range key.
unfoldable pub is_in_range : (key range_key range_end : Bytes) → Option Bool
unfolding in_range_cases range_end_prefix_value
is_in_range key range_key range_end =
    if no_bytes key
    then some (in_range_cases key range_key range_end none)
    else elim (range_end_prefix_value range_key) [
      | none ↦ none
      | some p ↦ some (in_range_cases key range_key range_end (some p))
    ]

unfoldable pub is_watch_match : WatchEntry → Record → Option Bool
unfolding is_in_range
is_watch_match w r =
    if w.filters_no_put && not r.deleted
    then some false
    else if w.filters_no_delete && r.deleted
    then some false
    else if ltb r.revision w.start_revision
    then some false
    else is_in_range r.key w.key w.range_end
