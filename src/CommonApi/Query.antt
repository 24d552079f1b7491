-- ===== src/CommonApi/Query.antt =====
-- `buildRangeQuery`: the WHERE clause of a range, as data. `none` is the panic of an empty key.
use netsy.Base.{
  ◌+◌, ◌%◌, Bool, true, false, not, Option, none, some, [], ◌∷◌, ◌++◌, ◌&&◌, ◌||◌, if◌then◌else◌,
  Bytes, bytes_equal,
}
use netsy.LocalDb.Find.{bytes_less}
use netsy.Etcd.{RangeRequest}

pub data Where : Type 0 where
  every_key : Where
  key_is key_from key_like : Bytes → Where
  key_between : Bytes → Bytes → Where

-- keyCopy[:len-1] with the last byte raised by one; indexing an empty slice panics.
unfoldable pub range_end_prefix_value : Bytes → Option Bytes
range_end_prefix_value [] = none
range_end_prefix_value (b ∷ []) = some (((b + 1) % 256) ∷ [])
range_end_prefix_value (b ∷ c ∷ rest) = elim (range_end_prefix_value (c ∷ rest)) [
  | none ↦ none
  | some bs ↦ some (b ∷ bs)
]

-- `[]byte{0}`
abbrev pub zero_byte : Bytes
zero_byte = 0 ∷ []

abbrev pub bytes_of : Option Bytes → Bytes
bytes_of none = []
bytes_of (some bs) = bs

abbrev pub no_bytes : Bytes → Bool
no_bytes [] = true
no_bytes (b ∷ bs) = false

unfoldable pub choose_query : (key range_end prefix_end : Bytes) → Where
choose_query key range_end prefix_end =
    if no_bytes range_end || bytes_equal range_end (key ++ zero_byte)
    then key_is key
    else if bytes_equal key zero_byte && bytes_equal range_end zero_byte
    then every_key
    else if bytes_equal range_end zero_byte
    then key_from key
    else if bytes_equal range_end prefix_end
    then key_like (key ++ 37 ∷ [])
    else key_between key range_end

unfoldable pub build_range_query : RangeRequest → Option Where
unfolding range_end_prefix_value choose_query
build_range_query r = elim (range_end_prefix_value r.key) [
  | none ↦ none
  | some prefix_end ↦ some (choose_query r.key (bytes_of r.range_end) prefix_end)
]

module _ (like : Bytes → Bytes → Bool) where
  -- What SQLite makes of the clause.
  unfoldable pub matches : Where → Bytes → Bool
  matches every_key k = true
  matches (key_is key) k = bytes_equal k key
  matches (key_from key) k = not (bytes_less k key)
  matches (key_like pattern) k = like pattern k
  matches (key_between key range_end) k = not (bytes_less k key) && bytes_less k range_end
