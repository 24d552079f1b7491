-- ===== src/Watch/MatchLaws.antt =====
-- Watches and ranges take the same keys.
use netsy.Base.{
  ◌≡◌, ◌≢◌, refl, ap, Bool, true, false, some, [], ◌∷◌, ◌++◌, ◌||◌, ◌⊎◌, inl, inr, arith, Bytes,
  bytes_equal, Bool-cases,
}
use netsy.CommonApi.Query.{range_end_prefix_value, zero_byte, no_bytes, choose_query, matches}
use netsy.Watch.Match.{trim_zeros, has_prefix, in_range_cases, is_in_range}

not_its_end : (key : Bytes) → key ≢ [] → bytes_equal zero_byte (key ++ zero_byte) ≡ false
unfolding bytes_equal
not_its_end [] h = absurd (h refl)
not_its_end (b ∷ []) h = ground arith
not_its_end (b ∷ c ∷ rest) h = ground arith

exact_key :
    (key range_end k : Bytes)
    → key ≢ []
    → (trim_zeros key ≡ key) ⊎ (range_end ≡ zero_byte)
    → (no_bytes range_end || bytes_equal range_end (key ++ zero_byte)) ≡ true
    → bytes_equal k (trim_zeros key) ≡ bytes_equal k key
exact_key key range_end k h (inl trimmed) e = ap (bytes_equal k) trimmed
exact_key key range_end k h (inr zero) e = ground (arith, not_its_end key h)

cases-match :
    (like : Bytes → Bytes → Bool) (key range_end prefix_end k : Bytes)
    → like (key ++ 37 ∷ []) k ≡ has_prefix k key
    → key ≢ []
    → (trim_zeros key ≡ key) ⊎ (range_end ≡ zero_byte)
    → in_range_cases k key range_end (some prefix_end)
      ≡ matches like (choose_query key range_end prefix_end) k
unfolding in_range_cases choose_query matches
cases-match like key range_end prefix_end k prefix some_key ends =
    elim (Bool-cases (no_bytes range_end || bytes_equal range_end (key ++ zero_byte))) [
      | inl exact ↦ simp exact (exact_key key range_end k some_key ends exact)
      | inr ranged ↦ ground (arith, prefix)
    ]

no_end_value : (key prefix_end : Bytes) → range_end_prefix_value key ≡ some prefix_end → key ≢ []
unfolding range_end_prefix_value
no_end_value [] prefix_end h e = cc
no_end_value (b ∷ bs) prefix_end h e = cc

no_bytes-nil : (k : Bytes) → no_bytes k ≡ true → k ≡ []
no_bytes-nil [] e = refl
no_bytes-nil (b ∷ bs) e = cc

-- A watch of a key or of a range takes the same keys as a Range request does, with the prefix test
-- for LIKE. The range key must not end in a zero byte, unless the range has no end.
pub is_in_range-matches :
    (like : Bytes → Bytes → Bool) (key range_end prefix_end k : Bytes)
    → like (key ++ 37 ∷ []) k ≡ has_prefix k key
    → range_end_prefix_value key ≡ some prefix_end
    → k ≢ []
    → (trim_zeros key ≡ key) ⊎ (range_end ≡ zero_byte)
    → is_in_range k key range_end ≡ some (matches like (choose_query key range_end prefix_end) k)
unfolding is_in_range
is_in_range-matches like key range_end prefix_end k prefix value nonempty ends =
    let some_key = no_end_value key prefix_end value in
    let same = cases-match like key range_end prefix_end k prefix some_key ends in
    elim (Bool-cases (no_bytes k)) [
      | inl empty ↦ absurd (nonempty (no_bytes-nil k empty))
      | inr there ↦ simp there (rw value (ap some same))
    ]
