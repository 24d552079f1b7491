-- ===== src/CommonApi/ChunkSize.antt =====
-- internal/commonapi/chunksize.go: how many keys the next chunk of a stream asks for.
use netsy.Base.{ℕ, ◌*◌, ◌/◌, ◌≤◌, ◌<◌, ◌≡◌, List, [], ◌∷◌, arith, ltb, if◌then◌else◌}

pub record ChunkSizer : Type 0 where
  pub keys : ℕ
  pub min_keys : ℕ
  pub max_keys : ℕ
  pub target_bytes : ℕ

unfoldable pub new_chunk_sizer : ChunkSizer
new_chunk_sizer = record { keys = 10; min_keys = 1; max_keys = 10000; target_bytes = 1536 * 1024 }

abbrev pub lesser : ℕ → ℕ → ℕ
lesser a b = if ltb b a then b else a

abbrev pub greater : ℕ → ℕ → ℕ
greater a b = if ltb a b then b else a

unfoldable pub observe : ChunkSizer → (chunk_bytes : ℕ) → ChunkSizer
observe s chunk_bytes =
    if ltb chunk_bytes (s.target_bytes / 2)
    then record s { keys = lesser (s.keys * 2) s.max_keys }
    else if ltb (s.target_bytes * 2) chunk_bytes
    then record s { keys = greater (s.keys / 2) s.min_keys }
    else s

unfoldable pub observe_all : ChunkSizer → List ℕ → ChunkSizer
observe_all s [] = s
observe_all s (chunk_bytes ∷ rest) = observe_all (observe s chunk_bytes) rest

pub record InBounds (s : ChunkSizer) : Type 0 where
  pub at_least_one : 1 ≤ s.keys
  pub at_most_max : s.keys ≤ 10000
  pub fixed_min : s.min_keys ≡ 1
  pub fixed_max : s.max_keys ≡ 10000

pub observe-InBounds : (s : ChunkSizer) (n : ℕ) → InBounds s → InBounds (observe s n)
unfolding observe
observe-InBounds s n v = ground arith

observe_all-InBounds : (s : ChunkSizer) (ns : List ℕ) → InBounds s → InBounds (observe_all s ns)
unfolding observe_all
observe_all-InBounds s [] v = v
observe_all-InBounds s (n ∷ ns) v = observe_all-InBounds (observe s n) ns (observe-InBounds s n v)

-- Whatever the sizes of the chunks so far, a stream asks for at least one key and for at most
-- 10,000, so the doubling of the number never comes near the limit of an int64.
pub keys_bounds :
    (ns : List ℕ)
    → (1 ≤ (observe_all new_chunk_sizer ns).keys)
      × ((observe_all new_chunk_sizer ns).keys ≤ 10000)
      × ((observe_all new_chunk_sizer ns).keys * 2 < 9223372036854775808)
unfolding new_chunk_sizer
keys_bounds ns =
    let v = observe_all-InBounds new_chunk_sizer ns (omega arith) in
    (v.at_least_one, v.at_most_max, omega (arith, v.at_most_max))
