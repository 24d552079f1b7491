-- ===== src/LocalDb/CompactLaws.antt =====
-- Compaction removes history and nothing that a client reads at the present revision.

use netsy.Base.{
  ℕ, ◌≤◌, ◌<◌, ◌≡◌, ◌≢◌, refl, true, false, Option, none, some, List, [], ◌∷◌, map, arith, ◌==◌,
  Bytes, bytes_equal, bytes_equal_iff, is_some, Bool-cases, Option-cases, inl, inr, All, ◌⊎◌,
}
use netsy.LocalDb.{Record, Db, latest_for_key, live_row, live, revision_of}
use netsy.LocalDb.Compact.{has_newer, to_compact, compact_row, count_to_compact, execute_compaction}

latest_for_key-key :
    (k : Bytes) (rs : List Record) {r : Record}
    → latest_for_key k rs ≡ some r
    → bytes_equal r.key k ≡ true
unfolding latest_for_key
latest_for_key-key k [] e = cc
latest_for_key-key k (q ∷ qs) {r} e = elim (Option-cases (latest_for_key k qs)) [
  | inl missing ↦ ground arith
  | inr (s, found) ↦ ground (arith, latest_for_key-key k qs {r = s} found)
]

has_newer-latest :
    (k : Bytes) (n : ℕ) (rs : List Record)
    → revision_of (latest_for_key k rs) ≤ n
    → has_newer k n rs ≡ false
unfolding latest_for_key has_newer
has_newer-latest k n [] h = refl
has_newer-latest k n (q ∷ qs) h = ground (arith, has_newer-latest k n qs)

abbrev on_some : (Record → Record) → Option Record → Option Record
on_some f none = none
on_some f (some r) = some (f r)

module _ (all : List Record) (rev now : ℕ) where
  latest_for_key-compact :
      (k : Bytes) (rs : List Record)
      → latest_for_key k (map (compact_row all rev now) rs)
        ≡ on_some (compact_row all rev now) (latest_for_key k rs)
  unfolding latest_for_key compact_row
  latest_for_key-compact k [] = refl
  latest_for_key-compact k (q ∷ qs) = ground (arith, latest_for_key-compact k qs)

live_row-compact :
    (k : Bytes) (rs : List Record) (rev now : ℕ)
    → live_row (on_some (compact_row rs rev now) (latest_for_key k rs))
      ≡ live_row (latest_for_key k rs)
unfolding compact_row to_compact
live_row-compact k rs rev now = elim (Option-cases (latest_for_key k rs)) [
  | inl missing ↦ ground arith
  | inr (r, found) ↦ ground (
    arith,
    (bytes_equal_iff r.key k).0 (latest_for_key-key k rs {r = r} found),
    has_newer-latest k r.revision rs,
  )
]

-- Compaction, at any revision, leaves every key readable as it was: its present row keeps its value,
-- and an absent key stays absent.
pub live-execute_compaction :
    (db : Db) (rev now : ℕ) (k : Bytes)
    → live k (execute_compaction db rev now).0.records ≡ live k db.records
unfolding execute_compaction
live-execute_compaction db rev now k = ground (
  arith,
  latest_for_key-compact db.records rev now k db.records,
  live_row-compact k db.records rev now,
)

compact_row-kept :
    (rs : List Record) (rev now : ℕ) (q : Record)
    → to_compact rs rev q ≡ false
    → compact_row rs rev now q ≡ q
unfolding compact_row
compact_row-kept rs rev now q h = ground arith

module _ (all : List Record) (rev now : ℕ) where
  has_newer-compact :
      (k : Bytes) (n : ℕ) (rs : List Record)
      → has_newer k n (map (compact_row all rev now) rs) ≡ has_newer k n rs
  unfolding has_newer compact_row
  has_newer-compact k n [] = refl
  has_newer-compact k n (q ∷ qs) = ground (arith, has_newer-compact k n qs)

  -- A row that has been through the compaction is not compacted again.
  settled :
      (rev' : ℕ) (q : Record)
      → rev' ≤ rev
      → to_compact (map (compact_row all rev now) all) rev' (compact_row all rev now q) ≡ false
  unfolding to_compact compact_row
  settled rev' q le = ground (
    arith,
    has_newer-compact q.key q.revision all,
    has_newer-compact (compact_row all rev now q).key (compact_row all rev now q).revision all,
  )

  map-settled :
      (rev' later : ℕ) (rs : List Record)
      → rev' ≤ rev
      → (map
            (compact_row (map (compact_row all rev now) all) rev' later)
            (map (compact_row all rev now) rs)
          ≡ map (compact_row all rev now) rs)
        × (count_to_compact
              (map (compact_row all rev now) all)
              rev'
              (map (compact_row all rev now) rs)
            ≡ 0)
  unfolding count_to_compact
  map-settled rev' later [] le = (refl, refl)
  map-settled rev' later (q ∷ qs) le =
      let rest = map-settled rev' later qs le in
      (
        ground (
          arith,
          rest.0,
          compact_row-kept (map (compact_row all rev now) all) rev' later
              (compact_row all rev now q) (settled rev' q le),
        ),
        ground (arith, settled rev' q le),
      )

-- Compacting again, at the same or a lower revision, changes no row and reports none.
pub execute_compaction_again :
    (db : Db) (rev now rev' later : ℕ)
    → rev' ≤ rev
    → execute_compaction (execute_compaction db rev now).0 rev' later
      ≡ ((execute_compaction db rev now).0, 0)
unfolding execute_compaction
execute_compaction_again db rev now rev' later le =
    ground (arith, map-settled db.records rev now rev' later db.records le)

-- A row at or below `rev` that is not compacted is the present row of its key.
abbrev pub IsPresentOr : List Record → ℕ → Record → Type 0
IsPresentOr all rev q =
    (rev < q.revision)
    ⊎ (is_some q.compacted_at ≡ true)
    ⊎ ((q.deleted ≡ false) × (has_newer q.key q.revision all ≡ false))

compact_row-IsPresentOr :
    (all : List Record) (rev now : ℕ) (q : Record) → IsPresentOr all rev (compact_row all rev now q)
unfolding compact_row to_compact
compact_row-IsPresentOr all rev now q = ground arith

map-IsPresentOr :
    (all : List Record) (rev now : ℕ) (rs : List Record)
    → All (IsPresentOr all rev) (map (compact_row all rev now) rs)
map-IsPresentOr all rev now [] = tt
map-IsPresentOr all rev now (q ∷ qs) =
    (compact_row-IsPresentOr all rev now q, map-IsPresentOr all rev now qs)

-- After a compaction at a revision above 0, every row at or below that revision has been compacted,
-- but for rows that are no tombstone and the newest of their key.
pub execute_compaction-leaves :
    (db : Db) (rev now : ℕ)
    → rev ≢ 0
    → All (IsPresentOr db.records rev) (execute_compaction db rev now).0.records
execute_compaction-leaves db rev now positive = elim (Bool-cases (rev == 0)) [
  | inl e ↦ absurd (positive (ground arith))
  | inr e ↦ unfold execute_compaction in rw e (map-IsPresentOr db.records rev now db.records)
]
