-- ===== src/LocalDb/CompactedTo.antt =====
-- The compaction revisions that internal/localdb/compaction.go derives and persists.
use mathlib.Core.List.{Memᴰ}
use netsy.Base.{
  ◌-◌, ℕ, suc, ◌+◌, ◌≤◌, ◌<◌, ◌≡◌, refl, true, false, Option, none, some, List, [], ◌∷◌, arith, ltb,
  if◌then◌else◌, is_some, Bool-cases, Option-cases, inl, inr, All, ◌⊎◌,
}
use netsy.LocalDb.{Record, Compaction, Db, latest_revision}
use netsy.LocalDb.Compact.{
  max_compaction, latest_compaction_revision, first_uncompacted, derive_compaction_revision,
  has_compaction, persist_compaction_revision, least,
}

sub_add : (n : ℕ) → 1 ≤ n → n - 1 + 1 ≡ n
sub_add n h = omega arith

-- The revision that `DeriveCompactionRevision` infers.
abbrev pub IsCompactedTo : ℕ → Record → Type 0
IsCompactedTo rev r = (rev < r.revision) ⊎ (is_some r.compacted_at ≡ true)

All-IsCompactedTo :
    (rs : List Record) (n : ℕ)
    → (o : Option ℕ) → first_uncompacted rs ≡ o
    → n < least (suc n) o
    → All (IsCompactedTo n) rs
unfolding first_uncompacted
All-IsCompactedTo [] n o e h = tt
All-IsCompactedTo (r ∷ rs) n o e h = elim (Option-cases (first_uncompacted rs)) [
  | inl nothing ↦ (ground arith, All-IsCompactedTo rs n none nothing (ground arith))
  | inr (gap, found) ↦ (ground arith, All-IsCompactedTo rs n (some gap) found (ground arith))
]

-- There is an uncompacted row of a revision.
abbrev pub HasUncompacted : ℕ → List Record → Type 0
HasUncompacted n rs = (q : Record) × Memᴰ q rs × (q.revision ≡ n) × (is_some q.compacted_at ≡ false)

first_uncompacted-mem :
    (rs : List Record) (gap : ℕ) → first_uncompacted rs ≡ some gap → HasUncompacted gap rs
unfolding first_uncompacted
first_uncompacted-mem [] gap e = cc
first_uncompacted-mem (r ∷ rs) gap e = elim (Bool-cases (is_some r.compacted_at)) [
  | inl done ↦
      let (q, m, at, left) = first_uncompacted-mem rs gap (ground arith) in
      (q, Memᴰ.tail m, at, left)
  | inr open_row ↦ elim (Option-cases (first_uncompacted rs)) [
    | inl nothing ↦ (r, Memᴰ.head refl, ground arith, open_row)
    | inr (g, found) ↦ elim (Bool-cases (ltb g r.revision)) [
      | inl lower ↦
          let (q, m, at, left) = first_uncompacted-mem rs g found in
          (q, Memᴰ.tail m, ground arith, left)
      | inr higher ↦ (r, Memᴰ.head refl, ground arith, open_row)
    ]
  ]
]

first_uncompacted-pos :
    (rs : List Record) (gap : ℕ)
    → All (λ r. 1 ≤ r.revision) rs
    → first_uncompacted rs ≡ some gap
    → 1 ≤ gap
unfolding first_uncompacted
first_uncompacted-pos [] gap pos e = cc
first_uncompacted-pos (r ∷ rs) gap pos e = elim (Option-cases (first_uncompacted rs)) [
  | inl nothing ↦ ground arith
  | inr (g, found) ↦ ground (arith, first_uncompacted-pos rs g pos.1 found)
]

derive-none :
    (db : Db)
    → first_uncompacted db.records ≡ none
    → derive_compaction_revision db ≡ latest_revision db.records
unfolding derive_compaction_revision
derive-none db e = rw (e, derive_compaction_revision)

derive-some :
    (db : Db) (gap : ℕ)
    → first_uncompacted db.records ≡ some gap
    → derive_compaction_revision db ≡ gap - 1
unfolding derive_compaction_revision
derive-some db gap e = rw (e, derive_compaction_revision) (ground arith)

-- In a table whose revisions are above 0, every row at or below the derived compaction revision has
-- been compacted, and the derived revision is the greatest such: it is the table's latest, or the
-- row of the next revision is there and has not been compacted.
pub derive_compaction_revision_lem :
    (db : Db)
    → All (λ r. 1 ≤ r.revision) db.records
    → All (IsCompactedTo (derive_compaction_revision db)) db.records
      × ((derive_compaction_revision db ≡ latest_revision db.records)
          ⊎ HasUncompacted (derive_compaction_revision db + 1) db.records)
derive_compaction_revision_lem db pos = elim (Option-cases (first_uncompacted db.records)) [
  | inl all_done ↦
      rw (derive-none db all_done)
        (All-IsCompactedTo db.records _ none all_done (omega arith), inl refl)
  | inr (gap, found) ↦
      let positive = first_uncompacted-pos db.records gap pos found in
      rw (derive-some db gap found) (
        All-IsCompactedTo db.records (gap - 1) (some gap) found (ground arith),
        inr (rw (sub_add gap positive) (first_uncompacted-mem db.records gap found)),
      )
]

has_compaction-le :
    (rev : ℕ) (cs : List Compaction) → has_compaction rev cs ≡ true → rev ≤ max_compaction cs
unfolding has_compaction max_compaction
has_compaction-le rev [] h = cc
has_compaction-le rev (c ∷ cs) h = ground (arith, has_compaction-le rev cs)

-- Persisting a compaction revision raises the latest one to it, and never lowers it.
pub latest-persist_compaction_revision :
    (db : Db) (rev now : ℕ)
    → latest_compaction_revision (persist_compaction_revision db rev now)
      ≡ (if ltb (latest_compaction_revision db) rev then rev else latest_compaction_revision db)
unfolding persist_compaction_revision max_compaction
latest-persist_compaction_revision db rev now = ground (arith, has_compaction-le rev db.compactions)

pub persist_compaction-records :
    (db : Db) (rev now : ℕ) → (persist_compaction_revision db rev now).records ≡ db.records
unfolding persist_compaction_revision
persist_compaction-records db rev now = ground arith
