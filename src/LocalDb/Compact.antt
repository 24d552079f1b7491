-- ===== src/LocalDb/Compact.antt =====
-- internal/localdb/compaction.go: the compaction revisions, and the UPDATE that compacts rows.
use netsy.Base.{
  ℕ, suc, ◌-◌, Bool, false, not, Option, none, some, List, [], ◌∷◌, map, ◌&&◌, ◌||◌, leb, ltb, ◌==◌,
  if◌then◌else◌, Bytes, bytes_equal, is_some,
}
use netsy.LocalDb.{Record, Compaction, Db, latest_revision}

-- SELECT compaction_revision FROM compactions ORDER BY compaction_revision DESC LIMIT 1, or 0
unfoldable pub max_compaction : List Compaction → ℕ
max_compaction [] = 0
max_compaction (c ∷ cs) =
    let rest = max_compaction cs in
    if ltb rest c.compaction_revision then c.compaction_revision else rest

abbrev pub latest_compaction_revision : Db → ℕ
latest_compaction_revision db = max_compaction db.compactions

-- The lesser of a revision and one that may be missing.
abbrev pub least : ℕ → Option ℕ → ℕ
least n none = n
least n (some m) = if ltb m n then m else n

-- SELECT revision FROM records WHERE compacted_at IS NULL ORDER BY revision ASC LIMIT 1
unfoldable pub first_uncompacted : List Record → Option ℕ
first_uncompacted [] = none
first_uncompacted (r ∷ rs) =
    let rest = first_uncompacted rs in
    if is_some r.compacted_at then rest else some (least r.revision rest)

unfoldable pub derive_compaction_revision : Db → ℕ
derive_compaction_revision db = elim (first_uncompacted db.records) [
  | none ↦ latest_revision db.records
  | some gap ↦ if leb gap 1 then 0 else gap - 1
]

unfoldable pub has_compaction : ℕ → List Compaction → Bool
has_compaction rev [] = false
has_compaction rev (c ∷ cs) = c.compaction_revision == rev || has_compaction rev cs

-- INSERT OR IGNORE INTO compactions
unfoldable pub persist_compaction_revision : Db → (revision now : ℕ) → Db
unfolding has_compaction
persist_compaction_revision db revision now =
    if revision == 0 then db else if has_compaction revision db.compactions then db else record db {
      compactions = record { compaction_revision = revision; created_at = now } ∷ db.compactions;
    }

-- EXISTS (SELECT 1 FROM records AS newer WHERE newer.key = k AND newer.revision > rev)
unfoldable pub has_newer : Bytes → ℕ → List Record → Bool
has_newer k rev [] = false
has_newer k rev (q ∷ qs) = (bytes_equal q.key k && ltb rev q.revision) || has_newer k rev qs

-- The WHERE clause of the UPDATE, over the whole table `rs`.
unfoldable pub to_compact : List Record → ℕ → Record → Bool
to_compact rs rev r =
    leb r.revision rev
    && (not (is_some r.compacted_at) && (r.deleted || has_newer r.key r.revision rs))

unfoldable pub compact_row : List Record → (rev now : ℕ) → Record → Record
compact_row rs rev now r =
    if to_compact rs rev r then record r { value = []; compacted_at = some now } else r

unfoldable pub count_to_compact : List Record → ℕ → List Record → ℕ
count_to_compact rs rev [] = 0
count_to_compact rs rev (q ∷ qs) =
    let rest = count_to_compact rs rev qs in if to_compact rs rev q then suc rest else rest

-- The new table and the number of affected rows.
unfoldable pub execute_compaction : Db → (compaction_revision now : ℕ) → Db × ℕ
execute_compaction db rev now = if rev == 0 then (db, 0) else (
  record db { records = map (compact_row db.records rev now) db.records },
  count_to_compact db.records rev db.records,
)
