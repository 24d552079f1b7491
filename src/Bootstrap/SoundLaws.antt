-- ===== src/Bootstrap/SoundLaws.antt =====
-- The table along the imports and the seeds of a load.
use netsy.Base.{
  ℕ, ◌≡◌, refl, Bool, true, false, Option, none, some, List, [], ◌∷◌, inl, inr, Bool-cases, ◌&&◌,
  not, ltb, if◌then◌else◌, ◌==◌,
}
use netsy.LocalDb.{Record, Db, Result, ok, err}
use netsy.LocalDb.CompactedTo.{persist_compaction-records}
use netsy.LocalDb.Replicate.{replicate_record}
use netsy.LocalDb.Sound.{IsSound, replicate_record-IsSound}
use netsy.Datastore.{Chunk, next_import, import_records, download_and_import_file}
use netsy.LocalDb.Compact.{
  latest_compaction_revision, derive_compaction_revision, persist_compaction_revision,
}
use netsy.Replication.{Follower}
use netsy.Replication.Sound.{HasSound}
use netsy.Bootstrap.{
  Seeding, persist_derived, seed_compaction_from_local_db, seed_compaction_from_primary,
}

next_import-IsSound :
    (r : Record) (now : ℕ) (rest : Db → Db × Bool) (db : Db) (out : Result (Record × Db))
    → IsSound db.records
    → replicate_record db r now ≡ out
    → ((after : Db) → IsSound after.records → IsSound (rest after).0.records)
    → IsSound (next_import rest db out).0.records
next_import-IsSound r now rest db (err e) w h keep = w
next_import-IsSound r now rest db (ok (row, after)) w h keep =
    keep after (replicate_record-IsSound db r now row after w h)

import_records-IsSound :
    (now : ℕ) (rs : List Record) (db : Db)
    → IsSound db.records
    → IsSound (import_records now rs db).0.records
unfolding import_records
import_records-IsSound now [] db w = w
import_records-IsSound now (r ∷ rs) db w =
    next_import-IsSound r now (import_records now rs) db (replicate_record db r now) w refl
      (import_records-IsSound now rs)

pub download-IsSound :
    (db : Db) (c : Chunk) (now : ℕ) (fails : Bool)
    → IsSound db.records
    → IsSound (download_and_import_file db c now fails).0.records
unfolding download_and_import_file
download-IsSound db c now true w = w
download-IsSound db c now false w = import_records-IsSound now c.records db w

abbrev pub OnOption : Option Follower → Type 0
OnOption none = Unit
OnOption (some f) = HasSound f

persist_derived-OnOption :
    (f : Follower) (derived : ℕ) (o : Seeding) → HasSound f → OnOption (persist_derived f derived o)
persist_derived-OnOption f derived o w = elim (Bool-cases (o.persist_fails && not (derived == 0))) [
  | inl e ↦ simp e tt
  | inr e ↦ simp e (rw (persist_compaction-records f.db derived o.now) w)
]

pub seed_local-OnOption :
    (f : Follower) (o : Seeding) → HasSound f → OnOption (seed_compaction_from_local_db f o)
unfolding seed_compaction_from_local_db
seed_local-OnOption f o w = elim (Bool-cases o.read_fails) [
  | inl e ↦ simp e tt
  | inr read ↦ elim (Bool-cases (ltb 0 (latest_compaction_revision f.db))) [
    | inl e ↦ simp (read, e) w
    | inr e ↦ elim (Bool-cases o.derive_fails) [
      | inl d ↦ simp (read, e, d) tt
      | inr d ↦ simp (read, e, d) (persist_derived-OnOption f (derive_compaction_revision f.db) o w)
    ]
  ]
]

either :
    (b : Bool) (x y : Option Follower) → OnOption x → OnOption y → OnOption (if b then x else y)
either true x y h k = h
either false x y h k = k

pub seed_primary-OnOption :
    (f : Follower) (o : Seeding) → HasSound f → OnOption (seed_compaction_from_primary f o)
unfolding seed_compaction_from_primary
seed_primary-OnOption f o w =
    let after = persist_compaction_revision f.db f.state.compaction o.now in
    let persisted : IsSound after.records =
      rw (persist_compaction-records f.db f.state.compaction o.now) w in
    either o.read_fails none _ tt (
      either _ (some f) _ w (
        either (f.state.compaction == 0) (some f) _ w (either o.persist_fails none _ tt persisted)))
