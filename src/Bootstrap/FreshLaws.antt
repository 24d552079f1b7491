-- ===== src/Bootstrap/FreshLaws.antt =====
-- The load of a fresh node without a remote Primary, when no call fails.
use netsy.Base.{ℕ, ◌≡◌, refl, Bool, true, false, none, List, [], ◌∷◌, if◌then◌else◌, ap}
use netsy.NodeState.{
  State, loading, healthy, set_health, valid_health_transition, valid_health_transitions,
}
use netsy.LocalDb.{Db, ok, latest_revision, verify_integrity}
use netsy.LocalDb.Compact.{max_compaction, first_uncompacted}
use netsy.Datastore.{Chunk, list_chunks, download_and_import_file}
use netsy.Replication.{Follower}
use netsy.Replication.Lifecycle.{Round}
use netsy.Bootstrap.{
  going, Seeding, prepared, prepare_local_state, needs_follow_stream, seed_compaction_from_local_db,
  import_latest_snapshot,
}
use netsy.Bootstrap.Load.{
  Heard, hear, Fetch, next_chunk, import_chunks, Pass, backfill_chunks_from_revision,
  follow_or_stop, fill, load_pass, load_attempts, complete, load_node,
}

-- The files one after the other, as the database alone goes through them.
unfoldable pub import_files : (fetch : ℕ → Fetch) → List Chunk → Db → Db × Bool
unfolding download_and_import_file
import_files fetch [] db = (db, true)
import_files fetch (c ∷ cs) db =
    let o = fetch c.revision in
    let (mid, fine) = download_and_import_file db c o.now o.download_fails in
    let rest = import_files fetch cs mid in if fine then rest else (mid, false)

hear-stopped : (hs : List Heard) (f : Follower) → f.cancel ≡ false → hear hs f ≡ going f
unfolding hear
hear-stopped [] f h = refl
hear-stopped (x ∷ hs) f h = simp h refl

next_chunk-import :
    (fetch : ℕ → Fetch) (cs : List Chunk) (f : Follower) (out : Db × Bool) (after : Db)
    → (if out.1 then import_files fetch cs out.0 else (out.0, false)) ≡ (after, true)
    → ((mid : Db)
        → import_files fetch cs mid ≡ (after, true)
        → import_chunks fetch cs (record f { db = mid }) ≡ going (record f { db = after }))
    → next_chunk (import_chunks fetch cs) f out ≡ going (record f { db = after })
next_chunk-import fetch cs f (mid, true) after h k = k mid h
next_chunk-import fetch cs f (mid, false) after h k = cc

import_chunks-files :
    (fetch : ℕ → Fetch) (cs : List Chunk) (f : Follower) (after : Db)
    → f.cancel ≡ false
    → import_files fetch cs f.db ≡ (after, true)
    → import_chunks fetch cs f ≡ going (record f { db = after })
unfolding import_chunks import_files
import_chunks-files fetch [] f after stopped h =
    ap (λ (out : Db × Bool). going (record f { db = out.0 })) h
import_chunks-files fetch (c ∷ cs) f after stopped h =
    rw (hear-stopped (fetch c.revision).meanwhile f stopped) (
      next_chunk-import fetch cs f _ after h
        (λ mid h'. import_chunks-files fetch cs (record f { db = mid }) after stopped h'))

-- A pass in which no call fails. The times, the streams and the messages are any.
abbrev pub calm_seeding : (now : ℕ) → Seeding
calm_seeding now = record {
  now = now;
  read_fails = false;
  derive_fails = false;
  persist_fails = false;
}

abbrev pub calm_pass : (now : ℕ) → List Round → List Chunk → (fetch : ℕ → Fetch) → List Heard → Pass
calm_pass now rounds store fetch meanwhile = record {
  truncate_records_fails = false;
  truncate_compactions_fails = false;
  preparing = record {
    first_seeding = calm_seeding now;
    count_fails = false;
    latest_fails = false;
    import_now = now;
    download_fails = false;
    second_seeding = calm_seeding now;
  };
  rounds = rounds;
  seeding = calm_seeding now;
  store = store;
  list_fails = false;
  fetch = fetch;
  meanwhile = meanwhile;
  verify_fails = false;
}

-- A node that is loading, over an empty database, with a follower that does not run.
abbrev pub fresh_node : Follower → State → Follower
fresh_node f s = record f {
  state = record s { health = loading };
  db = record { records = []; compactions = [] };
  cancel = false;
}

abbrev pub loaded_node : Follower → State → Db → Follower
loaded_node f s after = record (fresh_node f s) {
  state = record s { health = healthy; committed = latest_revision after.records; compaction = 0 };
  db = after;
}

abbrev seeded_node : Follower → State → Follower
seeded_node f s = record (fresh_node f s) { state = record s { health = loading; compaction = 0 } }

module _ (f : Follower) (s : State) (now : ℕ) (rounds : List Round) (store : List Chunk)
    (fetch : ℕ → Fetch) (meanwhile : List Heard) where
  prepare-fresh :
      prepare_local_state
        (fresh_node f s)
        none
        (calm_pass now rounds store fetch meanwhile).preparing
      ≡ prepared (seeded_node f s) 0
  unfolding prepare_local_state seed_compaction_from_local_db import_latest_snapshot max_compaction
      first_uncompacted
  prepare-fresh = refl

  follow-fresh :
      needs_follow_stream s f.node_id ≡ false
      → follow_or_stop (seeded_node f s) (calm_pass now rounds store fetch meanwhile)
        ≡ going (seeded_node f s)
  unfolding follow_or_stop needs_follow_stream
  follow-fresh alone = simp alone refl

  fill-fresh :
      (after : Db)
      → needs_follow_stream s f.node_id ≡ false
      → import_files fetch (list_chunks store 0) (fresh_node f s).db ≡ (after, true)
      → fill (calm_pass now rounds store fetch meanwhile) (prepared (seeded_node f s) 0)
        ≡ going (record (seeded_node f s) { db = after })
  unfolding backfill_chunks_from_revision
  fill-fresh after alone files =
      rw
        (
          follow-fresh alone,
          import_chunks-files fetch (list_chunks store 0) (seeded_node f s) after refl files,
        )
        (hear-stopped meanwhile (record (seeded_node f s) { db = after }) refl)

  load_pass-fresh :
      (after : Db)
      → needs_follow_stream s f.node_id ≡ false
      → import_files fetch (list_chunks store 0) (fresh_node f s).db ≡ (after, true)
      → load_pass (fresh_node f s) 1 none (calm_pass now rounds store fetch meanwhile)
        ≡ going (record (seeded_node f s) { db = after })
  unfolding load_pass
  load_pass-fresh after alone files = rw prepare-fresh (fill-fresh after alone files)

  complete-fresh :
      (after : Db)
      → needs_follow_stream s f.node_id ≡ false
      → complete (record (seeded_node f s) { db = after }) false ≡ going (loaded_node f s after)
  unfolding complete needs_follow_stream set_health valid_health_transition valid_health_transitions
  complete-fresh after alone = simp alone refl

  -- A load in which no call of the first pass fails, of a node that is loading over an empty database,
  -- follows no other and has no snapshot: if the files go in one after the other, and leave a table
  -- whose count of rows is its latest revision, the load ends, and the node has this table, is Healthy,
  -- and has the latest revision of the table as its committed revision.
  pub load_node-fresh :
      (passes : ℕ → Pass) (later : List Heard) (after : Db)
      → passes 1 ≡ calm_pass now rounds store fetch meanwhile
      → needs_follow_stream s f.node_id ≡ false
      → import_files fetch (list_chunks store 0) (fresh_node f s).db ≡ (after, true)
      → verify_integrity after ≡ ok tt
      → load_node none passes later false (fresh_node f s) ≡ going (loaded_node f s after)
  unfolding load_node load_attempts
  load_node-fresh passes later after calm alone files whole =
      rw
        (
          calm,
          load_pass-fresh after alone files,
          whole,
          hear-stopped later (record (seeded_node f s) { db = after }) refl,
        )
        (complete-fresh after alone)
