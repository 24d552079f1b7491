-- ===== src/Bootstrap.antt =====
-- internal/bootstrap: how a node is loaded. Here are its state, the outcomes of its steps, and the
-- local state that a load begins with (`prepareLocalState`, `importLatestSnapshot` and the seeds).
--
-- The follower shares the node's state and database with the loader, so the loader's state is the
-- `Follower`. A record of flags says which calls fail and what the time is.
pub mod Register
pub mod RegisterLaws
pub mod Load
pub mod SoundLaws
pub mod LoadLaws
pub mod ReadyLaws
pub mod FreshLaws
pub mod Tests
use netsy.Base.{
  ℕ, Bool, true, false, not, Option, none, some, List, [], ◌∷◌, ◌&&◌, ltb, ◌==◌, if◌then◌else◌,
  str_eq, String,
}
use netsy.NodeState.{State, StateError, set_compaction}
use netsy.LocalDb.{Db, latest_revision, record_count}
use netsy.LocalDb.Compact.{
  latest_compaction_revision, derive_compaction_revision, persist_compaction_revision,
}
use netsy.Datastore.{Chunk, download_and_import_file}
use netsy.Replication.{Follower, FollowError}
use netsy.Replication.Stream.{Outside, Handled}

pub data BootError : Type 0 where
  write_registration_failed register_failed elector_not_connected canceled : BootError
  cluster_state_failed list_snapshots_failed truncate_failed seed_failed : BootError
  count_failed latest_revision_failed import_snapshot_failed list_chunks_failed : BootError
  import_chunk_failed integrity_failed : BootError
  follow_stream_failed : FollowError → BootError
  state_failed : StateError → BootError

-- A step of the loader: what it goes on with, an error, a wait for an answer of the follower that
-- has not come, or a panic of the follower, which ends the process.
pub data Step : Type 0 where
  going : Follower → Step
  broken : Follower → BootError → Step
  blocked : Follower → Step
  crashed : Step

abbrev pub and_then : Step → (Follower → Step) → Step
and_then (going f) next = next f
and_then (broken f e) next = broken f e
and_then (blocked f) next = blocked f
and_then crashed next = crashed

pub record Seeding : Type 0 where
  pub now : ℕ
  pub read_fails : Bool
  pub derive_fails : Bool
  pub persist_fails : Bool

-- A revision of zero is not written, so the write cannot fail.
abbrev pub persist_derived : Follower → (derived : ℕ) → Seeding → Option Follower
persist_derived f derived o =
    if o.persist_fails && not (derived == 0)
    then none
    else some (record f {
      db = persist_compaction_revision f.db derived o.now;
      state = set_compaction f.state derived;
    })

unfoldable pub seed_compaction_from_local_db : Follower → Seeding → Option Follower
unfolding derive_compaction_revision persist_compaction_revision
seed_compaction_from_local_db f o =
    let current = latest_compaction_revision f.db in
    if o.read_fails
    then none
    else if ltb 0 current
    then some (record f { state = set_compaction f.state current })
    else if o.derive_fails
    then none
    else persist_derived f (derive_compaction_revision f.db) o

unfoldable pub seed_compaction_from_primary : Follower → Seeding → Option Follower
unfolding persist_compaction_revision
seed_compaction_from_primary f o =
    if o.read_fails
    then none
    else if not (latest_compaction_revision f.db == 0)
    then some f
    else if f.state.compaction == 0
    then some f
    else if o.persist_fails
    then none
    else some (record f { db = persist_compaction_revision f.db f.state.compaction o.now })

-- What a call of `prepareLocalState` meets.
pub record Preparing : Type 0 where
  pub first_seeding : Seeding
  pub count_fails : Bool
  pub latest_fails : Bool
  pub import_now : ℕ
  pub download_fails : Bool
  pub second_seeding : Seeding

-- `importLatestSnapshot`: the database, and whether all went in. No snapshot is `none`.
unfoldable pub import_latest_snapshot : Db → Option Chunk → Preparing → Db × Bool
unfolding download_and_import_file
import_latest_snapshot db none o = (db, true)
import_latest_snapshot db (some snapshot) o =
    download_and_import_file db snapshot o.import_now o.download_fails

-- The state to go on with and the first revision above which chunks are missing, or an error.
pub data Prepared : Type 0 where
  prepared : Follower → (backfill_from : ℕ) → Prepared
  unprepared : Follower → BootError → Prepared

abbrev pub snapshot_revision : Option Chunk → ℕ
snapshot_revision none = 0
snapshot_revision (some snapshot) = snapshot.revision

abbrev pub after_second_seed : Follower → Option Chunk → Option Follower → Prepared
after_second_seed f snapshot none = unprepared f seed_failed
after_second_seed f snapshot (some g) = prepared g (snapshot_revision snapshot)

abbrev pub after_import : Follower → Option Chunk → Preparing → Db × Bool → Prepared
after_import f snapshot o (after, false) =
    unprepared (record f { db = after }) import_snapshot_failed
after_import f snapshot o (after, true) =
    after_second_seed (record f { db = after }) snapshot
      (seed_compaction_from_local_db (record f { db = after }) o.second_seeding)

abbrev pub after_first_seed : Follower → Option Chunk → Preparing → Option Follower → Prepared
after_first_seed f snapshot o none = unprepared f seed_failed
after_first_seed f snapshot o (some g) =
    if o.count_fails
    then unprepared g count_failed
    else if ltb 0 (record_count g.db.records)
    then if o.latest_fails
      then unprepared g latest_revision_failed
      else prepared g (latest_revision g.db.records)
    else after_import g snapshot o (import_latest_snapshot g.db snapshot o)

unfoldable pub prepare_local_state : Follower → Option Chunk → Preparing → Prepared
unfolding seed_compaction_from_local_db import_latest_snapshot latest_revision
prepare_local_state f snapshot o =
    after_first_seed f snapshot o (seed_compaction_from_local_db f o.first_seeding)

unfoldable pub needs_follow_stream : State → (node_id : String) → Bool
needs_follow_stream s node_id =
    not (str_eq s.cluster.primary.node_id "") && not (str_eq s.cluster.primary.node_id node_id)
