-- ===== src/Bootstrap/Load.antt =====
-- `Run` of internal/bootstrap/loader.go behind the registration, and `backfillChunksFromRevision`.
-- The follower handles messages between the loader's steps, also between the check of the integrity
-- and the end, but not within the import of a file.
use netsy.Base.{
  ℕ, zero, suc, ◌+◌, Bool, true, false, Option, none, some, List, [], ◌∷◌, leb, ◌==◌, if◌then◌else◌,
}
use netsy.NodeState.{State, StateError, healthy, set_health, set_committed, set_compaction}
use netsy.LocalDb.{Db, Result, ok, err, sql_failed, latest_revision, verify_integrity}
use netsy.Watch.Manager.{reset_pending}
use netsy.Datastore.{Chunk, list_chunks, download_and_import_file}
use netsy.Replication.{Follower, PrimaryMessage, FollowError}
use netsy.Replication.Stream.{Outside, Handled, going as went, failed, panicked, handle}
use netsy.Replication.Lifecycle.{
  Round, Loop, looping, streaming, stopped, dead, require_initial, start, stop, run,
}
use netsy.Bootstrap.{
  Step, going, broken, blocked, crashed, and_then, Seeding, Preparing, Prepared, prepared,
  unprepared, prepare_local_state, needs_follow_stream, seed_compaction_from_primary,
  follow_stream_failed, seed_failed, list_chunks_failed, import_chunk_failed, truncate_failed,
  integrity_failed, latest_revision_failed, state_failed,
}

-- What the follower's loop does between two steps of the loader: it handles a message, or begins a
-- new stream.
pub data Heard : Type 0 where
  heard : PrimaryMessage → Outside → Heard
  reconnected : Heard

abbrev pub left : Handled → Option Follower
left (went f) = some f
left (failed f e) = some f
left panicked = none

abbrev pub hear_one : Follower → Heard → Option Follower
hear_one f (heard msg o) = left (handle f msg o)
hear_one f reconnected = some (record f { watch_manager = reset_pending f.watch_manager })

abbrev pub or_crashed : Option Follower → (Follower → Step) → Step
or_crashed none next = crashed
or_crashed (some f) next = next f

-- A follower that was stopped hears nothing.
unfoldable pub hear : List Heard → Follower → Step
unfolding handle
hear [] f = going f
hear (h ∷ hs) f = if f.cancel then or_crashed (hear_one f h) (hear hs) else going f

-- The wait of `Start` for the answer on its channel.
unfoldable pub lookup_answer :
    (ch : ℕ) → List (ℕ × Option FollowError) → Option (Option FollowError)
lookup_answer ch [] = none
lookup_answer ch ((c, e) ∷ rest) =
    let found = lookup_answer ch rest in if c == ch then some e else found

abbrev pub answer_step : Follower → Option (Option FollowError) → Step
answer_step f none = blocked f
answer_step f (some none) = going f
answer_step f (some (some e)) = broken f (follow_stream_failed e)

abbrev pub wait_for : Option ℕ → Follower → Step
wait_for none f = going f
wait_for (some ch) f = answer_step f (lookup_answer ch f.answers)

abbrev pub loop_step : Option ℕ → Loop → Step
loop_step ch (looping f pending) = wait_for ch f
loop_step ch (streaming f pending) = wait_for ch f
loop_step ch (stopped f pending) = wait_for ch f
loop_step ch dead = crashed

-- A loop that runs already is not started again.
abbrev pub after_start : List Round → Follower × Option ℕ × Bool → Step
after_start rounds (f, ch, true) = loop_step ch (run f rounds)
after_start rounds (f, ch, false) = wait_for ch f

unfoldable pub start_follower : Follower → List Round → Step
unfolding start run lookup_answer
start_follower f rounds = after_start rounds (start f)

-- What the import of a chunk meets.
pub record Fetch : Type 0 where
  pub meanwhile : List Heard
  pub now : ℕ
  pub download_fails : Bool

abbrev pub next_chunk : (Follower → Step) → Follower → Db × Bool → Step
next_chunk rest f (after, true) = rest (record f { db = after })
next_chunk rest f (after, false) = broken (record f { db = after }) import_chunk_failed

-- The loop over the chunks; `fetch` tells by the revision what an import meets.
unfoldable pub import_chunks : (fetch : ℕ → Fetch) → List Chunk → Follower → Step
unfolding hear download_and_import_file
import_chunks fetch [] f = going f
import_chunks fetch (c ∷ cs) f =
    let o = fetch c.revision in
    and_then (hear o.meanwhile f) (λ g.
      next_chunk (import_chunks fetch cs) g
        (download_and_import_file g.db c o.now o.download_fails))

-- What a pass of the backfill meets.
pub record Pass : Type 0 where
  pub truncate_records_fails : Bool
  pub truncate_compactions_fails : Bool
  pub preparing : Preparing
  pub rounds : List Round
  pub seeding : Seeding
  pub store : List Chunk
  pub list_fails : Bool
  pub fetch : ℕ → Fetch
  pub meanwhile : List Heard
  pub verify_fails : Bool

unfoldable pub backfill_chunks_from_revision : Follower → (from_revision : ℕ) → Pass → Step
unfolding list_chunks import_chunks
backfill_chunks_from_revision f from_revision o =
    if o.list_fails
    then broken f list_chunks_failed
    else import_chunks o.fetch (list_chunks o.store from_revision) f

abbrev pub seeded : Follower → Option Follower → Step
seeded f none = broken f seed_failed
seeded f (some g) = going g

-- The stream to a remote Primary, or none.
unfoldable pub follow_or_stop : Follower → Pass → Step
unfolding needs_follow_stream start_follower seed_compaction_from_primary stop
follow_or_stop f o =
    if needs_follow_stream f.state f.node_id
    then and_then (start_follower (require_initial f) o.rounds)
        (λ g. seeded g (seed_compaction_from_primary g o.seeding))
    else going (stop f)

abbrev pub fill : Pass → Prepared → Step
fill o (unprepared f e) = broken f e
fill o (prepared f from_revision) =
    and_then (follow_or_stop f o)
      (λ g. and_then (backfill_chunks_from_revision g from_revision o) (hear o.meanwhile))

-- The database is emptied and the revisions are reset; a failure leaves what was deleted.
unfoldable pub restart : Follower → Pass → Step
unfolding stop
restart f o =
    let g = stop f in
    let emptied = record g { db = record g.db { records = [] } } in
    if o.truncate_records_fails
    then broken g truncate_failed
    else if o.truncate_compactions_fails
    then broken emptied truncate_failed
    else going (record emptied {
      db = record { records = []; compactions = [] };
      state = set_compaction (set_committed g.state 0) 0;
    })

unfoldable pub load_pass : Follower → (attempt : ℕ) → Option Chunk → Pass → Step
unfolding restart prepare_local_state follow_or_stop backfill_chunks_from_revision hear
load_pass f attempt snapshot o =
    and_then (if leb attempt 1 then going f else restart f o)
      (λ g. fill o (prepare_local_state g snapshot o.preparing))

abbrev pub max_integrity_attempts : ℕ
max_integrity_attempts = 2

-- An error of the check is an error of the load in the last attempt, and else begins the next.
abbrev pub after_check :
    (again : Follower → Step) → (attempt : ℕ) → Follower → Result (Unit {0}) → Step
after_check again attempt f (ok done) = going f
after_check again attempt f (err e) =
    if attempt == max_integrity_attempts then broken f integrity_failed else again f

abbrev pub check : Follower → (verify_fails : Bool) → Result (Unit {0})
check f verify_fails = if verify_fails then err sql_failed else verify_integrity f.db

-- The attempts from one on, `more` of them behind it.
unfoldable pub load_attempts :
    (more attempt : ℕ) → Option Chunk → (passes : ℕ → Pass) → Follower → Step
unfolding load_pass verify_integrity
load_attempts zero attempt snapshot passes f =
    and_then (load_pass f attempt snapshot (passes attempt))
      (λ g. after_check going attempt g (check g (passes attempt).verify_fails))
load_attempts (suc more) attempt snapshot passes f =
    and_then (load_pass f attempt snapshot (passes attempt)) (λ g.
      after_check (load_attempts more (attempt + 1) snapshot passes) attempt g
        (check g (passes attempt).verify_fails))

abbrev pub became : Follower → State × Option StateError → Step
became f (s, none) = going (record f { state = s })
became f (s, some e) = broken (record f { state = s }) (state_failed e)

-- The end of `Run`: the committed revision of a node without a remote Primary, and its health.
unfoldable pub complete : Follower → (latest_fails : Bool) → Step
unfolding needs_follow_stream latest_revision set_health
complete f latest_fails =
    if needs_follow_stream f.state f.node_id
    then became f (set_health f.state healthy)
    else if latest_fails
    then broken f latest_revision_failed
    else became f (set_health (set_committed f.state (latest_revision f.db.records)) healthy)

-- The load of a node from its latest snapshot, which was found before, and the chunks. `later` is what
-- its follower does behind the check.
unfoldable pub load_node :
    Option Chunk
    → (passes : ℕ → Pass) → (later : List Heard) → (latest_fails : Bool) → Follower
    → Step
unfolding load_attempts hear complete
load_node snapshot passes later latest_fails f =
    and_then (load_attempts 1 1 snapshot passes f)
      (λ g. and_then (hear later g) (λ h. complete h latest_fails))
