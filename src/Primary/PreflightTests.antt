-- ===== src/Primary/PreflightTests.antt =====
-- The preflight and the object storage recovery at concrete states.
use netsy.Base.{
  ℕ, ◌≡◌, refl, Bool, true, false, none, List, [], ◌∷◌, arith, bytes_equal, length, sort_by,
}
use netsy.NodeState.{starting, draining, new_state}
use netsy.LocalDb.{insert_row, unique_conflict}
use netsy.LocalDb.Sample.{first_a, db-IsWellFormed}
use netsy.LocalDb.Latest.{RowOk}
use netsy.LocalDb.Compact.{max_compaction}
use netsy.Datastore.{Chunk, find_chunk}
use netsy.Datastore.ImportLaws.{IsFaithful}
use netsy.Primary.LeaderTxn.{Server}
use netsy.Primary.Sample.{server}
use netsy.Primary.Preflight.{Pass, undisturbed, Outcome, run_preflight_pass}
use netsy.Primary.PreflightSteps.{ChunksOk}
use netsy.Primary.PreflightLoop.{
  Round, Loop, retrying, returned, WasReady, run_preflight, run_preflight-WasReady,
}
use netsy.Primary.Recovery.{
  Attempt, SleepsInBounds, IsStuck, run_recovery, run_recovery_bounds, run_recovery-IsStuck,
}
use netsy.Primary.Recovery as Recovery

-- The comparison of two files: equal bytes have equal times and revisions. None are equal here.
abbrev never : Chunk → Chunk → Bool
never a b = false

never-IsFaithful : IsFaithful never
never-IsFaithful = record { times = λ a b e. cc; contents = λ a b e. cc }

abbrev elected : Server
elected = record server { state = record new_state { primary = starting }; next_revision_id = 0 }

-- Object storage has a chunk of the first revision.
abbrev stored : List Chunk
stored = record { revision = 1; records = first_a ∷ []; readable = true; created_at = 4 } ∷ []

first_a-RowOk : RowOk first_a
first_a-RowOk = record {
  positive = omega arith;
  prev_older = omega arith;
  create_le = omega arith;
  tombstone_version = λ e. cc;
}

stored-ChunksOk : ChunksOk stored
stored-ChunksOk = ((first_a-RowOk, tt), tt)

abbrev smooth : Pass
smooth = record {
  now = 20;
  latest_snapshot = none;
  read_fails = false;
  snapshot_fails = false;
  list_fails = false;
  at_chunk = λ rev. undisturbed;
  download_fails = λ rev. false;
  insert_fails = false;
  find_fails = false;
  at_record = λ rev. undisturbed;
  put_fails = λ rev. false;
  get_fails = λ rev. false;
  read_compaction_fails = false;
  derive_fails = false;
  persist_fails = false;
  read_latest_fails = false;
}

abbrev outcome : Outcome
outcome = run_preflight_pass never smooth elected stored

-- The first pass cannot upload the second record, the second one can.
abbrev rounds : List Round
rounds =
    record {
      pass = record smooth { put_fails = λ rev. true };
      done_in_delay = false;
      left = λ s. s;
      others = λ objects. stored;
    }
    ∷ record { pass = smooth; done_in_delay = false; left = λ s. s; others = λ objects. stored }
    ∷ []

abbrev final : Loop
final = run_preflight never (retrying elected stored) rounds

abbrev server_of : Loop → Server
server_of (retrying ps objects) = ps
server_of (returned ready ps objects) = ps

abbrev objects_of : Loop → List Chunk
objects_of (retrying ps objects) = objects
objects_of (returned ready ps objects) = objects

run_preflight-WasReady_example :
    WasReady never elected stored rounds (server_of final) (objects_of final)
unfolding run_preflight sort_by insert_row unique_conflict bytes_equal max_compaction
run_preflight-WasReady_example =
    run_preflight-WasReady never never-IsFaithful elected (server_of final) stored
      (objects_of final) rounds db-IsWellFormed
      ((λ objects. stored-ChunksOk), ((λ objects. stored-ChunksOk), tt)) refl

-- The preflight has uploaded the second record beside the first.
upload_run : length (objects_of final) ≡ 2
unfolding run_preflight sort_by insert_row unique_conflict bytes_equal max_compaction
upload_run = refl

abbrev attempt : (now : ℕ) → Attempt
attempt now = record { now = now; put_fails = false; get_fails = false }

run_recovery_bounds_example : SleepsInBounds (
    run_recovery never
      (record new_state { primary = draining })
      first_a
      (Recovery.retrying 1 [] stored)
      (attempt 30 ∷ attempt 40 ∷ []))
run_recovery_bounds_example =
    run_recovery_bounds never (record new_state { primary = draining }) first_a stored
      (attempt 30 ∷ attempt 40 ∷ [])

run_recovery-IsStuck_example :
    IsStuck never
      (record new_state { primary = draining })
      first_a
      stored
      (run_recovery never
        (record new_state { primary = draining })
        first_a
        (Recovery.retrying 1 [] stored)
        (attempt 30 ∷ attempt 40 ∷ []))
unfolding find_chunk
run_recovery-IsStuck_example =
    run_recovery-IsStuck never (record new_state { primary = draining }) first_a never-IsFaithful
      stored (record { revision = 1; records = first_a ∷ []; readable = true; created_at = 4 }) refl
      (attempt 30 ∷ attempt 40 ∷ []) (ground arith, (ground arith, tt))
