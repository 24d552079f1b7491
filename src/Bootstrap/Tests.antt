-- ===== src/Bootstrap/Tests.antt =====
-- A node that registers at the third attempt, and loads two chunks at its second.
use netsy.Base.{
  ℕ, suc, zero, sort_by, bytes_equal, ltb, ◌==◌, if◌then◌else◌, ◌≡◌, refl, false, Option, none,
  some, List, [], ◌∷◌,
}
use netsy.NodeState.{new_state}
use netsy.LocalDb.{Record, Db, insert_row, unique_conflict, verify_integrity, latest_revision}
use netsy.LocalDb.Compact.{max_compaction, first_uncompacted}
use netsy.LocalDb.Sample.{first_a, second_a}
use netsy.Datastore.{list_chunks, Chunk, marshal_chunk}
use netsy.Replication.{Follower, new_follower}
use netsy.Bootstrap.{Step, going, needs_follow_stream, Seeding, Preparing}
use netsy.Bootstrap.Register.{
  Registration, Attempt, registered, register_with_elector, register_loop,
}
use netsy.Bootstrap.RegisterLaws.{IsResult, register-IsResult}
use netsy.Bootstrap.Load.{Fetch, Pass, load_node}
use netsy.Bootstrap.LoadLaws.{OnGoing}
use netsy.Bootstrap.FreshLaws.{import_files, calm_pass, fresh_node, loaded_node, load_node-fresh}
use netsy.Bootstrap.ReadyLaws.{IsReady, load_node-IsReady}

abbrev answer : Registration
answer = record { member_id = 7; cluster_state = none }

-- No client, no answer, and an answer.
abbrev meets : ℕ → Attempt
meets n = record {
  connected = ltb 1 n;
  answer = if ltb 2 n then some answer else none;
  cancelled = false;
}

third_time : register_with_elector 3 meets ≡ some (registered answer (1000 ∷ 500 ∷ []))
unfolding register_loop
third_time = refl

register-IsResult_example : IsResult meets (register_with_elector (suc (suc (suc zero))) meets)
register-IsResult_example = register-IsResult 0 meets

abbrev seeding : Seeding
seeding = record { now = 9; read_fails = false; derive_fails = false; persist_fails = false }

abbrev preparing : Preparing
preparing = record {
  first_seeding = seeding;
  count_fails = false;
  latest_fails = false;
  import_now = 9;
  download_fails = false;
  second_seeding = seeding;
}

abbrev fetch : ℕ → Fetch
fetch revision = record { meanwhile = []; now = revision; download_fails = false }

abbrev pass : List Chunk → Pass
pass store = record {
  truncate_records_fails = false;
  truncate_compactions_fails = false;
  preparing = preparing;
  rounds = [];
  seeding = seeding;
  store = store;
  list_fails = false;
  fetch = fetch;
  meanwhile = [];
  verify_fails = false;
}

-- At the first attempt the first chunk is not listed yet.
abbrev passes : ℕ → Pass
passes attempt =
    if attempt == 1
    then pass (marshal_chunk second_a 5 ∷ [])
    else pass (marshal_chunk second_a 5 ∷ marshal_chunk first_a 4 ∷ [])

abbrev node : Follower
node =
    new_follower "n1" new_state (record { records = []; compactions = [] })
      (record { watchers = []; watch_admission_floor = 0; pending = []; closed = [] })

-- The revisions of the table and the committed revision, or nothing if the load fails.
abbrev revisions : List Record → List ℕ
revisions [] = []
revisions (r ∷ rs) = r.revision ∷ revisions rs

abbrev outcome : Step → Option (List ℕ × ℕ)
outcome (going f) = some (revisions f.db.records, f.state.committed)
outcome _ = none

loads_at_second : outcome (load_node none passes [] false node) ≡ some (2 ∷ 1 ∷ [], 2)
unfolding load_node new_follower new_state max_compaction first_uncompacted sort_by insert_row
    unique_conflict bytes_equal
loads_at_second = refl

load_node-IsReady_example :
    OnGoing (IsReady none passes [] node) (load_node none passes [] false node)
unfolding new_follower
load_node-IsReady_example = load_node-IsReady none passes [] false node (tt, tt)

abbrev two_chunks : List Chunk
two_chunks = marshal_chunk second_a 5 ∷ marshal_chunk first_a 4 ∷ []

abbrev loaded : Db
loaded = record {
  records =
      record second_a { replicated_at = some 2 } ∷ record first_a { replicated_at = some 1 } ∷ [];
  compactions = [];
}

load_node-fresh_example :
    load_node none
      (λ attempt. calm_pass 9 [] two_chunks fetch [])
      []
      false
      (fresh_node node new_state)
    ≡ going (loaded_node node new_state loaded)
unfolding new_follower new_state import_files sort_by insert_row unique_conflict bytes_equal
    verify_integrity latest_revision needs_follow_stream list_chunks
load_node-fresh_example =
    load_node-fresh node new_state 9 [] two_chunks fetch []
      (λ attempt. calm_pass 9 [] two_chunks fetch []) [] loaded refl refl refl refl
