-- ===== src/Bootstrap/ReadyLaws.antt =====
-- The end of a load (loader.go).
use netsy.Base.{
  ℕ, List, zero, suc, ◌≡◌, refl, Bool, true, false, Option, none, some, arith, leb, ◌==◌, ltb,
  if◌then◌else◌, Bool-cases, inl, inr,
}
use netsy.NodeState.{State, StateError, healthy, set_health, set_committed}
use netsy.LocalDb.{Db, Result, ok, err, latest_revision, record_count, verify_integrity}
use netsy.LocalDb.Sound.{IsSound, IsGapless, verify_integrity-IsGapless}
use netsy.Datastore.{Chunk}
use netsy.Replication.{Follower}
use netsy.Replication.Sound.{HasSound}
use netsy.Bootstrap.{
  Step, going, broken, blocked, crashed, Preparing, Prepared, prepared, unprepared,
  prepare_local_state, after_first_seed, after_import, after_second_seed, import_latest_snapshot,
  needs_follow_stream,
}
use netsy.Bootstrap.SoundLaws.{OnOption, download-IsSound, seed_local-OnOption}
use netsy.Bootstrap.Load.{
  Heard, hear, Pass, fill, restart, load_pass, follow_or_stop, backfill_chunks_from_revision,
  after_check, check, load_attempts, became, complete, load_node,
}
use netsy.Bootstrap.LoadLaws.{
  OnGoing, and_then-OnGoing, if-OnGoing, Sound, hear-Sound, follow_or_stop-Sound, backfill-Sound,
}

abbrev OnPrepared : Prepared → Type 0
OnPrepared (prepared f from_revision) = HasSound f
OnPrepared (unprepared f e) = Unit

after_second_seed-OnPrepared :
    (f : Follower) (snapshot : Option Chunk) (out : Option Follower)
    → OnOption out
    → OnPrepared (after_second_seed f snapshot out)
after_second_seed-OnPrepared f snapshot none w = tt
after_second_seed-OnPrepared f snapshot (some g) w = w

after_import-OnPrepared :
    (f : Follower) (snapshot : Option Chunk) (o : Preparing) (out : Db × Bool)
    → IsSound out.0.records
    → OnPrepared (after_import f snapshot o out)
after_import-OnPrepared f snapshot o (after, false) w = tt
after_import-OnPrepared f snapshot o (after, true) w =
    after_second_seed-OnPrepared (record f { db = after }) snapshot _
      (seed_local-OnOption (record f { db = after }) o.second_seeding w)

import_latest-IsSound :
    (db : Db) (snapshot : Option Chunk) (o : Preparing)
    → IsSound db.records
    → IsSound (import_latest_snapshot db snapshot o).0.records
unfolding import_latest_snapshot
import_latest-IsSound db none o w = w
import_latest-IsSound db (some snapshot) o w =
    download-IsSound db snapshot o.import_now o.download_fails w

if-OnPrepared :
    (b : Bool) (x y : Prepared) → OnPrepared x → OnPrepared y → OnPrepared (if b then x else y)
if-OnPrepared true x y h k = h
if-OnPrepared false x y h k = k

after_first_seed-OnPrepared :
    (f : Follower) (snapshot : Option Chunk) (o : Preparing) (out : Option Follower)
    → OnOption out
    → OnPrepared (after_first_seed f snapshot o out)
after_first_seed-OnPrepared f snapshot o none w = tt
after_first_seed-OnPrepared f snapshot o (some g) w = if-OnPrepared o.count_fails _ _ tt (
    if-OnPrepared (ltb 0 (record_count g.db.records)) _ _
      (if-OnPrepared o.latest_fails _ (prepared g (latest_revision g.db.records)) tt w)
      (after_import-OnPrepared g snapshot o _ (import_latest-IsSound g.db snapshot o w)))

prepare-OnPrepared :
    (f : Follower) (snapshot : Option Chunk) (o : Preparing)
    → HasSound f
    → OnPrepared (prepare_local_state f snapshot o)
unfolding prepare_local_state
prepare-OnPrepared f snapshot o w =
    after_first_seed-OnPrepared f snapshot o _ (seed_local-OnOption f o.first_seeding w)

fill-Sound : (o : Pass) (out : Prepared) → OnPrepared out → Sound (fill o out)
fill-Sound o (unprepared f e) w = tt
fill-Sound o (prepared f from_revision) w =
    and_then-OnGoing HasSound HasSound (follow_or_stop f o) _ (follow_or_stop-Sound f o w) (λ g w'.
      and_then-OnGoing HasSound HasSound (backfill_chunks_from_revision g from_revision o) _
        (backfill-Sound g from_revision o w') (hear-Sound o.meanwhile))

restart-Sound : (f : Follower) (o : Pass) → Sound (restart f o)
unfolding restart
restart-Sound f o =
    if-OnGoing HasSound o.truncate_records_fails _ _ tt
      (if-OnGoing HasSound o.truncate_compactions_fails _ _ tt (tt, tt))

load_pass-Sound :
    (f : Follower) (attempt : ℕ) (snapshot : Option Chunk) (o : Pass)
    → HasSound f
    → Sound (load_pass f attempt snapshot o)
unfolding load_pass
load_pass-Sound f attempt snapshot o w =
    and_then-OnGoing HasSound HasSound _ _
      (if-OnGoing HasSound (leb attempt 1) (going f) (restart f o) w (restart-Sound f o))
      (λ g w'. fill-Sound o _ (prepare-OnPrepared g snapshot o.preparing w'))

-- The check.
abbrev HasAll : Follower → Type 0
HasAll f = IsGapless f.db.records

check-ok : (f : Follower) (fails : Bool) → check f fails ≡ ok tt → verify_integrity f.db ≡ ok tt
check-ok f true h = cc
check-ok f false h = h

after_check-HasAll :
    (again : Follower → Step) (attempt : ℕ) (f : Follower) (fails : Bool) (out : Result (Unit {0}))
    → HasSound f
    → check f fails ≡ out
    → OnGoing HasAll (again f)
    → OnGoing HasAll (after_check again attempt f out)
after_check-HasAll again attempt f fails (ok done) w h k =
    verify_integrity-IsGapless f.db w (check-ok f fails h)
after_check-HasAll again attempt f fails (err e) w h k =
    if-OnGoing HasAll (attempt == 2) _ (again f) tt k

-- The check of the last attempt.
last_check-HasAll :
    (again : Follower → Step) (f : Follower) (fails : Bool) (out : Result (Unit {0}))
    → HasSound f
    → check f fails ≡ out
    → OnGoing HasAll (after_check again 2 f out)
last_check-HasAll again f fails (ok done) w h =
    verify_integrity-IsGapless f.db w (check-ok f fails h)
last_check-HasAll again f fails (err e) w h = tt

module _ (snapshot : Option Chunk) (passes : ℕ → Pass) where
  last_attempt-HasAll :
      (f : Follower) → HasSound f → OnGoing HasAll (load_attempts zero 2 snapshot passes f)
  unfolding load_attempts
  last_attempt-HasAll f w =
      and_then-OnGoing HasSound HasAll (load_pass f 2 snapshot (passes 2)) _
        (load_pass-Sound f 2 snapshot (passes 2) w)
        (λ g w'. last_check-HasAll going g (passes 2).verify_fails _ w' refl)

  load_attempts-HasAll :
      (f : Follower) → HasSound f → OnGoing HasAll (load_attempts (suc zero) 1 snapshot passes f)
  unfolding load_attempts
  load_attempts-HasAll f w =
      and_then-OnGoing HasSound HasAll (load_pass f 1 snapshot (passes 1)) _
        (load_pass-Sound f 1 snapshot (passes 1) w)
        (λ g w'.
          after_check-HasAll (load_attempts zero 2 snapshot passes) 1 g (passes 1).verify_fails _ w'
            refl (last_attempt-HasAll g w'))

-- The end.
set_health-healthy :
    (s s' : State) → set_health s healthy ≡ (s', none) → s' ≡ record s { health = healthy }
unfolding set_health
set_health-healthy s s' h = ground arith

-- The load has passed its check at a table with a row for every revision up to its latest; the node's
-- follower has handled what came later, and the node is Healthy, over the table that this has left. If
-- the node follows no other, the latest revision is its committed one.
pub record IsReady (snapshot : Option Chunk) (passes : ℕ → Pass) (later : List Heard)
    (start f : Follower) : Type 0 where
  pub checked : Follower
  pub loaded : load_attempts 1 1 snapshot passes start ≡ going checked
  pub rows : IsGapless checked.db.records
  pub last : Follower
  pub heard_later : hear later checked ≡ going last
  pub table : f.db ≡ last.db
  pub is_healthy : f.state.health ≡ healthy
  pub committed :
      needs_follow_stream f.state f.node_id ≡ false
      → f.state.committed ≡ latest_revision f.db.records

-- What the end of the load adds.
abbrev Completed : Follower → Follower → Type 0
Completed f g =
    (g.db ≡ f.db)
    × (g.state.health ≡ healthy)
    × (needs_follow_stream g.state g.node_id ≡ false
        → g.state.committed ≡ latest_revision g.db.records)

became-Completed :
    (f : Follower) (s : State) (out : State × Option StateError)
    → set_health s healthy ≡ out
    → s.cluster ≡ f.state.cluster
    → (needs_follow_stream f.state f.node_id ≡ false → s.committed ≡ latest_revision f.db.records)
    → OnGoing (Completed f) (became f out)
unfolding needs_follow_stream
became-Completed f s (s', some e) h same committed = tt
became-Completed f s (s', none) h same committed =
    let e = set_health-healthy s s' h in (refl, rw e refl, rw (e, same) committed)

complete-Completed :
    (f : Follower) (latest_fails : Bool) → OnGoing (Completed f) (complete f latest_fails)
unfolding complete
complete-Completed f latest_fails = elim (Bool-cases (needs_follow_stream f.state f.node_id)) [
  | inl e ↦ simp e (became-Completed f f.state _ refl refl (λ n. cc))
  | inr e ↦ simp e (
      if-OnGoing (Completed f) latest_fails _ _ tt (
        became-Completed f (set_committed f.state (latest_revision f.db.records)) _ refl refl
          (λ n. refl)))
]

-- A step that goes on, with what it was.
OnGoing-self :
    (P : Follower → Type 0) (s : Step) → OnGoing P s → OnGoing (λ f. P f × (s ≡ going f)) s
OnGoing-self P (going f) h = (h, refl)
OnGoing-self P (broken f e) h = tt
OnGoing-self P (blocked f) h = tt
OnGoing-self P crashed h = tt

-- Any step that goes on.
anything : (s : Step) → OnGoing (λ f. Unit) s
anything (going f) = tt
anything (broken f e) = tt
anything (blocked f) = tt
anything crashed = tt

OnGoing-imp :
    (P Q : Follower → Type 0) (s : Step) → ((f : Follower) → P f → Q f) → OnGoing P s → OnGoing Q s
OnGoing-imp P Q (going f) k h = k f h
OnGoing-imp P Q (broken f e) k h = tt
OnGoing-imp P Q (blocked f) k h = tt
OnGoing-imp P Q crashed k h = tt

-- A load whose table has positive revisions, each once, when it begins, and that ends without an
-- error, whatever its calls, the files and the messages of the Primary are: the table that its last
-- check has read has a row for each revision from 1 up to its latest. The node is Healthy, over that
-- table and what its follower has made of it by the messages that came behind the check; if the node
-- follows no other, the latest revision is its committed one.
pub load_node-IsReady :
    (snapshot : Option Chunk) (passes : ℕ → Pass) (later : List Heard) (latest_fails : Bool)
    (f : Follower)
    → IsSound f.db.records
    → OnGoing (IsReady snapshot passes later f) (load_node snapshot passes later latest_fails f)
unfolding load_node
load_node-IsReady snapshot passes later latest_fails f w =
    let load = load_attempts 1 1 snapshot passes f in
    let ready = IsReady snapshot passes later f in
    and_then-OnGoing (λ g. HasAll g × (load ≡ going g)) ready load _
      (OnGoing-self HasAll load (load_attempts-HasAll snapshot passes f w))
      (λ g all.
        and_then-OnGoing (λ h. Unit × (hear later g ≡ going h)) ready (hear later g) _
          (OnGoing-self (λ h. Unit) (hear later g) (anything (hear later g)))
          (λ h heard.
            OnGoing-imp (Completed h) ready (complete h latest_fails)
              (λ k end. record {
                checked = g;
                loaded = all.1;
                rows = all.0;
                last = h;
                heard_later = heard.1;
                table = end.0;
                is_healthy = end.1;
                committed = end.2;
              })
              (complete-Completed h latest_fails)))
