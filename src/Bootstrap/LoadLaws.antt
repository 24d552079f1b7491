-- ===== src/Bootstrap/LoadLaws.antt =====
-- The table along the steps of a load (loader.go, backfill.go).
use netsy.Base.{ℕ, Bool, true, false, Option, none, some, List, [], ◌∷◌, if◌then◌else◌}
use netsy.LocalDb.{Db}
use netsy.LocalDb.Sound.{IsSound}
use netsy.Datastore.{Chunk, list_chunks}
use netsy.Replication.{Follower, FollowError}
use netsy.Replication.StreamLaws.{OnLeft}
use netsy.Replication.Stream.{Handled, going as went, failed, panicked, handle}
use netsy.Replication.Lifecycle.{
  Round, Loop, looping, streaming, stopped, dead, require_initial, start, stop, run,
}
use netsy.Replication.Sound.{HasSound, handle-HasSound}
use netsy.Replication.SoundLoop.{OnLoop, run-OnLoop_sound, start-HasSound, stop-HasSound}
use netsy.Bootstrap.{Step, going, broken, blocked, crashed, and_then, needs_follow_stream}
use netsy.Bootstrap.SoundLaws.{OnOption, download-IsSound, seed_primary-OnOption}
use netsy.Bootstrap.Load.{
  Heard, heard, reconnected, left, hear_one, or_crashed, hear, answer_step, wait_for, loop_step,
  after_start, start_follower, lookup_answer, Fetch, next_chunk, import_chunks, Pass,
  backfill_chunks_from_revision, seeded, follow_or_stop,
}

-- What holds of a loader that goes on.
abbrev pub OnGoing : (Follower → Type 0) → Step → Type 0
OnGoing P (going f) = P f
OnGoing P (broken f e) = Unit
OnGoing P (blocked f) = Unit
OnGoing P crashed = Unit

pub and_then-OnGoing :
    (P Q : Follower → Type 0) (s : Step) (next : Follower → Step)
    → OnGoing P s
    → ((f : Follower) → P f → OnGoing Q (next f))
    → OnGoing Q (and_then s next)
and_then-OnGoing P Q (going f) next h k = k f h
and_then-OnGoing P Q (broken f e) next h k = tt
and_then-OnGoing P Q (blocked f) next h k = tt
and_then-OnGoing P Q crashed next h k = tt

pub if-OnGoing :
    (P : Follower → Type 0) (b : Bool) (x y : Step)
    → OnGoing P x
    → OnGoing P y
    → OnGoing P (if b then x else y)
if-OnGoing P true x y h k = h
if-OnGoing P false x y h k = k

abbrev pub Sound : Step → Type 0
Sound = OnGoing HasSound

left-OnOption : (out : Handled) → OnLeft HasSound out → OnOption (left out)
left-OnOption (went f) w = w
left-OnOption (failed f e) w = w
left-OnOption panicked w = tt

hear_one-OnOption : (f : Follower) (h : Heard) → HasSound f → OnOption (hear_one f h)
hear_one-OnOption f (heard msg o) w = left-OnOption (handle f msg o) (handle-HasSound f msg o w)
hear_one-OnOption f reconnected w = w

or_crashed-Sound :
    (f : Option Follower) (next : Follower → Step)
    → OnOption f
    → ((g : Follower) → HasSound g → Sound (next g))
    → Sound (or_crashed f next)
or_crashed-Sound none next w k = tt
or_crashed-Sound (some f) next w k = k f w

pub hear-Sound : (hs : List Heard) (f : Follower) → HasSound f → Sound (hear hs f)
unfolding hear
hear-Sound [] f w = w
hear-Sound (h ∷ hs) f w =
    if-OnGoing HasSound f.cancel _ (going f)
      (or_crashed-Sound (hear_one f h) (hear hs) (hear_one-OnOption f h w) (hear-Sound hs)) w

-- The follower's start.
answer_step-Sound :
    (f : Follower) (answer : Option (Option FollowError))
    → HasSound f
    → Sound (answer_step f answer)
answer_step-Sound f none w = tt
answer_step-Sound f (some none) w = w
answer_step-Sound f (some (some e)) w = tt

wait_for-Sound : (ch : Option ℕ) (f : Follower) → HasSound f → Sound (wait_for ch f)
wait_for-Sound none f w = w
wait_for-Sound (some ch) f w = answer_step-Sound f (lookup_answer ch f.answers) w

loop_step-Sound : (ch : Option ℕ) (loop : Loop) → OnLoop loop → Sound (loop_step ch loop)
loop_step-Sound ch (looping f pending) w = wait_for-Sound ch f w
loop_step-Sound ch (streaming f pending) w = wait_for-Sound ch f w
loop_step-Sound ch (stopped f pending) w = wait_for-Sound ch f w
loop_step-Sound ch dead w = tt

after_start-Sound :
    (rounds : List Round) (out : Follower × Option ℕ × Bool)
    → HasSound out.0
    → Sound (after_start rounds out)
after_start-Sound rounds (f, ch, true) w =
    loop_step-Sound ch (run f rounds) (run-OnLoop_sound f rounds w)
after_start-Sound rounds (f, ch, false) w = wait_for-Sound ch f w

start_follower-Sound :
    (f : Follower) (rounds : List Round) → HasSound f → Sound (start_follower f rounds)
unfolding start_follower
start_follower-Sound f rounds w = after_start-Sound rounds (start f) (start-HasSound f w)

-- The chunks.
next_chunk-Sound :
    (rest : Follower → Step) (f : Follower) (out : Db × Bool)
    → IsSound out.0.records
    → ((g : Follower) → HasSound g → Sound (rest g))
    → Sound (next_chunk rest f out)
next_chunk-Sound rest f (after, true) w k = k _ w
next_chunk-Sound rest f (after, false) w k = tt

import_chunks-Sound :
    (fetch : ℕ → Fetch) (cs : List Chunk) (f : Follower)
    → HasSound f
    → Sound (import_chunks fetch cs f)
unfolding import_chunks
import_chunks-Sound fetch [] f w = w
import_chunks-Sound fetch (c ∷ cs) f w =
    let o = fetch c.revision in
    and_then-OnGoing HasSound HasSound (hear o.meanwhile f) _ (hear-Sound o.meanwhile f w) (λ g w'.
      next_chunk-Sound (import_chunks fetch cs) g _
        (download-IsSound g.db c o.now o.download_fails w') (import_chunks-Sound fetch cs))

pub backfill-Sound :
    (f : Follower) (from_revision : ℕ) (o : Pass)
    → HasSound f
    → Sound (backfill_chunks_from_revision f from_revision o)
unfolding backfill_chunks_from_revision
backfill-Sound f from_revision o w =
    if-OnGoing HasSound o.list_fails _ _ tt
      (import_chunks-Sound o.fetch (list_chunks o.store from_revision) f w)

seeded-Sound : (f : Follower) (out : Option Follower) → OnOption out → Sound (seeded f out)
seeded-Sound f none w = tt
seeded-Sound f (some g) w = w

pub follow_or_stop-Sound : (f : Follower) (o : Pass) → HasSound f → Sound (follow_or_stop f o)
unfolding follow_or_stop
follow_or_stop-Sound f o w =
    if-OnGoing HasSound (needs_follow_stream f.state f.node_id) _ (going (stop f))
      (and_then-OnGoing HasSound HasSound (start_follower (require_initial f) o.rounds) _
        (start_follower-Sound (require_initial f) o.rounds w)
        (λ g w'. seeded-Sound g _ (seed_primary-OnOption g o.seeding w')))
      (stop-HasSound f w)
