-- ===== src/Primary/PreflightLoop.antt =====
-- `runPreflight`: passes until one succeeds or the node is no longer Starting.
use netsy.Base.{
  ◌≡◌, refl, ap, ◌++◌, ◌∙◌, Bool, true, false, none, some, List, [], ◌∷◌, arith, All, inl, inr,
  Bool-cases, if◌then◌else◌, not,
}
use std.Path.{subst}
use netsy.NodeState.{State, PrimaryState, starting, active, primary_eq, set_primary}
use netsy.LocalDb.Latest.{IsWellFormed}
use netsy.Datastore.{Chunk}
use netsy.Datastore.ImportLaws.{IsFaithful}
use netsy.Primary.LeaderTxn.{Server}
use netsy.Primary.Preflight.{
  Pass, PreflightError, canceled, preflight_stopped, Outcome, run_preflight_pass,
}
use netsy.Primary.PreflightSteps.{ChunksOk}
use netsy.Primary.PreflightLaws.{Ready, OnPass, pass-OnPass}

-- A round of the loop: the pass, whether the context is done in the delay after it, and what
-- other nodes make of the objects before it, and other handlers of the Primary State meanwhile.
pub record Round : Type 0 where
  pub pass : Pass
  pub done_in_delay : Bool
  pub left : PrimaryState → PrimaryState
  pub others : List Chunk → List Chunk

-- errors.Is(err, context.Canceled) or errors.Is(err, errPreflightStopped)
abbrev pub ends_loop : PreflightError → Bool
ends_loop canceled = true
ends_loop preflight_stopped = true
ends_loop _ = false

-- The loop goes on, or it has returned, and whether the last pass has succeeded.
pub data Loop : Type 0 where
  retrying : Server → List Chunk → Loop
  returned : (ready : Bool) → Server → List Chunk → Loop

abbrev pub with_primary : Server → PrimaryState → Server
with_primary ps s = record ps { state = record ps.state { primary = s } }

-- `SetPrimary(active)`; its error is only logged.
abbrev pub activated : Server → Server
activated ps = record ps { state = (set_primary ps.state active).0 }

unfoldable pub after_pass : Round → Outcome → Loop
unfolding set_primary
after_pass r (ps, objects, none) =
    returned true (activated (with_primary ps (r.left ps.state.primary))) objects
after_pass r (ps, objects, some e) =
    let qs = with_primary ps (r.left ps.state.primary) in
    if ends_loop e
    then returned false qs objects
    else if r.done_in_delay
    then returned false qs objects
    else retrying qs objects

module _ (same : Chunk → Chunk → Bool) where
  unfoldable pub preflight_round : Round → Server → List Chunk → Loop
  unfolding after_pass run_preflight_pass
  preflight_round r ps objects =
      if not (primary_eq ps.state.primary starting)
      then returned false ps objects
      else after_pass r (run_preflight_pass same r.pass ps (r.others objects))

  unfoldable pub run_preflight : Loop → List Round → Loop
  unfolding preflight_round
  run_preflight loop [] = loop
  run_preflight (retrying ps objects) (r ∷ rs) = run_preflight (preflight_round r ps objects) rs
  run_preflight (returned ready ps objects) (r ∷ rs) = returned ready ps objects

-- `SetPrimary` leaves the revisions alone.
set_primary-revisions :
    (s : State) (to : PrimaryState)
    → ((set_primary s to).0.committed ≡ s.committed)
      × ((set_primary s to).0.compaction ≡ s.compaction)
unfolding set_primary
set_primary-revisions s to = ground arith

activated-Ready :
    (p : Pass) (found : List Chunk) (qs : Server) (objects' : List Chunk) (s : PrimaryState)
    → Ready p found qs objects'
    → Ready p found (activated (with_primary qs s)) objects'
activated-Ready p found qs objects' s h =
    let same = set_primary-revisions (record qs.state { primary = s }) active in
    record {
      consistent = record {
        well_formed = h.consistent.well_formed;
        next_is = h.consistent.next_is;
        committed_le = rw (same.0) (h.consistent.committed_le);
      };
      all_committed = same.0 ∙ h.all_committed;
      compaction_known = same.1 ∙ h.compaction_known;
      durable = h.durable;
      from = h.from;
      rows = h.rows;
    }

module _ (same : Chunk → Chunk → Bool) where
  -- The loop has come through rounds that it retried to a round whose pass has succeeded; what this
  -- pass has made of the Primary, and of the objects that it found, is ready, and is left.
  pub record WasReady (ps : Server) (objects : List Chunk) (rounds : List Round) (qs : Server)
      (objects' : List Chunk) : Type 0 where
    pub before : List Round
    pub round : Round
    pub after : List Round
    pub parts : rounds ≡ before ++ round ∷ after
    pub here : Server
    pub there : List Chunk
    pub retried : run_preflight same (retrying ps objects) before ≡ retrying here there
    pub left : Server
    pub passed :
        run_preflight_pass same round.pass here (round.others there) ≡ (left, objects', none)
    pub activates : qs ≡ activated (with_primary left (round.left left.state.primary))
    pub reached : Ready round.pass (round.others there) qs objects'

  -- A round that ends the loop well, and one that goes on.
  abbrev OnRound : Round → Server → List Chunk → Loop → Type 0
  OnRound r ps objects (retrying qs objects') = IsWellFormed qs.db.records
  OnRound r ps objects (returned true qs objects') =
      (left : Server) × (run_preflight_pass same r.pass ps (r.others objects)
        ≡ (left, objects', none))
      × (qs ≡ activated (with_primary left (r.left left.state.primary)))
      × Ready r.pass (r.others objects) qs objects'
  OnRound r ps objects (returned false qs objects') = Unit

  after_pass-OnRound :
      (r : Round) (ps : Server) (objects : List Chunk) (out : Outcome)
      → run_preflight_pass same r.pass ps (r.others objects) ≡ out
      → OnPass r.pass (r.others objects) out
      → OnRound r ps objects (after_pass r out)
  unfolding after_pass
  after_pass-OnRound r ps objects (qs, objects', none) e h =
      (qs, e, refl, activated-Ready r.pass (r.others objects) qs objects' _ h)
  after_pass-OnRound r ps objects (qs, objects', some e) is h = elim (Bool-cases (ends_loop e)) [
    | inl ends ↦ simp ends tt
    | inr again ↦ elim (Bool-cases r.done_in_delay) [
      | inl over ↦ simp (again, over) tt
      | inr waits ↦ simp (again, waits) h
    ]
  ]

module _ (same : Chunk → Chunk → Bool) (faithful : IsFaithful same) where
  round-OnRound :
      (r : Round) (ps : Server) (objects : List Chunk)
      → IsWellFormed ps.db.records
      → ChunksOk (r.others objects)
      → OnRound same r ps objects (preflight_round same r ps objects)
  unfolding preflight_round
  round-OnRound r ps objects w good = elim (Bool-cases (primary_eq ps.state.primary starting)) [
    | inr e ↦ simp e tt
    | inl e ↦ simp e (
        after_pass-OnRound same r ps objects _ refl
          (pass-OnPass same faithful r.pass (r.others objects) ps w good))
  ]

  abbrev pub FindsOk : Round → Type 0
  FindsOk r = (objects : List Chunk) → ChunksOk (r.others objects)

  abbrev IsEnd : Server → List Chunk → List Round → Loop → Type 0
  IsEnd ps objects rounds (retrying qs objects') = Unit
  IsEnd ps objects rounds (returned true qs objects') = WasReady same ps objects rounds qs objects'
  IsEnd ps objects rounds (returned false qs objects') = Unit

  returned_stays :
      (ready : Bool) (qs : Server) (objects : List Chunk) (rs : List Round)
      → returned ready qs objects ≡ run_preflight same (returned ready qs objects) rs
  unfolding run_preflight
  returned_stays ready qs objects [] = refl
  returned_stays ready qs objects (r ∷ rs) = refl

  not_ready :
      (ps : Server) (objects : List Chunk) (qs : Server) (objects' : List Chunk)
      → ¬ (returned false ps objects ≡ returned true qs objects')
  not_ready ps objects qs objects' h = cc

  still_retrying :
      (ps : Server) (objects : List Chunk) (qs : Server) (objects' : List Chunk)
      → ¬ (retrying ps objects ≡ returned true qs objects')
  still_retrying ps objects qs objects' h = cc

  -- The rounds that are left after one.
  after_round :
      (r : Round) (rs : List Round) (ps : Server) (objects : List Chunk) (loop : Loop) (qs : Server)
      (objects' : List Chunk)
      → preflight_round same r ps objects ≡ loop
      → OnRound same r ps objects loop
      → run_preflight same loop rs ≡ returned true qs objects'
      → ((ps' : Server) (mid : List Chunk)
          → IsWellFormed ps'.db.records
          → run_preflight same (retrying ps' mid) rs ≡ returned true qs objects'
          → WasReady same ps' mid rs qs objects')
      → WasReady same ps objects (r ∷ rs) qs objects'
  unfolding run_preflight
  after_round r rs ps objects (retrying ps' mid) qs objects' e w h ih =
      let later = ih ps' mid w h in
      record {
        before = r ∷ later.before;
        round = later.round;
        after = later.after;
        parts = ap (◌∷◌ r) later.parts;
        here = later.here;
        there = later.there;
        retried = rw e later.retried;
        left = later.left;
        passed = later.passed;
        activates = later.activates;
        reached = later.reached;
      }
  after_round r rs ps objects (returned true qs' mid) qs objects' e w h ih =
      let done : returned true qs' mid ≡ returned true qs objects' =
        returned_stays true qs' mid rs ∙ h in
      subst (λ l. IsEnd ps objects (r ∷ rs) l) done
        (record {
          before = [];
          round = r;
          after = rs;
          parts = refl;
          here = ps;
          there = objects;
          retried = refl;
          left = w.0;
          passed = w.1;
          activates = w.2;
          reached = w.3;
        })
  after_round r rs ps objects (returned false qs' mid) qs objects' e w h ih =
      absurd (not_ready qs' mid qs objects' (returned_stays false qs' mid rs ∙ h))

  -- However many passes fail, and whatever they have imported and uploaded before, and whatever other
  -- nodes have put into object storage, over a well-formed table and chunks with rows such as a
  -- Primary writes, and with files of equal bytes being of equal content: once the preflight has
  -- returned as ready, the rounds are some that it retried, and then one whose pass, over the Primary and the objects that these left, has
  -- succeeded. The Primary is consistent and has committed all of its rows; each row is at or below the
  -- latest snapshot's revision in this round or that of a chunk that the pass found, or an object of
  -- its own in the storage that the pass left holds it.
  pub run_preflight-WasReady :
      (ps qs : Server) (objects objects' : List Chunk) (rounds : List Round)
      → IsWellFormed ps.db.records
      → All FindsOk rounds
      → run_preflight same (retrying ps objects) rounds ≡ returned true qs objects'
      → WasReady same ps objects rounds qs objects'
  unfolding run_preflight
  run_preflight-WasReady ps qs objects objects' [] w good h =
      absurd (still_retrying ps objects qs objects' h)
  run_preflight-WasReady ps qs objects objects' (r ∷ rs) w good h =
      after_round r rs ps objects _ qs objects' refl (round-OnRound r ps objects w (good.0 objects))
        h (λ ps' mid w' h'. run_preflight-WasReady ps' qs mid objects' rs w' good.1 h')
