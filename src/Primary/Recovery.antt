-- ===== src/Primary/Recovery.antt =====
-- The background loop of `startObjectStorageRecovery` in internal/primary/leader_txn.go. Time spent in
-- a sleep is counted in seconds.
use netsy.Base.{
  ℕ, ◌*◌, ◌≤◌, ◌≡◌, refl, sym, ◌≢◌, Bool, Option, none, some, List, [], ◌∷◌, arith, All, inl, inr,
  ltb, Bool-cases, if◌then◌else◌,
}
use netsy.NodeState.{State, replica, set_primary}
use netsy.LocalDb.{Record}
use netsy.Datastore.{Chunk, find_chunk, marshal_chunk, put_if_absent}
use netsy.Datastore.ImportLaws.{IsFaithful}
use netsy.Primary.Preflight.{write_record_if_missing}

abbrev pub max_backoff : ℕ
max_backoff = 30

unfoldable pub next_backoff : ℕ → ℕ
next_backoff backoff =
    if ltb backoff max_backoff
    then (if ltb max_backoff (backoff * 2) then max_backoff else backoff * 2)
    else backoff

-- One upload: its time, which calls fail, and what other nodes have put there before it.
pub record Attempt : Type 0 where
  pub now : ℕ
  pub put_fails : Bool
  pub get_fails : Bool

-- `slept` holds the sleeps so far, the newest first.
pub data Recovery : Type 0 where
  retrying : (backoff : ℕ) → (slept : List ℕ) → List Chunk → Recovery
  resigned : State → (slept : List ℕ) → List Chunk → Recovery

abbrev pub after_attempt :
    State → (backoff : ℕ) → (slept : List ℕ) → List Chunk → Option (List Chunk) → Recovery
after_attempt s backoff slept objects (some written) =
    resigned (set_primary s replica).0 slept written
after_attempt s backoff slept objects none =
    retrying (next_backoff backoff) (backoff ∷ slept) objects

module _ (same : Chunk → Chunk → Bool) (s : State) (row : Record) where
  unfoldable pub run_recovery : Recovery → List Attempt → Recovery
  unfolding next_backoff set_primary put_if_absent
  run_recovery r [] = r
  run_recovery (retrying backoff slept objects) (a ∷ rest) =
      run_recovery
        (after_attempt s backoff slept objects
          (write_record_if_missing same objects row a.now a.put_fails a.get_fails))
        rest
  run_recovery (resigned s' slept objects) (a ∷ rest) = resigned s' slept objects

abbrev pub InBounds : ℕ → Type 0
InBounds n = (1 ≤ n) × (n ≤ max_backoff)

abbrev pub SleepsInBounds : Recovery → Type 0
SleepsInBounds (retrying backoff slept objects) = InBounds backoff × All InBounds slept
SleepsInBounds (resigned s slept objects) = All InBounds slept

next_backoff-InBounds : (n : ℕ) → InBounds n → InBounds (next_backoff n)
unfolding next_backoff
next_backoff-InBounds n h = ground arith

module _ (same : Chunk → Chunk → Bool) (s : State) (row : Record) where
  attempt-SleepsInBounds :
      (backoff : ℕ) (slept : List ℕ) (objects : List Chunk) (out : Option (List Chunk))
      → InBounds backoff
      → All InBounds slept
      → SleepsInBounds (after_attempt s backoff slept objects out)
  attempt-SleepsInBounds backoff slept objects (some written) b h = h
  attempt-SleepsInBounds backoff slept objects none b h = (next_backoff-InBounds backoff b, (b, h))

  recovery-SleepsInBounds :
      (attempts : List Attempt) (r : Recovery)
      → SleepsInBounds r
      → SleepsInBounds (run_recovery same s row r attempts)
  unfolding run_recovery
  recovery-SleepsInBounds [] r h = h
  recovery-SleepsInBounds (a ∷ rest) (retrying backoff slept objects) h =
      recovery-SleepsInBounds rest _ (attempt-SleepsInBounds backoff slept objects _ h.0 h.1)
  recovery-SleepsInBounds (a ∷ rest) (resigned s' slept objects) h = h

  -- However many uploads fail, the recovery sleeps at least one second and at most thirty between
  -- them.
  pub run_recovery_bounds :
      (objects : List Chunk) (attempts : List Attempt)
      → SleepsInBounds (run_recovery same s row (retrying 1 [] objects) attempts)
  run_recovery_bounds objects attempts =
      recovery-SleepsInBounds attempts (retrying 1 [] objects) (omega arith, tt)

  -- The recovery has not ended, and has written nothing.
  abbrev pub IsStuck : List Chunk → Recovery → Type 0
  IsStuck objects (retrying backoff slept now_there) = now_there ≡ objects
  IsStuck objects (resigned s' slept now_there) = ⊥

  module _ (faithful : IsFaithful same) (objects : List Chunk) (existing : Chunk)
      (there : find_chunk row.revision objects ≡ some existing) where
    write-refused :
        (a : Attempt)
        → a.now ≢ existing.created_at
        → write_record_if_missing same objects row a.now a.put_fails a.get_fails ≡ none
    unfolding put_if_absent
    write-refused a later = elim (Bool-cases (same existing (marshal_chunk row a.now))) [
      | inl e ↦ absurd (later (sym (faithful.times existing (marshal_chunk row a.now) e)))
      | inr e ↦ simp (there, e) (ground arith)
    ]

    retrying-IsStuck :
        (backoff : ℕ) (slept : List ℕ) (attempts : List Attempt)
        → All (λ (a : Attempt). a.now ≢ existing.created_at) attempts
        → IsStuck objects (run_recovery same s row (retrying backoff slept objects) attempts)
    unfolding run_recovery
    retrying-IsStuck backoff slept [] later = refl
    retrying-IsStuck backoff slept (a ∷ rest) later =
        rw (write-refused a later.0)
          (retrying-IsStuck (next_backoff backoff) (backoff ∷ slept) rest later.1)

    -- If an upload of the record has arrived and only its answer was lost, the recovery never ends:
    -- the file of each later attempt has another time in its header, so it is refused as different
    -- from the object that is there, whatever record that holds. The Primary neither writes nor
    -- resigns.
    pub run_recovery-IsStuck :
        (attempts : List Attempt)
        → All (λ (a : Attempt). a.now ≢ existing.created_at) attempts
        → IsStuck objects (run_recovery same s row (retrying 1 [] objects) attempts)
    run_recovery-IsStuck attempts later = retrying-IsStuck 1 [] attempts later
