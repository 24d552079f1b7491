-- ===== src/Replication/LagLaws.antt =====
-- At most one lag check of a Replica is live, and it is the one that the follower can cancel.
use netsy.Base.{
  ℕ, ◌≡◌, refl, Bool, true, false, Option, none, some, List, [], ◌∷◌, arith, ◌⊎◌, inl, inr, leb,
  ltb, ◌==◌, Bool-cases,
}
use netsy.LocalDb.{latest_revision}
use netsy.Replication.{Follower, LagCheck}
use netsy.Replication.Degradation.{
  degrade_self, cancel_check, cancel_armed, cancel_committed_revision_lag_check, arm_lag_check,
  schedule_committed_revision_lag_check, clear_committed_revision_lag_check, without_check,
  fire_lag_check,
}

-- What happens to the checks: a commit message on a Healthy node, the end of the follower, and a
-- timer that fires.
pub data LagEvent : Type 0 where
  committed : (revision : ℕ) → (read_fails : Bool) → LagEvent
  stopped : LagEvent
  fired : LagCheck → (read_fails : Bool) → LagEvent

unfoldable pub lag_step : Follower → LagEvent → Follower
unfolding schedule_committed_revision_lag_check cancel_committed_revision_lag_check fire_lag_check
lag_step f (committed revision fails) = schedule_committed_revision_lag_check f revision fails
lag_step f stopped = cancel_committed_revision_lag_check f
lag_step f (fired c fails) = fire_lag_check f c fails

unfoldable pub lag_run : Follower → List LagEvent → Follower
unfolding lag_step
lag_run f [] = f
lag_run f (e ∷ es) = lag_run (lag_step f e) es

abbrev pub NoneLive : List LagCheck → Type 0
NoneLive [] = Unit
NoneLive (c ∷ cs) = (c.live ≡ false) × NoneLive cs

-- At most one check is live, and it has the number `seq`.
abbrev pub OneLive : ℕ → List LagCheck → Type 0
OneLive seq [] = Unit
OneLive seq (c ∷ cs) = ((c.live ≡ false) × OneLive seq cs) ⊎ ((c.check_seq ≡ seq) × NoneLive cs)

abbrev pub ArmedBy : Option ℕ → ℕ → List LagCheck → Type 0
ArmedBy none seq cs = NoneLive cs
ArmedBy (some s) seq cs = (s ≡ seq) × OneLive s cs

abbrev pub IsArmed : Follower → Type 0
IsArmed f = ArmedBy f.lag_check_cancel f.lag_check_seq f.lag_checks

none_one : (seq : ℕ) (cs : List LagCheck) → NoneLive cs → OneLive seq cs
none_one seq [] h = tt
none_one seq (c ∷ cs) h = inl (h.0, none_one seq cs h.1)

cancel-NoneLive : (seq : ℕ) (cs : List LagCheck) → NoneLive cs → NoneLive (cancel_check seq cs)
unfolding cancel_check
cancel-NoneLive seq [] h = tt
cancel-NoneLive seq (c ∷ cs) h = (let dead = h.0 in ground arith, cancel-NoneLive seq cs h.1)

cancel-OneLive : (seq : ℕ) (cs : List LagCheck) → OneLive seq cs → NoneLive (cancel_check seq cs)
unfolding cancel_check
cancel-OneLive seq [] h = tt
cancel-OneLive seq (c ∷ cs) (inl (dead, h)) = (ground arith, cancel-OneLive seq cs h)
cancel-OneLive seq (c ∷ cs) (inr (own, h)) = (ground arith, cancel-NoneLive seq cs h)

cancel_armed-NoneLive :
    (o : Option ℕ) (seq : ℕ) (cs : List LagCheck) → ArmedBy o seq cs → NoneLive (cancel_armed o cs)
cancel_armed-NoneLive none seq cs h = h
cancel_armed-NoneLive (some s) seq cs h = cancel-OneLive s cs h.1

without-NoneLive : (seq : ℕ) (cs : List LagCheck) → NoneLive cs → NoneLive (without_check seq cs)
without-NoneLive seq [] h = tt
without-NoneLive seq (c ∷ cs) h = elim (Bool-cases (c.check_seq == seq)) [
  | inl e ↦ simp e (without-NoneLive seq cs h.1)
  | inr e ↦ simp e (h.0, without-NoneLive seq cs h.1)
]

without-OneLive : (s seq : ℕ) (cs : List LagCheck) → OneLive s cs → OneLive s (without_check seq cs)
without-OneLive s seq [] h = tt
without-OneLive s seq (c ∷ cs) (inl (dead, h)) = elim (Bool-cases (c.check_seq == seq)) [
  | inl e ↦ simp e (without-OneLive s seq cs h)
  | inr e ↦ simp e (inl (dead, without-OneLive s seq cs h))
]
without-OneLive s seq (c ∷ cs) (inr (own, h)) = elim (Bool-cases (c.check_seq == seq)) [
  | inl e ↦ simp e (none_one s _ (without-NoneLive seq cs h))
  | inr e ↦ simp e (inr (own, without-NoneLive seq cs h))
]

-- Without the number that may be live, none is.
without_own : (s : ℕ) (cs : List LagCheck) → OneLive s cs → NoneLive (without_check s cs)
without_own s [] h = tt
without_own s (c ∷ cs) (inl (dead, h)) = elim (Bool-cases (c.check_seq == s)) [
  | inl e ↦ simp e (without_own s cs h)
  | inr e ↦ simp e (dead, without_own s cs h)
]
without_own s (c ∷ cs) (inr (own, h)) =
    let e : (c.check_seq == s) ≡ true = ground arith in simp e (without-NoneLive s cs h)

without-ArmedBy :
    (o : Option ℕ) (seq num : ℕ) (cs : List LagCheck)
    → ArmedBy o seq cs
    → ArmedBy o seq (without_check num cs)
without-ArmedBy none seq num cs h = without-NoneLive num cs h
without-ArmedBy (some s) seq num cs h = (h.0, without-OneLive s num cs h.1)

cleared-ArmedBy :
    (o : Option ℕ) (seq : ℕ) (cs : List LagCheck)
    → ArmedBy o seq cs
    → NoneLive (without_check seq cs)
cleared-ArmedBy none seq cs h = without-NoneLive seq cs h
cleared-ArmedBy (some s) seq cs h = rw (← h.0) (without_own s cs h.1)

cancel-IsArmed : (f : Follower) → IsArmed f → IsArmed (cancel_committed_revision_lag_check f)
unfolding cancel_committed_revision_lag_check
cancel-IsArmed f h = cancel_armed-NoneLive f.lag_check_cancel f.lag_check_seq f.lag_checks h

arm-IsArmed : (f : Follower) (rev : ℕ) → IsArmed f → IsArmed (arm_lag_check f rev)
arm-IsArmed f rev h =
    (refl, inr (refl, cancel_armed-NoneLive f.lag_check_cancel f.lag_check_seq f.lag_checks h))

schedule-IsArmed :
    (f : Follower) (rev : ℕ) (fails : Bool)
    → IsArmed f
    → IsArmed (schedule_committed_revision_lag_check f rev fails)
unfolding schedule_committed_revision_lag_check
schedule-IsArmed f rev fails h = elim (Bool-cases (rev == 0)) [
  | inl e ↦ simp e (cancel-IsArmed f h)
  | inr set ↦ elim (Bool-cases fails) [
    | inl e ↦ simp (set, e) h
    | inr fine ↦ elim (Bool-cases (leb rev (latest_revision f.db.records))) [
      | inl e ↦ simp (set, fine, e) (cancel-IsArmed f h)
      | inr e ↦ simp (set, fine, e) (arm-IsArmed f rev h)
    ]
  ]
]

-- The fields of the checks, which a change of the health leaves alone.
pub record SameChecks (f g : Follower) : Type 0 where
  pub cancel : g.lag_check_cancel ≡ f.lag_check_cancel
  pub seq : g.lag_check_seq ≡ f.lag_check_seq
  pub checks : g.lag_checks ≡ f.lag_checks

degrade_self-SameChecks : (f : Follower) → SameChecks f (degrade_self f)
unfolding degrade_self
degrade_self-SameChecks f = ground arith

clear-IsArmed :
    (f g : Follower) (num : ℕ)
    → IsArmed f
    → SameChecks (record f { lag_checks = without_check num f.lag_checks }) g
    → IsArmed (clear_committed_revision_lag_check g num)
unfolding clear_committed_revision_lag_check
clear-IsArmed f g num armed same = elim (Bool-cases (num == g.lag_check_seq)) [
  | inl e ↦
      let own : num ≡ f.lag_check_seq = ground (arith, same.seq) in
      simp e (rw (same.checks, own) (cleared-ArmedBy f.lag_check_cancel _ _ armed))
  | inr e ↦
      simp e
        (rw (same.cancel, same.seq, same.checks) (without-ArmedBy f.lag_check_cancel _ num _ armed))
]

fire-IsArmed :
    (f : Follower) (c : LagCheck) (fails : Bool) → IsArmed f → IsArmed (fire_lag_check f c fails)
unfolding fire_lag_check
fire-IsArmed f c fails h =
    let g : Follower = record f { lag_checks = without_check c.check_seq f.lag_checks } in
    let same : SameChecks g g = record { cancel = refl; seq = refl; checks = refl } in
    elim (Bool-cases c.live) [
      | inr e ↦ simp e (without-ArmedBy f.lag_check_cancel _ c.check_seq _ h)
      | inl live ↦ elim (Bool-cases fails) [
        | inl e ↦ simp (live, e) (clear-IsArmed f g c.check_seq h same)
        | inr fine ↦ elim (Bool-cases (ltb (latest_revision f.db.records) c.target_revision)) [
          | inl e ↦
              simp (live, fine, e)
                (clear-IsArmed f (degrade_self g) c.check_seq h (degrade_self-SameChecks g))
          | inr e ↦ simp (live, fine, e) (clear-IsArmed f g c.check_seq h same)
        ]
      ]
    ]

-- Whatever commits come, whatever timers fire, cancelled ones too, and whenever the follower stops:
-- at most one lag check is live, the last one that was armed, and the follower holds the function
-- that cancels it; where it holds none, no check is live.
pub lag_run-IsArmed :
    (f : Follower) (events : List LagEvent) → IsArmed f → IsArmed (lag_run f events)
unfolding lag_run lag_step
lag_run-IsArmed f [] h = h
lag_run-IsArmed f (committed revision fails ∷ es) h =
    lag_run-IsArmed (schedule_committed_revision_lag_check f revision fails) es
      (schedule-IsArmed f revision fails h)
lag_run-IsArmed f (stopped ∷ es) h =
    lag_run-IsArmed (cancel_committed_revision_lag_check f) es (cancel-IsArmed f h)
lag_run-IsArmed f (fired c fails ∷ es) h =
    lag_run-IsArmed (fire_lag_check f c fails) es (fire-IsArmed f c fails h)
