-- ===== src/Elector/ElectionLaws.antt =====
-- Whom a round elects.
use std.Path.{subst}
use mathlib.Core.List.{Memᴰ}
use netsy.Base.{
  ◌≤◌, ◌≡◌, refl, sym, ap, ◌∙◌, ◌++◌, ◌≢◌, ◌&&◌, not, Bool, true, false, Option, none, some, List,
  [], ◌∷◌, ◌⊎◌, inl, inr, arith, if◌then◌else◌, All, Bool-cases, Option-cases,
}
use netsy.NodeState.{
  HealthState, loading, healthy, degraded, PrimaryState, replica, starting, active, draining,
  health_eq, primary_eq,
}
use netsy.Elector.Election.{
  Candidate, Election, ok, err, filter_candidates, is_active, is_healthy, only, find_active_primary,
  check_non_replica_states, goes_before, better, winner, win, choose_primary,
}

kept :
    {c d : Candidate} (b : Bool) (rest cs : List Candidate)
    → (Memᴰ c rest → Memᴰ c cs)
    → Memᴰ c (if b then d ∷ rest else rest)
    → Memᴰ c (d ∷ cs)
kept false rest cs f n = Memᴰ.tail (f n)
kept true rest cs f (Memᴰ.head e) = Memᴰ.head e
kept true rest cs f (Memᴰ.tail n) = Memᴰ.tail (f n)

filter-Mem :
    (p : Candidate → Bool) (c : Candidate) (cs : List Candidate)
    → Memᴰ c (filter_candidates p cs)
    → Memᴰ c cs
unfolding filter_candidates
filter-Mem p c [] m = m
filter-Mem p c (d ∷ cs) m = kept (p d) (filter_candidates p cs) cs (filter-Mem p c cs) m

filter-All :
    (p : Candidate → Bool) (cs : List Candidate) → All (λ c. p c ≡ true) (filter_candidates p cs)
unfolding filter_candidates
filter-All p [] = tt
filter-All p (c ∷ cs) = elim (Bool-cases (p c)) [
  | inl e ↦ simp e (refl, filter-All p cs)
  | inr e ↦ simp e (filter-All p cs)
]

-- No listed candidate has a greater revision.
abbrev pub IsLatest : Candidate → List Candidate → Type 0
IsLatest c cs = All (λ (d : Candidate). d.latest_revision ≤ c.latest_revision) cs

IsLatest-up :
    (c d : Candidate) (cs : List Candidate)
    → c.latest_revision ≤ d.latest_revision
    → IsLatest c cs
    → IsLatest d cs
IsLatest-up c d [] le h = tt
IsLatest-up c d (x ∷ cs) le h = (omega (arith, le, h.0), IsLatest-up c d cs le h.1)

abbrev OnWinner : List Candidate → Option Candidate → Type 0
OnWinner cs none = cs ≡ []
OnWinner cs (some c) = Memᴰ c cs × IsLatest c cs

winner-step :
    (x : Candidate) (cs : List Candidate) (o : Option Candidate)
    → OnWinner cs o
    → OnWinner (x ∷ cs) (some (better x o))
winner-step x cs none h =
    let alone : IsLatest x cs = rw h tt in (Memᴰ.head refl, (omega arith, alone))
winner-step x cs (some d) h = elim (Bool-cases (goes_before d x)) [
  | inl before ↦
      let le : x.latest_revision ≤ d.latest_revision = ground arith in
      let same : d ≡ better x (some d) = simp before refl in
      subst (λ b. OnWinner (x ∷ cs) (some b)) same (Memᴰ.tail h.0, (le, h.1))
  | inr after ↦
      let le : d.latest_revision ≤ x.latest_revision = ground arith in
      let same : x ≡ better x (some d) = simp after refl in
      subst (λ b. OnWinner (x ∷ cs) (some b)) same
        (Memᴰ.head refl, (omega arith, IsLatest-up d x cs le h.1))
]

winner-OnWinner : (cs : List Candidate) → OnWinner cs (winner cs)
unfolding winner
winner-OnWinner [] = refl
winner-OnWinner (x ∷ cs) = winner-step x cs (winner cs) (winner-OnWinner cs)

-- The elected candidate in the terms of the election's own filters.
pub record IsPicked (cs : List Candidate) (c : Candidate) : Type 0 where
  pub known : Memᴰ c cs
  pub reason :
      (filter_candidates is_active cs ≡ c ∷ [])
      ⊎ ((is_healthy c ≡ true)
          × IsLatest c (filter_candidates is_healthy cs)
          × (check_non_replica_states cs ≡ false))

abbrev OkPicked : List Candidate → Election Candidate → Type 0
OkPicked cs (err e) = Unit
OkPicked cs (ok c) = IsPicked cs c

only-is : (xs : List Candidate) (c : Candidate) → only xs ≡ some c → xs ≡ c ∷ []
only-is [] c h = cc
only-is (x ∷ []) c h = ground arith
only-is (x ∷ y ∷ xs) c h = cc

All-Mem :
    (p : Candidate → Bool) (c : Candidate) (cs : List Candidate)
    → All (λ d. p d ≡ true) cs
    → Memᴰ c cs
    → p c ≡ true
All-Mem p c [] all m = elim m [ ]
All-Mem p c (d ∷ cs) all (Memᴰ.head e) = ap p e ∙ all.0
All-Mem p c (d ∷ cs) all (Memᴰ.tail m) = All-Mem p c cs all.1 m

win-OkPicked :
    (cs : List Candidate) (o : Option Candidate)
    → check_non_replica_states cs ≡ false
    → OnWinner (filter_candidates is_healthy cs) o
    → OkPicked cs (win o)
win-OkPicked cs none free h = tt
win-OkPicked cs (some c) free h = record {
  known = filter-Mem is_healthy c cs h.0;
  reason = inr (
    All-Mem is_healthy c (filter_candidates is_healthy cs) (filter-All is_healthy cs) h.0,
    h.1,
    free,
  );
}

choose_primary-OkPicked : (cs : List Candidate) → OkPicked cs (choose_primary cs)
unfolding choose_primary find_active_primary
choose_primary-OkPicked cs = elim (Option-cases (only (filter_candidates is_active cs))) [
  | inr (c, found) ↦
      let alone = only-is (filter_candidates is_active cs) c found in
      let there : Memᴰ c (filter_candidates is_active cs) = rw alone (Memᴰ.head refl) in
      rw (found, choose_primary)
        (record { known = filter-Mem is_active c cs there; reason = inl alone })
  | inl nobody ↦ elim (Bool-cases (check_non_replica_states cs)) [
    | inl blocked ↦ rw (nobody, choose_primary) (rw blocked tt)
    | inr free ↦
        let best =
          win-OkPicked cs (winner (filter_candidates is_healthy cs)) free (winner-OnWinner _) in
        rw (nobody, choose_primary) (rw free best)
  ]
]

pub choose_primary-IsPicked :
    (cs : List Candidate) (c : Candidate) → choose_primary cs ≡ ok c → IsPicked cs c
choose_primary-IsPicked cs c h = subst (OkPicked cs) h (choose_primary-OkPicked cs)

-- The one node that is the active Primary.
pub record IsSole (cs : List Candidate) (c : Candidate) : Type 0 where
  pub before : List Candidate
  pub after : List Candidate
  pub parts : cs ≡ before ++ c ∷ after
  pub is_active : c.primary_state ≡ active
  pub none_before : All (λ (d : Candidate). d.primary_state ≢ active) before
  pub none_after : All (λ (d : Candidate). d.primary_state ≢ active) after

-- A healthy node with the latest revision of the healthy ones, where every node that is not degraded
-- is a Replica.
pub record IsBest (cs : List Candidate) (c : Candidate) : Type 0 where
  pub is_healthy : c.health_state ≡ healthy
  pub latest :
      All (λ (d : Candidate). d.health_state ≡ healthy → d.latest_revision ≤ c.latest_revision) cs
  pub replicas : All (λ (d : Candidate). d.health_state ≢ degraded → d.primary_state ≡ replica) cs

pub record IsElected (cs : List Candidate) (c : Candidate) : Type 0 where
  pub known : Memᴰ c cs
  pub reason : IsSole cs c ⊎ IsBest cs c

active_is : (p : PrimaryState) → primary_eq p active ≡ true → p ≡ active
active_is replica h = cc
active_is starting h = cc
active_is active h = refl
active_is draining h = cc

not_active : (p : PrimaryState) → primary_eq p active ≡ false → p ≢ active
not_active p h e = let it : primary_eq active active ≡ false = rw e at h in cc it

healthy_is : (h : HealthState) → health_eq h healthy ≡ true → h ≡ healthy
healthy_is loading e = cc
healthy_is healthy e = refl
healthy_is degraded e = cc

filter-empty :
    (cs : List Candidate)
    → filter_candidates is_active cs ≡ []
    → All (λ (d : Candidate). d.primary_state ≢ active) cs
unfolding filter_candidates
filter-empty [] h = tt
filter-empty (d ∷ ds) h = elim (Bool-cases (is_active d)) [
  | inl e ↦ absurd (ground arith)
  | inr e ↦ (not_active d.primary_state e, filter-empty ds (simp e at h))
]

filter-IsSole :
    (cs : List Candidate) (c : Candidate) → filter_candidates is_active cs ≡ c ∷ [] → IsSole cs c
unfolding filter_candidates
filter-IsSole [] c h = cc
filter-IsSole (d ∷ ds) c h = elim (Bool-cases (is_active d)) [
  | inl e ↦
      let found : d ∷ filter_candidates is_active ds ≡ c ∷ [] = simp e at h in
      let same : d ≡ c = cc found in
      let rest : filter_candidates is_active ds ≡ [] = cc found in
      record {
        before = [];
        after = ds;
        parts = ap (λ (x : Candidate). x ∷ ds) same;
        is_active =
            ap (λ (x : Candidate). x.primary_state) (sym same) ∙ active_is d.primary_state e;
        none_before = tt;
        none_after = filter-empty ds rest;
      }
  | inr e ↦
      let there = filter-IsSole ds c (simp e at h) in
      record {
        before = d ∷ there.before;
        after = there.after;
        parts = ap (λ (xs : List Candidate). d ∷ xs) there.parts;
        is_active = there.is_active;
        none_before = (not_active d.primary_state e, there.none_before);
        none_after = there.none_after;
      }
]

healthy-latest :
    (cs : List Candidate) (c : Candidate)
    → IsLatest c (filter_candidates is_healthy cs)
    → All (λ (d : Candidate). d.health_state ≡ healthy → d.latest_revision ≤ c.latest_revision) cs
unfolding filter_candidates
healthy-latest [] c h = tt
healthy-latest (d ∷ ds) c h = elim (Bool-cases (is_healthy d)) [
  | inl e ↦
      let both : (d.latest_revision ≤ c.latest_revision)
          × IsLatest c (filter_candidates is_healthy ds) =
        simp e at h in
      ((λ fit. both.0), healthy-latest ds c both.1)
  | inr e ↦
      let sick : d.health_state ≢ healthy =
        λ fit. let it : health_eq healthy healthy ≡ false = rw fit at e in cc it in
      ((λ fit. absurd (sick fit)), healthy-latest ds c (simp e at h))
]

unblocked :
    (h : HealthState) (p : PrimaryState)
    → (not (health_eq h degraded) && not (primary_eq p replica)) ≡ false
    → h ≢ degraded
    → p ≡ replica
unblocked degraded p e sound = absurd (sound refl)
unblocked loading replica e sound = refl
unblocked loading starting e sound = cc
unblocked loading active e sound = cc
unblocked loading draining e sound = cc
unblocked healthy replica e sound = refl
unblocked healthy starting e sound = cc
unblocked healthy active e sound = cc
unblocked healthy draining e sound = cc

all_replicas :
    (cs : List Candidate)
    → check_non_replica_states cs ≡ false
    → All (λ (d : Candidate). d.health_state ≢ degraded → d.primary_state ≡ replica) cs
unfolding check_non_replica_states
all_replicas [] h = tt
all_replicas (d ∷ ds) h =
    (unblocked d.health_state d.primary_state (ground arith), all_replicas ds (ground arith))

-- An election among the contacted nodes elects one of them: the only one whose Primary state is
-- active, or a healthy one with the latest revision of the healthy ones, where every node whose health
-- is not degraded has the Primary state of a Replica.
pub choose_primary_lem :
    (cs : List Candidate) (c : Candidate) → choose_primary cs ≡ ok c → IsElected cs c
choose_primary_lem cs c h =
    let picked = choose_primary-IsPicked cs c h in
    elim picked.reason [
      | inl alone ↦ record { known = picked.known; reason = inl (filter-IsSole cs c alone) }
      | inr (fit, latest, free) ↦ record {
        known = picked.known;
        reason = inr (record {
          is_healthy = healthy_is c.health_state fit;
          latest = healthy-latest cs c latest;
          replicas = all_replicas cs free;
        });
      }
    ]
