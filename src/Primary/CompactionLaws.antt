-- ===== src/Primary/CompactionLaws.antt =====
-- What the nodes of the cluster have promised when the compaction revision rises, and after an abort.
use std.Path.{subst}
use netsy.Base.{
  ℕ, suc, ◌≤◌, ◌<◌, ◌≡◌, refl, sym, ap, ◌∙◌, Bool, true, false, Option, none, some, List, [], ◌∷◌,
  ◌⊎◌, inl, inr, arith, All, Bool-cases, Option-cases,
}
use netsy.NodeState.{active, primary_eq}
use netsy.LocalDb.Compact.{persist_compaction_revision}
use netsy.Watch.Manager.{Manager, lower}
use netsy.Watch.FloorLaws.{AllAtLeast, MinOf, lower-le, set_watch_admission_floor_lem}
use netsy.Primary.LeaderTxn.{Server, compact_message, run_compaction}
use netsy.Primary.Compaction.{
  Delivery, delivered, lost_request, lost_reply, Registration, global_min, send_compaction_notice,
  notify_twice, notify_all, commit_compaction, run_compaction_protocol, proposed_revision,
  run_compaction_cycle,
}

-- The node admits no watch at or below the revision, and has none that starts below it.
abbrev pub Promises : ℕ → Manager → Type 0
Promises rev m = (m.watch_admission_floor ≡ rev) × AllAtLeast rev m.watchers

no_confirmation : ¬ (true ≡ false)
no_confirmation e = cc

notice-Promises :
    (m : Manager) (rev : ℕ) (d : Delivery)
    → (send_compaction_notice m rev d).1 ≡ true
    → Promises rev (send_compaction_notice m rev d).0
unfolding send_compaction_notice
notice-Promises m rev lost_request h = cc
notice-Promises m rev lost_reply h = cc
notice-Promises m rev delivered h = elim (set_watch_admission_floor_lem m rev) [
  | inl (clear, done) ↦ rw done (refl, clear)
  | inr (below, refused) ↦
      absurd (no_confirmation (sym h ∙ ap (λ (out : Manager × Bool). out.1) refused))
]

abbrev Confirmed : ℕ → Manager × Bool → Type 0
Confirmed rev out = out.1 ≡ true → Promises rev out.0

twice-Confirmed : (g : Registration) (rev : ℕ) → Confirmed rev (notify_twice g rev)
unfolding notify_twice
twice-Confirmed g rev =
    let one = send_compaction_notice g.watches rev g.first in
    elim (Bool-cases one.1) [
      | inl first ↦ simp first (λ _. notice-Promises g.watches rev g.first first)
      | inr again ↦ simp again (notice-Promises one.0 rev g.second)
    ]

abbrev AllConfirmed : ℕ → List Manager × Bool → Type 0
AllConfirmed rev out = out.1 ≡ true → All (Promises rev) out.0

notify_all-AllConfirmed :
    (previous rev : ℕ) (gs : List Registration) → AllConfirmed rev (notify_all previous rev gs)
unfolding notify_all
notify_all-AllConfirmed previous rev [] = λ h. tt
notify_all-AllConfirmed previous rev (g ∷ gs) =
    let rest = notify_all-AllConfirmed previous rev gs in
    elim (Bool-cases (notify_twice g rev).1) [
      | inr no_answer ↦ simp no_answer (λ h. cc)
      | inl said ↦ elim (Bool-cases (notify_all previous rev gs).1) [
        | inl all_said ↦ simp (said, all_said) (λ h. (twice-Confirmed g rev said, rest all_said))
        | inr one_less ↦ simp (said, one_less) (λ h. cc)
      ]
    ]

-- The answers to the query, all at or above the minimum.
abbrev pub AnswersFrom : ℕ → Registration → Type 0
AnswersFrom n g = (k : ℕ) × (g.min_answer ≡ some k) × (n ≤ k)

lower-MinOf : (k n : ℕ) (o : Option ℕ) → MinOf (lower k o) n → (n ≤ k) × MinOf o n
lower-MinOf k n none h = (h, tt)
lower-MinOf k n (some j) h = lower-le k j n h

global_min-AnswersFrom :
    (gs : List Registration) (o : Option ℕ) (n : ℕ)
    → global_min gs o ≡ some (some n)
    → All (AnswersFrom n) gs × MinOf o n
unfolding global_min
global_min-AnswersFrom [] none n h = (tt, tt)
global_min-AnswersFrom [] (some k) n h = (tt, ground arith)
global_min-AnswersFrom (g ∷ gs) o n h = elim (Option-cases g.min_answer) [
  | inl failed ↦ absurd (ground (arith, failed))
  | inr (k, answered) ↦
      let (all, le) = global_min-AnswersFrom gs (lower k o) n (ground (arith, answered)) in
      let (here, before) = lower-MinOf k n o le in (((k, answered, here), all), before)
]

proposed :
    (ps : Server) (gs : List Registration) (rev : ℕ)
    → proposed_revision ps gs ≡ some rev
    → (n : ℕ) × (global_min gs none ≡ some (some n)) × (ps.state.compaction < rev) × (n ≡ suc rev)
unfolding proposed_revision
proposed ps gs rev h = elim (Option-cases (global_min gs none)) [
  | inl none_yet ↦ absurd (ground (arith, none_yet))
  | inr (o, found) ↦ elim (Option-cases o) [
    | inl no_answers ↦ absurd (ground (arith, found, no_answers))
    | inr (n, is) ↦ (n, found ∙ ap some is, ground (arith, found, is), ground (arith, found, is))
  ]
]

-- Every node answers above the revision that the cycle proposes, and it is above the present one.
pub proposed_revision-AnswersFrom :
    (ps : Server) (gs : List Registration) (rev : ℕ)
    → proposed_revision ps gs ≡ some rev
    → All (AnswersFrom (suc rev)) gs × (ps.state.compaction < rev)
unfolding proposed_revision
proposed_revision-AnswersFrom ps gs rev h =
    let (n, found, above, next) = proposed ps gs rev h in
    (subst (λ m. All (AnswersFrom m) gs) next (global_min-AnswersFrom gs none n found).0, above)

-- What the protocol ends with.
abbrev Raised : Server → List Registration → ℕ → Server × List Manager → Type 0
Raised ps gs now out =
    (out.0 ≡ ps)
    ⊎ ((rev : ℕ) × All (AnswersFrom (suc rev)) gs
        × (ps.state.compaction < rev)
        × All (Promises rev) out.1
        × (out.0 ≡ record ps {
          db = persist_compaction_revision ps.db rev now;
          state = record ps.state { compaction = rev };
          broadcast = compact_message rev ∷ ps.broadcast;
          tasks = run_compaction rev ∷ ps.tasks;
        }))

protocol :
    (ps : Server) (gs : List Registration) (rev now : ℕ) (persist_fails : Bool)
    → All (AnswersFrom (suc rev)) gs
    → ps.state.compaction < rev
    → Raised ps gs now (run_compaction_protocol ps gs rev now persist_fails)
unfolding run_compaction_protocol commit_compaction
protocol ps gs rev now persist_fails answers above =
    let all = notify_all-AllConfirmed ps.state.compaction rev gs in
    elim (Bool-cases (notify_all ps.state.compaction rev gs).1) [
      | inr aborted ↦ simp aborted (inl refl)
      | inl said ↦ elim (Bool-cases persist_fails) [
        | inl fails ↦ simp (said, fails) (inl refl)
        | inr fine ↦ simp (said, fine) (inr (rev, answers, above, all said, refl))
      ]
    ]

-- A cycle leaves the Primary as it was, or it raises the compaction revision: to one below what every
-- node has answered, and when every node has set its floor to it and has no watch that starts below.
-- The Primary then has persisted it, tells its followers, and compacts.
pub run_compaction_cycle_lem :
    (ps : Server) (gs : List Registration) (now : ℕ) (persist_fails : Bool)
    → let out = run_compaction_cycle ps (some gs) now persist_fails in
      (out.0 ≡ ps)
      ⊎ ((rev : ℕ) × All (AnswersFrom (suc rev)) gs
          × (ps.state.compaction < rev)
          × All (Promises rev) out.1
          × (out.0 ≡ record ps {
            db = persist_compaction_revision ps.db rev now;
            state = record ps.state { compaction = rev };
            broadcast = compact_message rev ∷ ps.broadcast;
            tasks = run_compaction rev ∷ ps.tasks;
          }))
unfolding run_compaction_cycle
run_compaction_cycle_lem ps gs now persist_fails =
    elim (Bool-cases (primary_eq ps.state.primary active)) [
      | inr passive ↦ simp passive (inl refl)
      | inl serving ↦ elim (Option-cases (proposed_revision ps gs)) [
        | inl nothing ↦ rw (serving, nothing) (inl refl)
        | inr (rev, found) ↦
            let (answers, above) = proposed_revision-AnswersFrom ps gs rev found in
            rw (serving, found) (protocol ps gs rev now persist_fails answers above)
      ]
    ]
