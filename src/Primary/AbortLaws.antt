-- ===== src/Primary/AbortLaws.antt =====
-- The floors of the nodes after a compaction protocol that was aborted.
use netsy.Base.{
  ℕ, ◌≡◌, refl, sym, ap, ◌∙◌, Bool, true, false, List, [], ◌∷◌, ◌++◌, ◌⊎◌, inl, inr, All,
  Bool-cases,
}
use netsy.Watch.Manager.{Manager, set_watch_admission_floor}
use netsy.Watch.FloorLaws.{AllAtLeast, set_watch_admission_floor_lem}
use netsy.Primary.Compaction.{
  Delivery, delivered, lost_reply, Registration, send_compaction_notice, notify_twice, watches_of,
  notify_all,
}

-- Nothing is lost on the way to the node, and the node stands at the previous compaction revision.
pub record Undisturbed (previous : ℕ) (g : Registration) : Type 0 where
  pub first_arrives : g.first ≡ delivered
  pub second_arrives : g.second ≡ delivered
  pub rollback_arrives : g.rollback ≡ delivered
  pub floor_is : g.watches.watch_admission_floor ≡ previous
  pub none_below : AllAtLeast previous g.watches.watchers

-- A floor that is accepted.
accepts :
    (m : Manager) (rev : ℕ)
    → AllAtLeast rev m.watchers
    → set_watch_admission_floor m rev ≡ (record m { watch_admission_floor = rev }, true)
accepts m rev all = elim (set_watch_admission_floor_lem m rev) [
  | inl (clear, done) ↦ done
  | inr (below, refused) ↦ absurd (below all)
]

arrives :
    (m : Manager) (rev : ℕ) (d : Delivery)
    → d ≡ delivered
    → send_compaction_notice m rev d ≡ set_watch_admission_floor m rev
unfolding send_compaction_notice
arrives m rev d e = rw e refl

twice-accepted :
    (g : Registration) (rev : ℕ)
    → g.first ≡ delivered
    → AllAtLeast rev g.watches.watchers
    → notify_twice g rev ≡ (record g.watches { watch_admission_floor = rev }, true)
unfolding notify_twice
twice-accepted g rev e all =
    let said = arrives g.watches rev g.first e ∙ accepts g.watches rev all in
    rw (said, notify_twice) refl

twice-refused :
    (g : Registration) (rev : ℕ)
    → g.first ≡ delivered
    → g.second ≡ delivered
    → set_watch_admission_floor g.watches rev ≡ (g.watches, false)
    → notify_twice g rev ≡ (g.watches, false)
unfolding notify_twice
twice-refused g rev e f refused =
    let one = arrives g.watches rev g.first e ∙ refused in
    let two = arrives g.watches rev g.second f ∙ refused in rw (one, notify_twice) two

-- What the notices make of a node, and what the rollback makes of it after a yes.
twice-Undisturbed :
    (previous rev : ℕ) (g : Registration)
    → Undisturbed previous g
    → ((notify_twice g rev).1 ≡ true)
        × ((send_compaction_notice (notify_twice g rev).0 previous g.rollback).0 ≡ g.watches)
      ⊎ (notify_twice g rev ≡ (g.watches, false))
twice-Undisturbed previous rev g u = elim (set_watch_admission_floor_lem g.watches rev) [
  | inl (clear, done) ↦
      let said = twice-accepted g rev u.first_arrives clear in
      let raised = record g.watches { watch_admission_floor = rev } in
      let back =
        arrives raised previous g.rollback u.rollback_arrives
        ∙ accepts raised previous u.none_below in
      inl (
        ap (λ (out : Manager × Bool). out.1) said,
        rw said (
            ap (λ (out : Manager × Bool). out.0) back
            ∙ ap (λ n. record g.watches { watch_admission_floor = n }) (sym u.floor_is)),
      )
  | inr (below, refused) ↦ inr (twice-refused g rev u.first_arrives u.second_arrives refused)
]

not_both : ¬ (true ≡ false)
not_both e = cc

-- If nothing is lost on the way, and every node stands at the previous compaction revision, an
-- aborted protocol leaves the floor and the watches of every node as they were.
pub notify_all-restores :
    (previous rev : ℕ) (gs : List Registration)
    → All (Undisturbed previous) gs
    → (notify_all previous rev gs).1 ≡ false
    → (notify_all previous rev gs).0 ≡ watches_of gs
unfolding notify_all
notify_all-restores previous rev [] us h = refl
notify_all-restores previous rev (g ∷ gs) us h = elim (twice-Undisturbed previous rev g us.0) [
  | inr refused ↦ rw (refused, notify_all) refl
  | inl (said, back) ↦ elim (Bool-cases (notify_all previous rev gs).1) [
    | inl all_said ↦
        let clash : true ≡ false = simp (said, all_said) at h in absurd (not_both clash)
    | inr aborted ↦
        let rest = notify_all-restores previous rev gs us.1 aborted in
        simp (said, aborted) (rw (back, rest) refl)
  ]
]

lost :
    (m : Manager) (rev : ℕ) (d : Delivery)
    → d ≡ lost_reply
    → AllAtLeast rev m.watchers
    → send_compaction_notice m rev d ≡ (record m { watch_admission_floor = rev }, false)
unfolding send_compaction_notice
lost m rev d e all = rw (e, accepts m rev all) refl

twice-lost :
    (g : Registration) (rev : ℕ)
    → g.first ≡ lost_reply
    → g.second ≡ lost_reply
    → AllAtLeast rev g.watches.watchers
    → notify_twice g rev ≡ (record g.watches { watch_admission_floor = rev }, false)
unfolding notify_twice
twice-lost g rev e f all =
    let raised = record g.watches { watch_admission_floor = rev } in
    rw (lost g.watches rev g.first e all, notify_twice) (lost raised rev g.second f all)

-- A node from which nothing is lost, and which accepts the notice.
pub record Confirming (previous rev : ℕ) (g : Registration) : Type 0 where
  pub undisturbed : Undisturbed previous g
  pub none_below : AllAtLeast rev g.watches.watchers

-- Such a node has said yes, and the rollback brings its floor back.
twice-Confirming :
    (previous rev : ℕ) (g : Registration)
    → Confirming previous rev g
    → ((notify_twice g rev).1 ≡ true)
      × ((send_compaction_notice (notify_twice g rev).0 previous g.rollback).0 ≡ g.watches)
twice-Confirming previous rev g c = elim (twice-Undisturbed previous rev g c.undisturbed) [
  | inl out ↦ out
  | inr refused ↦
      let said = twice-accepted g rev c.undisturbed.first_arrives c.none_below in
      let clash = ap (λ (out : Manager × Bool). out.1) (sym said ∙ refused) in
      absurd (not_both clash)
]

-- A node that would accept the notice, but whose two answers are lost, behind any number of nodes
-- that have confirmed, which stand at the previous compaction revision and from which nothing is lost:
-- the protocol aborts. The confirmed nodes are rolled back to the floor that they had, the nodes behind
-- are not asked, and the node itself keeps the floor of the revision that was not reached.
pub notify_all-lost_replies :
    (previous rev : ℕ) (before : List Registration) (g : Registration) (gs : List Registration)
    → All (Confirming previous rev) before
    → g.first ≡ lost_reply
    → g.second ≡ lost_reply
    → AllAtLeast rev g.watches.watchers
    → notify_all previous rev (before ++ g ∷ gs) ≡ (
      watches_of before ++ record g.watches { watch_admission_floor = rev } ∷ watches_of gs,
      false,
    )
unfolding notify_all
notify_all-lost_replies previous rev [] g gs cs e f all =
    rw (twice-lost g rev e f all, notify_all) refl
notify_all-lost_replies previous rev (b ∷ bs) g gs cs e f all =
    let (said, back) = twice-Confirming previous rev b cs.0 in
    let rest = notify_all-lost_replies previous rev bs g gs cs.1 e f all in
    rw (rest, said, notify_all) (rw back refl)
