-- ===== src/Primary/Fallback.antt =====
-- After a quorum timeout the next write goes to object storage, unless a Replica recovers first.
use netsy.Base.{
  ℕ, ◌≡◌, refl, sym, ap, ◌∙◌, String, Bool, true, false, List, [], ◌∷◌, ◌||◌, arith, if◌then◌else◌,
  length, ℤ, eq_iff, All, Bool-cases, inl, inr, not,
}
use netsy.NodeState.{degraded}
use netsy.Primary.Quorum.{required_receipts, select_txn_strategy, contains, ReceiptCollector}
use netsy.Primary.Replicas.{
  Replica, health, set_health, is_eligible, modify, count_replicas, healthy_for_quorum_count,
  unacked_quorum_node_ids, degrade_all,
}
use netsy.Primary.Receipts.{NoRepeat, AllIn, IsCounting, length-AllIn}

-- The keys of the map.
abbrev pub node_ids : List Replica → List String
node_ids [] = []
node_ids (r ∷ rs) = r.node_id ∷ node_ids rs

-- The Replicas that count toward a quorum, by their IDs.
eligible_ids : List Replica → List String
eligible_ids [] = []
eligible_ids (r ∷ rs) = let ids = eligible_ids rs in if is_eligible r then r.node_id ∷ ids else ids

healthy_for_quorum_count-ids :
    (rs : List Replica) → healthy_for_quorum_count rs ≡ length (eligible_ids rs)
unfolding healthy_for_quorum_count count_replicas eligible_ids
healthy_for_quorum_count-ids [] = refl
healthy_for_quorum_count-ids (r ∷ rs) = ground (arith, healthy_for_quorum_count-ids rs)

-- All entries of the listed nodes degraded at once.
mark_one : List String → Replica → Replica
mark_one ids r = if contains r.node_id ids then set_health r degraded else r

mark : List String → List Replica → List Replica
mark ids [] = []
mark ids (r ∷ rs) = mark_one ids r ∷ mark ids rs

mark-nil : (rs : List Replica) → mark [] rs ≡ rs
unfolding mark mark_one contains
mark-nil [] = refl
mark-nil (r ∷ rs) = ap (◌∷◌ r) (mark-nil rs)

mark-modify :
    (id : String) (ids : List String) (rs : List Replica)
    → mark ids (modify id (λ r. set_health r degraded) rs) ≡ mark (id ∷ ids) rs
unfolding mark mark_one modify contains set_health
mark-modify id ids [] = refl
mark-modify id ids (r ∷ rs) =
    ground (arith, eq_iff r.node_id id, eq_iff id r.node_id, mark-modify id ids rs)

degrade_all-mark : (ids : List String) (rs : List Replica) → degrade_all ids rs ≡ mark ids rs
unfolding degrade_all
degrade_all-mark [] rs = sym (mark-nil rs)
degrade_all-mark (id ∷ ids) rs =
    degrade_all-mark ids (modify id (λ r. set_health r degraded) rs) ∙ mark-modify id ids rs

-- Every eligible entry whose node has not answered is in the list.
abbrev Covers : ReceiptCollector → List String → Replica → Type 0
Covers c ids r =
    (contains r.node_id c.acked || (not (is_eligible r) || contains r.node_id ids)) ≡ true

Covers-cons :
    (c : ReceiptCollector) (x : String) (ids : List String) (rs : List Replica)
    → All (Covers c ids) rs
    → All (Covers c (x ∷ ids)) rs
unfolding contains
Covers-cons c x ids [] h = tt
Covers-cons c x ids (r ∷ rs) h = (ground (arith, h.0), Covers-cons c x ids rs h.1)

contains_self : (x : String) (xs : List String) → contains x (x ∷ xs) ≡ true
unfolding contains
contains_self x xs = ground (arith, eq_iff x x)

step-Covers :
    (c : ReceiptCollector) (r : Replica) (ids : List String) (rs : List Replica)
    → All (Covers c ids) rs
    → (a b : Bool) → contains r.node_id c.acked ≡ a
    → is_eligible r ≡ b
    → All (Covers c (if a then ids else if b then r.node_id ∷ ids else ids)) (r ∷ rs)
step-Covers c r ids rs rest true b answered e = (ground arith, rest)
step-Covers c r ids rs rest false true silent e =
    (ground (arith, contains_self r.node_id ids), Covers-cons c r.node_id ids rs rest)
step-Covers c r ids rs rest false false silent e = (ground arith, rest)

unacked-Covers :
    (c : ReceiptCollector) (rs : List Replica) → All (Covers c (unacked_quorum_node_ids c rs)) rs
unfolding unacked_quorum_node_ids
unacked-Covers c [] = tt
unacked-Covers c (r ∷ rs) =
    step-Covers c r (unacked_quorum_node_ids c rs) rs (unacked-Covers c rs)
      (contains r.node_id c.acked) (is_eligible r) refl refl

-- What is eligible after the marking has answered.
mark_one-eligible :
    (c : ReceiptCollector) (ids : List String) (r : Replica)
    → Covers c ids r
    → is_eligible (mark_one ids r) ≡ true
    → contains (mark_one ids r).node_id c.acked ≡ true
unfolding mark_one set_health health
mark_one-eligible c ids r h e = ground arith

eligible-AllIn :
    (c : ReceiptCollector) (ids : List String) (rs : List Replica)
    → All (Covers c ids) rs
    → AllIn (eligible_ids (mark ids rs)) c.acked
unfolding eligible_ids mark
eligible-AllIn c ids [] h = tt
eligible-AllIn c ids (r ∷ rs) h =
    let rest = eligible-AllIn c ids rs h.1 in
    elim (Bool-cases (is_eligible (mark_one ids r))) [
      | inl e ↦ simp e (mark_one-eligible c ids r h.0 e, rest)
      | inr e ↦ simp e rest
    ]

mark_one-node_id : (ids : List String) (r : Replica) → (mark_one ids r).node_id ≡ r.node_id
unfolding mark_one set_health
mark_one-node_id ids r = ground arith

eligible-mark-absent :
    (x : String) (ids : List String) (rs : List Replica)
    → contains x (node_ids rs) ≡ false
    → contains x (eligible_ids (mark ids rs)) ≡ false
unfolding eligible_ids mark contains mark_one set_health
eligible-mark-absent x ids [] h = refl
eligible-mark-absent x ids (r ∷ rs) h = ground (arith, eligible-mark-absent x ids rs)

eligible-NoRepeat :
    (ids : List String) (rs : List Replica)
    → NoRepeat (node_ids rs)
    → NoRepeat (eligible_ids (mark ids rs))
unfolding eligible_ids mark
eligible-NoRepeat ids [] h = tt
eligible-NoRepeat ids (r ∷ rs) h =
    let rest = eligible-NoRepeat ids rs h.1 in
    elim (Bool-cases (is_eligible (mark_one ids r))) [
      | inl e ↦
          simp e (rw (mark_one-node_id ids r) (eligible-mark-absent r.node_id ids rs h.0), rest)
      | inr e ↦ simp e rest
    ]

-- Take a quorum write that has timed out with a collector that is not done, and a map with one
-- entry for each node. When the Replicas that owe a Receipt have been degraded, fewer than the
-- required number count toward a quorum, so the next write, at the same configuration and number of
-- nodes, takes the object storage path.
pub timeout_falls_back :
    (c : ReceiptCollector) (rs : List Replica) (quorum : ℤ) (node_count : ℕ)
    → IsCounting c
    → c.done ≡ false
    → c.required ≡ required_receipts quorum node_count
    → NoRepeat (node_ids rs)
    → (select_txn_strategy quorum node_count
        (healthy_for_quorum_count (degrade_all (unacked_quorum_node_ids c rs) rs))).use_quorum
      ≡ false
unfolding select_txn_strategy
timeout_falls_back c rs quorum node_count v still same one_each =
    let owed = unacked_quorum_node_ids c rs in
    ground (
      arith,
      v.exact,
      ap healthy_for_quorum_count (degrade_all-mark owed rs),
      healthy_for_quorum_count-ids (mark owed rs),
      length-AllIn (eligible_ids (mark owed rs)) c.acked (eligible-NoRepeat owed rs one_each)
          (eligible-AllIn c owed rs (unacked-Covers c rs)),
    )
