-- ===== src/Watch/PendingLaws.antt =====
-- Which pending revisions are delivered, and in which order.
use netsy.Base.{
  ℕ, ◌<◌, ◌≡◌, refl, Bool, false, not, List, [], ◌∷◌, ◌||◌, ◌&&◌, ◌∙◌, leb, ltb, ◌==◌, arith,
  select, Bool-cases, inl, inr,
}
use netsy.Watch.Manager.{
  Manager, holds, enqueue_watch_revision, insert_revision, sort_revisions, take_ready,
}

-- A set: no revision twice.
abbrev pub NoTwice : List ℕ → Type 0
NoTwice [] = Unit
NoTwice (n ∷ ns) = (holds n ns ≡ false) × NoTwice ns

abbrev pub Below : ℕ → List ℕ → Type 0
Below n [] = Unit
Below n (x ∷ xs) = n < x

abbrev pub Ascends : List ℕ → Type 0
Ascends [] = Unit
Ascends (n ∷ ns) = Below n ns × Ascends ns

enqueue-NoTwice :
    (m : Manager) (rev : ℕ) → NoTwice m.pending → NoTwice (enqueue_watch_revision m rev).pending
unfolding enqueue_watch_revision
enqueue-NoTwice m rev h = elim (Bool-cases (rev == 0 || holds rev m.pending)) [
  | inl known ↦ simp known h
  | inr new ↦ simp new (ground arith, h)
]

holds-insert : (k n : ℕ) (ns : List ℕ) → holds k (insert_revision n ns) ≡ (n == k || holds k ns)
unfolding insert_revision holds
holds-insert k n [] = refl
holds-insert k n (x ∷ xs) = ground (arith, holds-insert k n xs)

holds-sort : (k : ℕ) (ns : List ℕ) → holds k (sort_revisions ns) ≡ holds k ns
unfolding sort_revisions holds
holds-sort k [] = refl
holds-sort k (n ∷ ns) = ground (arith, holds-insert k n (sort_revisions ns), holds-sort k ns)

holds-select :
    (p : ℕ → Bool) (k : ℕ) (ns : List ℕ) → holds k ns ≡ false → holds k (select p ns) ≡ false
unfolding holds
holds-select p k [] h = refl
holds-select p k (n ∷ ns) h = elim (Bool-cases (p n)) [
  | inl e ↦ simp e (ground (arith, holds-select p k ns))
  | inr e ↦ simp e (ground (arith, holds-select p k ns))
]

select-NoTwice : (p : ℕ → Bool) (ns : List ℕ) → NoTwice ns → NoTwice (select p ns)
select-NoTwice p [] h = tt
select-NoTwice p (n ∷ ns) h = elim (Bool-cases (p n)) [
  | inl e ↦ simp e (holds-select p n ns h.0, select-NoTwice p ns h.1)
  | inr e ↦ simp e (select-NoTwice p ns h.1)
]

insert-Below : (k n : ℕ) (ns : List ℕ) → k < n → Below k ns → Below k (insert_revision n ns)
unfolding insert_revision
insert-Below k n [] lt h = lt
insert-Below k n (x ∷ xs) lt h = elim (Bool-cases (ltb x n)) [
  | inl e ↦ simp e h
  | inr e ↦ simp e lt
]

insert-Ascends :
    (n : ℕ) (ns : List ℕ) → holds n ns ≡ false → Ascends ns → Ascends (insert_revision n ns)
unfolding insert_revision holds
insert-Ascends n [] new h = (tt, tt)
insert-Ascends n (x ∷ xs) new h = elim (Bool-cases (ltb x n)) [
  | inl e ↦
      let behind = insert-Below x n xs (ground arith) h.0 in
      let sorted = insert-Ascends n xs (ground arith) h.1 in simp e (behind, sorted)
  | inr e ↦ let first : n < x = ground arith in simp e (first, h)
]

sort-Ascends : (ns : List ℕ) → NoTwice ns → Ascends (sort_revisions ns)
unfolding sort_revisions
sort-Ascends [] h = tt
sort-Ascends (n ∷ ns) h =
    insert-Ascends n (sort_revisions ns) (ground (arith, holds-sort n ns, h.0))
      (sort-Ascends ns h.1)

split-holds :
    (rev k : ℕ) (ns : List ℕ)
    → (holds k (select (λ r. leb r rev) ns) ≡ (holds k ns && leb k rev))
      × (holds k (select (λ r. not (leb r rev)) ns) ≡ (holds k ns && not (leb k rev)))
unfolding holds
split-holds rev k [] = (refl, refl)
split-holds rev k (n ∷ ns) =
    let (small, large) = split-holds rev k ns in
    elim (Bool-cases (leb n rev)) [
      | inl e ↦ (simp e (ground (arith, small)), simp e (ground (arith, large)))
      | inr e ↦ (simp e (ground (arith, small)), simp e (ground (arith, large)))
    ]

-- When the committed revision advances, the revisions that are delivered ascend, each once. They are
-- the pending ones up to it, and those above it stay pending.
pub take_ready_lem :
    (rev : ℕ) (pending : List ℕ)
    → NoTwice pending
    → let (ready, waiting) = take_ready rev pending in
      Ascends ready
      × ((k : ℕ) → holds k ready ≡ (holds k pending && leb k rev))
      × ((k : ℕ) → holds k waiting ≡ (holds k pending && not (leb k rev)))
      × NoTwice waiting
unfolding take_ready
take_ready_lem rev pending once = (
  sort-Ascends (select (λ r. leb r rev) pending) (select-NoTwice (λ r. leb r rev) pending once),
  λ k. holds-sort k (select (λ r. leb r rev) pending) ∙ (split-holds rev k pending).0,
  λ k. (split-holds rev k pending).1,
  select-NoTwice (λ r. not (leb r rev)) pending once,
)
