-- ===== src/Base/Sorting.antt =====
-- Go's sort.Slice by a number, and SQL's ORDER BY of one: the least first.
use Prim.Native.Nat.{ℕ}
use mathlib.Core.Logic.{inl, inr}
use mathlib.Core.Bool.{Bool}
use mathlib.Core.List.{List, [], ◌∷◌}
use netsy.Base.Tests.{ltb, if◌then◌else◌, Bool-cases}
use netsy.Base.Lists.{All, select}

module _ {ℓ} {A : Type ℓ} where
  unfoldable pub insert_by : (A → ℕ) → A → List A → List A
  insert_by key a [] = a ∷ []
  insert_by key a (b ∷ bs) =
      let rest = insert_by key a bs in if ltb (key b) (key a) then b ∷ rest else a ∷ b ∷ bs

  unfoldable pub sort_by : (A → ℕ) → List A → List A
  unfolding insert_by
  sort_by key [] = []
  sort_by key (a ∷ rest) = insert_by key a (sort_by key rest)

  All-insert_by {κ} :
      (P : A → Type κ) (key : A → ℕ) (a : A) (bs : List A)
      → All P (insert_by key a bs)
      → P a × All P bs
  unfolding insert_by
  All-insert_by P key a [] h = h
  All-insert_by P key a (b ∷ bs) h = elim (Bool-cases (ltb (key b) (key a))) [
    | inl e ↦
        let k : P b × All P (insert_by key a bs) = simp e at h in
        let rest = All-insert_by P key a bs k.1 in (rest.0, (k.0, rest.1))
    | inr e ↦ simp e at h
  ]

  -- What holds of the sorted elements holds of all of them.
  pub All-sort_by {κ} :
      (P : A → Type κ) (key : A → ℕ) (xs : List A) → All P (sort_by key xs) → All P xs
  unfolding sort_by
  All-sort_by P key [] h = h
  All-sort_by P key (a ∷ rest) h =
      let parts = All-insert_by P key a (sort_by key rest) h in
      (parts.0, All-sort_by P key rest parts.1)

  insert_by-All {κ} :
      (P : A → Type κ) (key : A → ℕ) (a : A) (bs : List A)
      → P a
      → All P bs
      → All P (insert_by key a bs)
  unfolding insert_by
  insert_by-All P key a [] p h = (p, h)
  insert_by-All P key a (b ∷ bs) p h = elim (Bool-cases (ltb (key b) (key a))) [
    | inl e ↦ simp e (h.0, insert_by-All P key a bs p h.1)
    | inr e ↦ simp e (p, h)
  ]

  pub sort_by-All {κ} :
      (P : A → Type κ) (key : A → ℕ) (xs : List A) → All P xs → All P (sort_by key xs)
  unfolding sort_by
  sort_by-All P key [] h = h
  sort_by-All P key (a ∷ rest) h =
      insert_by-All P key a (sort_by key rest) h.0 (sort_by-All P key rest h.1)

  pub select-All {κ} :
      (P : A → Type κ) (p : A → Bool) (xs : List A) → All P xs → All P (select p xs)
  select-All P p [] h = h
  select-All P p (x ∷ xs) h = elim (Bool-cases (p x)) [
    | inl e ↦ simp e (h.0, select-All P p xs h.1)
    | inr e ↦ simp e (select-All P p xs h.1)
  ]
