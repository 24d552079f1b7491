-- ===== src/LocalDb/FindOrder.antt =====
-- The rows that ORDER BY puts in order.

use mathlib.Core.List.{Perm}
use mathlib.Core.List.Perm
use netsy.Base.{◌≡◌, refl, true, false, List, [], ◌∷◌, arith, Bytes, Bool-cases, inl, inr}
use netsy.LocalDb.Find.{
  bytes_less, Order, asc, desc, other, OutRow, row_less, before, insert_sorted, sort_rows,
}

pub bytes_less_asymm : (a b : Bytes) → bytes_less a b ≡ true → bytes_less b a ≡ false
unfolding bytes_less
bytes_less_asymm [] [] h = cc
bytes_less_asymm [] (b ∷ bs) h = refl
bytes_less_asymm (a ∷ as') [] h = cc
bytes_less_asymm (a ∷ as') (b ∷ bs) h = ground (arith, bytes_less_asymm as' bs)

before_asymm : (o : Order) (a b : OutRow) → before o a b ≡ true → before o b a ≡ false
unfolding row_less
before_asymm asc a b h = ground (arith, bytes_less_asymm a.record_of.key b.record_of.key)
before_asymm desc a b h = ground (arith, bytes_less_asymm b.record_of.key a.record_of.key)
before_asymm other a b h = ground (arith, bytes_less_asymm a.record_of.key b.record_of.key)

-- No row of the list stands right behind one that it should stand before.
abbrev pub Leads : Order → OutRow → List OutRow → Type 0
Leads o a [] = Unit
Leads o a (b ∷ rest) = before o b a ≡ false

abbrev pub IsOrdered : Order → List OutRow → Type 0
IsOrdered o [] = Unit
IsOrdered o (a ∷ rest) = Leads o a rest × IsOrdered o rest

insert_sorted-Leads :
    (o : Order) (a b : OutRow) (rows : List OutRow)
    → Leads o b rows
    → before o a b ≡ false
    → Leads o b (insert_sorted o a rows)
unfolding insert_sorted
insert_sorted-Leads o a b [] h e = e
insert_sorted-Leads o a b (c ∷ rest) h e = elim (Bool-cases (before o c a)) [
  | inl first ↦ simp first h
  | inr later ↦ simp later e
]

insert_sorted-IsOrdered :
    (o : Order) (a : OutRow) (rows : List OutRow)
    → IsOrdered o rows
    → IsOrdered o (insert_sorted o a rows)
unfolding insert_sorted
insert_sorted-IsOrdered o a [] h = (tt, tt)
insert_sorted-IsOrdered o a (b ∷ rest) h = elim (Bool-cases (before o b a)) [
  | inl first ↦
      let behind = insert_sorted-Leads o a b rest h.0 (before_asymm o b a first) in
      let sorted = insert_sorted-IsOrdered o a rest h.1 in simp first (behind, sorted)
  | inr later ↦ simp later (refl, h)
]

pub sort_rows-IsOrdered : (o : Order) (rows : List OutRow) → IsOrdered o (sort_rows o rows)
unfolding sort_rows
sort_rows-IsOrdered o [] = tt
sort_rows-IsOrdered o (a ∷ rest) =
    let sorted = insert_sorted-IsOrdered o a (sort_rows o rest) (sort_rows-IsOrdered o rest) in
    sorted

insert_sorted-perm :
    (o : Order) (a : OutRow) (rows : List OutRow) → Perm (insert_sorted o a rows) (a ∷ rows)
unfolding insert_sorted
insert_sorted-perm o a [] = Perm.refl _
insert_sorted-perm o a (b ∷ rest) = elim (Bool-cases (before o b a)) [
  | inl first ↦
      let ih = insert_sorted-perm o a rest in
      simp first (Perm.trans (Perm.cons b ih) (Perm.swap a b rest))
  | inr later ↦ simp later (Perm.refl _)
]

pub sort_rows-perm : (o : Order) (rows : List OutRow) → Perm (sort_rows o rows) rows
unfolding sort_rows
sort_rows-perm o [] = Perm.refl _
sort_rows-perm o (a ∷ rest) =
    let ih = sort_rows-perm o rest in
    Perm.trans (insert_sorted-perm o a (sort_rows o rest)) (Perm.cons a ih)
