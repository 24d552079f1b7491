-- ===== src/Primary/Receipts.antt =====
-- A write that is acknowledged on the quorum path is on enough distinct Replicas.
use netsy.Base.{
  ℕ, ◌≤◌, ◌<◌, ◌≡◌, refl, String, Bool, true, false, List, [], ◌∷◌, ◌&&◌, ◌||◌, arith, leb, ◌==◌,
  if◌then◌else◌, length, str_eq, eq_iff, All, not, ◌∙◌, ◌⊎◌, Bool-cases, inl, inr,
}
use netsy.Primary.Quorum.{
  contains, add_id, ReceiptCollector, new_receipt_collector, collect_receipt, collect_for_revision,
  collect_stream, wait,
}

-- No text stands twice in the list.
abbrev pub NoRepeat : List String → Type 0
NoRepeat [] = Unit
NoRepeat (x ∷ xs) = (contains x xs ≡ false) × NoRepeat xs

-- The nodes whose Receipts are for a revision, in the order of arrival.
abbrev pub senders : ℕ → List (String × ℕ) → List String
senders rev [] = []
senders rev ((id, revision) ∷ rest) =
    let ids = senders rev rest in if rev == revision then id ∷ ids else ids

abbrev pub AllIn : List String → List String → Type 0
AllIn xs ys = All (λ x. contains x ys ≡ true) xs

pub contains-add_id :
    (x y : String) (ids : List String) → contains y (add_id x ids) ≡ (str_eq x y || contains y ids)
unfolding add_id contains
contains-add_id x y ids = ground (arith, eq_iff x y)

add_id-NoRepeat : (x : String) (ids : List String) → NoRepeat ids → NoRepeat (add_id x ids)
unfolding add_id
add_id-NoRepeat x ids h = elim (Bool-cases (contains x ids)) [
  | inl old ↦ simp old h
  | inr new ↦ simp new (refl, h)
]

-- The list without one text.
without : String → List String → List String
without x [] = []
without x (y ∷ ys) = let rest = without x ys in if str_eq y x then rest else y ∷ rest

contains-without :
    (x y : String) (ys : List String)
    → contains y (without x ys) ≡ (if str_eq x y then false else contains y ys)
unfolding without contains
contains-without x y [] = ground arith
contains-without x y (z ∷ zs) =
    ground (arith, eq_iff x y, eq_iff z x, eq_iff z y, contains-without x y zs)

length-without-le : (x : String) (ys : List String) → length (without x ys) ≤ length ys
unfolding without
length-without-le x [] = omega arith
length-without-le x (y ∷ ys) = ground (arith, length-without-le x ys)

length-without :
    (x : String) (ys : List String) → contains x ys ≡ true → length (without x ys) < length ys
unfolding without contains
length-without x [] h = cc
length-without x (y ∷ ys) h = ground (arith, length-without x ys, length-without-le x ys)

AllIn-without :
    (x : String) (xs ys : List String)
    → contains x xs ≡ false
    → AllIn xs ys
    → AllIn xs (without x ys)
unfolding contains
AllIn-without x [] ys h all = tt
AllIn-without x (y ∷ xs) ys h all = (
  ground (arith, contains-without x y ys, eq_iff x y, eq_iff y x, all.0),
  AllIn-without x xs ys (ground arith) all.1,
)

-- A list without repetition whose texts all stand in another is no longer than that one.
pub length-AllIn : (xs ys : List String) → NoRepeat xs → AllIn xs ys → length xs ≤ length ys
length-AllIn [] ys n all = omega arith
length-AllIn (x ∷ xs) ys n all = omega (
  arith,
  length-AllIn xs (without x ys) n.1 (AllIn-without x xs ys n.0 all.1),
  length-without x ys all.0,
)

-- Between two Receipts a collector is done exactly if it has enough distinct answers.
pub record IsCounting (c : ReceiptCollector) : Type 0 where
  pub exact : c.done ≡ leb c.required (length c.acked)
  pub distinct : NoRepeat c.acked

collect_for_revision-IsCounting :
    (c : ReceiptCollector) (id : String) (rev : ℕ)
    → IsCounting c
    → IsCounting (collect_for_revision c id rev)
unfolding collect_for_revision collect_receipt
collect_for_revision-IsCounting c id rev v = record {
  exact = ground (arith, v.exact);
  distinct = ground (arith, v.distinct, add_id-NoRepeat id c.acked);
}

collect_stream-IsCounting :
    (c : ReceiptCollector) (rs : List (String × ℕ))
    → IsCounting c
    → IsCounting (collect_stream c rs)
unfolding collect_stream
collect_stream-IsCounting c [] v = v
collect_stream-IsCounting c ((id, rev) ∷ rest) v =
    collect_stream-IsCounting (collect_for_revision c id rev) rest
      (collect_for_revision-IsCounting c id rev v)

revision-collect :
    (c : ReceiptCollector) (id : String) (rev : ℕ)
    → ((collect_for_revision c id rev).revision ≡ c.revision)
      × ((collect_for_revision c id rev).required ≡ c.required)
unfolding collect_for_revision collect_receipt
revision-collect c id rev = (ground arith, ground arith)

required-stream :
    (c : ReceiptCollector) (rs : List (String × ℕ)) → (collect_stream c rs).required ≡ c.required
unfolding collect_stream
required-stream c [] = refl
required-stream c ((id, rev) ∷ rest) =
    required-stream (collect_for_revision c id rev) rest ∙ (revision-collect c id rev).1

-- One Receipt: nothing is forgotten, and what is new came from its sender and for the revision.
acked-collect :
    (c : ReceiptCollector) (id : String) (rev : ℕ) (y : String)
    → contains y (collect_for_revision c id rev).acked
      ≡ (contains y c.acked || ((not c.done && c.revision == rev) && str_eq id y))
unfolding collect_for_revision collect_receipt
acked-collect c id rev y = ground (arith, contains-add_id id y c.acked)

acked-stream :
    (c : ReceiptCollector) (rs : List (String × ℕ)) (y : String)
    → contains y (collect_stream c rs).acked ≡ true
    → (contains y c.acked ≡ true) ⊎ (contains y (senders c.revision rs) ≡ true)
unfolding collect_stream contains
acked-stream c [] y h = inl h
acked-stream c ((id, rev) ∷ rest) y h = ground (
  arith,
  acked-collect c id rev y,
  revision-collect c id rev,
  acked-stream (collect_for_revision c id rev) rest y h,
)

done-stream :
    (c : ReceiptCollector) (rs : List (String × ℕ))
    → c.done ≡ true
    → (collect_stream c rs).done ≡ true
unfolding collect_stream collect_for_revision collect_receipt
done-stream c [] h = h
done-stream c ((id, rev) ∷ rest) h = done-stream (collect_for_revision c id rev) rest (ground arith)

-- A collector that is not done at the end has kept every answer.
open-stream :
    (c : ReceiptCollector) (rs : List (String × ℕ)) (y : String)
    → (collect_stream c rs).done ≡ false
    → (contains y c.acked ≡ true) ⊎ (contains y (senders c.revision rs) ≡ true)
    → contains y (collect_stream c rs).acked ≡ true
unfolding collect_stream contains
open-stream c [] y still h = ground arith
open-stream c ((id, rev) ∷ rest) y still h = ground (
  arith,
  acked-collect c id rev y,
  revision-collect c id rev,
  done-stream c ((id, rev) ∷ rest),
  open-stream (collect_for_revision c id rev) rest y still,
)

contains-nil : (y : String) → contains y [] ≡ false
unfolding contains
contains-nil y = refl

contains_refl : (x : String) (xs : List String) → contains x (x ∷ xs) ≡ true
unfolding contains
contains_refl x xs = ground (arith, eq_iff x x)

contains-cons :
    (x y : String) (xs : List String) → contains x xs ≡ true → contains x (y ∷ xs) ≡ true
unfolding contains
contains-cons x y xs h = ground arith

pub AllIn-of :
    (xs ys : List String)
    → ((y : String) → contains y xs ≡ true → contains y ys ≡ true)
    → AllIn xs ys
AllIn-of [] ys f = tt
AllIn-of (x ∷ xs) ys f =
    (f x (contains_refl x xs), AllIn-of xs ys (λ y h. f y (contains-cons y x xs h)))

AllIn-elim :
    (xs ys : List String) (y : String) → AllIn xs ys → contains y xs ≡ true → contains y ys ≡ true
unfolding contains
AllIn-elim [] ys y all h = cc
AllIn-elim (x ∷ xs) ys y all h = ground (arith, eq_iff x y, all.0, AllIn-elim xs ys y all.1)

module _ (revision required : ℕ) (rs : List (String × ℕ)) (positive : 1 ≤ required) where
  abbrev final : ReceiptCollector
  final = collect_stream (new_receipt_collector revision required) rs

  final-IsCounting : IsCounting final
  final-IsCounting =
      collect_stream-IsCounting (new_receipt_collector revision required) rs
        (record { exact = ground arith; distinct = tt })

  final_required : final.required ≡ required
  final_required = required-stream (new_receipt_collector revision required) rs

  -- If `wait` returns true, where the strategy requires at least one Receipt, the collector holds at
  -- least as many IDs as it requires, none of them twice, and each is that of a node that has sent a
  -- Receipt for the revision.
  pub wait_sound :
      (timer_won : Bool)
      → wait (collect_stream (new_receipt_collector revision required) rs) timer_won ≡ true
      → let c = collect_stream (new_receipt_collector revision required) rs in
        NoRepeat c.acked × AllIn c.acked (senders revision rs) × (required ≤ length c.acked)
  wait_sound timer_won h = (
    final-IsCounting.distinct,
    AllIn-of final.acked (senders revision rs) λ y there.
        ground (
          arith,
          acked-stream (new_receipt_collector revision required) rs y there,
          contains-nil y,
        ),
    ground (arith, final-IsCounting.exact, final_required),
  )

  -- If any `required` distinct nodes have answered for the revision, the collector is done, whatever
  -- other Receipts came and in whatever order: without the timer `wait` returns true.
  pub wait_complete :
      (ids : List String)
      → NoRepeat ids
      → AllIn ids (senders revision rs)
      → required ≤ length ids
      → wait (collect_stream (new_receipt_collector revision required) rs) false ≡ true
  wait_complete ids distinct answered enough = elim (Bool-cases final.done) [
    | inl done ↦ ground arith
    | inr still ↦
        let kept : AllIn ids final.acked = AllIn-of ids final.acked λ y there.
          open-stream (new_receipt_collector revision required) rs y still
            (inr (AllIn-elim ids (senders revision rs) y answered there)) in
        ground (
          arith,
          final-IsCounting.exact,
          final_required,
          length-AllIn ids final.acked distinct kept,
        )
  ]
