-- ===== src/LocalDb/Sound.antt =====
-- Tables with positive revisions, each once: replicate.go, and the count of `VerifyIntegrity`.
use netsy.Base.{
  ℕ, zero, suc, ◌≤◌, ◌<◌, ◌≡◌, refl, sym, ◌≢◌, none, List, [], ◌∷◌, arith, All, inl, inr, length,
  ◌==◌, Bool-cases,
}
use netsy.LocalDb.{Record, Db, ok, latest_revision, find_record_by_rev, verify_integrity}
use netsy.LocalDb.Latest.{Distinct}
use netsy.LocalDb.Replicate.{replicate_record, delete_revision, replicate_tentative_record, stamped}
use netsy.LocalDb.ReplicateLaws.{replicate_record-inv, tentative-inv, find-delete_revision}
use netsy.LocalDb.ReplicateRows.{no_conflict-differ}

abbrev pub Positive : Record → Type 0
Positive r = 1 ≤ r.revision

abbrev pub IsSound : List Record → Type 0
IsSound rs = All Positive rs × Distinct rs

pub delete_revision-All :
    (P : Record → Type 0) (rev : ℕ) (rs : List Record) → All P rs → All P (delete_revision rev rs)
unfolding delete_revision
delete_revision-All P rev [] h = tt
delete_revision-All P rev (r ∷ rs) h =
    let rest : All P (delete_revision rev rs) = delete_revision-All P rev rs h.1 in
    elim (Bool-cases (r.revision == rev)) [ inl e ↦ simp e rest | inr e ↦ simp e (h.0, rest) ]

pub delete_revision-Distinct :
    (rev : ℕ) (rs : List Record) → Distinct rs → Distinct (delete_revision rev rs)
unfolding delete_revision
delete_revision-Distinct rev [] h = tt
delete_revision-Distinct rev (r ∷ rs) h =
    let rest = delete_revision-Distinct rev rs h.1 in
    elim (Bool-cases (r.revision == rev)) [
      | inl e ↦ simp e rest
      | inr e ↦ simp e (delete_revision-All (λ q. q.revision ≢ r.revision) rev rs h.0, rest)
    ]

pub delete_revision-IsSound :
    (rev : ℕ) (rs : List Record) → IsSound rs → IsSound (delete_revision rev rs)
delete_revision-IsSound rev rs h =
    (delete_revision-All Positive rev rs h.0, delete_revision-Distinct rev rs h.1)

replicate_record-positive :
    (db : Db) (r : Record) (now : ℕ) (out : Record × Db)
    → replicate_record db r now ≡ ok out
    → 1 ≤ r.revision
unfolding replicate_record
replicate_record-positive db r now out h = ground arith

pub replicate_record-IsSound :
    (db : Db) (r : Record) (now : ℕ) (row : Record) (after : Db)
    → IsSound db.records
    → replicate_record db r now ≡ ok (row, after)
    → IsSound after.records
replicate_record-IsSound db r now row after w h = elim (replicate_record-inv db r now row after h) [
  | inl (e, f, free) ↦ rw f (
    (replicate_record-positive db r now (row, after) h, w.0),
    (no_conflict-differ (stamped r now) db.records free, w.1),
  )
  | inr (found, equal, f) ↦ rw f w
]

pub tentative-IsSound :
    (db : Db) (r : Record) (committed now : ℕ) (row : Record) (after : Db)
    → IsSound db.records
    → replicate_tentative_record db r committed now ≡ ok (row, after)
    → IsSound after.records
tentative-IsSound db r committed now row after w h =
    elim (tentative-inv db r committed now row after h) [
      | inl copied ↦ replicate_record-IsSound db r now row after w copied
      | inr (above, copied) ↦
          replicate_record-IsSound (record db { records = delete_revision r.revision db.records }) r
            now row after (delete_revision-IsSound r.revision db.records w) copied
    ]

-- The count of the rows.
abbrev Bounded : ℕ → List Record → Type 0
Bounded n rs = All (λ r. r.revision ≤ n) rs

delete_revision-absent :
    (rev : ℕ) (rs : List Record) → All (λ q. q.revision ≢ rev) rs → delete_revision rev rs ≡ rs
unfolding delete_revision
delete_revision-absent rev [] h = refl
delete_revision-absent rev (r ∷ rs) h = ground (arith, delete_revision-absent rev rs h.1)

length-delete_revision :
    (rev : ℕ) (rs : List Record) → Distinct rs → length rs ≤ suc (length (delete_revision rev rs))
unfolding delete_revision
length-delete_revision rev [] h = omega arith
length-delete_revision rev (r ∷ rs) h = elim (Bool-cases (r.revision == rev)) [
  | inl e ↦
      let same : r.revision ≡ rev = ground arith in
      simp e (rw (delete_revision-absent rev rs (rw (sym same) h.0)) (omega arith))
  | inr e ↦ let rest = length-delete_revision rev rs h.1 in simp e (omega (arith, rest))
]

missing-Bounded :
    (n : ℕ) (rs : List Record)
    → find_record_by_rev (suc n) rs ≡ none
    → Bounded (suc n) rs
    → Bounded n rs
unfolding find_record_by_rev
missing-Bounded n [] h b = tt
missing-Bounded n (r ∷ rs) h b = (ground arith, missing-Bounded n rs (ground arith) b.1)

zero-Bounded : (rs : List Record) → All Positive rs → Bounded 0 rs → length rs ≡ 0
zero-Bounded [] h b = refl
zero-Bounded (r ∷ rs) h b = absurd (omega (arith, h.0, b.0))

delete_revision-Bounded :
    (n : ℕ) (rs : List Record) → Bounded (suc n) rs → Bounded n (delete_revision (suc n) rs)
delete_revision-Bounded n rs b =
    missing-Bounded n (delete_revision (suc n) rs)
      (rw (find-delete_revision (suc n) (suc n) rs) (ground arith))
      (delete_revision-All (λ r. r.revision ≤ suc n) (suc n) rs b)

length-Bounded : (n : ℕ) (rs : List Record) → IsSound rs → Bounded n rs → length rs ≤ n
length-Bounded zero rs w b = omega (arith, zero-Bounded rs w.0 b)
length-Bounded (suc n) rs w b =
    let less =
      length-Bounded n (delete_revision (suc n) rs) (delete_revision-IsSound (suc n) rs w)
        (delete_revision-Bounded n rs b) in
    omega (arith, less, length-delete_revision (suc n) rs w.1)

-- A revision that is missing makes the rows fewer than the bound.
length-missing :
    (n : ℕ) (rs : List Record) (rev : ℕ)
    → IsSound rs
    → Bounded n rs
    → 1 ≤ rev
    → rev ≤ n
    → find_record_by_rev rev rs ≡ none
    → length rs < n
length-missing zero rs rev w b low high h = absurd (omega arith)
length-missing (suc n) rs rev w b low high h = elim (Bool-cases (rev == suc n)) [
  | inl e ↦
      let last : rev ≡ suc n = ground arith in
      let less = length-Bounded n rs w (missing-Bounded n rs (rw (sym last) h) b) in
      omega (arith, less)
  | inr e ↦
      let less =
        length-missing n (delete_revision (suc n) rs) rev (delete_revision-IsSound (suc n) rs w)
          (delete_revision-Bounded n rs b) low (ground arith)
          (rw (find-delete_revision (suc n) rev rs) (ground arith)) in
      omega (arith, less, length-delete_revision (suc n) rs w.1)
]

latest-Bounded : (rs : List Record) (n : ℕ) → latest_revision rs ≤ n → Bounded n rs
unfolding latest_revision
latest-Bounded [] n h = tt
latest-Bounded (r ∷ rs) n h = (ground arith, latest-Bounded rs n (ground arith))

-- Every revision up to the latest has its row.
abbrev pub IsGapless : List Record → Type 0
IsGapless rs = (rev : ℕ) → 1 ≤ rev → rev ≤ latest_revision rs → find_record_by_rev rev rs ≢ none

-- A count that equals the latest revision leaves no gap.
pub verify_integrity-IsGapless :
    (db : Db) → IsSound db.records → verify_integrity db ≡ ok tt → IsGapless db.records
unfolding verify_integrity
verify_integrity-IsGapless db w h rev low high missing =
    let less =
      length-missing (latest_revision db.records) db.records rev w
        (latest-Bounded db.records _ (omega arith)) low high missing in
    ground arith
