-- ===== src/Datastore/ImportLaws.antt =====
-- What an import and an upload leave behind.
use netsy.Base.{
  ℕ, ◌≡◌, refl, Bool, true, false, Option, none, some, List, [], ◌∷◌, arith, All, ◌⊎◌, inl, inr,
  ◌==◌, Bool-cases,
}
use netsy.LocalDb.{Record, Db, Result, ok, err}
use netsy.LocalDb.Latest.{RowOk, IsWellFormed}
use netsy.LocalDb.Replicate.{replicate_record}
use netsy.LocalDb.ReplicateRows.{replicate_record-IsWellFormed}
use netsy.Datastore.{
  Chunk, find_chunk, marshal_chunk, already_there, put_if_absent, next_import, import_records,
  download_and_import_file,
}

next_import-IsWellFormed :
    (r : Record) (now : ℕ) (rest : Db → Db × Bool) (db : Db) (out : Result (Record × Db))
    → IsWellFormed db.records
    → RowOk r
    → replicate_record db r now ≡ out
    → ((after : Db) → IsWellFormed after.records → IsWellFormed (rest after).0.records)
    → IsWellFormed (next_import rest db out).0.records
next_import-IsWellFormed r now rest db (err e) w good h keep = w
next_import-IsWellFormed r now rest db (ok (row, after)) w good h keep =
    keep after (replicate_record-IsWellFormed db r now row after w good h)

import_records-IsWellFormed :
    (now : ℕ) (rs : List Record) (db : Db)
    → IsWellFormed db.records
    → All RowOk rs
    → IsWellFormed (import_records now rs db).0.records
unfolding import_records
import_records-IsWellFormed now [] db w good = w
import_records-IsWellFormed now (r ∷ rs) db w good =
    next_import-IsWellFormed r now (import_records now rs) db (replicate_record db r now) w good.0
      refl (λ after w'. import_records-IsWellFormed now rs after w' good.1)

-- An import, whether all of the file goes in or not, keeps the table well formed.
pub download-IsWellFormed :
    (db : Db) (c : Chunk) (now : ℕ) (fails : Bool)
    → IsWellFormed db.records
    → All RowOk c.records
    → IsWellFormed (download_and_import_file db c now fails).0.records
unfolding download_and_import_file
download-IsWellFormed db c now true w good = w
download-IsWellFormed db c now false w good = import_records-IsWellFormed now c.records db w good

-- An object named by the revision of the row holds it, and nothing else.
abbrev pub IsUploaded : Record → List Chunk → Type 0
IsUploaded row [] = ⊥
IsUploaded row (c ∷ cs) = ((c.revision ≡ row.revision) × (c.records ≡ row ∷ [])) ⊎ IsUploaded row cs

abbrev pub HasChunk : ℕ → List Chunk → Type 0
HasChunk rev [] = ⊥
HasChunk rev (c ∷ cs) = (c.revision ≡ rev) ⊎ HasChunk rev cs

found-IsUploaded :
    (row : Record) (cs : List Chunk) (c : Chunk)
    → find_chunk row.revision cs ≡ some c
    → c.records ≡ row ∷ []
    → IsUploaded row cs
unfolding find_chunk
found-IsUploaded row [] c h same = cc
found-IsUploaded row (d ∷ ds) c h same = elim (Bool-cases (d.revision == row.revision)) [
  | inl e ↦ let it : d ≡ c = ground arith in inl (ground arith, rw it same)
  | inr e ↦ inr (found-IsUploaded row ds c (ground arith) same)
]

-- What equal bytes say of two files: the header's time and the records are the same.
pub record IsFaithful (same : Chunk → Chunk → Bool) : Type 0 where
  pub times : (a b : Chunk) → same a b ≡ true → a.created_at ≡ b.created_at
  pub contents : (a b : Chunk) → same a b ≡ true → a.records ≡ b.records

module _ (same : Chunk → Chunk → Bool) (faithful : IsFaithful same) where
  abbrev pub OnWritten : Record → List Chunk → Option (List Chunk) → Type 0
  OnWritten row before none = Unit
  OnWritten row before (some after) =
      IsUploaded row after × ((q : Record) → IsUploaded q before → IsUploaded q after)

  already_there-OnWritten :
      (store : List Chunk) (row : Record) (now : ℕ) (get_fails : Bool) (found : Option Chunk)
      → find_chunk row.revision store ≡ found
      → OnWritten row store (already_there same store (marshal_chunk row now) get_fails found)
  already_there-OnWritten store row now get_fails none h = (inl (refl, refl), λ q there. inr there)
  already_there-OnWritten store row now true (some existing) h = tt
  already_there-OnWritten store row now false (some existing) h =
      elim (Bool-cases (same existing (marshal_chunk row now))) [
        | inr e ↦ simp e tt
        | inl e ↦ simp e (
          found-IsUploaded row store existing h (faithful.contents existing _ e),
          λ q there. there,
        )
      ]

  -- After a successful upload an object holds the record, and every other upload is still there.
  pub put_if_absent-OnWritten :
      (store : List Chunk) (row : Record) (now : ℕ) (put_fails get_fails : Bool)
      → OnWritten row store (put_if_absent same store (marshal_chunk row now) put_fails get_fails)
  unfolding put_if_absent
  put_if_absent-OnWritten store row now true get_fails = tt
  put_if_absent-OnWritten store row now false get_fails =
      already_there-OnWritten store row now get_fails (find_chunk row.revision store) refl
