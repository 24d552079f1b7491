-- ===== src/Replication/Copies.antt =====
-- Tables that hold copies of the Primary's rows, and what a replicated record makes of them.
use netsy.Base.{
  ℕ, ◌<◌, ◌≡◌, refl, ◌≢◌, ap, sym, ◌∙◌, true, false, Option, none, some, List, [], ◌∷◌, arith, All,
  inl, inr, leb, ◌&&◌, Bool-cases, bytes_equal_iff,
}
use netsy.LocalDb.{Record, Db, ok, find_record_by_rev, unique_conflict, insert_row}
use netsy.LocalDb.Replicate.{
  records_equal_for_replication, stamped, delete_revision, replicate_record, duplicate,
  replicate_tentative_record,
}
use netsy.LocalDb.ReplicateLaws.{stamped-equal}
use netsy.Replication.Stream.{Outside, Persisted, stored, lost, persist, overwrites, without_row}

-- The rows of a Replica, one for each of the Primary's, in the same order.
abbrev pub AllCopies : (copies rows : List Record) → Type 0
AllCopies [] [] = Unit
AllCopies [] (r ∷ rs) = ⊥
AllCopies (q ∷ qs) [] = ⊥
AllCopies (q ∷ qs) (r ∷ rs) = (records_equal_for_replication q r ≡ true) × AllCopies qs rs

pub copy_revision :
    (q r : Record) → records_equal_for_replication q r ≡ true → q.revision ≡ r.revision
unfolding records_equal_for_replication
copy_revision q r h = ground arith

unique_conflict-copies :
    (row : Record) (now : ℕ) (qs rs : List Record)
    → AllCopies qs rs
    → unique_conflict (stamped row now) qs ≡ unique_conflict row rs
unfolding unique_conflict records_equal_for_replication
unique_conflict-copies row now [] [] h = refl
unique_conflict-copies row now [] (r ∷ rs) h = absurd h
unique_conflict-copies row now (q ∷ qs) [] h = absurd h
unique_conflict-copies row now (q ∷ qs) (r ∷ rs) h =
    let same = h.0 in
    ground (arith, (bytes_equal_iff q.key r.key).0, unique_conflict-copies row now qs rs h.1)

copies-differ :
    (rev : ℕ) (qs rs : List Record)
    → AllCopies qs rs
    → All (λ r. r.revision ≢ rev) rs
    → All (λ q. q.revision ≢ rev) qs
copies-differ rev [] [] h d = tt
copies-differ rev [] (r ∷ rs) h d = absurd h
copies-differ rev (q ∷ qs) [] h d = absurd h
copies-differ rev (q ∷ qs) (r ∷ rs) h d =
    let same = copy_revision q r h.0 in (λ e. d.0 (sym same ∙ e), copies-differ rev qs rs h.1 d.1)

delete_revision-none :
    (rev : ℕ) (qs : List Record) → All (λ q. q.revision ≢ rev) qs → delete_revision rev qs ≡ qs
unfolding delete_revision
delete_revision-none rev [] d = refl
delete_revision-none rev (q ∷ qs) d =
    let other = d.0 in ground (arith, delete_revision-none rev qs d.1)

replicate_fresh :
    (db : Db) (row : Record) (now : ℕ)
    → row.revision ≢ 0
    → unique_conflict (stamped row now) db.records ≡ false
    → replicate_record db row now
      ≡ ok (stamped row now, record db { records = stamped row now ∷ db.records })
unfolding replicate_record insert_row
replicate_fresh db row now positive free = ground arith

replicate_over :
    (db : Db) (row : Record) (now : ℕ) (t : Record) (qs : List Record)
    → row.revision ≢ 0
    → db.records ≡ t ∷ qs
    → t.revision ≡ row.revision
    → replicate_record db row now ≡ duplicate db row (some t)
unfolding replicate_record insert_row unique_conflict find_record_by_rev
replicate_over db row now t qs positive shape same = rw shape (ground arith)

-- Nothing on the Replica fails while it persists a record.
pub record IsFine (o : Outside) : Type 0 where
  pub inserts : o.insert_fails ≡ false
  pub deletes : o.delete_fails ≡ false
  pub overwrite : o.overwrite_fails ≡ false
  pub sends : o.first_send_fails && o.second_send_fails ≡ false

-- The record is stored in front of the copies.
abbrev pub IsAdded : Record → (copies : List Record) → Persisted → Type 0
IsAdded row qs (stored q after) =
    (records_equal_for_replication q row ≡ true) × (after.records ≡ q ∷ qs)
IsAdded row qs (lost e left) = ⊥

module _ (db : Db) (row : Record) (committed : ℕ) (o : Outside) (qs : List Record)
    (positive : row.revision ≢ 0) (above : leb row.revision committed ≡ false) (fine : IsFine o)
    (free : unique_conflict (stamped row o.now) qs ≡ false) where
  persist_new : db.records ≡ qs → IsAdded row qs (persist db row committed o)
  unfolding persist overwrites replicate_tentative_record
  persist_new shape =
      let no_clash : unique_conflict (stamped row o.now) db.records ≡ false = rw shape free in
      let new = replicate_fresh db row o.now positive no_clash in
      simp (fine.inserts, new, above) (stamped-equal row o.now, ap (◌∷◌ (stamped row o.now)) shape)

  deleted :
      (t : Record)
      → db.records ≡ t ∷ qs
      → t.revision ≡ row.revision
      → All (λ q. q.revision ≢ row.revision) qs
      → delete_revision row.revision db.records ≡ qs
  unfolding delete_revision
  deleted t shape same differ =
      rw shape (ground (arith, delete_revision-none row.revision qs differ))

  persist_over :
      (t : Record)
      → db.records ≡ t ∷ qs
      → t.revision ≡ row.revision
      → All (λ q. q.revision ≢ row.revision) qs
      → IsAdded row qs (persist db row committed o)
  unfolding persist overwrites replicate_tentative_record duplicate
  persist_over t shape same differ =
      let over = replicate_over db row o.now t qs positive shape same in
      elim (Bool-cases (records_equal_for_replication t row)) [
        | inl equal ↦ simp (fine.inserts, over, above, equal) (refl, shape)
        | inr differs ↦
            let gone = deleted t shape same differ in
            let again =
              replicate_fresh (without_row db row.revision) row o.now positive (rw gone free) in
            simp (fine.inserts, fine.deletes, fine.overwrite, over, above, differs, again)
              (stamped-equal row o.now, ap (◌∷◌ (stamped row o.now)) gone)
      ]

-- A row that no transaction has committed may stand in front of the copies.
abbrev pub with_tentative : Option Record → List Record → List Record
with_tentative none qs = qs
with_tentative (some t) qs = t ∷ qs

abbrev pub HasRevision : ℕ → Option Record → Type 0
HasRevision rev none = Unit
HasRevision rev (some t) = t.revision ≡ rev

-- A record of a revision that no copy has, and that clashes with none of the Primary's rows, is
-- stored in front of the copies; a tentative row of that revision makes way for it.
pub persist-IsAdded :
    (db : Db) (row : Record) (committed : ℕ) (o : Outside) (t : Option Record) (qs rs : List Record)
    → db.records ≡ with_tentative t qs
    → HasRevision row.revision t
    → AllCopies qs rs
    → All (λ r. r.revision ≢ row.revision) rs
    → unique_conflict row rs ≡ false
    → committed < row.revision
    → IsFine o
    → IsAdded row qs (persist db row committed o)
persist-IsAdded db row committed o none qs rs shape same copies differ free above fine =
    persist_new db row committed o qs (omega arith) (ground arith) fine
      (unique_conflict-copies row o.now qs rs copies ∙ free) shape
persist-IsAdded db row committed o (some t) qs rs shape same copies differ free above fine =
    persist_over db row committed o qs (omega arith) (ground arith) fine
      (unique_conflict-copies row o.now qs rs copies ∙ free) t shape same
      (copies-differ row.revision qs rs copies differ)
