-- ===== src/LocalDb/ReplicateRows.antt =====
-- A replicated row keeps the table well formed.
use netsy.Base.{ℕ, ◌≡◌, ◌≢◌, false, List, [], ◌∷◌, arith, All, inl, inr}
use netsy.LocalDb.{Record, Db, ok, unique_conflict}
use netsy.LocalDb.Latest.{RowOk, IsWellFormed}
use netsy.LocalDb.Replicate.{replicate_record, stamped}
use netsy.LocalDb.ReplicateLaws.{replicate_record-inv}

pub no_conflict-differ :
    (row : Record) (rs : List Record)
    → unique_conflict row rs ≡ false
    → All (λ q. q.revision ≢ row.revision) rs
unfolding unique_conflict
no_conflict-differ row [] h = tt
no_conflict-differ row (r ∷ rs) h = (ground arith, no_conflict-differ row rs (ground arith))

stamped-RowOk : (r : Record) (now : ℕ) → RowOk r → RowOk (stamped r now)
stamped-RowOk r now h = record {
  positive = h.positive;
  prev_older = h.prev_older;
  create_le = h.create_le;
  tombstone_version = h.tombstone_version;
}

pub replicate_record-IsWellFormed :
    (db : Db) (r : Record) (now : ℕ) (row : Record) (after : Db)
    → IsWellFormed db.records
    → RowOk r
    → replicate_record db r now ≡ ok (row, after)
    → IsWellFormed after.records
replicate_record-IsWellFormed db r now row after w good h =
    elim (replicate_record-inv db r now row after h) [
      | inl (e, f, free) ↦ rw f (record {
        rows = (stamped-RowOk r now good, w.rows);
        distinct = (no_conflict-differ (stamped r now) db.records free, w.distinct);
      })
      | inr (found, equal, f) ↦ rw f w
    ]
