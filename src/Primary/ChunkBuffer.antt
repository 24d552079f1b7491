-- ===== src/Primary/ChunkBuffer.antt =====
-- internal/primary/chunk_buffer.go: committed records that still have to reach object storage. A
-- flush holds the lock twice, so it is two steps, and other calls may come between them. The size
-- of an encoded record is a parameter, and what object storage answers is an argument.
use netsy.Base.{
  ℕ, ◌+◌, ◌-◌, ◌*◌, Bool, true, false, not, Option, none, some, List, [], ◌∷◌, ◌++◌, ◌&&◌, ◌||◌,
  ltb, leb, ◌==◌, if◌then◌else◌, length, drop,
}
use netsy.NodeState.{active, draining, State, primary_eq, set_primary}
use netsy.LocalDb.{Record}

pub record ChunkBuffer : Type 0 where
  pub records : List Record
  pub bytes : ℕ
  pub oldest_at : Option ℕ
  pub flushing : Bool
  pub threshold_bytes : ℕ
  pub threshold_age : ℕ

unfoldable pub new_chunk_buffer : (threshold_size_mb threshold_age_minutes : ℕ) → ChunkBuffer
new_chunk_buffer mb minutes = record {
  records = [];
  bytes = 0;
  oldest_at = none;
  flushing = false;
  threshold_bytes = mb * 1024 * 1024;
  threshold_age = minutes * 60000000000;
}

-- What a flush has taken to upload.
pub record Batch : Type 0 where
  pub batch : List Record
  pub batch_bytes : ℕ

-- The first critical section of `flush`.
unfoldable pub begin_flush : ChunkBuffer → Option (Batch × ChunkBuffer)
begin_flush b =
    if length b.records == 0 || b.flushing
    then none
    else some (record { batch = b.records; batch_bytes = b.bytes }, record b { flushing = true })

-- The second one: after an upload that succeeded the batch leaves the buffer.
unfoldable pub end_flush : ChunkBuffer → Batch → (uploaded : Bool) → ChunkBuffer
end_flush b batch uploaded =
    if uploaded
    then (let rest = drop (length batch.batch) b.records in
        record b {
          records = rest;
          bytes = b.bytes - batch.batch_bytes;
          oldest_at = if length rest == 0 then none else b.oldest_at;
          flushing = false;
        })
    else record b { flushing = false }

-- A flush that nothing comes between: the buffer, and whether `flush` returned nil.
unfoldable pub flush : ChunkBuffer → (uploaded : Bool) → ChunkBuffer × Bool
unfolding begin_flush end_flush
flush b uploaded = elim (begin_flush b) [
  | none ↦ (b, true)
  | some (batch, taken) ↦ (end_flush taken batch uploaded, uploaded)
]

abbrev pub is_full : ChunkBuffer → Bool
is_full b = ltb 0 b.threshold_bytes && leb b.threshold_bytes b.bytes

-- `transitionToDraining`: an error of `SetPrimary` is logged.
unfoldable pub transition_to_draining : State → State
unfolding set_primary
transition_to_draining s = if primary_eq s.primary active then (set_primary s draining).0 else s

module _ (size : Record → ℕ) where
  unfoldable pub append_record : ChunkBuffer → Record → (now : ℕ) → ChunkBuffer
  append_record b r now = record b {
    records = b.records ++ r ∷ [];
    bytes = b.bytes + size r;
    oldest_at = if length b.records == 0 then some now else b.oldest_at;
  }

  -- `bufferRecord`: the buffer, the node's state, and whether it returned nil.
  unfoldable pub buffer_record :
      ChunkBuffer → State → Record → (now : ℕ) (uploaded : Bool) → ChunkBuffer × State × Bool
  unfolding append_record flush transition_to_draining
  buffer_record b s r now uploaded =
      let full = append_record b r now in
      let (flushed, fine) = flush full uploaded in
      if not (is_full full)
      then (full, s, true)
      else if fine
      then (flushed, s, true)
      else (flushed, if is_full flushed then transition_to_draining s else s, false)

-- One tick of `Run`: the trigger of a flush, if there is one.
pub data Trigger : Type 0 where
  draining_flush age_flush no_flush : Trigger

abbrev older_than : Option ℕ → (age now : ℕ) → Bool
older_than none age now = false
older_than (some t) age now = leb (t + age) now

unfoldable pub tick : ChunkBuffer → State → (now : ℕ) → Trigger
tick b s now =
    if primary_eq s.primary draining
    then draining_flush
    else if ltb 0 (length b.records)
        && (ltb 0 b.threshold_age && older_than b.oldest_at b.threshold_age now)
    then age_flush
    else no_flush
