-- ===== src/Primary/BufferLaws.antt =====
-- No interleaving of appends and flushes loses, repeats or reorders a committed record.
use mathlib.Core.List.{append_assoc, append-nil}
use netsy.Base.{
  ℕ, ◌+◌, ◌-◌, ◌≡◌, refl, sym, ap, ◌∙◌, Bool, true, false, some, All, All-imp, All-join,
  if◌then◌else◌, List, [], ◌∷◌, ◌++◌, ◌⊎◌, arith, inl, inr, length, drop, drop-append,
}
use netsy.LocalDb.{Record}
use netsy.Primary.ChunkBuffer.{
  ChunkBuffer, Batch, new_chunk_buffer, begin_flush, end_flush, append_record,
}

-- A chunk that has reached object storage, and whether its upload has returned nil: its answer may be
-- lost.
pub record Stored : Type 0 where
  pub chunk : List Record
  pub answered : Bool

-- The records of the uploads that have returned nil.
abbrev pub acknowledged : List Stored → List Record
acknowledged [] = []
acknowledged (o ∷ os) = let rest = acknowledged os in if o.answered then o.chunk ++ rest else rest

acknowledged-append :
    (os : List Stored) (o : Stored)
    → acknowledged (os ++ o ∷ [])
      ≡ (if o.answered then acknowledged os ++ o.chunk else acknowledged os)
acknowledged-append [] o = if-nil o.answered o.chunk
  where
    if-nil : (b : Bool) (xs : List Record) → (if b then xs ++ [] else []) ≡ (if b then xs else [])
    if-nil true xs = append-nil xs
    if-nil false xs = refl
acknowledged-append (p ∷ os) o =
    if-step p.answered o.answered p.chunk (acknowledged os) o.chunk _ (acknowledged-append os o)
  where
    if-step :
        (a b : Bool) (xs ys zs ws : List Record)
        → ws ≡ (if b then ys ++ zs else ys)
        → (if a then xs ++ ws else ws)
          ≡ (if b then (if a then xs ++ ys else ys) ++ zs else (if a then xs ++ ys else ys))
    if-step true true xs ys zs ws e =
        ap (λ (l : List Record). xs ++ l) e ∙ sym (append_assoc xs ys zs)
    if-step true false xs ys zs ws e = ap (λ (l : List Record). xs ++ l) e
    if-step false true xs ys zs ws e = e
    if-step false false xs ys zs ws e = e

-- The chunk is a part of the records without a gap.
abbrev pub IsPart : List Record → Stored → Type 0
IsPart history o =
    (before : List Record) × (after : List Record) × (before ++ (o.chunk ++ after) ≡ history)

-- The buffer with its surroundings: the uploads under way, the chunks that have reached object storage
-- in their order, and all records that were ever appended.
pub record System : Type 0 where
  pub buffer : ChunkBuffer
  pub uploads : List Batch
  pub stored : List Stored
  pub history : List Record

module _ (size : Record → ℕ) where
  abbrev pub total : List Record → ℕ
  total [] = 0
  total (r ∷ rs) = size r + total rs

  total-append : (xs ys : List Record) → total (xs ++ ys) ≡ total xs + total ys
  total-append [] ys = omega arith
  total-append (x ∷ xs) ys = omega (arith, total-append xs ys)

  -- Any goroutine may append or begin a flush, and any upload may end at any time: well, with its
  -- answer lost, or without effect. The buffer is the same after the last two.
  pub data Step : System → System → Type 0 where
    append :
        (y : System) (r : Record) (now : ℕ)
        → Step y
            (record y { buffer = append_record size y.buffer r now; history = y.history ++ r ∷ [] })
    begin :
        (y : System) (batch : Batch) (b : ChunkBuffer)
        → begin_flush y.buffer ≡ some (batch, b)
        → Step y (record y { buffer = b; uploads = batch ∷ y.uploads })
    upload_done :
        (y : System) (before after : List Batch) (batch : Batch)
        → y.uploads ≡ before ++ batch ∷ after
        → Step y (record y {
          buffer = end_flush y.buffer batch true;
          uploads = before ++ after;
          stored = y.stored ++ record { chunk = batch.batch; answered = true } ∷ [];
        })
    upload_lost :
        (y : System) (before after : List Batch) (batch : Batch)
        → y.uploads ≡ before ++ batch ∷ after
        → Step y (record y {
          buffer = end_flush y.buffer batch false;
          uploads = before ++ after;
          stored = y.stored ++ record { chunk = batch.batch; answered = false } ∷ [];
        })
    upload_failed :
        (y : System) (before after : List Batch) (batch : Batch)
        → y.uploads ≡ before ++ batch ∷ after
        → Step y (record y { buffer = end_flush y.buffer batch false; uploads = before ++ after })

  pub data Reach (s : System) : System → Type 0 where
    here : Reach s s
    next : {t u : System} → Reach s t → Step t u → Reach s u

  -- At most one upload is under way, and it holds the first records of the buffer.
  abbrev pub Uploading : ChunkBuffer → List Batch → Type 0
  Uploading b uploads =
      ((b.flushing ≡ false) × (uploads ≡ []))
      ⊎ ((batch : Batch) × (rest : List Record) × (b.flushing ≡ true)
          × (uploads ≡ batch ∷ [])
          × (b.records ≡ batch.batch ++ rest)
          × (batch.batch_bytes ≡ total batch.batch))

  pub record IsConsistent (y : System) : Type 0 where
    pub complete : acknowledged y.stored ++ y.buffer.records ≡ y.history
    pub parts : All (IsPart y.history) y.stored
    pub counted : y.buffer.bytes ≡ total y.buffer.records
    pub exclusive : Uploading y.buffer y.uploads

  only_one :
      (before after : List Batch) (batch b : Batch)
      → before ++ batch ∷ after ≡ b ∷ []
      → (batch ≡ b) × (before ++ after ≡ [])
  only_one [] [] batch b e = (ground arith, refl)
  only_one [] (c ∷ after) batch b e = cc
  only_one (c ∷ []) after batch b e = cc
  only_one (c ∷ d ∷ before) after batch b e = cc

  not_empty : (before after : List Batch) (batch : Batch) → before ++ batch ∷ after ≡ [] → ⊥
  not_empty [] after batch e = cc
  not_empty (c ∷ before) after batch e = cc

  IsPart-append :
      (history : List Record) (r : Record) (o : Stored)
      → IsPart history o
      → IsPart (history ++ r ∷ []) o
  IsPart-append history r o (before, after, e) = (
    before,
    after ++ r ∷ [],
    ap (λ (l : List Record). before ++ l) (sym (append_assoc o.chunk after (r ∷ [])))
        ∙ sym (append_assoc before (o.chunk ++ after) (r ∷ []))
        ∙ ap (λ (l : List Record). l ++ r ∷ []) e,
  )

  append-IsConsistent :
      (y : System) (r : Record) (now : ℕ)
      → IsConsistent y
      → IsConsistent
          (record y { buffer = append_record size y.buffer r now; history = y.history ++ r ∷ [] })
  unfolding append_record
  append-IsConsistent y r now v = record {
    complete =
        sym (append_assoc (acknowledged y.stored) y.buffer.records (r ∷ []))
        ∙ ap (λ (h : List Record). h ++ r ∷ []) v.complete;
    parts = All-imp (IsPart y.history) _ (λ o. IsPart-append y.history r o) y.stored v.parts;
    counted = omega (arith, v.counted, total-append y.buffer.records (r ∷ []));
    exclusive = elim v.exclusive [
      | inl idle ↦ inl idle
      | inr (batch, rest, flushing, one, front, bytes) ↦ inr (
        batch,
        rest ++ r ∷ [],
        flushing,
        one,
        ap (λ (h : List Record). h ++ r ∷ []) front ∙ append_assoc batch.batch rest (r ∷ []),
        bytes,
      )
    ];
  }

  begin-IsConsistent :
      (y : System) (batch : Batch) (b : ChunkBuffer)
      → begin_flush y.buffer ≡ some (batch, b)
      → IsConsistent y
      → IsConsistent (record y { buffer = b; uploads = batch ∷ y.uploads })
  unfolding begin_flush
  begin-IsConsistent y batch b e v = elim v.exclusive [
    | inl (idle, none_yet) ↦ record {
      complete = ap (λ (h : List Record). acknowledged y.stored ++ h) same_records ∙ v.complete;
      parts = v.parts;
      counted = ground (arith, v.counted);
      exclusive = inr (
        batch,
        [],
        ground arith,
        ap (λ (u : List Batch). batch ∷ u) none_yet,
        sym (append-nil batch.batch ∙ taken),
        ground (arith, v.counted),
      );
    }
    | inr (other, rest, flushing, one, front, bytes) ↦ absurd (ground arith)
  ]
    where
      same_records : b.records ≡ y.buffer.records
      same_records = ground arith

      taken : batch.batch ≡ b.records
      taken = ground arith

  end-records :
      (b : ChunkBuffer) (batch : Batch) (rest : List Record)
      → b.records ≡ batch.batch ++ rest
      → ((end_flush b batch true).records ≡ rest) × ((end_flush b batch false).records ≡ b.records)
  unfolding end_flush
  end-records b batch rest front =
      (ap (drop (length batch.batch)) front ∙ drop-append batch.batch rest, refl)

  end-bytes :
      (b : ChunkBuffer) (batch : Batch)
      → ((end_flush b batch true).bytes ≡ b.bytes - batch.batch_bytes)
        × ((end_flush b batch false).bytes ≡ b.bytes)
        × ((end_flush b batch true).flushing ≡ false)
        × ((end_flush b batch false).flushing ≡ false)
  unfolding end_flush
  end-bytes b batch = (refl, refl, refl, refl)

  module _ (y : System) (uploads : List Batch) (batch : Batch) (rest : List Record)
      (v : IsConsistent y) (gone : uploads ≡ []) (front : y.buffer.records ≡ batch.batch ++ rest)
      (bytes : batch.batch_bytes ≡ total batch.batch) where
    batch_is_part : acknowledged y.stored ++ (batch.batch ++ rest) ≡ y.history
    batch_is_part = ap (λ (h : List Record). acknowledged y.stored ++ h) (sym front) ∙ v.complete

    done-IsConsistent : IsConsistent (record y {
      buffer = end_flush y.buffer batch true;
      uploads = uploads;
      stored = y.stored ++ record { chunk = batch.batch; answered = true } ∷ [];
    })
    done-IsConsistent = record {
      complete =
          rw
            (
              (end-records y.buffer batch rest front).0,
              acknowledged-append y.stored (record { chunk = batch.batch; answered = true }),
            )
            (append_assoc (acknowledged y.stored) batch.batch rest ∙ batch_is_part);
      parts =
          All-join (IsPart y.history) y.stored _ v.parts
            ((acknowledged y.stored, rest, batch_is_part), tt);
      counted = rw (end-records y.buffer batch rest front).0 (
          omega (
            arith,
            v.counted,
            bytes,
            (end-bytes y.buffer batch).0,
            ap total front,
            total-append batch.batch rest,
          ));
      exclusive = inl ((end-bytes y.buffer batch).2, gone);
    }

    failed-IsConsistent :
        IsConsistent (record y { buffer = end_flush y.buffer batch false; uploads = uploads })
    failed-IsConsistent = record {
      complete = rw (end-records y.buffer batch rest front).1 v.complete;
      parts = v.parts;
      counted =
          rw (end-records y.buffer batch rest front).1 ((end-bytes y.buffer batch).1 ∙ v.counted);
      exclusive = inl ((end-bytes y.buffer batch).3, gone);
    }

    lost-IsConsistent : IsConsistent (record y {
      buffer = end_flush y.buffer batch false;
      uploads = uploads;
      stored = y.stored ++ record { chunk = batch.batch; answered = false } ∷ [];
    })
    lost-IsConsistent = record {
      complete =
          rw
            (
              (end-records y.buffer batch rest front).1,
              acknowledged-append y.stored (record { chunk = batch.batch; answered = false }),
            )
            v.complete;
      parts =
          All-join (IsPart y.history) y.stored _ v.parts
            ((acknowledged y.stored, rest, batch_is_part), tt);
      counted = failed-IsConsistent.counted;
      exclusive = failed-IsConsistent.exclusive;
    }

  -- The batch of an upload that ends is the one upload under way.
  ending :
      (y : System) (before after : List Batch) (batch : Batch)
      → y.uploads ≡ before ++ batch ∷ after
      → IsConsistent y
      → (rest : List Record) × (before ++ after ≡ [])
        × (y.buffer.records ≡ batch.batch ++ rest)
        × (batch.batch_bytes ≡ total batch.batch)
  ending y before after batch e v = elim v.exclusive [
    | inl (idle, no_upload) ↦ absurd (not_empty before after batch (sym e ∙ no_upload))
    | inr (b, rest, flushing, one, front, bytes) ↦
        let (same, gone) = only_one before after batch b (sym e ∙ one) in
        (rest, gone, rw same front, rw same bytes)
  ]

  Step-IsConsistent : {y z : System} → Step y z → IsConsistent y → IsConsistent z
  Step-IsConsistent (append y r now) v = append-IsConsistent y r now v
  Step-IsConsistent (begin y batch b e) v = begin-IsConsistent y batch b e v
  Step-IsConsistent (upload_done y before after batch e) v =
      let (rest, gone, front, bytes) = ending y before after batch e v in
      done-IsConsistent y (before ++ after) batch rest v gone front bytes
  Step-IsConsistent (upload_lost y before after batch e) v =
      let (rest, gone, front, bytes) = ending y before after batch e v in
      lost-IsConsistent y (before ++ after) batch rest v gone front bytes
  Step-IsConsistent (upload_failed y before after batch e) v =
      let (rest, gone, front, bytes) = ending y before after batch e v in
      failed-IsConsistent y (before ++ after) batch rest v gone front bytes

  Reach-IsConsistent : {s y : System} → IsConsistent s → Reach s y → IsConsistent y
  Reach-IsConsistent v here = v
  Reach-IsConsistent v (next r st) = Step-IsConsistent st (Reach-IsConsistent v r)

  abbrev pub start : (threshold_size_mb threshold_age_minutes : ℕ) → System
  start mb minutes = record {
    buffer = new_chunk_buffer mb minutes;
    uploads = [];
    stored = [];
    history = [];
  }

  -- From an empty buffer, whatever appends and flushes come in whatever order, and whatever uploads
  -- fail, without effect or with only their answer lost: the records whose upload has returned nil,
  -- followed by the buffered ones, are all appended records in their order; each chunk in object
  -- storage is a part of them without a gap; the byte count is that of the buffered ones; and at most
  -- one upload is under way.
  pub reachable-IsConsistent :
      (mb minutes : ℕ) (y : System) → Reach (start mb minutes) y → IsConsistent y
  unfolding new_chunk_buffer
  reachable-IsConsistent mb minutes y r =
      Reach-IsConsistent
        (record { complete = refl; parts = tt; counted = refl; exclusive = inl (refl, refl) }) r
