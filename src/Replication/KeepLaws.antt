-- ===== src/Replication/KeepLaws.antt =====
-- The committed rows along Follow streams, and the compactions that run beside them (follower.go).
use netsy.Base.{
  ℕ, ◌≤◌, ◌≡◌, refl, ap, true, false, Option, none, some, List, [], ◌∷◌, map, ◌==◌, is_some, ◌⊎◌,
  arith, All, inl, inr, ◌&&◌, Bool-cases,
}
use netsy.NodeState.{healthy, health_eq, set_committed, set_compaction}
use netsy.LocalDb.CompactedTo.{persist_compaction-records}
use std.Path.{subst}
use netsy.LocalDb.Compact.{persist_compaction_revision, to_compact, compact_row, execute_compaction}
use netsy.LocalDb.{Record, Db, Result, ok, err, find_record_by_rev}
use netsy.Watch.Manager.{Manager, enqueue_watch_revision}
use netsy.Primary.LeaderTxn.{record_message, commit_message, compact_message}
use netsy.Replication.{Follower, PrimaryMessage, initial, broadcast}
use netsy.Replication.Stream.{
  Outside, Handled, going, failed, panicked, handle, handle_initial, handle_record, handle_commit,
  handle_compact, compact_rows, seed_compaction, initialised, with_manager, check_lag, Persisted,
  stored, lost, persist, after_persist, send_receipt,
}
use netsy.Replication.StreamLaws.{
  CommitsFrom, OnLeft, KeepsBelow, PersistOutcome, persist-PersistOutcome, Rest, degrade_self-Rest,
  schedule-Rest,
}

-- The row is as it was, or a compaction up to `high` has emptied it.
abbrev pub Alike : (high : ℕ) → Record → Record → Type 0
Alike high q row =
    (row ≡ q)
    ⊎ ((q.revision ≤ high)
        × (row ≡ record q { value = []; compacted_at = row.compacted_at })
        × (is_some row.compacted_at ≡ true))

-- The rows of `rs` up to `low` are there, and the committed revision has not fallen below `low`.
abbrev pub HasKept : (low high : ℕ) → List Record → Follower → Type 0
HasKept low high rs g =
    ((rev : ℕ) (q : Record)
      → rev ≤ low
      → find_record_by_rev rev rs ≡ some q
      → (row : Record) × (find_record_by_rev rev g.db.records ≡ some row) × Alike high q row)
    × (low ≤ g.state.committed)

-- A change of the table that keeps the rows up to a committed revision.
keeps-HasKept :
    (low high committed : ℕ) (rs : List Record) (f g : Follower)
    → KeepsBelow committed f.db.records g.db.records
    → low ≤ committed
    → low ≤ g.state.committed
    → HasKept low high rs f
    → HasKept low high rs g
keeps-HasKept low high committed rs f g keeps le le' h = (
  λ rev q below there.
      let old = h.0 rev q below there in
      (old.0, keeps rev old.0 (omega (arith, below, le)) old.1, old.2),
  le',
)

same-HasKept :
    (low high : ℕ) (rs : List Record) (f g : Follower)
    → g.db.records ≡ f.db.records
    → low ≤ g.state.committed
    → HasKept low high rs f
    → HasKept low high rs g
same-HasKept low high rs f g same le h =
    keeps-HasKept low high low rs f g (λ rev q below there. rw same there) (omega arith) le h

Rest-HasKept :
    (low high : ℕ) (rs : List Record) (f g : Follower)
    → Rest f g
    → HasKept low high rs f
    → HasKept low high rs g
Rest-HasKept low high rs f g rest h =
    same-HasKept low high rs f g (ap (λ (d : Db). d.records) rest.db)
      (omega (arith, rest.committed, h.1)) h

module _ (low high : ℕ) (rs : List Record) where
  with_manager-HasKept :
      (f : Follower) (m : Option Manager)
      → HasKept low high rs f
      → OnLeft (HasKept low high rs) (with_manager f m)
  with_manager-HasKept f none h = tt
  with_manager-HasKept f (some m) h = h

  initialised-HasKept :
      (f : Follower) (committed compaction : ℕ) (db : Result Db)
      → HasKept low high rs f
      → low ≤ committed
      → ((after : Db) → db ≡ ok after → after.records ≡ f.db.records)
      → OnLeft (HasKept low high rs) (initialised f committed compaction db)
  initialised-HasKept f committed compaction (err e) h le same = h
  initialised-HasKept f committed compaction (ok after) h le same =
      let g = record f {
        db = after;
        state = set_compaction (set_committed f.state committed) compaction;
      } in
      with_manager-HasKept g _ (same-HasKept low high rs f g (same after refl) le h)

  check_lag-HasKept :
      (committed : ℕ) (o : Outside) (out : Handled)
      → OnLeft (HasKept low high rs) out
      → OnLeft (HasKept low high rs) (check_lag committed o out)
  check_lag-HasKept committed o (failed f e) h = h
  check_lag-HasKept committed o panicked h = h
  check_lag-HasKept committed o (going f) h = elim (Bool-cases (health_eq f.state.health healthy)) [
    | inr e ↦ simp e h
    | inl e ↦
        simp e (Rest-HasKept low high rs f _ (schedule-Rest f committed o.read_latest_fails) h)
  ]

  send_receipt-HasKept :
      (f : Follower) (revision : ℕ) (o : Outside)
      → HasKept low high rs f
      → OnLeft (HasKept low high rs) (send_receipt f revision o)
  unfolding send_receipt
  send_receipt-HasKept f revision o h =
      elim (Bool-cases (o.first_send_fails && o.second_send_fails)) [
        | inl e ↦ simp e (Rest-HasKept low high rs f _ (degrade_self-Rest f) h)
        | inr e ↦ simp e h
      ]

  after_persist-HasKept :
      (f : Follower) (r : Record) (o : Outside) (out : Persisted)
      → HasKept low high rs f
      → PersistOutcome f.db r f.state.committed out
      → OnLeft (HasKept low high rs) (after_persist f r.revision o out)
  after_persist-HasKept f r o (lost e left) h p =
      keeps-HasKept low high f.state.committed rs f (record f { db = left }) p h.1 h.1 h
  after_persist-HasKept f r o (stored row after) h p =
      let g = record f {
        db = after;
        watch_manager = enqueue_watch_revision f.watch_manager r.revision;
      } in
      send_receipt-HasKept g r.revision o
        (keeps-HasKept low high f.state.committed rs f g p.1 h.1 h.1 h)

pub seed_compaction-records :
    (db : Db) (compaction : ℕ) (o : Outside) (after : Db)
    → seed_compaction db compaction o ≡ ok after
    → after.records ≡ db.records
unfolding seed_compaction
seed_compaction-records db compaction o after h =
    ground (arith, persist_compaction-records db compaction o.now)

module _ (low high : ℕ) (rs : List Record) (o : Outside) where
  handle-HasKept :
      (f : Follower) (msg : PrimaryMessage)
      → HasKept low high rs f
      → CommitsFrom low msg
      → OnLeft (HasKept low high rs) (handle f msg o)
  unfolding handle handle_initial handle_record handle_commit handle_compact
  handle-HasKept f (initial committed compaction) h le =
      initialised-HasKept low high rs f committed compaction (seed_compaction f.db compaction o) h
        le (seed_compaction-records f.db compaction o)
  handle-HasKept f (broadcast (record_message r)) h le =
      after_persist-HasKept low high rs f r o (persist f.db r f.state.committed o) h
        (persist-PersistOutcome f.db r f.state.committed o)
  handle-HasKept f (broadcast (commit_message committed)) h le =
      check_lag-HasKept low high rs committed o _ (
        with_manager-HasKept low high rs (record f { state = set_committed f.state committed }) _
          (h.0, le))
  handle-HasKept f (broadcast (compact_message rev)) h le =
      elim (Bool-cases o.persist_compaction_fails) [
        | inl e ↦ simp e h
        | inr e ↦ simp e (
            same-HasKept low high rs f
              (record f {
                db = persist_compaction_revision f.db rev o.now;
                state = set_compaction f.state rev;
                compactions = rev ∷ f.compactions;
              })
              (persist_compaction-records f.db rev o.now) h.1 h)
      ]

-- A row behind a compaction.
find-compact :
    (all : List Record) (c now rev : ℕ) (rs : List Record) (row : Record)
    → find_record_by_rev rev rs ≡ some row
    → find_record_by_rev rev (map (compact_row all c now) rs) ≡ some (compact_row all c now row)
unfolding find_record_by_rev compact_row
find-compact all c now rev [] row h = cc
find-compact all c now rev (q ∷ qs) row h = elim (Bool-cases (q.revision == rev)) [
  | inl e ↦
      let it : q ≡ row = ground (arith, e) in
      let hit : ((compact_row all c now q).revision == rev) ≡ true = ground (arith, e) in
      rw hit (ap (λ (r : Record). some (compact_row all c now r)) it)
  | inr e ↦
      let miss : ((compact_row all c now q).revision == rev) ≡ false = ground (arith, e) in
      rw miss (find-compact all c now rev qs row (simp e at h))
]

compact-Alike :
    (all : List Record) (c now high : ℕ) (q row : Record)
    → c ≤ high
    → Alike high q row
    → Alike high q (compact_row all c now row)
unfolding compact_row to_compact
compact-Alike all c now high q row le h = elim (Bool-cases (to_compact all c row)) [
  | inr e ↦ simp e h
  | inl e ↦
      let upto : row.revision ≤ c = ground arith in
      elim h [
        | inl same ↦
            let old : row.revision ≡ q.revision = ap (λ (r : Record). r.revision) same in
            simp e (
              inr (
                omega (arith, upto, le, old),
                ap (λ (r : Record). record r { value = []; compacted_at = some now }) same,
                refl,
              ))
        | inr (below, same, was) ↦ simp e (
            inr (
              below,
              ap (λ (r : Record). record r { value = []; compacted_at = some now }) same,
              refl,
            ))
      ]
]

compact-HasKept :
    (low high : ℕ) (rs : List Record) (f : Follower) (c now : ℕ)
    → c ≤ high
    → HasKept low high rs f
    → HasKept low high rs (compact_rows f c now)
unfolding execute_compaction
compact-HasKept low high rs f c now le h = elim (Bool-cases (c == 0)) [
  | inl e ↦ simp e h
  | inr e ↦ simp e (
    λ rev q below there.
        let old = h.0 rev q below there in
        (
          compact_row f.db.records c now old.0,
          find-compact f.db.records c now rev f.db.records old.0 old.1,
          compact-Alike f.db.records c now high q old.0 le old.2,
        ),
    h.1,
  )
]

-- What a follower does: it handles a message, on this stream or a later one, or one of the goroutines
-- that it has started compacts.
pub data Event : Type 0 where
  hears : PrimaryMessage → Outside → Event
  compacts : (revision now : ℕ) → Event

abbrev turn : Follower → Event → Handled
turn f (hears msg o) = handle f msg o
turn f (compacts revision now) = going (compact_rows f revision now)

-- The follower after the events; an error ends a stream, and `none` is a panic.
abbrev then_follow : Handled → (Follower → Option Follower) → Option Follower
then_follow (going f) next = next f
then_follow (failed f e) next = next f
then_follow panicked next = none

unfoldable pub follow_events : List Event → Follower → Option Follower
unfolding handle execute_compaction
follow_events [] f = some f
follow_events (e ∷ es) f = then_follow (turn f e) (follow_events es)

-- No message names a committed revision below `low`, and no compaction goes above `high`.
abbrev pub Within : (low high : ℕ) → Event → Type 0
Within low high (hears msg o) = CommitsFrom low msg
Within low high (compacts revision now) = revision ≤ high

abbrev OnSome : (Follower → Type 0) → Option Follower → Type 0
OnSome P none = Unit
OnSome P (some f) = P f

module _ (low high : ℕ) (rs : List Record) where
  turn-HasKept :
      (f : Follower) (e : Event)
      → HasKept low high rs f
      → Within low high e
      → OnLeft (HasKept low high rs) (turn f e)
  turn-HasKept f (hears msg o) h w = handle-HasKept low high rs o f msg h w
  turn-HasKept f (compacts revision now) h w = compact-HasKept low high rs f revision now w h

  then-HasKept :
      (out : Handled) (next : Follower → Option Follower)
      → OnLeft (HasKept low high rs) out
      → ((f : Follower) → HasKept low high rs f → OnSome (HasKept low high rs) (next f))
      → OnSome (HasKept low high rs) (then_follow out next)
  then-HasKept (going f) next h k = k f h
  then-HasKept (failed f e) next h k = k f h
  then-HasKept panicked next h k = tt

  follow-OnSome :
      (es : List Event) (f : Follower)
      → HasKept low high rs f
      → All (Within low high) es
      → OnSome (HasKept low high rs) (follow_events es f)
  unfolding follow_events
  follow-OnSome [] f h w = h
  follow-OnSome (e ∷ es) f h w =
      then-HasKept (turn f e) (follow_events es) (turn-HasKept f e h w.0)
        (λ g h'. follow-OnSome es g h' w.1)

-- Whatever messages a follower handles, whatever fails meanwhile, and whenever its compactions run: as
-- long as no message names a committed revision below `low`, which the Replica has committed, and no
-- compaction goes above `high`, every row up to `low` is there afterwards. It is as before, or its
-- revision is at most `high` and a compaction has emptied its value and left the rest as before. The
-- committed revision does not fall below `low`.
pub follow_events-HasKept :
    (f g : Follower) (events : List Event) (low high : ℕ)
    → low ≤ f.state.committed
    → All (Within low high) events
    → follow_events events f ≡ some g
    → HasKept low high f.db.records g
follow_events-HasKept f g events low high le within h =
    let start : HasKept low high f.db.records f = (λ rev q below there. (q, there, inl refl), le) in
    subst (OnSome (HasKept low high f.db.records)) h
      (follow-OnSome low high f.db.records events f start within)
