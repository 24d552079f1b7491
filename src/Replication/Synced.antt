-- ===== src/Replication/Synced.antt =====
-- What agrees between a Primary and a Replica, and what a record and a commit make of a Replica.
use netsy.Base.{ℕ, ◌≡◌, refl, ◌∙◌, true, Option, none, some, List, ◌∷◌, arith, inl, inr, Bool-cases}
use netsy.NodeState.{healthy, health_eq, set_committed}
use netsy.LocalDb.{Record}
use netsy.LocalDb.Replicate.{records_equal_for_replication}
use netsy.Watch.Manager.{Manager, enqueue_watch_revision}
use netsy.Watch.Panics.{HasKeys, IsUp, advance-IsUp}
use netsy.Primary.LeaderTxn.{commit_message, Server}
use netsy.Replication.{Follower, broadcast}
use netsy.Replication.Stream.{
  Outside, Handled, going, failed, panicked, handle, handle_commit, Persisted, stored, lost,
  after_persist, send_receipt, with_manager, check_lag,
}
use netsy.Replication.StreamLaws.{schedule-Rest}
use netsy.Replication.Copies.{AllCopies, IsFine, IsAdded, with_tentative, HasRevision}
use netsy.Replication.Cluster.{then_handle}

-- The Replica has the Primary's rows, in front of them perhaps one of the next revision, which is
-- not committed, and the same committed revision. Its watches have keys.
pub record IsSynced (ps : Server) (f : Follower) : Type 0 where
  pub tentative : Option Record
  pub copies : List Record
  pub shape : f.db.records ≡ with_tentative tentative copies
  pub next_revision : HasRevision ps.next_revision_id tentative
  pub agree : AllCopies copies ps.db.records
  pub committed : f.state.committed ≡ ps.state.committed
  pub keys : HasKeys f.watch_manager.watchers

abbrev pub OnGoing : (Follower → Type 0) → Handled → Type 0
OnGoing P (going f) = P f
OnGoing P (failed f e) = ⊥
OnGoing P panicked = ⊥

-- The Replica holds the broadcast record in front of the copies.
pub record Holds (f : Follower) (row : Record) (copies : List Record) (rev : ℕ) : Type 0 where
  pub head : Record
  pub same : records_equal_for_replication head row ≡ true
  pub shape : f.db.records ≡ head ∷ copies
  pub committed : f.state.committed ≡ rev
  pub keys : HasKeys f.watch_manager.watchers

enqueue-watchers : (m : Manager) (rev : ℕ) → (enqueue_watch_revision m rev).watchers ≡ m.watchers
unfolding enqueue_watch_revision
enqueue-watchers m rev = ground arith

module _ (f : Follower) (row : Record) (copies : List Record) (o : Outside) (fine : IsFine o) where
  pub after_persist-Holds :
      (out : Persisted)
      → HasKeys f.watch_manager.watchers
      → IsAdded row copies out
      → OnGoing (λ g. Holds g row copies f.state.committed) (after_persist f row.revision o out)
  unfolding send_receipt
  after_persist-Holds (lost e left) keys h = h
  after_persist-Holds (stored q after) keys h = simp (fine.sends) (record {
    head = q;
    same = h.0;
    shape = h.1;
    committed = refl;
    keys = rw (enqueue-watchers f.watch_manager row.revision) keys;
  })

with_manager-Holds :
    (f : Follower) (row : Record) (copies : List Record) (rev : ℕ) (m : Option Manager)
    → Holds f row copies rev
    → IsUp m
    → OnGoing (λ g. Holds g row copies rev) (with_manager f m)
with_manager-Holds f row copies rev none h up = up
with_manager-Holds f row copies rev (some m) h up = record {
  head = h.head;
  same = h.same;
  shape = h.shape;
  committed = h.committed;
  keys = up;
}

check_lag-Holds :
    (row : Record) (copies : List Record) (rev committed : ℕ) (o : Outside) (out : Handled)
    → OnGoing (λ g. Holds g row copies rev) out
    → OnGoing (λ g. Holds g row copies rev) (check_lag committed o out)
check_lag-Holds row copies rev committed o (failed f e) h = h
check_lag-Holds row copies rev committed o panicked h = h
check_lag-Holds row copies rev committed o (going f) h =
    elim (Bool-cases (health_eq f.state.health healthy)) [
      | inr e ↦ simp e h
      | inl e ↦
          let rest = schedule-Rest f committed o.read_latest_fails in
          simp e (record {
            head = h.head;
            same = h.same;
            shape = rw (rest.db) (h.shape);
            committed = rest.committed ∙ h.committed;
            keys = rw (rest.watch_manager) (h.keys);
          })
    ]

pub handle_commit-Holds :
    (f : Follower) (row : Record) (copies : List Record) (committed rev : ℕ) (o : Outside)
    → Holds f row copies committed
    → OnGoing (λ g. Holds g row copies rev) (handle f (broadcast (commit_message rev)) o)
unfolding handle handle_commit
handle_commit-Holds f row copies committed rev o h = check_lag-Holds row copies rev rev o _ (
    with_manager-Holds (record f { state = set_committed f.state rev }) row copies rev _
      (record { head = h.head; same = h.same; shape = h.shape; committed = refl; keys = h.keys })
      (advance-IsUp f.watch_manager f.db rev h.keys))

pub then-OnGoing :
    (P Q : Follower → Type 0) (k : Follower → Handled) (out : Handled)
    → OnGoing P out
    → ((g : Follower) → P g → OnGoing Q (k g))
    → OnGoing Q (then_handle out k)
then-OnGoing P Q k (going g) h step = step g h
then-OnGoing P Q k (failed g e) h step = h
then-OnGoing P Q k panicked h step = h

pub OnGoing-map :
    (P Q : Follower → Type 0) (out : Handled)
    → OnGoing P out
    → ((g : Follower) → P g → Q g)
    → OnGoing Q out
OnGoing-map P Q (going g) h step = step g h
OnGoing-map P Q (failed g e) h step = h
OnGoing-map P Q panicked h step = h
