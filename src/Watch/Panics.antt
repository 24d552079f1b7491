-- ===== src/Watch/Panics.antt =====
-- Watches with a key never make the delivery of a record panic.
use netsy.Base.{
  ℕ, ◌≡◌, refl, Bool, true, false, Option, none, some, List, [], ◌∷◌, ◌++◌, arith, All, inl, inr,
  is_some, Bytes, Option-cases,
}
use netsy.LocalDb.{Record, Db, find_record_by_rev}
use netsy.CommonApi.Query.{range_end_prefix_value, no_bytes}
use netsy.Watch.Match.{WatchEntry, is_in_range, is_watch_match}
use netsy.Watch.Manager.{
  Manager, Watcher, WatchEvent, deliver, place, distribute_all, applied, distribute,
  distribute_from_db, deliver_ready, advance_committed_revision, event_of,
}

abbrev pub HasKey : WatchEntry → Type 0
HasKey w = no_bytes w.key ≡ false

abbrev pub HasKeys : List Watcher → Type 0
HasKeys = All (λ (w : Watcher). All HasKey w.watches)

prefix_value-total : (k : Bytes) → no_bytes k ≡ false → is_some (range_end_prefix_value k) ≡ true
unfolding range_end_prefix_value
prefix_value-total [] h = cc
prefix_value-total (b ∷ []) h = refl
prefix_value-total (b ∷ c ∷ rest) h = ground (arith, prefix_value-total (c ∷ rest) refl)

is_watch_match-total :
    (w : WatchEntry) (r : Record) → HasKey w → is_some (is_watch_match w r) ≡ true
unfolding is_watch_match is_in_range
is_watch_match-total w r h = ground (arith, prefix_value-total w.key h)

deliver-total :
    (r : Record) (prev : Option Record) (ws : List WatchEntry) (inbox : List WatchEvent)
    → All HasKey ws
    → is_some (deliver r prev ws inbox) ≡ true
unfolding deliver
deliver-total r prev [] inbox h = refl
deliver-total r prev (w ∷ ws) inbox h = ground (
  arith,
  is_watch_match-total w r h.0,
  deliver-total r prev ws inbox h.1,
  deliver-total r prev ws (inbox ++ event_of r prev w ∷ []) h.1,
)

abbrev IsSafe : Option (List Watcher × List Watcher) → Type 0
IsSafe none = ⊥
IsSafe (some (fast, gone)) = HasKeys fast

place-IsSafe :
    (w : Watcher) (out : Option (List WatchEvent × Bool))
    (others : Option (List Watcher × List Watcher))
    → All HasKey w.watches
    → is_some out ≡ true
    → IsSafe others
    → IsSafe (place w out others)
place-IsSafe w none others h there safe = cc
place-IsSafe w (some out) none h there safe = safe
place-IsSafe w (some (inbox, true)) (some (fast, gone)) h there safe = safe
place-IsSafe w (some (inbox, false)) (some (fast, gone)) h there safe = (h, safe)

distribute_all-IsSafe :
    (r : Record) (prev : Option Record) (ws : List Watcher)
    → HasKeys ws
    → IsSafe (distribute_all r prev ws)
unfolding distribute_all
distribute_all-IsSafe r prev [] h = tt
distribute_all-IsSafe r prev (w ∷ ws) h =
    place-IsSafe w (deliver r prev w.watches w.inbox) (distribute_all r prev ws) h.0
      (deliver-total r prev w.watches w.inbox h.0) (distribute_all-IsSafe r prev ws h.1)

-- A manager that has not panicked, and whose watches still have keys.
abbrev pub IsUp : Option Manager → Type 0
IsUp none = ⊥
IsUp (some m) = HasKeys m.watchers

applied-IsUp :
    (m : Manager) (out : Option (List Watcher × List Watcher)) → IsSafe out → IsUp (applied m out)
applied-IsUp m none h = h
applied-IsUp m (some (fast, gone)) h = h

distribute_from_db-IsUp :
    (m : Manager) (db : Db) (revision : ℕ)
    → HasKeys m.watchers
    → IsUp (distribute_from_db m db revision)
unfolding distribute distribute_from_db
distribute_from_db-IsUp m db revision h =
    elim (Option-cases (find_record_by_rev revision db.records)) [
      | inl e ↦ rw (e, distribute_from_db) h
      | inr (r, e) ↦
          rw (e, distribute_from_db) (applied-IsUp m _ (distribute_all-IsSafe r _ m.watchers h))
    ]

next-IsUp :
    (db : Db) (rs : List ℕ) (out : Option Manager)
    → ((m : Manager) → HasKeys m.watchers → IsUp (deliver_ready m db rs))
    → IsUp out
    → IsUp (elim out [ none ↦ none | some after ↦ deliver_ready after db rs ])
next-IsUp db rs none rest h = h
next-IsUp db rs (some m) rest h = rest m h

deliver_ready-IsUp :
    (m : Manager) (db : Db) (rs : List ℕ) → HasKeys m.watchers → IsUp (deliver_ready m db rs)
unfolding deliver_ready
deliver_ready-IsUp m db [] h = h
deliver_ready-IsUp m db (r ∷ rs) h =
    next-IsUp db rs (distribute_from_db m db r) (λ n up. deliver_ready-IsUp n db rs up)
      (distribute_from_db-IsUp m db r h)

-- The advance of the committed revision does not panic where every watch has a key.
pub advance-IsUp :
    (m : Manager) (db : Db) (rev : ℕ)
    → HasKeys m.watchers
    → IsUp (advance_committed_revision m db rev)
unfolding advance_committed_revision
advance-IsUp m db rev h = deliver_ready-IsUp (record m { pending = _ }) db _ h
