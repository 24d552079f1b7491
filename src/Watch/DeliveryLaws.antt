-- ===== src/Watch/DeliveryLaws.antt =====
-- A watcher gets every event of its watches, or is closed.
use std.Path.{subst}
use netsy.Base.{
  ◌≤◌, ◌≡◌, refl, sym, ap, ◌∙◌, Bool, true, false, Option, none, some, List, [], ◌∷◌, ◌++◌, arith,
  ltb, length, if◌then◌else◌, Option-cases, Bool-cases, inl, inr,
}
use netsy.LocalDb.{Record}
use netsy.Watch.Match.{WatchEntry, is_watch_match}
use netsy.Watch.Manager.{
  WatchEvent, Watcher, Manager, inbox_capacity, event_of, deliver, place, applied, distribute_all,
  distribute,
}

-- The events that the watches of one watcher ask for.
abbrev pub matched : Option Bool → Bool
matched none = false
matched (some b) = b

unfoldable pub events_for : Record → Option Record → List WatchEntry → List WatchEvent
unfolding is_watch_match
events_for r prev [] = []
events_for r prev (w ∷ ws) =
    let rest = events_for r prev ws in
    if matched (is_watch_match w r) then event_of r prev w ∷ rest else rest

append-one : {A : Type 0} (xs : List A) (y : A) (zs : List A) → (xs ++ y ∷ []) ++ zs ≡ xs ++ y ∷ zs
append-one [] y zs = refl
append-one (x ∷ xs) y zs = ap (◌∷◌ x) (append-one xs y zs)

-- What one watcher has after a delivery.
abbrev pub Outcome : (before events after : List WatchEvent) (slow : Bool) → Type 0
Outcome before events after false = after ≡ before ++ events
Outcome before events after true = inbox_capacity ≤ length after

abbrev OnDelivery : (before events : List WatchEvent) → Option (List WatchEvent × Bool) → Type 0
OnDelivery before events none = Unit
OnDelivery before events (some (after, slow)) = Outcome before events after slow

deliver-step :
    (inbox : List WatchEvent) (e : WatchEvent) (events : List WatchEvent)
    (out : Option (List WatchEvent × Bool))
    → OnDelivery (inbox ++ e ∷ []) events out
    → OnDelivery inbox (e ∷ events) out
deliver-step inbox e events none h = tt
deliver-step inbox e events (some (after, true)) h = h
deliver-step inbox e events (some (after, false)) h = h ∙ append-one inbox e events

append-none : {A : Type 0} (xs : List A) → xs ≡ xs ++ []
append-none [] = refl
append-none (x ∷ xs) = ap (◌∷◌ x) (append-none xs)

deliver-OnDelivery :
    (r : Record) (prev : Option Record) (ws : List WatchEntry) (inbox : List WatchEvent)
    → OnDelivery inbox (events_for r prev ws) (deliver r prev ws inbox)
unfolding deliver events_for
deliver-OnDelivery r prev [] inbox = append-none inbox
deliver-OnDelivery r prev (w ∷ ws) inbox = elim (Option-cases (is_watch_match w r)) [
  | inl panics ↦ rw (panics, deliver) tt
  | inr (match, e) ↦ elim (Bool-cases match) [
    | inr miss ↦ rw (e, deliver) (rw miss (deliver-OnDelivery r prev ws inbox))
    | inl hit ↦ elim (Bool-cases (ltb (length inbox) inbox_capacity)) [
      | inl room ↦
          let rest = deliver-OnDelivery r prev ws (inbox ++ event_of r prev w ∷ []) in
          rw (e, deliver)
            (rw hit (
              rw room (
                deliver-step inbox (event_of r prev w) (events_for r prev ws)
                  (deliver r prev ws (inbox ++ event_of r prev w ∷ [])) rest)))
      | inr full ↦
          let at_capacity : inbox_capacity ≤ length inbox = ground arith in
          rw (e, deliver) (rw hit (rw full at_capacity))
    ]
  ]
]

-- The watchers before a delivery, one after the other: each has stayed, with all its events behind its
-- inbox, or has been closed with its inbox full.
pub data IsDelivered (r : Record) (prev : Option Record)
    : List Watcher → (fast gone : List Watcher) → Type 0 where
  nobody : IsDelivered r prev [] [] []
  stays :
      (w : Watcher) (ws fast gone : List Watcher)
      → IsDelivered r prev ws fast gone
      → IsDelivered r prev
          (w ∷ ws)
          (record w { inbox = w.inbox ++ events_for r prev w.watches } ∷ fast)
          gone
  closes :
      (w : Watcher) (inbox : List WatchEvent) (ws fast gone : List Watcher)
      → inbox_capacity ≤ length inbox
      → IsDelivered r prev ws fast gone
      → IsDelivered r prev (w ∷ ws) fast (record w { inbox = inbox } ∷ gone)

abbrev OnAll : Record → Option Record → List Watcher → Option (List Watcher × List Watcher) → Type 0
OnAll r prev before none = Unit
OnAll r prev before (some (fast, gone)) = IsDelivered r prev before fast gone

module _ (r : Record) (prev : Option Record) (w : Watcher) (ws : List Watcher) where
  place-OnAll :
      (out : Option (List WatchEvent × Bool)) (others : Option (List Watcher × List Watcher))
      → OnDelivery w.inbox (events_for r prev w.watches) out
      → OnAll r prev ws others
      → OnAll r prev (w ∷ ws) (place w out others)
  place-OnAll none others h d = tt
  place-OnAll (some out) none h d = tt
  place-OnAll (some (inbox, true)) (some (fast, gone)) h d = closes w inbox ws fast gone h d
  place-OnAll (some (inbox, false)) (some (fast, gone)) h d =
      subst
        (λ (i : List WatchEvent). IsDelivered r prev (w ∷ ws) (record w { inbox = i } ∷ fast) gone)
        (sym h) (stays w ws fast gone d)

distribute_all-OnAll :
    (r : Record) (prev : Option Record) (ws : List Watcher)
    → OnAll r prev ws (distribute_all r prev ws)
unfolding distribute_all
distribute_all-OnAll r prev [] = nobody
distribute_all-OnAll r prev (w ∷ ws) =
    place-OnAll r prev w ws (deliver r prev w.watches w.inbox) (distribute_all r prev ws)
      (deliver-OnDelivery r prev w.watches w.inbox) (distribute_all-OnAll r prev ws)

abbrev OnManager : Record → Option Record → Manager → Option Manager → Type 0
OnManager r prev m none = Unit
OnManager r prev m (some after) =
    (gone : List Watcher) × IsDelivered r prev m.watchers after.watchers gone
    × (after.closed ≡ gone ++ m.closed)

OnManager-of :
    (r : Record) (prev : Option Record) (m : Manager) (out : Option (List Watcher × List Watcher))
    → OnAll r prev m.watchers out
    → OnManager r prev m (applied m out)
OnManager-of r prev m none h = tt
OnManager-of r prev m (some (fast, gone)) h = (gone, h, refl)

-- Events are delivered without a gap: each watcher that was there before `Distribute` is there after
-- it, and has in its inbox, behind what it had, one event for each of its watches that match; or this
-- watcher has been closed, with its inbox full. No others are there or have been closed.
pub distribute-IsDelivered :
    (m : Manager) (r : Record) (prev : Option Record) (after : Manager)
    → distribute m r prev ≡ some after
    → (gone : List Watcher) × IsDelivered r prev m.watchers after.watchers gone
      × (after.closed ≡ gone ++ m.closed)
unfolding distribute
distribute-IsDelivered m r prev after h =
    subst (OnManager r prev m) h (OnManager-of r prev m _ (distribute_all-OnAll r prev m.watchers))
