-- ===== src/Watch/FloorLaws.antt =====
-- The watch-admission floor and the active watches.
use std.Path.{subst}
use netsy.Base.{
  ℕ, ◌≤◌, ◌<◌, ◌≡◌, ◌⊎◌, inl, inr, refl, true, false, Option, none, some, List, [], ◌∷◌, arith, All,
  Bool-cases,
}
use netsy.Watch.Match.{WatchEntry}
use netsy.Watch.Manager.{
  Watcher, Manager, lower, min_entries, min_watchers, min_watch_revision, entry_below, watch_below,
  set_watch_admission_floor,
}

-- The start revision of a watch is none, or not below the revision.
abbrev pub IsAtLeast : ℕ → WatchEntry → Type 0
IsAtLeast rev e = (e.start_revision ≡ 0) ⊎ (rev ≤ e.start_revision)

abbrev pub AllAtLeast : ℕ → List Watcher → Type 0
AllAtLeast rev ws = All (λ w. All (IsAtLeast rev) w.watches) ws

entry_below-none :
    (rev : ℕ) (es : List WatchEntry) → entry_below rev es ≡ false → All (IsAtLeast rev) es
unfolding entry_below
entry_below-none rev [] h = tt
entry_below-none rev (e ∷ es) h = (ground arith, entry_below-none rev es (ground arith))

watch_below-none : (rev : ℕ) (ws : List Watcher) → watch_below rev ws ≡ false → AllAtLeast rev ws
unfolding watch_below
watch_below-none rev [] h = tt
watch_below-none rev (w ∷ ws) h =
    (entry_below-none rev w.watches (ground arith), watch_below-none rev ws (ground arith))

entry_below-some :
    (rev : ℕ) (es : List WatchEntry) → All (IsAtLeast rev) es → entry_below rev es ≡ false
unfolding entry_below
entry_below-some rev [] h = refl
entry_below-some rev (e ∷ es) h = ground (arith, h.0, entry_below-some rev es h.1)

watch_below-some : (rev : ℕ) (ws : List Watcher) → AllAtLeast rev ws → watch_below rev ws ≡ false
unfolding watch_below
watch_below-some rev [] h = refl
watch_below-some rev (w ∷ ws) h =
    ground (arith, entry_below-some rev w.watches h.0, watch_below-some rev ws h.1)

-- `SetWatchAdmissionFloor` raises the floor exactly if every watch has no start revision or one that
-- is not below the new floor; else it changes nothing.
pub set_watch_admission_floor_lem :
    (m : Manager) (rev : ℕ)
    → (AllAtLeast rev m.watchers
        × (set_watch_admission_floor m rev ≡ (record m { watch_admission_floor = rev }, true)))
      ⊎ ((¬ AllAtLeast rev m.watchers) × (set_watch_admission_floor m rev ≡ (m, false)))
unfolding set_watch_admission_floor
set_watch_admission_floor_lem m rev = elim (Bool-cases (watch_below rev m.watchers)) [
  | inr clear ↦ inl (watch_below-none rev m.watchers clear, simp clear refl)
  | inl below ↦ inr (λ all. ground (arith, watch_below-some rev m.watchers all), simp below refl)
]

-- The lowest start revision is one of a watch, and no watch starts below it.
abbrev pub AllFrom : ℕ → List Watcher → Type 0
AllFrom n ws = All (λ w. All (λ e. n ≤ e.start_revision) w.watches) ws

abbrev pub MinOf : Option ℕ → ℕ → Type 0
MinOf none n = Unit
MinOf (some k) n = n ≤ k

lower_cases :
    (e k : ℕ) → ((lower e (some k) ≡ some e) × (e < k)) ⊎ ((lower e (some k) ≡ some k) × (k ≤ e))
lower_cases e k = ground arith

pub lower-le : (e k n : ℕ) → MinOf (lower e (some k)) n → (n ≤ e) × (n ≤ k)
lower-le e k n h = elim (lower_cases e k) [
  | inl (is, less) ↦ let bound : n ≤ e = subst (λ o. MinOf o n) is h in (bound, omega (arith, less))
  | inr (is, more) ↦ let bound : n ≤ k = subst (λ o. MinOf o n) is h in (omega (arith, more), bound)
]

entries-MinOf :
    (es : List WatchEntry) (o : Option ℕ) (n : ℕ)
    → MinOf (min_entries es o) n
    → All (λ e. n ≤ e.start_revision) es × MinOf o n
unfolding min_entries
entries-MinOf [] o n h = (tt, h)
entries-MinOf (e ∷ es) none n h =
    let rest = entries-MinOf es (some e.start_revision) n h in ((rest.1, rest.0), tt)
entries-MinOf (e ∷ es) (some k) n h =
    let rest = entries-MinOf es (lower e.start_revision (some k)) n h in
    let (here, before) = lower-le e.start_revision k n rest.1 in ((here, rest.0), before)

min_watchers-le :
    (ws : List Watcher) (o : Option ℕ) (n : ℕ)
    → min_watchers ws o ≡ some n
    → AllFrom n ws × MinOf o n
unfolding min_watchers
min_watchers-le [] none n h = (tt, tt)
min_watchers-le [] (some k) n h = (tt, ground arith)
min_watchers-le (w ∷ ws) o n h =
    let rest = min_watchers-le ws (min_entries w.watches o) n h in
    let (here, before) = entries-MinOf w.watches o n rest.1 in ((here, rest.0), before)

IsAtLeast-entries :
    (rev n : ℕ) (es : List WatchEntry)
    → rev ≤ n
    → All (λ e. n ≤ e.start_revision) es
    → All (IsAtLeast rev) es
IsAtLeast-entries rev n [] le h = tt
IsAtLeast-entries rev n (e ∷ es) le h =
    let here : rev ≤ e.start_revision = omega (arith, h.0) in
    (inr here, IsAtLeast-entries rev n es le h.1)

AllAtLeast-watchers : (rev n : ℕ) (ws : List Watcher) → rev ≤ n → AllFrom n ws → AllAtLeast rev ws
AllAtLeast-watchers rev n [] le h = tt
AllAtLeast-watchers rev n (w ∷ ws) le h =
    (IsAtLeast-entries rev n w.watches le h.0, AllAtLeast-watchers rev n ws le h.1)

-- The minimum that a node reports is a lower bound for the start revisions of all its watches, and
-- while they are the same the node accepts a compaction notice for any revision up to it.
pub min_watch_revision_lem :
    (m : Manager) (n rev : ℕ)
    → min_watch_revision m ≡ some n
    → rev ≤ n
    → AllFrom n m.watchers
      × (set_watch_admission_floor m rev ≡ (record m { watch_admission_floor = rev }, true))
unfolding set_watch_admission_floor
min_watch_revision_lem m n rev h le =
    let (from, nothing) = min_watchers-le m.watchers none n h in
    let clear = watch_below-some rev m.watchers (AllAtLeast-watchers rev n m.watchers le from) in
    (from, simp clear refl)
