-- ===== src/Watch/Manager.antt =====
-- internal/watch/manager.go. The map of watchers, the map of watches of each and the set of pending
-- revisions are lists; Go visits a map in any order, here it is the order of the list. `none` is a
-- panic.
use netsy.Base.{
  ℕ, Bool, true, false, not, Option, none, some, List, [], ◌∷◌, ◌++◌, ◌&&◌, ◌||◌, leb, ltb, ◌==◌,
  if◌then◌else◌, length, select,
}
use netsy.LocalDb.{Record, Db, find_record_by_rev}
use netsy.Etcd.{KeyValue}
use netsy.CommonApi.{to_key_value}
use netsy.Watch.Match.{WatchEntry, is_watch_match}

-- The WatchResponse of one event.
pub record WatchEvent : Type 0 where
  pub watch_id : ℕ
  pub header_revision : ℕ
  pub is_delete : Bool
  pub kv : KeyValue
  pub prev_kv : Option KeyValue

-- `inbox` holds what the stream has not sent yet, the oldest first.
pub record Watcher : Type 0 where
  pub id : ℕ
  pub watches : List WatchEntry
  pub inbox : List WatchEvent

-- `closed` keeps the watchers that `Cleanup` has closed.
pub record Manager : Type 0 where
  pub watchers : List Watcher
  pub watch_admission_floor : ℕ
  pub pending : List ℕ
  pub closed : List Watcher

abbrev pub inbox_capacity : ℕ
inbox_capacity = 64

abbrev pub register : Manager → Watcher → Manager
register m w = record m { watchers = w ∷ select (λ (v : Watcher). not (v.id == w.id)) m.watchers }

abbrev pub unregister : Manager → ℕ → Manager
unregister m id = record m { watchers = select (λ (v : Watcher). not (v.id == id)) m.watchers }

abbrev pub prev_of : WatchEntry → Option Record → Option KeyValue
prev_of w none = none
prev_of w (some prev) = if w.prev_kv then some (to_key_value prev) else none

abbrev pub event_of : Record → Option Record → WatchEntry → WatchEvent
event_of r prev w = record {
  watch_id = w.watch_id;
  header_revision = r.revision;
  is_delete = r.deleted;
  kv = to_key_value r;
  prev_kv = prev_of w prev;
}

-- The loop over the watches of one watcher: its inbox, and whether it is too slow.
unfoldable pub deliver :
    Record → Option Record → List WatchEntry → List WatchEvent → Option (List WatchEvent × Bool)
unfolding is_watch_match
deliver r prev [] inbox = some (inbox, false)
deliver r prev (w ∷ ws) inbox = elim (is_watch_match w r) [
  | none ↦ none
  | some match ↦ elim match [
    | false ↦ deliver r prev ws inbox
    | true ↦ elim (ltb (length inbox) inbox_capacity) [
      | true ↦ deliver r prev ws (inbox ++ event_of r prev w ∷ [])
      | false ↦ some (inbox, true)
    ]
  ]
]

-- The watchers that stay, and those that are closed for being slow.
abbrev pub place :
    Watcher
    → Option (List WatchEvent × Bool)
    → Option (List Watcher × List Watcher)
    → Option (List Watcher × List Watcher)
place w none others = none
place w (some out) none = none
place w (some (inbox, true)) (some (fast, gone)) = some (fast, record w { inbox = inbox } ∷ gone)
place w (some (inbox, false)) (some (fast, gone)) = some (record w { inbox = inbox } ∷ fast, gone)

unfoldable pub distribute_all :
    Record → Option Record → List Watcher → Option (List Watcher × List Watcher)
unfolding deliver
distribute_all r prev [] = some ([], [])
distribute_all r prev (w ∷ ws) =
    place w (deliver r prev w.watches w.inbox) (distribute_all r prev ws)

abbrev pub applied : Manager → Option (List Watcher × List Watcher) → Option Manager
applied m none = none
applied m (some (fast, gone)) = some (record m { watchers = fast; closed = gone ++ m.closed })

unfoldable pub distribute : Manager → Record → (prev : Option Record) → Option Manager
unfolding distribute_all
distribute m r prev = applied m (distribute_all r prev m.watchers)

-- `distributeFromDB`
abbrev prev_record : Db → Record → Option Record
prev_record db r =
    if not r.created && ltb 0 r.prev_revision
    then find_record_by_rev r.prev_revision db.records
    else none

unfoldable pub distribute_from_db : Manager → Db → (revision : ℕ) → Option Manager
unfolding distribute
distribute_from_db m db revision = elim (find_record_by_rev revision db.records) [
  | none ↦ some m
  | some r ↦ distribute m r (prev_record db r)
]

unfoldable pub holds : ℕ → List ℕ → Bool
holds n [] = false
holds n (x ∷ xs) = x == n || holds n xs

unfoldable pub enqueue_watch_revision : Manager → (revision : ℕ) → Manager
unfolding holds
enqueue_watch_revision m revision =
    if revision == 0 || holds revision m.pending
    then m
    else record m { pending = revision ∷ m.pending }

abbrev pub reset_pending : Manager → Manager
reset_pending m = record m { pending = [] }

-- sort.Slice
unfoldable pub insert_revision : ℕ → List ℕ → List ℕ
insert_revision n [] = n ∷ []
insert_revision n (x ∷ xs) =
    let rest = insert_revision n xs in if ltb x n then x ∷ rest else n ∷ x ∷ xs

unfoldable pub sort_revisions : List ℕ → List ℕ
sort_revisions [] = []
sort_revisions (n ∷ ns) = insert_revision n (sort_revisions ns)

-- The revisions that are ready, in the order of their delivery, and those that wait on.
unfoldable pub take_ready : (rev : ℕ) → List ℕ → List ℕ × List ℕ
unfolding sort_revisions
take_ready rev pending =
    (sort_revisions (select (λ r. leb r rev) pending), select (λ r. not (leb r rev)) pending)

unfoldable pub deliver_ready : Manager → Db → List ℕ → Option Manager
unfolding distribute_from_db
deliver_ready m db [] = some m
deliver_ready m db (r ∷ rs) = elim (distribute_from_db m db r) [
  | none ↦ none
  | some after ↦ deliver_ready after db rs
]

unfoldable pub advance_committed_revision : Manager → Db → (rev : ℕ) → Option Manager
unfolding take_ready deliver_ready
advance_committed_revision m db rev =
    let (ready, waiting) = take_ready rev m.pending in
    deliver_ready (record m { pending = waiting }) db ready

-- `MinWatchRevision`: `none` is -1.
abbrev pub lower : ℕ → Option ℕ → Option ℕ
lower n none = some n
lower n (some min) = if ltb n min then some n else some min

unfoldable pub min_entries : List WatchEntry → Option ℕ → Option ℕ
min_entries [] min = min
min_entries (e ∷ es) min = min_entries es (lower e.start_revision min)

unfoldable pub min_watchers : List Watcher → Option ℕ → Option ℕ
unfolding min_entries
min_watchers [] min = min
min_watchers (w ∷ ws) min = min_watchers ws (min_entries w.watches min)

abbrev pub min_watch_revision : Manager → Option ℕ
min_watch_revision m = min_watchers m.watchers none

unfoldable pub entry_below : ℕ → List WatchEntry → Bool
entry_below rev [] = false
entry_below rev (e ∷ es) =
    (ltb 0 e.start_revision && ltb e.start_revision rev) || entry_below rev es

unfoldable pub watch_below : ℕ → List Watcher → Bool
unfolding entry_below
watch_below rev [] = false
watch_below rev (w ∷ ws) = entry_below rev w.watches || watch_below rev ws

-- `SetWatchAdmissionFloor`: whether it returned nil.
unfoldable pub set_watch_admission_floor : Manager → (revision : ℕ) → Manager × Bool
unfolding watch_below
set_watch_admission_floor m revision =
    if watch_below revision m.watchers
    then (m, false)
    else (record m { watch_admission_floor = revision }, true)
