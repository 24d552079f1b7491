-- ===== src/Watch/Tests.antt =====
-- Watches at concrete keys and revisions, and the laws applied to them.
use netsy.Base.{
  ℕ, ◌≡◌, refl, Bool, true, false, not, none, some, List, [], ◌∷◌, ◌++◌, ◌&&◌, leb, arith, Bytes,
  bytes_equal, inl,
}
use netsy.LocalDb.Sample.{second_a, key_a}
use netsy.CommonApi.Query.{choose_query, matches, range_end_prefix_value}
use netsy.Watch.Match.{WatchEntry, has_prefix, trim_zeros, is_in_range}
use netsy.Watch.MatchLaws.{is_in_range-matches}
use netsy.Watch.Manager.{
  Watcher, Manager, distribute, event_of, take_ready, min_watchers, set_watch_admission_floor,
  holds,
}
use netsy.Watch.DeliveryLaws.{IsDelivered, distribute-IsDelivered}
use netsy.Watch.PendingLaws.{NoTwice, Ascends, take_ready_lem}
use netsy.Watch.FloorLaws.{AllFrom, min_watch_revision_lem}

-- LIKE with a pattern that ends in %, the byte 37, for a prefix without wildcards.
abbrev like_prefix : Bytes → Bytes → Bool
like_prefix pattern k = has_prefix k (97 ∷ [])

is_in_range-matches_example :
    is_in_range (97 ∷ 98 ∷ []) key_a (98 ∷ [])
    ≡ some (matches like_prefix (choose_query key_a (98 ∷ []) (98 ∷ [])) (97 ∷ 98 ∷ []))
unfolding range_end_prefix_value trim_zeros
is_in_range-matches_example =
    is_in_range-matches like_prefix key_a (98 ∷ []) (98 ∷ []) (97 ∷ 98 ∷ []) refl refl (λ e. cc)
      (inl refl)

abbrev watch_a : WatchEntry
watch_a = record {
  watch_id = 1;
  key = key_a;
  range_end = [];
  start_revision = 2;
  prev_kv = false;
  filters_no_put = false;
  filters_no_delete = false;
}

abbrev watcher : Watcher
watcher = record { id = 7; watches = watch_a ∷ []; inbox = [] }

abbrev manager : Manager
manager = record { watchers = watcher ∷ []; watch_admission_floor = 0; pending = []; closed = [] }

abbrev delivered_to : Manager
delivered_to = record manager {
  watchers = record watcher { inbox = event_of second_a none watch_a ∷ [] } ∷ [];
}

delivery : distribute manager second_a none ≡ some delivered_to
unfolding distribute bytes_equal
delivery = refl

distribute-IsDelivered_example :
    (gone : List Watcher) × IsDelivered second_a none (watcher ∷ []) delivered_to.watchers gone
    × ([] ≡ gone ++ [])
distribute-IsDelivered_example = distribute-IsDelivered manager second_a none delivered_to delivery

three_once : NoTwice (5 ∷ 3 ∷ 4 ∷ [])
unfolding holds
three_once = (refl, (refl, (refl, tt)))

take_ready_lem_example :
    let (ready, waiting) = take_ready 4 (5 ∷ 3 ∷ 4 ∷ []) in
    Ascends ready
    × ((k : ℕ) → holds k ready ≡ (holds k (5 ∷ 3 ∷ 4 ∷ []) && leb k 4))
    × ((k : ℕ) → holds k waiting ≡ (holds k (5 ∷ 3 ∷ 4 ∷ []) && not (leb k 4)))
    × NoTwice waiting
take_ready_lem_example = take_ready_lem 4 (5 ∷ 3 ∷ 4 ∷ []) three_once

min_watch_revision_lem_example :
    AllFrom 2 (watcher ∷ [])
    × (set_watch_admission_floor manager 1 ≡ (record manager { watch_admission_floor = 1 }, true))
unfolding min_watchers
min_watch_revision_lem_example = min_watch_revision_lem manager 2 1 refl (omega arith)
