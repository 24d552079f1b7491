-- ===== src/Primary/ClusterTests.antt =====
-- The compaction cycle in a concrete cluster, and the laws applied to it.
use netsy.Base.{ℕ, suc, ◌<◌, ◌≡◌, ◌⊎◌, inr, refl, false, some, [], ◌∷◌, All, arith}
use netsy.LocalDb.Compact.{persist_compaction_revision}
use netsy.Watch.Manager.{Manager}
use netsy.Primary.LeaderTxn.{compact_message, run_compaction}
use netsy.Primary.Compaction.{delivered, lost_reply, Registration, notify_all, run_compaction_cycle}
use netsy.Primary.CompactionLaws.{Promises, AnswersFrom, run_compaction_cycle_lem}
use netsy.Primary.AbortLaws.{Undisturbed, Confirming, notify_all-lost_replies}
use netsy.Primary.Sample.{server}

abbrev idle : Manager
idle = record { watchers = []; watch_admission_floor = 0; pending = []; closed = [] }

abbrev node : Registration
node = record {
  address = "a:1";
  min_answer = some 3;
  watches = idle;
  first = delivered;
  second = delivered;
  rollback = delivered;
}

-- A watch that began at revision 1 after the query.
abbrev busy : Registration
busy = record node {
  watches = record idle {
    watchers =
        record {
          id = 1;
          watches =
              record {
                watch_id = 1;
                key = 97 ∷ [];
                range_end = [];
                start_revision = 1;
                prev_kv = false;
                filters_no_put = false;
                filters_no_delete = false;
              }
              ∷ [];
          inbox = [];
        }
        ∷ [];
  };
}

run_compaction_cycle_lem_example :
    let out = run_compaction_cycle server (some (node ∷ [])) 9 false in
    (out.0 ≡ server)
    ⊎ ((rev : ℕ) × All (AnswersFrom (suc rev)) (node ∷ [])
        × (server.state.compaction < rev)
        × All (Promises rev) out.1
        × (out.0 ≡ record server {
          db = persist_compaction_revision server.db rev 9;
          state = record server.state { compaction = rev };
          broadcast = compact_message rev ∷ server.broadcast;
          tasks = run_compaction rev ∷ server.tasks;
        }))
run_compaction_cycle_lem_example = run_compaction_cycle_lem server (node ∷ []) 9 false

node-Undisturbed : Undisturbed 0 node
node-Undisturbed = record {
  first_arrives = refl;
  second_arrives = refl;
  rollback_arrives = refl;
  floor_is = refl;
  none_below = tt;
}

busy-Undisturbed : Undisturbed 0 busy
busy-Undisturbed = record {
  first_arrives = refl;
  second_arrives = refl;
  rollback_arrives = refl;
  floor_is = refl;
  none_below = ((inr (omega arith), tt), tt);
}

node-Confirming : Confirming 0 2 node
node-Confirming = record { undisturbed = node-Undisturbed; none_below = tt }

notify_all-lost_replies_example :
    notify_all 0 2 (node ∷ record node { first = lost_reply; second = lost_reply } ∷ node ∷ [])
    ≡ (idle ∷ record idle { watch_admission_floor = 2 } ∷ idle ∷ [], false)
notify_all-lost_replies_example =
    notify_all-lost_replies 0 2 (node ∷ [])
      (record node { first = lost_reply; second = lost_reply }) (node ∷ []) (node-Confirming, tt)
      refl refl tt
