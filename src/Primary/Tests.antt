-- ===== src/Primary/Tests.antt =====
-- The Primary at concrete states: runs of transactions, and the laws applied to them.
use netsy.Base.{
  ◌≤◌, ◌≡◌, refl, true, false, none, some, [], ◌∷◌, arith, length, bytes_equal, pos, negsuc,
}
use netsy.NodeState.{new_state}
use netsy.LocalDb.{Record, latest_revision, latest_for_key, insert_row, unique_conflict}
use netsy.LocalDb.Sample.{first_b, key_b}
use netsy.Primary.Quorum.{
  ReceiptCollector, new_receipt_collector, collect_stream, wait, select_txn_strategy,
  required_receipts, contains, collect_for_revision, collect_receipt, add_id,
}
use netsy.Primary.Receipts.{NoRepeat, AllIn, IsCounting, senders, wait_sound, wait_complete}
use netsy.Primary.Replicas.{
  healthy_for_quorum_count, unacked_quorum_node_ids, degrade_all, count_replicas, health,
}
use netsy.Primary.Fallback.{timeout_falls_back}
use netsy.Primary.ChunkBuffer.{append_record}
use netsy.Primary.BufferLaws as Buffer
use netsy.Primary.Txn.{quorum_not_met, ok, err, build_txn_response}
use netsy.Primary.ParseLaws.{create_record}
use netsy.Primary.LeaderTxn.{Server, Outside, leader_txn}
use netsy.Primary.Outcomes.{Kept}
use netsy.Primary.Commits.{
  IsConsistent, Written, serve, serve-IsConsistent, leader_txn-Written, leader_txn-rolled_back,
}
use netsy.Primary.Durable.{Durable, leader_txn-Durable}
use netsy.Primary.Sample.{peers, one, no_like, server, outside, create_b, server-IsConsistent}

serve-IsConsistent_example :
    IsConsistent (serve one no_like server ((create_b, outside) ∷ []))
    × (2 ≤ (serve one no_like server ((create_b, outside) ∷ [])).state.committed)
unfolding new_state
serve-IsConsistent_example =
    serve-IsConsistent one no_like ((create_b, outside) ∷ []) server server-IsConsistent

abbrev created : Server
created = (leader_txn one no_like server create_b outside).0

create_run :
    leader_txn one no_like server create_b outside
    ≡ (created, ok (some first_b, build_txn_response (some first_b) none))
unfolding leader_txn bytes_equal latest_for_key insert_row unique_conflict required_receipts
    count_replicas health collect_for_revision collect_receipt add_id latest_revision
create_run = refl

leader_txn-Written_example : Written server created first_b (build_txn_response (some first_b) none)
leader_txn-Written_example =
    leader_txn-Written one no_like server create_b outside created server-IsConsistent first_b
      (build_txn_response (some first_b) none) create_run

leader_txn-Durable_example : Durable server outside first_b created
leader_txn-Durable_example =
    leader_txn-Durable server outside one no_like create_b created first_b
      (build_txn_response (some first_b) none) create_run

-- No Receipt comes in time.
abbrev silence : Outside
silence = record outside { receipts = []; timer_won = true }

abbrev timed_out : Server
timed_out = (leader_txn one no_like server create_b silence).0

timeout_run : leader_txn one no_like server create_b silence ≡ (timed_out, err quorum_not_met)
unfolding leader_txn bytes_equal latest_for_key insert_row unique_conflict required_receipts
    count_replicas health
timeout_run = refl

leader_txn-rolled_back_example : Kept server timed_out
leader_txn-rolled_back_example =
    leader_txn-rolled_back one no_like server create_b silence timed_out server-IsConsistent
      quorum_not_met timeout_run

wait_sound_example :
    let c = collect_stream (new_receipt_collector 3 1) (("n2", 2) ∷ ("n3", 3) ∷ []) in
    NoRepeat c.acked × AllIn c.acked (senders 3 (("n2", 2) ∷ ("n3", 3) ∷ [])) × (1 ≤ length c.acked)
unfolding collect_stream collect_for_revision collect_receipt add_id
wait_sound_example = wait_sound 3 1 (("n2", 2) ∷ ("n3", 3) ∷ []) (omega arith) false refl

wait_complete_example :
    wait (collect_stream (new_receipt_collector 3 1) (("n2", 2) ∷ ("n3", 3) ∷ [])) false ≡ true
unfolding contains
wait_complete_example =
    wait_complete 3 1 (("n2", 2) ∷ ("n3", 3) ∷ []) (omega arith) ("n3" ∷ []) (refl, tt) (refl, tt)
      (omega arith)

abbrev waiting : ReceiptCollector
waiting = new_receipt_collector 3 1

waiting-IsCounting : IsCounting waiting
waiting-IsCounting = record { exact = ground arith; distinct = tt }

peers-NoRepeat : NoRepeat ("n2" ∷ "n3" ∷ [])
unfolding contains
peers-NoRepeat = (refl, (refl, tt))

timeout_falls_back_example :
    (select_txn_strategy (negsuc 0) 3 (
      healthy_for_quorum_count
        (degrade_all (unacked_quorum_node_ids waiting peers) peers))).use_quorum
    ≡ false
unfolding required_receipts
timeout_falls_back_example =
    timeout_falls_back waiting peers (negsuc 0) 3 waiting-IsCounting refl refl peers-NoRepeat

-- One record is appended.
abbrev appended : Buffer.System
appended =
    let y = Buffer.start one 8 1 in
    record y { buffer = append_record one y.buffer first_b 6; history = first_b ∷ [] }

appended-Reach : Buffer.Reach one (Buffer.start one 8 1) appended
appended-Reach = Buffer.next Buffer.here (Buffer.append (Buffer.start one 8 1) first_b 6)

reachable-IsConsistent_example : Buffer.IsConsistent one appended
reachable-IsConsistent_example = Buffer.reachable-IsConsistent one 8 1 appended appended-Reach

abbrev parsed_b : Record
parsed_b = create_record key_b (8 ∷ []) (pos 0)
