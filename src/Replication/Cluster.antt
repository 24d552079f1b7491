-- ===== src/Replication/Cluster.antt =====
-- A Primary and a Replica that follows it: the Primary serves transactions, and the Follow stream
-- brings the Replica what each has broadcast, in order.
use netsy.Base.{Bool, List, [], ◌∷◌, Bytes, ℕ}
use netsy.LocalDb.{Record}
use netsy.Etcd.{TxnRequest}
use netsy.Primary.LeaderTxn.{Message, Server, leader_txn}
use netsy.Primary.LeaderTxn as LeaderTxn
use netsy.Replication.{Follower, broadcast}
use netsy.Replication.Stream.{Outside, Handled, going, failed, panicked, handle}

-- A transaction, what happens around the Primary meanwhile, and around the Replica while it handles
-- a message.
pub record Step : Type 0 where
  pub request : TxnRequest
  pub around : LeaderTxn.Outside
  pub replica_around : Message → Outside

abbrev pub then_handle : Handled → (Follower → Handled) → Handled
then_handle (going f) k = k f
then_handle (failed f e) k = failed f e
then_handle panicked k = panicked

-- The messages are listed the newest first.
unfoldable pub deliver : (Message → Outside) → Follower → List Message → Handled
unfolding handle
deliver around f [] = going f
deliver around f (m ∷ older) =
    then_handle (deliver around f older) (λ g. handle g (broadcast m) (around m))

-- What has been delivered is taken off the Primary's messages.
abbrev pub delivered : Server → Server
delivered ps = record ps { broadcast = [] }

unfoldable pub run_cluster :
    (size : Record → ℕ) (like : Bytes → Bytes → Bool)
    → Server
    → Handled
    → List Step
    → Server × Handled
unfolding deliver leader_txn
run_cluster size like ps h [] = (ps, h)
run_cluster size like ps h (s ∷ rest) =
    let qs = (leader_txn size like ps s.request s.around).0 in
    run_cluster size like (delivered qs)
      (then_handle h (λ f. deliver s.replica_around f qs.broadcast)) rest
