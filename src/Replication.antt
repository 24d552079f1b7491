-- ===== src/Replication.antt =====
-- internal/replication: the Replica's side of replication. The state of a follower, and the messages
-- that it receives.
pub mod Degradation
pub mod Stream
pub mod Lifecycle
pub mod StreamLaws
pub mod SessionLaws
pub mod KeepLaws
pub mod Sound
pub mod SoundLoop
pub mod Copies
pub mod Cluster
pub mod Synced
pub mod ClusterLaws
pub mod ReceiptLaws
pub mod LagLaws
pub mod Answers
pub mod AnswerLaws
pub mod Tests
use netsy.Base.{ℕ, String, Bool, false, Option, none, List, []}
use netsy.NodeState.{State}
use netsy.LocalDb.{Record, Db, DbError}
use netsy.Watch.Manager.{Manager}
use netsy.Primary.LeaderTxn.{Message}

-- proto.PrimaryMessage: `Initial`, or one of the messages that the Primary broadcasts.
pub data PrimaryMessage : Type 0 where
  initial : (committed_revision compaction_revision : ℕ) → PrimaryMessage
  broadcast : Message → PrimaryMessage

-- The errors of a Follow stream. The context's own error is `canceled`.
pub data FollowError : Type 0 where
  canceled get_node_state_failed not_acting_as_primary not_connected follow_failed : FollowError
  recv_failed send_failed ended_before_initial : FollowError
  db_failed : DbError → FollowError

-- A goroutine that waits for the grace period: `live` until its context is cancelled.
pub record LagCheck : Type 0 where
  pub target_revision : ℕ
  pub check_seq : ℕ
  pub live : Bool

-- A channel is a number. `answers` holds what was sent on the channels of the initial waiters,
-- `receipts` the revisions of the receipts sent and `compactions` the revisions that goroutines are
-- to compact, all newest first. `lag_check_cancel` is the check whose context the function cancels.
pub record Follower : Type 0 where
  pub state : State
  pub db : Db
  pub watch_manager : Manager
  pub node_id : String
  pub cancel : Bool
  pub require_initial_sync : Bool
  pub initial_sync_waiter : Option ℕ
  pub next_channel : ℕ
  pub answers : List (ℕ × Option FollowError)
  pub receipts : List ℕ
  pub compactions : List ℕ
  pub lag_check_cancel : Option ℕ
  pub lag_check_seq : ℕ
  pub lag_checks : List LagCheck

unfoldable pub new_follower : String → State → Db → Manager → Follower
new_follower node_id state db watch_manager = record {
  state = state;
  db = db;
  watch_manager = watch_manager;
  node_id = node_id;
  cancel = false;
  require_initial_sync = false;
  initial_sync_waiter = none;
  next_channel = 0;
  answers = [];
  receipts = [];
  compactions = [];
  lag_check_cancel = none;
  lag_check_seq = 0;
  lag_checks = [];
}
