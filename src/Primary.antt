-- ===== src/Primary.antt =====
-- internal/primary: the write path and the bookkeeping of the active Primary.
pub mod Quorum
pub mod Receipts
pub mod Replicas
pub mod Fallback
pub mod ChunkBuffer
pub mod BufferLaws
pub mod Txn
pub mod LeaderTxn
pub mod Outcomes
pub mod Commits
pub mod Durable
pub mod Broadcasts
pub mod Preflight
pub mod PreflightSteps
pub mod PreflightLaws
pub mod PreflightLoop
pub mod Follow
pub mod FollowChannels
pub mod FollowLaws
pub mod FollowTests
pub mod Recovery
pub mod PreflightTests
pub mod ParseLaws
pub mod Strategy
pub mod Compaction
pub mod CompactionLaws
pub mod AbortLaws
pub mod Sample
pub mod Tests
pub mod ClusterTests
