-- ===== src/Lib.antt =====
-- netsy: an etcd server for Kubernetes that keeps its records in SQLite and in object storage.
--
-- A cluster has one active Primary, which takes all writes, and Replicas, which follow it. A write
-- is parsed (`ParseTxnRequest`), inserted into SQLite in a transaction that compares and swaps
-- (`InsertRecord`), and made durable before it is committed: either by a synchronous upload to object
-- storage, or by Receipts of enough Replicas, after which it waits in the chunk buffer for its upload.
-- The Elector chooses the Primary among the nodes that it can contact. Reads are answered from the
-- database (`Range`), committed records are delivered to watches, and old revisions are compacted
-- once no node watches them.
--
-- Files, and the code that they are about:
--   * Base: lists, byte strings, integers and Boolean tests that all parts share.
--   * NodeState (internal/nodestate): the health, elector and primary state of a node. The setters
--     are functions from `State` to `State` with the error that they return. NodeState/Wire is
--     proto.go, NodeState/Transitions compares the tables with the diagrams of the comments, and
--     NodeState/Runs is about sequences of calls.
--   * LocalDb (internal/localdb): the tables. LocalDb/Insert is insert.go with one function for each
--     computed column of its statement, LocalDb/Replicate is replicate.go, LocalDb/Compact is
--     compaction.go, and LocalDb/Find, LocalDb/FindStream and LocalDb/FindAll are find.go. LocalDb/Latest has the invariant
--     of the table, and LocalDb/Sound the part of it that the primary key alone keeps; the modules in
--     Laws, LocalDb/CompactedTo, LocalDb/FindOrder, LocalDb/NoConflict, LocalDb/ReplicateRows,
--     LocalDb/StreamOrder and LocalDb/StreamLaws have
--     the proofs.
--   * Etcd: the messages of the etcd API, as far as they are read.
--   * CommonApi (internal/commonapi): `Range` in CommonApi.antt, `buildRangeQuery` in CommonApi/Query,
--     chunksize.go in CommonApi/ChunkSize and `RangeStream` in CommonApi/Stream. CommonApi/RangeLaws is
--     about `Range`; CommonApi/StreamAnswers, CommonApi/StreamChunks and CommonApi/StreamLaws compare the
--     chunks of a stream with the answer of `Range`, and CommonApi/StreamKeys and CommonApi/StreamSafety
--     are about streams over a table that changes.
--   * Watch (internal/watch): Watch/Match is the matching of watcher.go, and Watch/Manager is
--     manager.go. The other modules there are about matching, deliveries, pending revisions, floors and
--     panics.
--   * Primary (internal/primary): Primary/Quorum is quorum.go, Primary/Replicas is replicas.go,
--     Primary/ChunkBuffer is chunk_buffer.go, and leader_txn.go is Primary/Txn (requests and answers)
--     and Primary/LeaderTxn (the two paths of a write). Primary/Compaction is compaction.go with the
--     handlers of internal/node/server.go, and Primary/CompactionLaws and Primary/AbortLaws are about
--     it. Primary/Outcomes, Primary/Commits and Primary/Durable are about transactions,
--     Primary/ParseLaws about requests, Primary/Receipts, Primary/Strategy and Primary/Fallback about
--     quorums, and Primary/BufferLaws about interleavings of flushes. Primary/Broadcasts is about the
--     messages that a transaction sends to Replicas, and Primary/Follow is the sessions of the Follow
--     streams in follow.go (Primary/FollowChannels and Primary/FollowLaws are about them).
--     Primary/Preflight (a pass) and Primary/PreflightLoop (its repetitions) are preflight.go,
--     and Primary/Recovery is the recovery of object storage in leader_txn.go with the write that it retries (write_record.go).
--   * Datastore (internal/datastore, and PutIfAbsent of internal/storage): the chunk files, their
--     import, and in Datastore/Keys the names of the objects.
--   * Replication (internal/replication): the follower of a Replica. Replication/Stream has the handlers
--     of its messages, Replication/Lifecycle the streams and the loop that follower.go opens them in,
--     Replication/Degradation is degradation.go. Replication/Cluster joins the follower to the
--     Primary's transactions: what a transaction broadcasts is what the follower handles. The other
--     modules have the proofs: which rows stay, which copies agree, which receipts, answers and lag
--     checks there are.
--   * PeerClient (internal/peerclient/manager.go): the connections of a node and the change of the
--     cluster's state.
--   * Bootstrap (internal/bootstrap): how a node is loaded. Bootstrap/Register is the registration and
--     Bootstrap/Load the backfill; it uses the follower's start and stop, the import of files and the
--     queries of the table.
--   * Elector (internal/elector): Elector/Election is one round of primary_election.go. In
--     Elector/ElectionLaws and Elector/MajorityLaws are the proofs.
--   * The modules Tests, ClusterTests and Sample have concrete states, runs and the laws applied to
--     them.
--
-- How state is written: a record is passed in and returned. The gate of `LeaderTxn` admits one
-- transaction at a time, so `leader_txn` is a function of the server, the request and a record
-- `Outside`, which says what happened outside while it ran: the time, failures of SQLite and of the
-- uploads, the Receipts in their order, and whether the timer won. Goroutines that a transaction
-- starts are recorded as tasks. A flush of the chunk buffer is two steps, its critical sections, and
-- `Step` lets other calls come between them; an upload that fails may have arrived all the same.
--
-- A turn of a stream has the table as it is then, since other calls may write between its queries.
--
-- The follower, the preflight and the load have such records too, with one flag for each call that may
-- fail; an error comes with the state that it leaves, so a failure behind the DELETE of
-- `ReplicateTentativeRecord` leaves the row deleted. A stream is the list of what `Recv` returns, and
-- the loop of a follower the list of its rounds. While a node is loaded, its follower handles messages
-- between the loader's steps. The grace period of a lag check is not measured: its timer fires at any
-- time. The compaction that a Compact message starts is a goroutine: the handler records it, and
-- Replication/KeepLaws lets it run at any time, between any messages. A chunk is named by its revision,
-- and object storage is the list of its chunks.
--
-- Numbers: revisions, versions and counters are natural numbers, since only the Primary writes them;
-- the guards against negative ones are false then. Numbers that a client sends (lease, limit,
-- revision, compared revision) are integers. An overflow of the revision counter is not modelled.
-- The sequence number of the lag checks wraps around at 2 ^ 64. A timestamp is a number of nanoseconds.
-- A table is a list of rows, the newest insertion first, and
-- a SQL statement is a function on lists; the metadata row of `FindRecordsBy` is sorted as SQLite
-- sorts its TEXT key among BLOBs. Bytes that are nil and bytes that are empty are one, but for
-- RangeEnd of a failure operation. Loops are structural, but for that of the
-- registration, which has fuel: three turns are enough, and that of a stream, for which more turns than
-- rows found are enough, or than the limit, if the table changes.
--
-- Maps (watchers, watches, Replicas) are lists without a second entry for a key, and are visited in
-- the order of the list. An index out of range, which panics, is `none` or `index_panic`.
--
-- Parameters: SQL's LIKE (`like`) and the encoded size of a record or of a response (`size`) are
-- arbitrary functions.
-- `same` compares the bytes of two files, as PutIfAbsent does; `IsFaithful` states that files with equal
-- bytes have the same time and the same records.
--
-- Not modelled: logging and metrics, gRPC and HTTP glue, the object storage client, configuration, the
-- bytes of the chunk and snapshot files (internal/datafile), the node map and the
-- server of the Elector, the handler of a Follow stream on the Primary, the creation of watches, the client
-- handlers, and the worker of snapshots.
pub mod Base
pub mod NodeState
pub mod LocalDb
pub mod Etcd
pub mod CommonApi
pub mod Watch
pub mod Primary
pub mod Datastore
pub mod Replication
pub mod PeerClient
pub mod Bootstrap
pub mod Elector
