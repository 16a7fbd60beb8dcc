-- ===== src/Lib.antt =====
-- goPhat: a replicated file system and message queue on Viewstamped Replication, in Go.
--
-- The package vr replicates commands: the master (`RunVR`) appends a command to its log and sends
-- `Prepare`, the others append it and answer, and `handlePrepareOK` commits what a majority has. A
-- replica that misses entries asks for them (`StartStateTransfer`), one that missed a view recovers
-- (`PrepareRecovery`), and a lease that runs out starts a view change. The log is phatlog. What is
-- replicated are the commands of phatdb, a tree of files behind a server loop.
--
-- Prelude and its modules: native numbers, Boolean tests, lists, association lists for Go's maps
-- (Prelude/Assoc), 64-bit words (Prelude/Word, where `u64` writes out the wrap-around) and sorting
-- (Prelude/Sort).
--
-- Phatlog models phatlog/phatlog.go (`Log`, `Add`, `Suffix`, `HasEntry`, `GetCommand`).
--
-- Vr models vr/. Vr/State has the state of a replica and the messages. Vr/Exec has handlers as
-- actions on a `World`: the replica, the answers that its state transfers will get (`inbox`), what
-- it sends and signals (`outbox`). An action returns, or stops for good: a failed `assert` exits, a
-- nil pointer or an index out of range panics, a state transfer without an answer blocks. Goroutines
-- that a handler starts are effects; their handlers are actions of their own.
--   Vr/Commit: `doCommit` (vr/vr.go) with `StartStateTransfer`, `handleGetStateResponse` and
--     `GetState` (vr/vrstatetransfer.go).
--   Vr/Normal: `Prepare`, `Commit`, `RunVR` up to its wait, `calcHighestMajorityOp`,
--     `handlePrepareOK`, `sendCommitMsgs`, `RunAsReplica` (vr/vr.go).
--   Vr/Send: `sendAndRecv` and `sendAndRecvTo` (vr/vr.go): the recipients, and the loop that
--     collects results as a step on each result.
--   Vr/Lease: `Heartbeat` and the timers (vr/lease.go), `IsMaster` (vr/helpers.go).
--   Vr/ViewChange: vr/vrviewchange.go up to the messages for the new master; Vr/ViewChange/Master: the
--     rest of it, `BecomeMaster` (vr/vr.go) and `ReplicaTimeout` (vr/lease.go).
--   Vr/Recovery: vr/vrrecovery.go. Vr/Snapshot: vr/snapshot.go.
--   Vr/Connections: listeners, connections and timers (vr/helpers.go, vr/vr.go): `Shutdown`,
--     `Revive`, `Disconnect`, `Reconnect`, `ClientConnect`, the loop of `ReplicaRun`.
--   Vr/Coherence: the state machine that a replica runs, as an invariant: the log has one entry for
--     each op number, and the commands that were executed are the first of them.
--
-- Phatdb models phatdb/: Phatdb/Path (`GetNodePath`), Phatdb/Tree and Phatdb/Ops (phatdb/phatdb.go),
-- Phatdb/Server (phatdb/phatdb_server.go). Phatdb/Ops/View is the abstract view of a tree, the data
-- at each path, in which the operations are specified.
--
-- Phatqueue models phatqueue/queue.go (the queue) and, in Phatqueue/Server, phatqueue/queue_server.go
-- with its copy-on-write flag; the goroutine that encodes a snapshot is a step of its own.
-- Queuedisk models queuedisk/queue_disk.go: the queue with its snapshot and log files as byte lists;
-- Queuedisk/Server the loop of queuedisk/queue_disk_server.go.
--
-- Bqueue models bqueue/queue/queue.go, a linked list on a heap of nodes.
--
-- Phatrpc models phatRPC/phatRPC.go, where the parts meet: the commands of vr are those of phatdb, and
-- the database of a replica is the tree after the commands that vr has run. Phatrpc/Agreement compares
-- it with a database server that gets the commands of the log. Queuerpc models queueRPC/queueRPC.go,
-- where vr runs the commands of phatqueue, with the channels that only the master's commands have; Queuerpc/Agreement compares a
-- replica's queue with a queue server that gets the commands of the log, Queuerpc/Sends is about what
-- `Send` does with a command, and Queuerpc/Transfer copies a queue by a snapshot.
--
-- Client models client/client.go: the search for the master and the calls with retries, as actions on
-- a client, a time and the calls that were sent; what the network answers is a parameter, in
-- Client/Cluster the answers of replicas. Phatclient models phatclient/phatclient.go, the commands of
-- the database's client and its reading of the replies. Worker models worker/worker.go, the client of
-- the queue.
--
-- LevelLog models level_log/level_log.go: the header of a line, the numbers in it, and to which writer
-- a line goes. FuzzTesting models the bookkeeping of fuzz_testing/test_master.go: which processes are
-- alive, and the commands that kill, stop and resume them; FuzzTesting/Scripts has the scripts of
-- fuzz_testing/basic_tests.go, their run and the part of main before the checks, and
-- FuzzTesting/Clients what a client does with its requests and the check of the data it created.
--
-- Vr/Fixtures and the modules named Tests, ClientTests or ChangeTests run the definitions on
-- concrete states.
--
-- Parameters: the type `C` of commands, whose `CommitFunc` is a record of the commands that were
-- run, in order; the user's functions that take and load a snapshot; the current time and the
-- random nonce, arguments of the handlers that read them; whether writing the snapshot file
-- succeeded; `fmt.Sprintf` in `hashNode` and for the names of the files of the fuzz tests; what the
-- network and the servers answer a client; the caller that package runtime finds; gob, with what the
-- queues rely on as hypotheses about the entries and queues at hand.
--
-- Fuel: `doCommit` calls itself, in its loop and through a state transfer. It gets as much fuel as
-- there are answers under way, and two more: each transfer takes one answer, and the loop nests one
-- call deeper. Its loop gets one round for each number up to the commit that is asked for; at the last
-- 64-bit number, where the loop of the code never ends, it runs out of fuel. `parse_log` of the log
-- file takes at least four bytes in each round, so that the number of bytes is enough. The loops of
-- `StopNode` and `ResumeNode` get one round more than there are nodes, since one round over the nodes finds
-- the node, and `KillNode` gets that for each node alive.
--
-- Not modelled: locks and what other goroutines do in the middle of a handler; listeners of the RPC
-- servers; gob (vr/gobcodec.go); `HashLog`; formatted printing; the aliasing of a reply of the database
-- with the live node; failing file operations of queuedisk; the answer of a call that comes after its
-- timeout; the processes that the fuzz tests start. The data that their clients create is checked on a
-- single database only. The benchmarks and the other main
-- programs have no logic of their own.
pub mod Bqueue
pub mod Client
pub mod FuzzTesting
pub mod LevelLog
pub mod Phatclient
pub mod Phatdb
pub mod Phatlog
pub mod Phatqueue
pub mod Phatrpc
pub mod Prelude
pub mod Queuedisk
pub mod Queuerpc
pub mod Vr
pub mod Worker
