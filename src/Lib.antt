-- ===== src/Lib.antt =====
-- Verification of the distributed systems labs, a Go module whose packages stand under 6.5840/src:
-- a MapReduce library, a versioned key/value server with its clerk and a lock built on it, the Raft
-- consensus algorithm, a replicated state machine layer over Raft, the key/value service on that
-- layer, and the configurations of a sharded service. Paths below are relative to 6.5840/src.
--
-- The parts and their modules
--
-- Prelude: Go's maps as association lists, lists measured by native numbers, Boolean tests.
-- Rpc: the error values and argument structs of kvsrv1/rpc/rpc.go. A Tversion is a uint64 and wraps.
-- Kv: Kv.Server is kvsrv1/server.go, `KVServer.Get` and `Put` as `get` and `put`. Kv.Clerk is
--   kvsrv1/client.go, the retry loops of `Clerk.Get` and `Put` as `clerk_get` and `clerk_put`.
--   Kv.StateMachine is kvraft1/server.go: `DoOp`, `Snapshot`, `Restore` and the handlers after
--   `Submit`. Kv.Failover is kvraft1/client.go. Kv.Checker is models1/kv.go, the model of one key
--   that the tests' linearizability checker runs.
-- Lock: kvsrv1/lock/lock.go, `Acquire` and `Release` as a state machine of one client (Lock.Client),
--   and any number of clients interleaved with other clients of the store (Lock.System).
-- Raft: raft1/raft.go. Raft.State holds the struct and the index arithmetic, with the persister of
--   tester1/persister.go; Raft.Persist has `persist`, `readPersist` and `Make`; Raft.Election has
--   `RequestVote`, `ticker` and `startElection`; Raft.Append has `AppendEntries`; Raft.Compaction has
--   `Snapshot` and `InstallSnapshot`; Raft.Leader has `Start`, `sendAppendEntriesToPeer` and
--   `updateCommitIndex`; Raft.Apply has `applierLoop`. Raft.Peer makes one step function of them, and
--   Raft.Cluster a system of n peers with crashes, whose elections are modelled to the message, and
--   in Raft.Cluster.Packets the calls that carry logs and snapshots. Raft.Books is about what the
--   handlers do to a log, held against the logs of the leaders.
-- Rsm: kvraft1/rsm/rsm.go, `applyReader` a message at a time and `Submit` a round at a time, over any
--   service (the record `StateMachine`) and any Raft.
-- MapReduce: mr/coordinator.go with mr/rpc.go in MapReduce.Coordinator, and the grouping by key of
--   `doMap` and `doReduce` of mr/worker.go in MapReduce.Worker.
-- Shard: shardkv1/shardcfg/shardcfg.go, the configurations of shards and groups.
-- Net: labrpc/labrpc.go, the simulated network of the tests. Net.Service is `Server` and `Service`,
--   Net.Network is `Network` with `processReq` in two parts, before and after the handler runs, and
--   Net.Calls makes one system of calls, handlers and changes of the network.
-- Harness: raft1/server.go, the service under the tests of Raft, whose loops `applier` and
--   `applierSnap` are steps for one message, and the checks of raft1/test.go; with the groups of
--   servers and the clients of tester1 on the simulated network (tester1/group.go, srv.go, clnts.go).
--
-- How the code is modelled
--
-- A handler is one step, since a mutex guards it: a function from the state and the arguments to the
-- new state and the reply. A goroutine is the sequence of its stretches between taking and releasing
-- the mutex, each a step of its own, so that other steps may come between. A panic on an index out
-- of range and a `log.Fatalf` are `none`. The clock, the random timeouts and identifiers, and what a
-- call of another package answers are arguments of the steps. The network is what the lists of
-- events and attempts make of it: a message may be lost, delayed, or delivered with its reply lost.
--
-- Terms, log indices, counts and configuration numbers are natural numbers that do not overflow; a
-- version wraps at 2^64, and the theorems that count versions assume that it does not get there.
-- -1 in `votedFor`, `ConflictTerm` and the results of `Start` and `analyze` is `none`.
--
-- Parameters with hypotheses: the codec of labgob (what it encodes it decodes, and an encoding is
-- not empty), the hash of hash/fnv, and the sort of package sort (its result is in order, and
-- a permutation of its argument).
--
-- Loops are recursion on the list they walk or on the index they count down. The loop of `doReduce`
-- has fuel, the length of its input, which is enough since each round takes a pair off. The loop of
-- `Rebalance` that moves shards has fuel too: each move lowers the potential, the sum over the groups
-- of 0 + 1 + ... + (n - 1) for a group of n shards, so that much fuel is enough.
--
-- Not modelled: the checks of labgob, the rest of the test harness and the other test services, the
-- plugins of mrapps and the programs of main, which are test equipment or input and output; and the
-- files of shardkv1 besides shardcfg, whose bodies are placeholders. Of a Raft cluster, elections and
-- the agreement of the logs are treated, not what is committed; the replies that a leader gets are
-- any at all.
pub mod Prelude
pub mod Rpc
pub mod Kv
pub mod Lock
pub mod Raft
pub mod MapReduce
pub mod Rsm
pub mod Shard
pub mod Net
pub mod Harness
