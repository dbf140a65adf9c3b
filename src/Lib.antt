-- ===== src/Lib.antt =====
-- A model of the payment system and of its replicated ledger, with proofs.
--
-- The program moves money in two ways. Payments go from a client (client/) through the gateway
-- (gateway/), which runs two-phase commit over two banks (bank/); each bank is a Paxos group whose
-- replicas run the bank's state machine over an account file and a ledger file. The browser
-- control plane (internal/cluster) runs the same Paxos group for each shard of a ledger
-- (internal/ledger), and moves money between shards with a coordinator of its own
-- (internal/twopc).
--
-- Base: numbers, integers, maps and lists that the other files share.
-- Paxos: internal/paxos. Ballot is `Ballot` and `majority` of paxos.go. Log is log.go, with
--   what the disk does to each write as an argument (Entries: what it hands out; Recovery: what a
--   start finds after a crash). Node and its children are node.go, one function for each step
--   between two waits: Handlers for `Handle`, Election for `campaign` and `becomeLeader`,
--   Replication for `Propose`, `replicate`, `broadcastCommit` and `catchUp`, Apply for
--   `drainApplicable`. Steps is the relation of all these steps. Promises, Accepts, Choice,
--   Elected and Drain hold the proofs about one replica.
--   Spec is multi-Paxos without its messages, with its invariant (Safe: on one state; Kept: across
--   votes, promises, proposals and learning). Cluster is a group of replicas that take the steps
--   of Node, with the requests and heartbeats sent, the answers given, the fetches begun and served,
--   the campaigns that run, and the slots that a leader has still to replicate; its children have the proofs for each kind of step.
-- Ledger: internal/ledger/ledger.go, the machine of a shard, one function for each operation.
-- TwoPc: internal/twopc/twopc.go over the machines of Ledger, as internal/cluster/engine.go
--   wraps them. A list of turns says which calls fail and what other clients do before each call.
-- Accounts: internal/accounts/accounts.go. Bank: bank/twopc.go, bank/ledger.go and
--   bank/statemachine.go. Status: the gRPC codes. Gateway: gateway/transfer.go, over the banks of
--   Bank; an environment says what each call meets.
-- Faults: internal/transport/faults.go. Engine: internal/cluster/replica.go and
--   internal/cluster/engine.go, over the fault table of Faults; Commands has the waits and the
--   commands on keys, Operator has Kill, Revive, Partition, Heal and Bootstrap, Status the
--   snapshot. What replicas answer about themselves is a list of views, one for each poll of a
--   wait, and what a leader makes of a command is an argument. Sides, Reach, Majority, Leaders,
--   Settled, Waits and Faulty hold the proofs.
-- Client: client/queue.go. TransactionId: transaction_id_server/main.go.
-- Examples: concrete runs.
--
-- Texts that are only compared are numbers. int64 balances of shards wrap around. float64 amounts of
-- banks are whole thousandths with exact sums; what is stored, a balance or the amount of a ledger
-- line, is rounded to two decimals, as the code prints it. The error of a float64 sum, which stays
-- below half a cent for amounts of practical size, is not modelled. Slots and counters have
-- no bound, ballot numbers wrap at 2^64. The one loop on fuel is `drainApplicable`: one unit for
-- each slot up to the highest stored one is enough, as Drain proves. Times are numbers, and random
-- draws, clocks, disks and networks are arguments. Steps of a replica are atomic: interleavings
-- inside of a handler are not modelled. The waits of the engine end with the last view of their
-- list, so they need no fuel.
--
-- A run of a group (Cluster.Move) takes the steps of the code in any order, with any messages
-- lost, repeated or late, under these conditions, without which the code does not keep agreement:
-- ballot numbers do not wrap; a campaign ends, and a leader stores its own entry, only while its
-- ballot is the promise of the replica; a leader replicates only slots of the leadership that
-- runs; no entry of an older ballot is stored in a slot that the replica knows to be committed;
-- accepts, heartbeats and the answers that count are ones that were sent. A replica that hears of
-- more applied slots than its own fetches them from the sender of the heartbeat, which answers with
-- all it holds, and adopts what comes back; that only chosen entries are adopted is proved.
-- Replicas do not restart.
--
-- Not modelled: the transports, RPC and TLS code, authentication and sessions, consoles, logging,
-- JSON and CSV texts, generated code and the web page; of the engine, its construction, the
-- narration of messages, and the datastore display.
pub mod Base
pub mod Ledger
pub mod TwoPc
pub mod Paxos
pub mod Status
pub mod Accounts
pub mod Bank
pub mod Gateway
pub mod Faults
pub mod Engine
pub mod Client
pub mod TransactionId
pub mod Examples
