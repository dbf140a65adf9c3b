-- ===== src/Paxos.antt =====
-- internal/paxos: Multi-Paxos, the replication of a command log over a group of replicas.
pub mod Ballot
pub mod Log
pub mod Node
pub mod Steps
pub mod Promises
pub mod Choice
pub mod Elected
pub mod Drain
pub mod Accepts
pub mod Spec
pub mod Cluster
