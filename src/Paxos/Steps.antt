-- ===== src/Paxos/Steps.antt =====
-- internal/paxos/node.go: the steps of a replica, as a relation. The replies that a step takes are
-- any messages at all.
use paxos_2pc_payments.Base.{ℕ, ◌≡◌, Option, some, List}
use paxos_2pc_payments.Paxos.Ballot.{Ballot}
use paxos_2pc_payments.Paxos.Node.{Node, Env, Message}
use paxos_2pc_payments.Paxos.Node.Handlers.{handle}
use paxos_2pc_payments.Paxos.Node.Election.{campaign_begin, campaign_prepare, campaign_end}
use paxos_2pc_payments.Paxos.Node.Replication.{
  propose_begin, propose_failed, replicate_begin, replicate_end, heartbeat_end, catch_up,
}
use paxos_2pc_payments.Paxos.Node.Apply.{advance}

pub data NodeStep (env : Env) (n : Node) : Node → Type 0 where
  handled : (msg : Message) → NodeStep env n (handle env n msg).0
  campaign_begun : (n' : Node) → campaign_begin n ≡ some n' → NodeStep env n n'
  campaign_probed : (rs : List Message) → NodeStep env n (campaign_prepare env n rs).0
  campaign_ended :
      (b : Ballot) (first : ℕ) (rs : List Message)
      → NodeStep env n (campaign_end env n b first rs).0
  proposed :
      (n' : Node) (waiter slot : ℕ) → propose_begin n waiter ≡ some (n', slot) → NodeStep env n n'
  proposal_failed : (slot : ℕ) → NodeStep env n (propose_failed env n slot)
  replicating :
      (slot : ℕ) (command : List ℕ) → NodeStep env n (replicate_begin env n slot command).0
  replicated :
      (b : Ballot) (slot : ℕ) (rs : List Message) → NodeStep env n (replicate_end env n b slot rs).0
  heartbeat_sent : (b : Ballot) (rs : List Message) → NodeStep env n (heartbeat_end env n b rs)
  caught_up : (first last : ℕ) (r : Option Message) → NodeStep env n (catch_up env n first last r)
  applied : NodeStep env n (advance n)
