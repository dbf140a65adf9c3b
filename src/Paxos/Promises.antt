-- ===== src/Paxos/Promises.antt =====
-- internal/paxos/node.go: a replica never goes below a ballot that it has promised, but where a
-- campaign that is refused races a newer promise.
pub mod Handled
pub mod Campaign
pub mod Replicated
pub mod Delayed
use paxos_2pc_payments.Base.{ℕ, ◌+◌, ◌<◌, ◌≡◌, true, false, Bool, [], ◌∷◌, arith, int64_mod}
use paxos_2pc_payments.Paxos.Ballot.{Ballot, less, ◌≼◌, less_irrefl}
use paxos_2pc_payments.Paxos.Log.{Log, entries_from, promise}
use paxos_2pc_payments.Paxos.Node.{Node, Env, Message, quorum, try_promise}
use paxos_2pc_payments.Paxos.Node.Election.{campaign_end, Tally, tally}
use paxos_2pc_payments.Paxos.Steps.{NodeStep}
use paxos_2pc_payments.Paxos.Steps
use Handled.{handle-≼}
use Campaign.{step_down_zero-promised, campaign_prepare-≼, campaign_end-≼}
use Replicated.{
  propose_begin-log, propose_failed-promised, replicate_begin-promised, replicate_end-≼,
  heartbeat_end-≼, catch_up-promised, advance-log, campaign_begin-log,
}

-- The number of the next campaign fits a uint64, and no campaign ends below a ballot that was
-- promised while it ran.
abbrev pub Unraced : {env : Env} {n n' : Node} → NodeStep env n n' → Type 0
Unraced {n} (Steps.campaign_probed rs) = n.log.promised.num + 1 < int64_mod
Unraced {n} (Steps.campaign_ended b first rs) = n.log.promised ≼ b
Unraced _ = Unit

-- No step of a replica lowers its promise, whatever the messages, the clock and the disk are: a
-- campaign whose number would wrap around, and one that ends after a higher ballot than its own
-- was promised, are excepted.
pub NodeStep-promised :
    (env : Env) (n n' : Node) (st : NodeStep env n n')
    → Unraced st
    → n.log.promised ≼ n'.log.promised
NodeStep-promised env n n' (Steps.handled msg) u = handle-≼ env n msg
NodeStep-promised env n n' (Steps.campaign_begun m e) u =
    rw (campaign_begin-log n m e) (less_irrefl n.log.promised)
NodeStep-promised env n n' (Steps.campaign_probed rs) u = campaign_prepare-≼ env n rs u
NodeStep-promised env n n' (Steps.campaign_ended b first rs) u = campaign_end-≼ env n b first rs u
NodeStep-promised env n n' (Steps.proposed m waiter slot e) u =
    rw (propose_begin-log n m waiter slot e) (less_irrefl n.log.promised)
NodeStep-promised env n n' (Steps.proposal_failed slot) u =
    rw (propose_failed-promised env n slot) (less_irrefl n.log.promised)
NodeStep-promised env n n' (Steps.replicating slot command) u =
    rw (replicate_begin-promised env n slot command) (less_irrefl n.log.promised)
NodeStep-promised env n n' (Steps.replicated b slot rs) u = replicate_end-≼ env n b slot rs
NodeStep-promised env n n' (Steps.heartbeat_sent b rs) u = heartbeat_end-≼ env n b rs
NodeStep-promised env n n' (Steps.caught_up first last r) u =
    rw (catch_up-promised env n first last r) (less_irrefl n.log.promised)
NodeStep-promised env n n' Steps.applied u = rw (advance-log n) (less_irrefl n.log.promised)

promise_in_memory :
    (l : Log) (w : Bool) (b : Ballot) → l.durable ≡ false → (promise l w b).0.promised ≡ b
unfolding promise
promise_in_memory l w b h = ground arith

refused_tally :
    (t : Tally) (r : Message)
    → r.ok ≡ false
    → less t.highest r.ballot ≡ true
    → tally t (r ∷ []) ≡ record t { highest = r.ballot }
unfolding tally
refused_tally t r refusal higher = ground arith

-- A refused campaign can lower the promise. Suppose that while a replica in a group of at least
-- two campaigned under ballot `b` it promised a higher ballot to another candidate, and the one
-- answer is a refusal with a ballot above `b` and below that promise. Then `campaign` ends with
-- the promise at the refusal's ballot. (In memory; on disk it is the same if the write succeeds.)
pub campaign_end_lowers :
    (env : Env) (n : Node) (b : Ballot) (first : ℕ) (r : Message)
    → n.log.durable ≡ false
    → 1 < quorum n
    → r.ok ≡ false
    → less b r.ballot ≡ true
    → less r.ballot n.log.promised ≡ true
    → let n' = (campaign_end env n b first (r ∷ [])).0 in
      (n'.log.promised ≡ r.ballot) × (less n'.log.promised n.log.promised ≡ true)
unfolding campaign_end
campaign_end_lowers env n b first r mem group refusal higher lower = (ends, rw ends lower)
  where
    t₀ : Tally
    t₀ = record { votes = 1; gathered = entries_from n.log first; highest = b }

    ends : (campaign_end env n b first (r ∷ [])).0.log.promised ≡ r.ballot
    ends = ground (
      arith,
      refused_tally t₀ r refusal higher,
      step_down_zero-promised env (try_promise env n r.ballot),
      promise_in_memory n.log env.promise_written r.ballot mem,
    )
