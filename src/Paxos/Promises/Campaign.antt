-- ===== src/Paxos/Promises/Campaign.antt =====
-- internal/paxos/node.go: what a campaign does to the promise.
use paxos_2pc_payments.Base.{
  ℕ, ◌+◌, ◌<◌, ◌≡◌, refl, true, List, [], ◌∷◌, arith, if◌then◌else◌, int64_mod, ◌++◌,
}
use paxos_2pc_payments.Paxos.Ballot.{
  Ballot, less, is_zero, next_ballot, ◌≼◌, less_irrefl, less→≼, ≼_trans, zero_ballot,
}
use paxos_2pc_payments.Paxos.Log.{Entry, promise, entries_from}
use paxos_2pc_payments.Paxos.Node.{Node, Env, Message, step_down, reset_election, try_promise}
use paxos_2pc_payments.Paxos.Node.Election.{
  campaign_prepare, campaign_end, become_leader, Tally, tally,
}
use paxos_2pc_payments.Paxos.Promises.Handled.{promise-≼}

pub try_promise-≼ :
    (env : Env) (n : Node) (b : Ballot)
    → less n.log.promised b ≡ true
    → n.log.promised ≼ (try_promise env n b).log.promised
try_promise-≼ env n b h = promise-≼ n.log env.promise_written b (less→≼ n.log.promised b h)

pub step_down-≼ :
    (env : Env) (seen : Ballot) (n : Node) → n.log.promised ≼ (step_down env seen n).log.promised
unfolding step_down
step_down-≼ env seen n = ground (
  arith,
  less_irrefl n.log.promised,
  promise-≼ n.log env.promise_written seen,
  less→≼ n.log.promised seen,
)

pub next_ballot-above :
    (b : Ballot) (id : ℕ) → b.num + 1 < int64_mod → less b (next_ballot b id) ≡ true
unfolding next_ballot less
next_ballot-above b id h = ground arith

pub step_down_zero-promised :
    (env : Env) (n : Node) → (step_down env zero_ballot n).log.promised ≡ n.log.promised
unfolding step_down is_zero
step_down_zero-promised env n = refl

pub campaign_prepare-≼ :
    (env : Env) (n : Node) (rs : List Message)
    → n.log.promised.num + 1 < int64_mod
    → n.log.promised ≼ (campaign_prepare env n rs).0.log.promised
unfolding campaign_prepare
campaign_prepare-≼ env n rs h = ground (
  arith,
  less_irrefl n.log.promised,
  promise-≼ n.log env.promise_written next,
  less→≼ n.log.promised next,
  next_ballot-above n.log.promised n.id h,
  step_down_zero-promised env n,
  step_down_zero-promised env (record n { log = (promise n.log env.promise_written next).0 }),
)
  where
    next : Ballot
    next = next_ballot n.log.promised n.id

pub become_leader-promised :
    (env : Env) (n : Node) (b : Ballot) (es : List Entry) (first : ℕ)
    → (become_leader env n b es first).0.log ≡ n.log
unfolding become_leader reset_election
become_leader-promised env n b es first = refl

pub tally-highest : (t : Tally) (rs : List Message) → t.highest ≼ (tally t rs).highest
unfolding tally
tally-highest t [] = less_irrefl t.highest
tally-highest t (r ∷ rs) =
    ≼_trans t.highest t'.highest (tally t' rs).highest one (tally-highest t' rs)
  where
    t' : Tally
    t' =
        if r.ok
        then record t { votes = t.votes + 1; gathered = t.gathered ++ r.entries }
        else (if less t.highest r.ballot then record t { highest = r.ballot } else t)

    one : t.highest ≼ t'.highest
    one = ground (arith, less_irrefl t.highest, less→≼ t.highest r.ballot)

pub campaign_end-≼ :
    (env : Env) (n : Node) (b : Ballot) (first : ℕ) (rs : List Message)
    → n.log.promised ≼ b
    → n.log.promised ≼ (campaign_end env n b first rs).0.log.promised
unfolding campaign_end
campaign_end-≼ env n b first rs h = ground (
  arith,
  less_irrefl n.log.promised,
  step_down_zero-promised env n,
  step_down_zero-promised env (try_promise env n t.highest),
  become_leader-promised env n b t.gathered first,
  ≼_trans n.log.promised b t.highest h (tally-highest t₀ rs),
  promise-≼ n.log env.promise_written t.highest,
)
  where
    t₀ : Tally
    t₀ = record { votes = 1; gathered = entries_from n.log first; highest = b }

    t : Tally
    t = tally t₀ rs
