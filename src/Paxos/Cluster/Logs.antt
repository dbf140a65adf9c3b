-- ===== src/Paxos/Cluster/Logs.antt =====
-- internal/paxos/node.go: what the steps of a replica leave of its log.
use paxos_2pc_payments.Base.{
  ◌+◌, ◌≡◌, ◌⊎◌, inl, inr, some, List, [], arith, if◌then◌else◌, lookup, int64_mod, ◌<◌, subst,
}
use paxos_2pc_payments.Paxos.Ballot.{Ballot, next_ballot, zero_ballot}
use paxos_2pc_payments.Paxos.Log.{Log, accept, promise, entries_from}
use paxos_2pc_payments.Paxos.Node.{Node, Env, Message, reset_election}
use paxos_2pc_payments.Paxos.Node.Handlers.{
  handle_prepare, handle_accept, store_accepted, follow, entry_of,
}
use paxos_2pc_payments.Paxos.Node.Election.{campaign_prepare}
use paxos_2pc_payments.Paxos.Promises.Campaign.{campaign_prepare-≼}
use paxos_2pc_payments.Paxos.Promises.Handled.{prepare-≼}
use paxos_2pc_payments.Paxos.Log.Entries.{IsValid, accept-IsValid}
use paxos_2pc_payments.Paxos.Cluster.Roles.{Keeps, promise-entries, step_down-Keeps}

-- A promise carries the entries from the slot of the request on.
pub handle_prepare-entries :
    (env : Env) (n : Node) (msg : Message)
    → (handle_prepare env n msg).1.entries ≡ (
        if (handle_prepare env n msg).1.ok
        then entries_from (handle_prepare env n msg).0.log msg.slot
        else [])
unfolding handle_prepare follow reset_election
handle_prepare-entries env n msg = ground arith

-- A log with the same entries is as valid.
pub IsValid-same :
    (l l' : Log) → IsValid l → l'.entries ≡ l.entries → l'.max_slot ≡ l.max_slot → IsValid l'
IsValid-same l l' v entries highest = record {
  own_slot = λ s e h. v.own_slot s e (subst (λ d. lookup s d ≡ some e) entries h);
  below_max = λ s e h. rw highest (v.below_max s e (subst (λ d. lookup s d ≡ some e) entries h));
}

pub handle_prepare-Keeps :
    (env : Env) (n : Node) (msg : Message) → Keeps n (handle_prepare env n msg).0
unfolding handle_prepare follow reset_election
handle_prepare-Keeps env n msg = (
  ground (arith, promise-entries n.log env.promise_written msg.ballot),
  ground (arith, promise-entries n.log env.promise_written msg.ballot),
  ground arith,
  prepare-≼ env n msg,
)

pub handle_accept-committed :
    (env : Env) (n : Node) (msg : Message) → (handle_accept env n msg).0.committed ≡ n.committed
unfolding handle_accept store_accepted follow reset_election
handle_accept-committed env n msg = ground arith

store_accepted-log :
    (env : Env) (n : Node) (msg : Message)
    → (store_accepted env n msg).0.log ≡ (accept n.log env.disk (entry_of msg)).0
unfolding store_accepted follow reset_election
store_accepted-log env n msg = ground arith

-- The log after an accept: the promise may be new, and the entry may be stored.
handle_accept-log :
    (env : Env) (n : Node) (msg : Message)
    → (let l = (promise n.log env.promise_written msg.ballot).0 in
        ((handle_accept env n msg).0.log ≡ n.log)
        ⊎ ((handle_accept env n msg).0.log ≡ l)
        ⊎ ((handle_accept env n msg).0.log ≡ (accept n.log env.disk (entry_of msg)).0)
        ⊎ ((handle_accept env n msg).0.log ≡ (accept l env.disk (entry_of msg)).0))
unfolding handle_accept
handle_accept-log env n msg = ground (
  arith,
  store_accepted-log env n msg,
  store_accepted-log env (record n { log = (promise n.log env.promise_written msg.ballot).0 }) msg,
)

pub handle_accept-IsValid :
    (env : Env) (n : Node) (msg : Message) → IsValid n.log → IsValid (handle_accept env n msg).0.log
handle_accept-IsValid env n msg v =
    let l = (promise n.log env.promise_written msg.ballot).0 in
    let same = promise-entries n.log env.promise_written msg.ballot in
    let promised = IsValid-same n.log l v same.0 same.1 in
    elim (handle_accept-log env n msg) [
      | inl e ↦ rw e v
      | inr (inl e) ↦ rw e promised
      | inr (inr (inl e)) ↦ rw e (accept-IsValid n.log env.disk (entry_of msg) v)
      | inr (inr (inr e)) ↦ rw e (accept-IsValid l env.disk (entry_of msg) promised)
    ]

pub campaign_prepare-Keeps :
    (env : Env) (n : Node) (rs : List Message)
    → n.log.promised.num + 1 < int64_mod
    → Keeps n (campaign_prepare env n rs).0
unfolding campaign_prepare
campaign_prepare-Keeps env n rs h = (
  ground (
    arith,
    same.0,
    same.1,
    step_down-Keeps env zero_ballot n,
    step_down-Keeps env zero_ballot n₁,
  ),
  ground (
    arith,
    same.0,
    same.1,
    step_down-Keeps env zero_ballot n,
    step_down-Keeps env zero_ballot n₁,
  ),
  ground (arith, step_down-Keeps env zero_ballot n, step_down-Keeps env zero_ballot n₁),
  campaign_prepare-≼ env n rs h,
)
  where
    next : Ballot
    next = next_ballot n.log.promised n.id

    n₁ : Node
    n₁ = record n { log = (promise n.log env.promise_written next).0 }

    same :
        ((promise n.log env.promise_written next).0.entries ≡ n.log.entries)
        × ((promise n.log env.promise_written next).0.max_slot ≡ n.log.max_slot)
    same = promise-entries n.log env.promise_written next

-- The request of a campaign is under a fresh ballot of the replica, which it has promised.
pub campaign_prepare-request :
    (env : Env) (n : Node) (rs : List Message) (m : Message)
    → (campaign_prepare env n rs).1 ≡ some m
    → (m.ballot ≡ next_ballot n.log.promised n.id)
      × ((campaign_prepare env n rs).0.log.promised ≡ m.ballot)
unfolding campaign_prepare promise
campaign_prepare-request env n rs m e = (ground arith, ground arith)
