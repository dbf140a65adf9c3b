-- ===== src/Paxos/Cluster/Roles.antt =====
-- internal/paxos/node.go: what the steps of a replica leave alone.
use paxos_2pc_payments.Base.{
  ℕ, ◌≡◌, inl, inr, refl, ap, Bool-cases, Option, none, some, List, [], ◌∷◌, Bool, true, false,
  arith, ltb, if◌then◌else◌, insert, ◌≤◌,
}
use paxos_2pc_payments.Paxos.Ballot.{Ballot, ◌≼◌, less_irrefl}
use paxos_2pc_payments.Paxos.Log.{Log, promise}
use paxos_2pc_payments.Paxos.Node.{
  Node, leader, Env, Message, reset_election, step_down, mark_committed, quorum,
}
use paxos_2pc_payments.Paxos.Node.Handlers.{
  handle_prepare, handle_accept, handle_commit, handle_ping, store_accepted, follow,
}
use paxos_2pc_payments.Paxos.Node.Election.{campaign_begin, campaign_prepare}
use paxos_2pc_payments.Paxos.Node.Replication.{
  propose_failed, replicate_begin, replicate_end, heartbeat_end, check_quorum, catch_up, count,
  Count, votes, superseded, Error, err_not_leader, err_no_quorum,
}
use paxos_2pc_payments.Paxos.Node.Apply.{advance}
use paxos_2pc_payments.Paxos.Promises.Campaign.{step_down-≼}
use paxos_2pc_payments.Paxos.Cluster.{
  Quiet, pinged, campaign_begun, proposal_failed, heartbeat_sent, applied,
}

-- The replica is the same member of the group, and leads only where it led before, in the same
-- leadership.
abbrev pub Follows : Node → Node → Type 0
Follows n n' =
    (n'.id ≡ n.id)
    × (n'.peers ≡ n.peers)
    × (n'.role ≡ leader → (n.role ≡ leader) × (n'.ballot ≡ n.ballot) × (n'.next_slot ≡ n.next_slot))

pub handle_prepare-Follows :
    (env : Env) (n : Node) (msg : Message) → Follows n (handle_prepare env n msg).0
unfolding handle_prepare follow reset_election
handle_prepare-Follows env n msg = (ground arith, ground arith, λ e. ground arith)

pub handle_accept-Follows :
    (env : Env) (n : Node) (msg : Message) → Follows n (handle_accept env n msg).0
unfolding handle_accept store_accepted follow reset_election
handle_accept-Follows env n msg = (ground arith, ground arith, λ e. ground arith)

step_down-Follows : (env : Env) (b : Ballot) (n : Node) → Follows n (step_down env b n)
unfolding step_down reset_election
step_down-Follows env b n = (ground arith, ground arith, λ e. ground arith)

pub campaign_prepare-Follows :
    (env : Env) (n : Node) (rs : List Message) → Follows n (campaign_prepare env n rs).0
unfolding campaign_prepare step_down reset_election
campaign_prepare-Follows env n rs = (ground arith, ground arith, λ e. ground arith)

pub replicate_begin-Follows :
    (env : Env) (n : Node) (slot : ℕ) (v : List ℕ) → Follows n (replicate_begin env n slot v).0
unfolding replicate_begin
replicate_begin-Follows env n slot v = (ground arith, ground arith, λ e. ground arith)

-- `markCommitted` changes nothing but the committed slots.
pub mark_committed_lem :
    (n : Node) (ss : List ℕ)
    → mark_committed n ss ≡ record n { committed = (mark_committed n ss).committed }
unfolding mark_committed
mark_committed_lem n [] = refl
mark_committed_lem n (s ∷ ss) =
    mark_committed_lem (record n { committed = insert s true n.committed }) ss

mark_committed-Follows : (n : Node) (ss : List ℕ) → Follows n (mark_committed n ss)
mark_committed-Follows n ss = rw (mark_committed_lem n ss) (refl, refl, λ e. (e, refl, refl))

-- No entry and no committed slot changes, and the promise does not fall.
abbrev pub Keeps : Node → Node → Type 0
Keeps n n' =
    (n'.log.entries ≡ n.log.entries)
    × (n'.log.max_slot ≡ n.log.max_slot)
    × (n'.committed ≡ n.committed)
    × (n.log.promised ≼ n'.log.promised)

pub promise-entries :
    (l : Log) (w : Bool) (b : Ballot)
    → ((promise l w b).0.entries ≡ l.entries) × ((promise l w b).0.max_slot ≡ l.max_slot)
unfolding promise
promise-entries l w b = (ground arith, ground arith)

pub step_down-Keeps : (env : Env) (b : Ballot) (n : Node) → Keeps n (step_down env b n)
unfolding step_down reset_election
step_down-Keeps env b n = (
  ground (arith, promise-entries n.log env.promise_written b),
  ground (arith, promise-entries n.log env.promise_written b),
  ground arith,
  step_down-≼ env b n,
)

check_quorum-Follows : (env : Env) (n : Node) (acks : ℕ) → Follows n (check_quorum env n acks)
unfolding check_quorum step_down reset_election
check_quorum-Follows env n acks = (ground arith, ground arith, λ e. ground arith)

check_quorum-log : (env : Env) (n : Node) (acks : ℕ) → (check_quorum env n acks).log ≡ n.log
unfolding check_quorum step_down reset_election paxos_2pc_payments.Paxos.Ballot.is_zero
check_quorum-log env n acks = ground arith

check_quorum-committed :
    (env : Env) (n : Node) (acks : ℕ) → (check_quorum env n acks).committed ≡ n.committed
unfolding check_quorum step_down reset_election paxos_2pc_payments.Paxos.Ballot.is_zero
check_quorum-committed env n acks = ground arith

check_quorum-Keeps : (env : Env) (n : Node) (acks : ℕ) → Keeps n (check_quorum env n acks)
check_quorum-Keeps env n acks = (
  ap (λ l. l.entries) (check_quorum-log env n acks),
  ap (λ l. l.max_slot) (check_quorum-log env n acks),
  check_quorum-committed env n acks,
  rw (check_quorum-log env n acks) (less_irrefl n.log.promised),
)

-- What holds however a heartbeat ends.
pub heartbeat_end-elim :
    (P : Node → Type 0) (env : Env) (n : Node) (b : Ballot) (rs : List Message)
    → ((acks : ℕ) → P (check_quorum env n acks))
    → ((seen : Ballot) → P (step_down env seen n))
    → P (heartbeat_end env n b rs)
unfolding heartbeat_end
heartbeat_end-elim P env n b rs stayed left = by_count (count b 1 rs)
  where
    by_count :
        (x : Count)
        → P (elim x as (λ y. Node) [
          | superseded seen ↦ step_down env seen n
          | votes acks ↦ check_quorum env n acks
        ])
    by_count (superseded seen) = left seen
    by_count (votes acks) = stayed acks

after_votes : Node → ℕ → Bool → Node × Option Error
after_votes n slot few =
    if few then (n, some err_no_quorum) else (mark_committed n (slot ∷ []), none)

-- What holds however a round ends.
pub replicate_end-elim :
    (P : Node → Type 0) (env : Env) (n : Node) (b : Ballot) (slot : ℕ) (rs : List Message)
    → P n
    → ((v : ℕ) → count b 1 rs ≡ votes v → quorum n ≤ v → P (mark_committed n (slot ∷ [])))
    → ((seen : Ballot) → P (step_down env seen n))
    → P (replicate_end env n b slot rs).0
unfolding replicate_end after_votes
replicate_end-elim P env n b slot rs same won left = by_count (count b 1 rs) refl
  where
    by_votes :
        (v : ℕ) (few : Bool)
        → ltb v (quorum n) ≡ few
        → count b 1 rs ≡ votes v
        → P (after_votes n slot few).0
    by_votes v true h e = same
    by_votes v false h e = won v e (ground arith)

    by_count :
        (x : Count)
        → count b 1 rs ≡ x
        → P
            (elim x as (λ y. Node × Option Error) [
              | superseded seen ↦ (step_down env seen n, some err_not_leader)
              | votes v ↦
                  if ltb v (quorum n)
                  then (n, some err_no_quorum)
                  else (mark_committed n (slot ∷ []), none)
            ]).0
    by_count (superseded seen) e = left seen
    by_count (votes v) e = by_votes v (ltb v (quorum n)) refl e

pub handle_commit-Follows :
    (env : Env) (n : Node) (msg : Message) → Follows n (handle_commit env n msg).0
unfolding handle_commit follow reset_election
handle_commit-Follows env n msg = (ground arith, ground arith, λ e. ground arith)

pub handle_commit-Keeps :
    (env : Env) (n : Node) (msg : Message) → Keeps n (handle_commit env n msg).0
unfolding handle_commit follow reset_election
handle_commit-Keeps env n msg =
    (ground arith, ground arith, ground arith, ground (arith, less_irrefl n.log.promised))

-- Such steps are those that are `Quiet`.
pub Quiet-Follows : (env : Env) (n n' : Node) → Quiet env n n' → Follows n n'
unfolding handle_ping campaign_begin propose_failed advance follow reset_election
Quiet-Follows env n n' pinged = (ground arith, ground arith, λ e. ground arith)
Quiet-Follows env n n' (campaign_begun m e) = (ground arith, ground arith, λ k. ground arith)
Quiet-Follows env n n' (proposal_failed slot) = step_down-Follows env _ _
Quiet-Follows env n n' (heartbeat_sent b rs) =
    heartbeat_end-elim (Follows n) env n b rs (check_quorum-Follows env n)
      (λ s. step_down-Follows env s n)
Quiet-Follows env n n' (applied e h) = (refl, refl, λ e. (e, refl, refl))

pub Quiet-Keeps : (env : Env) (n n' : Node) → Quiet env n n' → Keeps n n'
unfolding handle_ping campaign_begin propose_failed advance follow reset_election
Quiet-Keeps env n n' pinged =
    (ground arith, ground arith, ground arith, ground (arith, less_irrefl n.log.promised))
Quiet-Keeps env n n' (campaign_begun m e) =
    (ground arith, ground arith, ground arith, ground (arith, less_irrefl n.log.promised))
Quiet-Keeps env n n' (proposal_failed slot) = step_down-Keeps env _ _
Quiet-Keeps env n n' (heartbeat_sent b rs) =
    heartbeat_end-elim (Keeps n) env n b rs (check_quorum-Keeps env n)
      (λ s. step_down-Keeps env s n)
Quiet-Keeps env n n' (applied e h) = (refl, refl, refl, less_irrefl n.log.promised)

pub catch_up-Follows :
    (env : Env) (n : Node) (first last : ℕ) (r : Option Message)
    → Follows n (catch_up env n first last r)
unfolding catch_up
catch_up-Follows env n first last none = (refl, refl, λ e. (e, refl, refl))
catch_up-Follows env n first last (some r) = elim (Bool-cases r.ok) [
  | inr refused ↦ rw refused (refl, refl, λ e. (e, refl, refl))
  | inl served ↦ rw served (mark_committed-Follows _ _)
]

pub replicate_end-Follows :
    (env : Env) (n : Node) (b : Ballot) (slot : ℕ) (rs : List Message)
    → Follows n (replicate_end env n b slot rs).0
replicate_end-Follows env n b slot rs =
    replicate_end-elim (Follows n) env n b slot rs (refl, refl, λ e. (e, refl, refl))
      (λ v e h. mark_committed-Follows n (slot ∷ [])) (λ s. step_down-Follows env s n)
