-- ===== src/Paxos/Promises/Replicated.antt =====
-- internal/paxos/node.go: what phase 2 and catching up do to the promise.
use paxos_2pc_payments.Base.{
  ℕ, zero, suc, ◌+◌, ◌≡◌, inl, inr, refl, true, false, Option, none, some, List, [], ◌∷◌, arith,
  ltb, if◌then◌else◌, Option-cases, Dict, lookup, erase, insert, ◌++◌, ◌-◌,
}
use paxos_2pc_payments.Paxos.Ballot.{Ballot, ◌≼◌, less_irrefl}
use paxos_2pc_payments.Paxos.Log.{Log, Entry, Disk}
use paxos_2pc_payments.Paxos.Node.{Node, Env, Message, step_down, mark_committed, quorum}
use paxos_2pc_payments.Paxos.Node.Election.{campaign_begin}
use paxos_2pc_payments.Paxos.Node.Replication.{
  propose_begin, propose_failed, replicate_begin, replicate_end, heartbeat_end, catch_up, adopt_all,
  adopt, check_quorum, count, Count, votes, superseded, Error, err_not_leader, err_no_quorum,
  chosen,
}
use paxos_2pc_payments.Paxos.Node.Apply.{advance}
use paxos_2pc_payments.Paxos.Promises.Handled.{accept-promised}
use paxos_2pc_payments.Paxos.Promises.Campaign.{step_down-≼, step_down_zero-promised}

pub propose_begin-log :
    (n n' : Node) (waiter slot : ℕ) → propose_begin n waiter ≡ some (n', slot) → n'.log ≡ n.log
unfolding propose_begin
propose_begin-log n n' waiter slot h = ground arith

pub propose_failed-promised :
    (env : Env) (n : Node) (slot : ℕ) → (propose_failed env n slot).log.promised ≡ n.log.promised
unfolding propose_failed
propose_failed-promised env n slot =
    step_down_zero-promised env (record n { results = erase slot n.results })

pub replicate_begin-promised :
    (env : Env) (n : Node) (slot : ℕ) (command : List ℕ)
    → (replicate_begin env n slot command).0.log.promised ≡ n.log.promised
unfolding replicate_begin
replicate_begin-promised env n slot command = ground (
  arith,
  accept-promised n.log env.disk (record { slot = slot; ballot = n.ballot; command = command }),
)

pub mark_committed-log : (n : Node) (ss : List ℕ) → (mark_committed n ss).log ≡ n.log
unfolding mark_committed
mark_committed-log n [] = refl
mark_committed-log n (s ∷ ss) =
    mark_committed-log (record n { committed = insert s true n.committed }) ss

pub replicate_end-≼ :
    (env : Env) (n : Node) (b : Ballot) (slot : ℕ) (rs : List Message)
    → n.log.promised ≼ (replicate_end env n b slot rs).0.log.promised
unfolding replicate_end
replicate_end-≼ env n b slot rs = by_count (count b 1 rs)
  where
    by_count :
        (c : Count)
        → n.log.promised
          ≼ (elim c as (λ _. Node × Option Error) [
            | superseded seen ↦ (step_down env seen n, some err_not_leader)
            | votes v ↦
                if ltb v (quorum n)
                then (n, some err_no_quorum)
                else (mark_committed n (slot ∷ []), none)
          ]).0.log.promised
    by_count (superseded seen) = step_down-≼ env seen n
    by_count (votes v) =
        ground (arith, less_irrefl n.log.promised, mark_committed-log n (slot ∷ []))

pub check_quorum-promised :
    (env : Env) (n : Node) (acks : ℕ) → (check_quorum env n acks).log.promised ≡ n.log.promised
unfolding check_quorum
check_quorum-promised env n acks = ground (arith, step_down_zero-promised env n)

pub heartbeat_end-≼ :
    (env : Env) (n : Node) (b : Ballot) (rs : List Message)
    → n.log.promised ≼ (heartbeat_end env n b rs).log.promised
unfolding heartbeat_end
heartbeat_end-≼ env n b rs = by_count (count b 1 rs)
  where
    by_count :
        (c : Count)
        → n.log.promised
          ≼ (elim c as (λ _. Node) [
            | superseded seen ↦ step_down env seen n
            | votes acks ↦ check_quorum env n acks
          ]).log.promised
    by_count (superseded seen) = step_down-≼ env seen n
    by_count (votes acks) = rw (check_quorum-promised env n acks) (less_irrefl n.log.promised)

pub adopt_all-promised :
    (disk : Disk) (d : Dict Entry) (k slot : ℕ) (l : Log) (slots : List ℕ)
    → (adopt_all disk d k slot l slots).0.promised ≡ l.promised
unfolding adopt_all
adopt_all-promised disk d zero slot l slots = refl
adopt_all-promised disk d (suc k) slot l slots = elim (Option-cases (lookup slot d)) [
  | inl gone ↦ ground arith
  | inr (e, there) ↦ ground (
    arith,
    accept-promised l disk e,
    adopt_all-promised disk d k (slot + 1) (adopt disk l slot e).0 (slots ++ slot ∷ []),
  )
]

pub catch_up-promised :
    (env : Env) (n : Node) (first last : ℕ) (r : Option Message)
    → (catch_up env n first last r).log.promised ≡ n.log.promised
unfolding catch_up
catch_up-promised env n first last none = refl
catch_up-promised env n first last (some r) = ground (
  arith,
  adopt_all-promised env.disk (chosen [] r.entries) (last + 1 - first) first n.log [],
  mark_committed-log (record n { log = adopted.0; catching_up = false }) adopted.1,
)
  where
    adopted : Log × List ℕ
    adopted = adopt_all env.disk (chosen [] r.entries) (last + 1 - first) first n.log []

pub advance-log : (n : Node) → (advance n).log ≡ n.log
unfolding advance
advance-log n = refl

pub campaign_begin-log : (n n' : Node) → campaign_begin n ≡ some n' → n'.log ≡ n.log
unfolding campaign_begin
campaign_begin-log n n' e = ground arith
