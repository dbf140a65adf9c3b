-- ===== src/Paxos/Cluster/Applied.antt =====
-- internal/paxos/node.go: no step of a replica takes back what it has applied or what it knows to be
-- committed, and it applies only what it knows to be committed.
use paxos_2pc_payments.Base.{
  ℕ, ◌≤◌, ◌≡◌, ◌⊎◌, inl, refl, ap, Option, some, List, [], ◌∷◌, true, false, arith, insert,
  lookup-insert,
}
use paxos_2pc_payments.Paxos.Ballot.{Ballot}
use paxos_2pc_payments.Paxos.Log.{Entry}
use paxos_2pc_payments.Paxos.Node.{
  Node, Env, Message, is_committed, mark_committed, step_down, reset_election,
}
use paxos_2pc_payments.Paxos.Node.Handlers.{
  handle_prepare, handle_accept, handle_commit, handle_ping, store_accepted, follow,
}
use paxos_2pc_payments.Paxos.Node.Election.{
  campaign_begin, campaign_prepare, campaign_end, become_leader,
}
use paxos_2pc_payments.Paxos.Node.Replication.{
  propose_begin, propose_failed, replicate_begin, replicate_end, check_quorum, catch_up,
}
use paxos_2pc_payments.Paxos.Node.Apply.{advance, applicable}
use paxos_2pc_payments.Paxos.Cluster.{
  Quiet, pinged, campaign_begun, proposal_failed, heartbeat_sent, applied,
}
use paxos_2pc_payments.Paxos.Cluster.Roles.{
  mark_committed_lem, replicate_end-elim, heartbeat_end-elim,
}
use paxos_2pc_payments.Paxos.Cluster.Marks.{catch_up-elim}

-- A replica applies no less than before, what it knew to be committed stays so, and what it applies
-- anew is committed.
abbrev pub Grown : Node → Node → Type 0
Grown n n' =
    (n.applied_index ≤ n'.applied_index)
    × ((s : ℕ) → is_committed n s ≡ true → is_committed n' s ≡ true)
    × ((s : ℕ) → s ≤ n'.applied_index → (s ≤ n.applied_index) ⊎ (is_committed n' s ≡ true))

-- Neither changes.
abbrev pub Same : Node → Node → Type 0
Same n n' = (n'.applied_index ≡ n.applied_index) × (n'.committed ≡ n.committed)

pub Same-Grown : (n n' : Node) → Same n n' → Grown n n'
Same-Grown n n' (index, marks) =
    (omega (arith, index), λ s h. ground arith, λ s h. inl (omega (arith, index)))

step_down-Same : (env : Env) (b : Ballot) (n : Node) → Same n (step_down env b n)
unfolding step_down reset_election
step_down-Same env b n = (ground arith, ground arith)

check_quorum-Same : (env : Env) (n : Node) (acks : ℕ) → Same n (check_quorum env n acks)
unfolding check_quorum step_down reset_election paxos_2pc_payments.Paxos.Ballot.is_zero
check_quorum-Same env n acks = (ground arith, ground arith)

pub handle_prepare-Same :
    (env : Env) (n : Node) (msg : Message) → Same n (handle_prepare env n msg).0
unfolding handle_prepare follow reset_election
handle_prepare-Same env n msg = (ground arith, ground arith)

pub handle_accept-Same : (env : Env) (n : Node) (msg : Message) → Same n (handle_accept env n msg).0
unfolding handle_accept store_accepted follow reset_election
handle_accept-Same env n msg = (ground arith, ground arith)

pub handle_commit-Same : (env : Env) (n : Node) (msg : Message) → Same n (handle_commit env n msg).0
unfolding handle_commit follow reset_election
handle_commit-Same env n msg = (ground arith, ground arith)

pub campaign_prepare-Same :
    (env : Env) (n : Node) (rs : List Message) → Same n (campaign_prepare env n rs).0
unfolding campaign_prepare step_down reset_election
campaign_prepare-Same env n rs = (ground arith, ground arith)

pub campaign_end-Same :
    (env : Env) (n : Node) (b : Ballot) (first : ℕ) (rs : List Message)
    → Same n (campaign_end env n b first rs).0
unfolding campaign_end step_down become_leader reset_election
campaign_end-Same env n b first rs = (ground arith, ground arith)

pub replicate_begin-Same :
    (env : Env) (n : Node) (slot : ℕ) (v : List ℕ) → Same n (replicate_begin env n slot v).0
unfolding replicate_begin
replicate_begin-Same env n slot v = (ground arith, ground arith)

pub propose_begin-Same :
    (n n' : Node) (waiter slot : ℕ) → propose_begin n waiter ≡ some (n', slot) → Same n n'
unfolding propose_begin
propose_begin-Same n n' waiter slot h = (ground arith, ground arith)

mark_committed-kept :
    (n : Node) (ss : List ℕ) (s : ℕ)
    → is_committed n s ≡ true
    → is_committed (mark_committed n ss) s ≡ true
unfolding mark_committed
mark_committed-kept n [] s h = h
mark_committed-kept n (t ∷ ss) s h =
    mark_committed-kept (record n { committed = insert t true n.committed }) ss s
      (ground (arith, lookup-insert s t true n.committed))

mark_committed-Grown : (n : Node) (ss : List ℕ) → Grown n (mark_committed n ss)
mark_committed-Grown n ss =
    let same : (mark_committed n ss).applied_index ≡ n.applied_index =
      ap (λ m. m.applied_index) (mark_committed_lem n ss) in
    (omega (arith, same), mark_committed-kept n ss, λ s h. inl (omega (arith, same)))

pub replicate_end-Grown :
    (env : Env) (n : Node) (b : Ballot) (slot : ℕ) (rs : List Message)
    → Grown n (replicate_end env n b slot rs).0
replicate_end-Grown env n b slot rs =
    replicate_end-elim (Grown n) env n b slot rs (Same-Grown n n (refl, refl))
      (λ v e h. mark_committed-Grown n (slot ∷ []))
      (λ s. Same-Grown n (step_down env s n) (step_down-Same env s n))

pub catch_up-Grown :
    (env : Env) (n : Node) (first last : ℕ) (r : Option Message)
    → Grown n (catch_up env n first last r)
catch_up-Grown env n first last r =
    catch_up-elim (Grown n) env n first last r
      (Same-Grown n (record n { catching_up = false }) (refl, refl))
      (λ x e. mark_committed-Grown _ _)

advance-Grown : (n : Node) (e : Entry) → applicable n ≡ some e → Grown n (advance n)
unfolding advance
advance-Grown n e h = (omega arith, λ s k. k, λ s k. ground arith)

pub Quiet-Grown : (env : Env) (n n' : Node) → Quiet env n n' → Grown n n'
unfolding handle_ping campaign_begin propose_failed reset_election
Quiet-Grown env n n' pinged = Same-Grown n n' (ground arith, ground arith)
Quiet-Grown env n n' (campaign_begun m e) = Same-Grown n n' (ground arith, ground arith)
Quiet-Grown env n n' (proposal_failed slot) = Same-Grown n n' (step_down-Same env _ _)
Quiet-Grown env n n' (heartbeat_sent b rs) =
    heartbeat_end-elim (Grown n) env n b rs
      (λ acks. Same-Grown n (check_quorum env n acks) (check_quorum-Same env n acks))
      (λ s. Same-Grown n (step_down env s n) (step_down-Same env s n))
Quiet-Grown env n n' (applied e h) = advance-Grown n e h
