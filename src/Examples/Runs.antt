-- ===== src/Examples/Runs.antt =====
-- internal/paxos: the moves of the run of Groups.antt.
use paxos_2pc_payments.Base.{
  ℕ, arith, ◌≡◌, ◌≢◌, subst, sym, lookup, refl, inl, inr, true, some, [], ◌∷◌, In,
}
use paxos_2pc_payments.Paxos.Ballot.{Ballot, ◌≼◌}
use paxos_2pc_payments.Paxos.Log.{Log, Entry, get, new_mem_log}
use paxos_2pc_payments.Paxos.Node.{Node, Message, is_committed}
use paxos_2pc_payments.Paxos.Node.Handlers.{handle_prepare, handle_accept, entry_of}
use paxos_2pc_payments.Paxos.Spec.{Elected, IsQuorum}
use paxos_2pc_payments.Paxos.Cluster.{
  Cluster, spec_of, campaign_begun, Move, Reach, here, next, on_campaign, on_prepare, on_election,
  on_propose, on_replicate, on_accept, on_conclude, FromOthers, Promised, Accepted,
}
use paxos_2pc_payments.Paxos.Cluster
use paxos_2pc_payments.Paxos.Cluster.Agreement.{Elected-agree}
use paxos_2pc_payments.Examples.Groups.{
  env, group, cfg, logs, pongs, ballot, c₀, candidate₁, begun₁, c₁, prepare₁, c₂, promise₂, c₃, c₄,
  c₅, accept₁, c₆, accepted₂, c₇, candidate₂, begun₂, c₈, prepare₂, c₉, promise₃, c₁₀, c₁₁, accept₂,
  c₁₂, accepted₃, c₁₃,
}

member₁ : In 1 group
member₁ = inl refl

pub member₂ : In 2 group
member₂ = inr (inl refl)

pub member₃ : In 3 group
member₃ = inr (inr (inl refl))

only : (P : Message → Type 0) (r : Message) → P r → (x : Message) → In x (r ∷ []) → P x
only P r p x (inl same) = subst P (sym same) p
only P r p x (inr h) = absurd h

from_one : (a : ℕ) (r : Message) → In r.sender group → r.sender ≢ a → FromOthers group a (r ∷ [])
from_one a r member other =
    (((λ h. h), tt), only (λ x. In x.sender group × (x.sender ≢ a)) r (member, other))

none_committed :
    (c : Cluster) (a s : ℕ) (b : Ballot)
    → (c.nodes a).committed ≡ []
    → (x : Entry) → is_committed (c.nodes a) s ≡ true
    → get (c.nodes a).log s ≡ some x
    → x.ballot ≼ b
unfolding lookup
none_committed c a s b none_known x h held = absurd (ground (arith, none_known))

begins₁ : Move group env c₀ begun₁
unfolding paxos_2pc_payments.Paxos.Node.Election.campaign_begin
    paxos_2pc_payments.Paxos.Node.new_node
begins₁ = Cluster.quiet 1 candidate₁ member₁ (campaign_begun candidate₁ refl)

campaigned₁ : Move group env begun₁ c₁
unfolding paxos_2pc_payments.Paxos.Node.new_node new_mem_log
campaigned₁ = Cluster.campaign 1 pongs member₁ (omega arith)

prepared₂ : Move group env c₁ c₂
prepared₂ = Cluster.prepare 2 prepare₁ member₂

elected₁ : Move group env c₂ c₃
unfolding on_prepare on_campaign paxos_2pc_payments.Paxos.Node.Election.campaign_prepare
    paxos_2pc_payments.Paxos.Node.Election.can_reach_quorum paxos_2pc_payments.Paxos.Node.quorum
    paxos_2pc_payments.Paxos.Ballot.majority paxos_2pc_payments.Paxos.Node.new_node
    paxos_2pc_payments.Paxos.Log.promise new_mem_log paxos_2pc_payments.Paxos.Ballot.next_ballot
    handle_prepare paxos_2pc_payments.Paxos.Ballot.less
elected₁ =
    Cluster.election 1 (ballot 1 1) 1 (promise₂ ∷ []) member₁ refl refl
      (from_one 1 promise₂ member₂ (omega arith))
      (only (Promised c₂ (ballot 1 1) 1) promise₂ (λ h. inl refl))

proposed₁ : Move group env c₃ c₄
proposed₁ = Cluster.propose 1 90 (65 ∷ []) member₁

replicated₁ : Move group env c₄ c₅
unfolding on_propose paxos_2pc_payments.Paxos.Node.Replication.propose_begin on_election
    paxos_2pc_payments.Paxos.Node.Election.campaign_end paxos_2pc_payments.Paxos.Node.Election.tally
    handle_prepare paxos_2pc_payments.Paxos.Ballot.less on_campaign
    paxos_2pc_payments.Paxos.Node.new_node new_mem_log paxos_2pc_payments.Paxos.Log.promise
    paxos_2pc_payments.Paxos.Node.quorum paxos_2pc_payments.Paxos.Ballot.majority on_prepare
    paxos_2pc_payments.Paxos.Node.Election.campaign_prepare
    paxos_2pc_payments.Paxos.Node.Election.can_reach_quorum
    paxos_2pc_payments.Paxos.Node.Election.become_leader paxos_2pc_payments.Paxos.Node.Election.pick
    paxos_2pc_payments.Paxos.Log.entries_from paxos_2pc_payments.Paxos.Ballot.next_ballot
replicated₁ =
    Cluster.replicate 1 1 (65 ∷ []) member₁ (inl refl) refl
      (none_committed c₄ 1 1 (ballot 1 1) refl)

accepted_by₂ : Move group env c₅ c₆
unfolding on_replicate paxos_2pc_payments.Paxos.Node.Replication.replicate_begin on_propose
    paxos_2pc_payments.Paxos.Node.Replication.propose_begin on_election
    paxos_2pc_payments.Paxos.Node.Election.campaign_end paxos_2pc_payments.Paxos.Node.Election.tally
    handle_prepare paxos_2pc_payments.Paxos.Ballot.less on_campaign
    paxos_2pc_payments.Paxos.Node.new_node new_mem_log paxos_2pc_payments.Paxos.Log.promise
    paxos_2pc_payments.Paxos.Node.quorum paxos_2pc_payments.Paxos.Ballot.majority on_prepare
    paxos_2pc_payments.Paxos.Node.Election.campaign_prepare
    paxos_2pc_payments.Paxos.Node.Election.can_reach_quorum
    paxos_2pc_payments.Paxos.Node.Election.become_leader paxos_2pc_payments.Paxos.Log.accept
accepted_by₂ = Cluster.accept 2 accept₁ member₂ (inl refl) (none_committed c₅ 2 1 (ballot 1 1) refl)

concluded₁ : Move group env c₆ c₇
unfolding on_accept handle_accept paxos_2pc_payments.Paxos.Ballot.less on_replicate
    paxos_2pc_payments.Paxos.Node.Replication.replicate_begin on_propose
    paxos_2pc_payments.Paxos.Node.Replication.propose_begin on_election
    paxos_2pc_payments.Paxos.Node.Election.campaign_end paxos_2pc_payments.Paxos.Node.Election.tally
    handle_prepare on_campaign paxos_2pc_payments.Paxos.Node.new_node new_mem_log
    paxos_2pc_payments.Paxos.Log.promise paxos_2pc_payments.Paxos.Node.quorum
    paxos_2pc_payments.Paxos.Ballot.majority on_prepare
    paxos_2pc_payments.Paxos.Node.Election.campaign_prepare
    paxos_2pc_payments.Paxos.Node.Election.can_reach_quorum
    paxos_2pc_payments.Paxos.Node.Election.become_leader paxos_2pc_payments.Paxos.Log.accept
concluded₁ =
    Cluster.conclude 1 (entry_of accept₁) (accepted₂ ∷ []) member₁ (inr (inl refl))
      (from_one 1 accepted₂ member₂ (omega arith))
      (only (Accepted c₆ (ballot 1 1) 1) accepted₂ (λ h. (entry_of accept₁, inl refl, refl, refl)))

begins₂ : Move group env c₇ begun₂
unfolding paxos_2pc_payments.Paxos.Node.Election.campaign_begin on_conclude on_accept handle_accept
    paxos_2pc_payments.Paxos.Ballot.less on_replicate
    paxos_2pc_payments.Paxos.Node.Replication.replicate_begin on_propose
    paxos_2pc_payments.Paxos.Node.Replication.propose_begin on_election
    paxos_2pc_payments.Paxos.Node.Election.campaign_end paxos_2pc_payments.Paxos.Node.Election.tally
    handle_prepare on_campaign paxos_2pc_payments.Paxos.Node.new_node new_mem_log
    paxos_2pc_payments.Paxos.Log.promise paxos_2pc_payments.Paxos.Node.quorum
    paxos_2pc_payments.Paxos.Ballot.majority on_prepare
    paxos_2pc_payments.Paxos.Node.Election.campaign_prepare
    paxos_2pc_payments.Paxos.Node.Election.can_reach_quorum
    paxos_2pc_payments.Paxos.Node.Election.become_leader paxos_2pc_payments.Paxos.Log.accept
begins₂ = Cluster.quiet 2 candidate₂ member₂ (campaign_begun candidate₂ refl)

promised₂ : (begun₂.nodes 2).log.promised.num ≡ 1
unfolding handle_accept handle_prepare new_mem_log on_accept on_campaign on_conclude on_election
    on_prepare on_propose on_replicate paxos_2pc_payments.Paxos.Ballot.less
    paxos_2pc_payments.Paxos.Ballot.majority paxos_2pc_payments.Paxos.Log.accept
    paxos_2pc_payments.Paxos.Log.promise paxos_2pc_payments.Paxos.Node.Election.become_leader
    paxos_2pc_payments.Paxos.Node.Election.campaign_end
    paxos_2pc_payments.Paxos.Node.Election.campaign_prepare
    paxos_2pc_payments.Paxos.Node.Election.can_reach_quorum
    paxos_2pc_payments.Paxos.Node.Election.tally
    paxos_2pc_payments.Paxos.Node.Replication.propose_begin
    paxos_2pc_payments.Paxos.Node.Replication.replicate_begin paxos_2pc_payments.Paxos.Node.new_node
    paxos_2pc_payments.Paxos.Node.quorum
promised₂ = refl

campaigned₂ : Move group env begun₂ c₈
campaigned₂ = Cluster.campaign 2 pongs member₂ (omega (arith, promised₂))

prepared₃ : Move group env c₈ c₉
prepared₃ = Cluster.prepare 3 prepare₂ member₃

elected₂ : Move group env c₉ c₁₀
unfolding on_prepare on_campaign paxos_2pc_payments.Paxos.Node.Election.campaign_prepare
    paxos_2pc_payments.Paxos.Node.Election.can_reach_quorum paxos_2pc_payments.Paxos.Node.quorum
    paxos_2pc_payments.Paxos.Ballot.majority on_conclude on_accept handle_accept
    paxos_2pc_payments.Paxos.Ballot.less on_replicate
    paxos_2pc_payments.Paxos.Node.Replication.replicate_begin on_propose
    paxos_2pc_payments.Paxos.Node.Replication.propose_begin on_election
    paxos_2pc_payments.Paxos.Node.Election.campaign_end paxos_2pc_payments.Paxos.Node.Election.tally
    handle_prepare paxos_2pc_payments.Paxos.Node.new_node new_mem_log
    paxos_2pc_payments.Paxos.Log.promise paxos_2pc_payments.Paxos.Node.Election.become_leader
    paxos_2pc_payments.Paxos.Log.accept paxos_2pc_payments.Paxos.Ballot.next_ballot
elected₂ =
    Cluster.election 2 (ballot 2 2) 1 (promise₃ ∷ []) member₂ refl refl
      (from_one 2 promise₃ member₃ (omega arith))
      (only (Promised c₉ (ballot 2 2) 1) promise₃ (λ h. inl refl))

replicated₂ : Move group env c₁₀ c₁₁
unfolding on_election paxos_2pc_payments.Paxos.Node.Election.campaign_end
    paxos_2pc_payments.Paxos.Node.Election.tally handle_prepare paxos_2pc_payments.Paxos.Ballot.less
    on_campaign on_conclude on_accept on_replicate
    paxos_2pc_payments.Paxos.Node.Replication.replicate_begin on_propose
    paxos_2pc_payments.Paxos.Node.Replication.propose_begin paxos_2pc_payments.Paxos.Node.new_node
    new_mem_log paxos_2pc_payments.Paxos.Log.promise paxos_2pc_payments.Paxos.Node.quorum
    paxos_2pc_payments.Paxos.Ballot.majority on_prepare
    paxos_2pc_payments.Paxos.Node.Election.campaign_prepare
    paxos_2pc_payments.Paxos.Node.Election.can_reach_quorum
    paxos_2pc_payments.Paxos.Node.Election.become_leader paxos_2pc_payments.Paxos.Log.accept
    handle_accept paxos_2pc_payments.Paxos.Node.Election.recovery
    paxos_2pc_payments.Paxos.Node.Election.pick paxos_2pc_payments.Paxos.Log.entries_from lookup
    paxos_2pc_payments.Base.insert paxos_2pc_payments.Paxos.Ballot.next_ballot
replicated₂ =
    Cluster.replicate 2 1 (65 ∷ []) member₂ (inl refl) refl
      (none_committed c₁₀ 2 1 (ballot 2 2) refl)

accepted_by₃ : Move group env c₁₁ c₁₂
unfolding on_replicate paxos_2pc_payments.Paxos.Node.Replication.replicate_begin on_election
    paxos_2pc_payments.Paxos.Node.Election.campaign_end paxos_2pc_payments.Paxos.Node.Election.tally
    handle_prepare paxos_2pc_payments.Paxos.Ballot.less on_campaign on_conclude on_accept on_propose
    paxos_2pc_payments.Paxos.Node.Replication.propose_begin paxos_2pc_payments.Paxos.Node.new_node
    new_mem_log paxos_2pc_payments.Paxos.Log.promise paxos_2pc_payments.Paxos.Node.quorum
    paxos_2pc_payments.Paxos.Ballot.majority on_prepare
    paxos_2pc_payments.Paxos.Node.Election.campaign_prepare
    paxos_2pc_payments.Paxos.Node.Election.can_reach_quorum
    paxos_2pc_payments.Paxos.Node.Election.become_leader paxos_2pc_payments.Paxos.Log.accept
    handle_accept
accepted_by₃ =
    Cluster.accept 3 accept₂ member₃ (inl refl) (none_committed c₁₁ 3 1 (ballot 2 2) refl)

concluded₂ : Move group env c₁₂ c₁₃
unfolding on_accept handle_accept paxos_2pc_payments.Paxos.Ballot.less on_replicate
    paxos_2pc_payments.Paxos.Node.Replication.replicate_begin on_election
    paxos_2pc_payments.Paxos.Node.Election.campaign_end paxos_2pc_payments.Paxos.Node.Election.tally
    handle_prepare on_campaign on_conclude on_propose
    paxos_2pc_payments.Paxos.Node.Replication.propose_begin paxos_2pc_payments.Paxos.Node.new_node
    new_mem_log paxos_2pc_payments.Paxos.Log.promise paxos_2pc_payments.Paxos.Node.quorum
    paxos_2pc_payments.Paxos.Ballot.majority on_prepare
    paxos_2pc_payments.Paxos.Node.Election.campaign_prepare
    paxos_2pc_payments.Paxos.Node.Election.can_reach_quorum
    paxos_2pc_payments.Paxos.Node.Election.become_leader paxos_2pc_payments.Paxos.Log.accept
concluded₂ =
    Cluster.conclude 2 (entry_of accept₂) (accepted₃ ∷ []) member₂ (inr (inl refl))
      (from_one 2 accepted₃ member₃ (omega arith))
      (only (Accepted c₁₂ (ballot 2 2) 1) accepted₃ (λ h. (entry_of accept₂, inl refl, refl, refl)))

first_reign : Reach group c₀ c₇
first_reign =
    next env
      (next env
        (next env
          (next env
            (next env (next env (next env (next env here begins₁) campaigned₁) prepared₂) elected₁)
            proposed₁)
          replicated₁)
        accepted_by₂)
      concluded₁

pub both_reigns : Reach group c₀ c₁₃
both_reigns =
    next env
      (next env
        (next env
          (next env (next env (next env (next env first_reign begins₂) campaigned₂) prepared₃)
            elected₂)
          replicated₂)
        accepted_by₃)
      concluded₂

pair : (P : ℕ → Type 0) (a b : ℕ) → P a → P b → (x : ℕ) → In x (a ∷ b ∷ []) → P x
pair P a b p q x (inl same) = subst P (sym same) p
pair P a b p q x (inr (inl same)) = subst P (sym same) q
pair P a b p q x (inr (inr h)) = absurd h

IsQuorum-of : (a b : ℕ) → In a group → In b group → a ≢ b → IsQuorum group (a ∷ b ∷ [])
unfolding paxos_2pc_payments.Paxos.Ballot.majority
IsQuorum-of a b in_group in_group' apart = (
  ((λ h. elim h [ inl same ↦ apart same | inr none_left ↦ none_left ]), ((λ h. h), tt)),
  pair (λ x. In x group) a b in_group in_group',
  omega arith,
)

chosen₁ : Elected group (spec_of c₁₃) (entry_of accept₁)
unfolding on_conclude on_accept handle_accept paxos_2pc_payments.Paxos.Ballot.less on_replicate
    paxos_2pc_payments.Paxos.Node.Replication.replicate_begin on_election
    paxos_2pc_payments.Paxos.Node.Election.campaign_end paxos_2pc_payments.Paxos.Node.Election.tally
    handle_prepare on_campaign on_propose paxos_2pc_payments.Paxos.Node.Replication.propose_begin
    paxos_2pc_payments.Paxos.Node.new_node new_mem_log paxos_2pc_payments.Paxos.Log.promise
    paxos_2pc_payments.Paxos.Node.quorum paxos_2pc_payments.Paxos.Ballot.majority on_prepare
    paxos_2pc_payments.Paxos.Node.Election.campaign_prepare
    paxos_2pc_payments.Paxos.Node.Election.can_reach_quorum
    paxos_2pc_payments.Paxos.Node.Election.become_leader paxos_2pc_payments.Paxos.Log.accept
chosen₁ = (
  1 ∷ 2 ∷ [],
  IsQuorum-of 1 2 member₁ member₂ (omega arith),
  pair (λ x. In (x, entry_of accept₁) c₁₃.votes) 1 2 (inr (inr (inr (inl refl))))
      (inr (inr (inl refl))),
)

chosen₂ : Elected group (spec_of c₁₃) (entry_of accept₂)
unfolding on_conclude on_accept handle_accept paxos_2pc_payments.Paxos.Ballot.less on_replicate
    paxos_2pc_payments.Paxos.Node.Replication.replicate_begin on_election
    paxos_2pc_payments.Paxos.Node.Election.campaign_end paxos_2pc_payments.Paxos.Node.Election.tally
    handle_prepare on_campaign on_propose paxos_2pc_payments.Paxos.Node.Replication.propose_begin
    paxos_2pc_payments.Paxos.Node.new_node new_mem_log paxos_2pc_payments.Paxos.Log.promise
    paxos_2pc_payments.Paxos.Node.quorum paxos_2pc_payments.Paxos.Ballot.majority on_prepare
    paxos_2pc_payments.Paxos.Node.Election.campaign_prepare
    paxos_2pc_payments.Paxos.Node.Election.can_reach_quorum
    paxos_2pc_payments.Paxos.Node.Election.become_leader paxos_2pc_payments.Paxos.Log.accept
chosen₂ = (
  2 ∷ 3 ∷ [],
  IsQuorum-of 2 3 member₂ member₃ (omega arith),
  pair (λ x. In (x, entry_of accept₂) c₁₃.votes) 2 3 (inr (inl refl)) (inl refl),
)

Elected-agree_example : (entry_of accept₁).command ≡ (entry_of accept₂).command
unfolding new_mem_log
Elected-agree_example =
    Elected-agree env group logs cfg c₁₃ (entry_of accept₁) (entry_of accept₂) (λ a. refl)
      both_reigns chosen₁ chosen₂ refl
