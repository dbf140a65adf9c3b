-- ===== src/Paxos/Cluster/Winners.antt =====
-- internal/paxos/node.go: the invariant of the group, for the end of a campaign.
use paxos_2pc_payments.Base.{
  ℕ, ◌+◌, ◌≤◌, ◌<◌, ◌≡◌, ◌≢◌, ◌⊎◌, inl, inr, refl, sym, ◌∙◌, ap, subst, none, some, List, arith, In,
  length,
}
use paxos_2pc_payments.Paxos.Ballot.{Ballot, ◌≼◌, less_irrefl, majority, zero_ballot}
use paxos_2pc_payments.Paxos.Log.{Entry, entries_from}
use paxos_2pc_payments.Paxos.Node.{
  Node, Env, Message, leader, quorum, step_down, try_promise, reset_election,
}
use paxos_2pc_payments.Paxos.Node.Election.{campaign_end, become_leader, tally, Tally}
use paxos_2pc_payments.Paxos.Elected.{oks, known, campaign_end_won, campaign_end_lost}
use paxos_2pc_payments.Paxos.Promises.Campaign.{campaign_end-≼}
use paxos_2pc_payments.Paxos.Spec.{Run, here, next, at}
use paxos_2pc_payments.Paxos.Spec.Kept.{Later}
use paxos_2pc_payments.Paxos.Cluster.{Cluster, spec_of, on_election, FromOthers, Promised}
use paxos_2pc_payments.Paxos.Cluster.Roles.{Keeps, promise-entries, step_down-Keeps}
use paxos_2pc_payments.Paxos.Cluster.Logs.{IsValid-same}
use paxos_2pc_payments.Paxos.Cluster.Views.{raise-Step}
use paxos_2pc_payments.Paxos.Cluster.Elections.{winner-IsSafe}
use paxos_2pc_payments.Paxos.Cluster.Kept.{ClusterInv, Lead, Unused}
use paxos_2pc_payments.Paxos.Cluster.Moved.{
  moved, later, node_at_self, committed-kept, leads-kept, decide, at_self, at-other,
}

campaign_end-Keeps :
    (env : Env) (n : Node) (b : Ballot) (first : ℕ) (rs : List Message)
    → n.log.promised ≼ b
    → Keeps n (campaign_end env n b first rs).0
unfolding campaign_end become_leader reset_election
campaign_end-Keeps env n b first rs h = (
  ground (arith, same, step_down-Keeps env zero_ballot n, step_down-Keeps env zero_ballot n₁),
  ground (arith, same, step_down-Keeps env zero_ballot n, step_down-Keeps env zero_ballot n₁),
  ground (arith, step_down-Keeps env zero_ballot n, step_down-Keeps env zero_ballot n₁),
  campaign_end-≼ env n b first rs h,
)
  where
    t : Tally
    t = tally (record { votes = 1; gathered = entries_from n.log first; highest = b }) rs

    n₁ : Node
    n₁ = try_promise env n t.highest

    same : (n₁.log.entries ≡ n.log.entries) × (n₁.log.max_slot ≡ n.log.max_slot)
    same = promise-entries n.log env.promise_written t.highest

campaign_end-wired :
    (env : Env) (n : Node) (b : Ballot) (first : ℕ) (rs : List Message)
    → ((campaign_end env n b first rs).0.id ≡ n.id)
      × ((campaign_end env n b first rs).0.peers ≡ n.peers)
unfolding campaign_end become_leader reset_election step_down
campaign_end-wired env n b first rs = (ground arith, ground arith)

become_leader-lead :
    (env : Env) (n : Node) (b : Ballot) (es : List Entry) (first : ℕ)
    → ((become_leader env n b es first).0.ballot ≡ b)
      × ((become_leader env n b es first).0.log ≡ n.log)
unfolding become_leader reset_election
become_leader-lead env n b es first = (refl, refl)

≤-or-< : (a b : ℕ) → (a ≤ b) ⊎ (b < a)
≤-or-< a b = ground arith

module _ (group : List ℕ) (env : Env) (c : Cluster) (inv : ClusterInv group c) (a : ℕ) (b : Ballot)
    (first : ℕ) (rs : List Message) (member : In a group)
    (running : c.campaigns a ≡ some (b, first)) (promised : (c.nodes a).log.promised ≡ b)
    (others : FromOthers group a rs)
    (answered : (r : Message) → In r rs → Promised c b first r) where
  n : Node
  n = (campaign_end env (c.nodes a) b first rs).0

  d : Cluster
  d = on_election env a b first rs c

  keeps : Keeps (c.nodes a) n
  unfolding n
  keeps = campaign_end-Keeps env (c.nodes a) b first rs (rw promised (less_irrefl b))

  nodes : d.nodes ≡ (λ j. at a j n (c.nodes j))
  unfolding d n on_election
  nodes = refl

  run : Run group (spec_of c) (spec_of d)
  unfolding d n on_election
  run = next here (raise-Step group c a n keeps.0 keeps.3)

  self : d.nodes a ≡ n
  self = node_at_self group c d a n inv nodes run

  grown : Later group (spec_of c) (spec_of d)
  grown = later group c d a n inv nodes run

  no_campaign : (x : Ballot) (s : ℕ) → d.campaigns a ≡ some (x, s) → ⊥
  unfolding d on_election
  no_campaign x s h = ground (arith, at_self a none (c.campaigns a))

  other_lead : (j : ℕ) → a ≢ j → Lead group d j
  unfolding d n on_election
  other_lead j other =
      leads-kept group c d a n inv nodes run j (λ e. absurd (other e))
        (λ x s h. sym (at-other a j none (c.campaigns j) other) ∙ h)
        (λ x h.
          subst (In x) (at-other a j (campaign_end env (c.nodes a) b first rs).1 (c.todo j) other)
            h)
        (λ e h. inl h)

  todo_now : d.todo a ≡ (campaign_end env (c.nodes a) b first rs).1
  unfolding d on_election
  todo_now = at_self a (campaign_end env (c.nodes a) b first rs).1 (c.todo a)

  same_proposals : (e : Entry) → In e d.proposals → In e c.proposals
  unfolding d on_election
  same_proposals e h = h

  lost_lead : oks rs + 1 < quorum (c.nodes a) → Lead group d a
  unfolding n
  lost_lead few =
      let lost = campaign_end_lost env (c.nodes a) b first rs few in
      let never : (d.nodes a).role ≡ leader → ⊥ = λ l. cc (l, ap (λ m. m.role) self, lost.0) in
      record {
        campaign = λ x s h. absurd (no_campaign x s h);
        own = λ l. absurd (never l);
        planned = λ l. absurd (never l);
        fresh = λ l. absurd (never l);
      }

  won_lead : quorum (c.nodes a) ≤ oks rs + 1 → Lead group d a
  unfolding n quorum
  won_lead enough =
      let won = campaign_end_won env (c.nodes a) b first rs enough in
      let out = become_leader env (c.nodes a) b (known (c.nodes a) first rs) first in
      let now : d.nodes a ≡ out.0 = self ∙ ap (λ x. x.0) won in
      let (plan, beyond) =
        winner-IsSafe group c a b first rs inv.spec (inv.valid a) member promised others answered
          (subst (λ g. majority (length g) ≤ oks rs + 1) (inv.wired a).1 enough) env in
      let (node, unused) = (inv.lead a).campaign b first running in
      let lead = become_leader-lead env (c.nodes a) b (known (c.nodes a) first rs) first in
      let ballot : (d.nodes a).ballot ≡ b = ap (λ m. m.ballot) now ∙ lead.0 in
      let free : (s : ℕ) → Unused d s b = λ s e h es eb. unused e (same_proposals e h) eb in
      record {
        campaign = λ x s h. absurd (no_campaign x s h);
        own = λ l. (
          ap (λ x. x.node) ballot ∙ node,
          rw ballot (
              rw (ap (λ m. m.log.promised) now ∙ ap (λ k. k.promised) lead.1 ∙ promised)
                (less_irrefl b)),
          λ x s h. absurd (no_campaign x s h),
        );
        planned = λ l s v h.
            let (below, safe) = plan s v (subst (In (s, v)) (todo_now ∙ ap (λ x. x.1) won) h) in
            (
              rw (ap (λ m. m.next_slot) now) below,
              rw ballot (grown.safe_kept b s v safe),
              rw ballot (free s),
            );
        fresh = λ l s h.
            let safe = beyond s (subst (λ k. k ≤ s) (ap (λ m. m.next_slot) now) h) in
            (λ v. rw ballot (grown.safe_kept b s v (safe v)), rw ballot (free s));
      }

  pub election-ClusterInv : ClusterInv group (on_election env a b first rs c)
  unfolding d n on_election
  election-ClusterInv =
      moved group c d a n inv nodes run (campaign_end-wired env (c.nodes a) b first rs)
        (IsValid-same (c.nodes a).log n.log (inv.valid a) keeps.0 keeps.1) (λ e h. inl h)
        (λ j. elim (decide a j) [
          | inr other ↦ other_lead j other
          | inl same ↦ subst (Lead group d) same (elim (≤-or-< (quorum (c.nodes a)) (oks rs + 1)) [
            | inl enough ↦ won_lead enough
            | inr few ↦ lost_lead few
          ])
        ])
        (committed-kept group c d a n inv nodes run keeps.0 keeps.2) inv.served
