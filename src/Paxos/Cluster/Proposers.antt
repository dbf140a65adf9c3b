-- ===== src/Paxos/Cluster/Proposers.antt =====
-- internal/paxos/node.go: the invariant of the group, for campaigns and proposals.
use paxos_2pc_payments.Base.{
  ℕ, ◌+◌, ◌≤◌, ◌<◌, ◌≡◌, ◌≢◌, inl, inr, refl, sym, ◌∙◌, ap, subst, Option, none, some, List, [],
  ◌∷◌, Bool, true, false, arith, In, ◌==◌, if◌then◌else◌, insert, int64_mod, ==→ne,
}
use paxos_2pc_payments.Paxos.Ballot.{Ballot, ◌≼◌, less_irrefl, next_ballot}
use paxos_2pc_payments.Paxos.Log.{Entry}
use paxos_2pc_payments.Paxos.Node.{Node, Role, Env, Message, leader, follower, is_leader}
use paxos_2pc_payments.Paxos.Node.Election.{campaign_prepare}
use paxos_2pc_payments.Paxos.Node.Replication.{propose_begin}
use paxos_2pc_payments.Paxos.Promises.Campaign.{next_ballot-above}
use paxos_2pc_payments.Paxos.Spec.{Run, here, next, at, IsSafe}
use paxos_2pc_payments.Paxos.Spec.Safe.{not_both, ≼_less}
use paxos_2pc_payments.Paxos.Cluster.{
  Cluster, spec_of, with_node, on_campaign, on_propose, campaign_of, drop_slot,
}
use paxos_2pc_payments.Paxos.Cluster.Roles.{Keeps, campaign_prepare-Follows}
use paxos_2pc_payments.Paxos.Cluster.Logs.{
  IsValid-same, campaign_prepare-Keeps, campaign_prepare-request,
}
use paxos_2pc_payments.Paxos.Cluster.Views.{raise-Step}
use paxos_2pc_payments.Paxos.Cluster.Kept.{ClusterInv, Lead}
use paxos_2pc_payments.Paxos.Cluster.Moved.{
  moved, later, node_at_self, committed-kept, leads-kept, decide, at_self, at-other,
}

module _ (group : List ℕ) (env : Env) (c : Cluster) (inv : ClusterInv group c) (a : ℕ) where
  -- A fresh ballot is above all that was proposed by the replica.
  next_unused :
      (c.nodes a).log.promised.num + 1 < int64_mod
      → (e : Entry) → In e c.proposals
      → e.ballot ≡ next_ballot (c.nodes a).log.promised (c.nodes a).id
      → ⊥
  unfolding next_ballot
  next_unused room e h same =
      let own : e.ballot.node ≡ a = ap (λ b. b.node) same ∙ (inv.wired a).0 in
      not_both (c.nodes a).log.promised (next_ballot (c.nodes a).log.promised (c.nodes a).id)
        (next_ballot-above (c.nodes a).log.promised (c.nodes a).id room)
        (subst (λ b. b ≼ (c.nodes a).log.promised) same
          (subst (λ i. e.ballot ≼ (c.nodes i).log.promised) own (inv.proposer e h)))

  pub campaign-ClusterInv :
      (rs : List Message)
      → (c.nodes a).log.promised.num + 1 < int64_mod
      → ClusterInv group (on_campaign env a rs c)
  unfolding on_campaign next_ballot
  campaign-ClusterInv rs room =
      let f = campaign_prepare-Follows env (c.nodes a) rs in
      moved group c d a n inv refl run (f.0, f.1)
        (IsValid-same (c.nodes a).log n.log (inv.valid a) keeps.0 keeps.1) (λ e h. inl h) leads
        (committed-kept group c d a n inv refl run keeps.0 keeps.2) inv.served
    where
      n : Node
      n = (campaign_prepare env (c.nodes a) rs).0

      request : Option Message
      request = (campaign_prepare env (c.nodes a) rs).1

      d : Cluster
      d = on_campaign env a rs c

      keeps : Keeps (c.nodes a) n
      keeps = campaign_prepare-Keeps env (c.nodes a) rs room

      run : Run group (spec_of c) (spec_of d)
      run = next here (raise-Step group c a n keeps.0 keeps.3)

      -- The lead of the candidate itself, but for its new campaign.
      old_lead : Lead group (with_node a n c) a
      old_lead =
          leads-kept group c (with_node a n c) a n inv refl run a
            (λ e. campaign_prepare-Follows env (c.nodes a) rs) (λ b first h. h) (λ x h. h)
            (λ e h. inl h)

      from_request :
          (o : Option Message) (b : Ballot) (first : ℕ)
          → request ≡ o
          → campaign_of o ≡ some (b, first)
          → b ≡ next_ballot (c.nodes a).log.promised (c.nodes a).id
      from_request none b first eq e = absurd (ground arith)
      from_request (some m) b first eq e =
          let request = campaign_prepare-request env (c.nodes a) rs m eq in
          let same : m.ballot ≡ b = ground arith in sym same ∙ request.0

      new_ballot :
          (b : Ballot) (first : ℕ)
          → d.campaigns a ≡ some (b, first)
          → b ≡ next_ballot (c.nodes a).log.promised (c.nodes a).id
      new_ballot b first h =
          from_request request b first refl
            (sym (at_self a (campaign_of request) (c.campaigns a)) ∙ h)

      leads : (j : ℕ) → Lead group d j
      leads j = elim (decide a j) [
        | inr other ↦
            leads-kept group c d a n inv refl run j (λ e. absurd (other e))
              (λ b first h. sym (at-other a j (campaign_of request) (c.campaigns j) other) ∙ h)
              (λ x h. h) (λ e h. inl h)
        | inl same ↦ subst (Lead group d) same (record {
          campaign = λ b first h.
              let eq = new_ballot b first h in
              (
                ap (λ x. x.node) eq ∙ (inv.wired a).0,
                λ e there eb. next_unused room e there (eb ∙ eq),
              );
          own = λ lead.
              let (was, ballot, slot) =
                (campaign_prepare-Follows env (c.nodes a) rs).2
                  (ap (λ m. m.role) (sym (node_at_self group c d a n inv refl run)) ∙ lead) in
              let own = old_lead.own lead in
              (
                own.0,
                own.1,
                λ b first h. rw (new_ballot b first h) (
                    rw (ap (λ m. m.ballot) (node_at_self group c d a n inv refl run) ∙ ballot) (
                      ≼_less (c.nodes a).ballot (c.nodes a).log.promised
                        (next_ballot (c.nodes a).log.promised (c.nodes a).id)
                        ((inv.lead a).own was).1
                        (next_ballot-above (c.nodes a).log.promised (c.nodes a).id room))),
              );
          planned = old_lead.planned;
          fresh = old_lead.fresh;
        })
      ]

  -- A caller's command gets the next slot.
  pub propose-ClusterInv :
      (waiter : ℕ) (command : List ℕ) → ClusterInv group (on_propose a waiter command c)
  unfolding on_propose propose_begin
  propose-ClusterInv waiter command = by_role (c.nodes a).role refl
    where
      n : Node
      n = record (c.nodes a) {
        next_slot = (c.nodes a).next_slot + 1;
        results = insert (c.nodes a).next_slot waiter (c.nodes a).results;
      }

      d : Cluster
      d = record (with_node a n c) {
        todo = λ j. at a j (((c.nodes a).next_slot, command) ∷ c.todo j) (c.todo j);
      }

      run : Run group (spec_of c) (spec_of d)
      run = next here (raise-Step group c a n refl (less_irrefl (c.nodes a).log.promised))

      self : d.nodes a ≡ n
      self = node_at_self group c d a n inv refl run

      kept :
          (s : ℕ) (v : List ℕ)
          → IsSafe group (spec_of c) (c.nodes a).ballot s v
          → IsSafe group (spec_of d) (c.nodes a).ballot s v
      kept s v = (later group c d a n inv refl run).safe_kept (c.nodes a).ballot s v

      leads : (c.nodes a).role ≡ leader → (j : ℕ) → Lead group d j
      leads lead j = elim (decide a j) [
        | inr other ↦
            leads-kept group c d a n inv refl run j (λ e. absurd (other e)) (λ b first h. h)
              (λ x h.
                subst (In x)
                  (at-other a j (((c.nodes a).next_slot, command) ∷ c.todo j) (c.todo j) other) h)
              (λ e h. inl h)
        | inl same ↦ subst (Lead group d) same (record {
          campaign = (inv.lead a).campaign;
          own = λ l. rw self ((inv.lead a).own lead);
          planned = λ l s v h.
              rw self
                (elim (subst (In (s, v))
                  (at_self a (((c.nodes a).next_slot, command) ∷ c.todo a) (c.todo a)) h) [
                    | inl now ↦
                        let (safe, unused) =
                          (inv.lead a).fresh lead (c.nodes a).next_slot (omega arith) in
                        let slot : s ≡ (c.nodes a).next_slot = ap (λ p. p.0) now in
                        rw slot (omega arith, kept (c.nodes a).next_slot v (safe v), unused)
                    | inr old ↦
                        let (below, safe, unused) = (inv.lead a).planned lead s v old in
                        (omega arith, kept s v safe, unused)
                  ]);
          fresh = λ l s h.
              let h' : n.next_slot ≤ s = subst (λ m. m.next_slot ≤ s) self h in
              let (safe, unused) = (inv.lead a).fresh lead s (omega arith) in
              rw self (λ v. kept s v (safe v), unused);
        })
      ]

      handed : Bool → Option (Node × ℕ)
      handed x = if x then some (n, (c.nodes a).next_slot) else none

      by_role :
          (r : Role)
          → (c.nodes a).role ≡ r
          → ClusterInv group (elim (handed (is_leader r)) as (λ x. Cluster) [
            | none ↦ c
            | some (m, slot) ↦ record (with_node a m c) {
              todo = λ j. at a j ((slot, command) ∷ c.todo j) (c.todo j);
            }
          ])
      by_role follower e = inv
      by_role Role.candidate e = inv
      by_role leader e =
          moved group c d a n inv refl run (refl, refl)
            (IsValid-same (c.nodes a).log n.log (inv.valid a) refl refl) (λ x h. inl h) (leads e)
            (committed-kept group c d a n inv refl run refl refl) inv.served

-- What is left has another slot.
pub drop_slot-In :
    (s : ℕ) (x : ℕ × List ℕ) (xs : List (ℕ × List ℕ)) → In x (drop_slot s xs) → In x xs × (x.0 ≢ s)
unfolding drop_slot
drop_slot-In s x [] h = elim h [ ]
drop_slot-In s x ((s', v) ∷ xs) h = by_slot (s' == s) refl h (λ k. drop_slot-In s x xs k)
  where
    by_slot :
        (y : Bool)
        → (s' == s) ≡ y
        → In x (if y then drop_slot s xs else (s', v) ∷ drop_slot s xs)
        → (In x (drop_slot s xs) → In x xs × (x.0 ≢ s))
        → In x ((s', v) ∷ xs) × (x.0 ≢ s)
    by_slot true eq k rest = let (there, other) = rest k in (inr there, other)
    by_slot false eq (inl same) rest = (inl same, λ e. ==→ne s' s eq (ap (λ p. p.0) (sym same) ∙ e))
    by_slot false eq (inr later) rest = let (there, other) = rest later in (inr there, other)
