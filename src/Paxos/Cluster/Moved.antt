-- ===== src/Paxos/Cluster/Moved.antt =====
-- internal/paxos/node.go: a step of one replica, for the invariant of the group.
use paxos_2pc_payments.Base.{
  ℕ, ◌≡◌, ◌≢◌, ◌⊎◌, inl, inr, refl, sym, ◌∙◌, ap, subst, some, List, true, arith, In, lookup,
}
use paxos_2pc_payments.Paxos.Ballot.{Ballot, ◌≼◌}
use paxos_2pc_payments.Paxos.Log.{Entry, get}
use paxos_2pc_payments.Paxos.Log.Entries.{IsValid}
use paxos_2pc_payments.Paxos.Node.{Node, is_committed}
use paxos_2pc_payments.Paxos.Spec.{Run, at}
use paxos_2pc_payments.Paxos.Spec.Kept.{Later, Run-Inv}
use paxos_2pc_payments.Paxos.Cluster.{Cluster, spec_of}
use paxos_2pc_payments.Paxos.Cluster.Roles.{Follows}
use paxos_2pc_payments.Paxos.Cluster.Kept.{
  ClusterInv, ServedSettled, Lead, Lead-kept, proposer-kept, Holds, Holds-kept,
}

pub decide : (a j : ℕ) → (a ≡ j) ⊎ (a ≢ j)
decide a j = ground arith

pub at_self {ℓ} : {A : Type ℓ} (a : ℕ) (new old : A) → at a a new old ≡ new
at_self a new old = ground arith

pub at-other {ℓ} : {A : Type ℓ} (a j : ℕ) (new old : A) → a ≢ j → at a j new old ≡ old
at-other a j new old h = ground arith

-- What holds of the new value at `a` and of the old ones elsewhere.
pub at-elim {ℓ κ} :
    {A : Type ℓ} (P : ℕ → A → Type κ) (a j : ℕ) (new : A) (old : ℕ → A)
    → P a new
    → (a ≢ j → P j (old j))
    → P j (at a j new (old j))
at-elim P a j new old here elsewhere = elim (decide a j) [
  | inl same ↦ subst (λ i. P i (at a i new (old i))) same (rw (at_self a new (old a)) here)
  | inr other ↦ rw (at-other a j new (old j) other) (elsewhere other)
]

module _ (group : List ℕ) (c d : Cluster) (a : ℕ) (n : Node) (inv : ClusterInv group c)
    (nodes : d.nodes ≡ (λ j. at a j n (c.nodes j))) (run : Run group (spec_of c) (spec_of d)) where
  pub later : Later group (spec_of c) (spec_of d)
  later = (Run-Inv group (spec_of c) inv.spec run).1

  pub node_at_self : d.nodes a ≡ n
  node_at_self = ap (λ f. f a) nodes ∙ at_self a n (c.nodes a)

  pub node_at-other : (j : ℕ) → a ≢ j → d.nodes j ≡ c.nodes j
  node_at-other j h = ap (λ f. f j) nodes ∙ at-other a j n (c.nodes j) h

  -- The parts of the replicas that start nothing.
  pub leads-kept :
      (j : ℕ)
      → (a ≡ j → Follows (c.nodes j) n)
      → ((b : Ballot) (first : ℕ)
          → d.campaigns j ≡ some (b, first)
          → c.campaigns j ≡ some (b, first))
      → ((x : ℕ × List ℕ) → In x (d.todo j) → In x (c.todo j))
      → ((e : Entry) → In e d.proposals → In e c.proposals ⊎ (e.ballot.node ≢ j))
      → Lead group d j
  leads-kept j follows campaigns todo new = elim (decide a j) [
    | inl same ↦
        Lead-kept group c d later j (inv.lead j)
          (subst (Follows (c.nodes j)) (sym node_at_self ∙ ap d.nodes same) (follows same))
          campaigns todo new
    | inr other ↦
        Lead-kept group c d later j (inv.lead j)
          (subst (Follows (c.nodes j)) (sym (node_at-other j other))
            (refl, refl, λ e. (e, refl, refl)))
          campaigns todo new
  ]

  -- The invariant, from what the step did.
  pub moved :
      (n.id ≡ (c.nodes a).id) × (n.peers ≡ (c.nodes a).peers)
      → IsValid n.log
      → ((e : Entry)
          → In e d.proposals
          → In e c.proposals ⊎ (e.ballot ≼ (c.nodes e.ballot.node).log.promised))
      → ((j : ℕ) → Lead group d j)
      → ((s : ℕ) → is_committed n s ≡ true → Holds group d a s)
      → ServedSettled group c d.served
      → ClusterInv group d
  moved wired valid new lead committed served = record {
    spec = (Run-Inv group (spec_of c) inv.spec run).0;
    valid = λ j. by_node (λ i m. IsValid m.log) j valid (inv.valid j);
    wired = λ j.
        by_node (λ i m. (m.id ≡ i) × (m.peers ≡ group)) j
          (wired.0 ∙ (inv.wired a).0, wired.1 ∙ (inv.wired a).1) (inv.wired j);
    proposer = proposer-kept group c d later inv new;
    lead = lead;
    committed = λ j s h. elim (decide a j) [
      | inl same ↦
          subst (λ i. Holds group d i s) same
            (committed s
              (subst (λ m. is_committed m s ≡ true) (ap d.nodes (sym same) ∙ node_at_self) h))
      | inr other ↦
          let kept = node_at-other j other in
          Holds-kept group c d later j s (ap (λ m. get m.log s) kept)
            (inv.committed j s (subst (λ m. is_committed m s ≡ true) kept h))
    ];
    served = λ x h e there low high. later.settled_kept e (served x h e there low high);
  }
    where
      by_node : (P : ℕ → Node → Type 0) (j : ℕ) → P a n → P j (c.nodes j) → P j (d.nodes j)
      by_node P j new old = elim (decide a j) [
        | inl same ↦ subst (λ i. P i (d.nodes i)) same (rw node_at_self new)
        | inr other ↦ rw (node_at-other j other) old
      ]

  -- Where neither the entries nor the committed slots change.
  pub committed-kept :
      n.log.entries ≡ (c.nodes a).log.entries
      → n.committed ≡ (c.nodes a).committed
      → (s : ℕ) → is_committed n s ≡ true
      → Holds group d a s
  unfolding get
  committed-kept entries committed s h =
      Holds-kept group c d later a s
        (ap (λ m. get m.log s) node_at_self ∙ ap (λ es. lookup s es) entries)
        (inv.committed a s (ground arith))

  -- The replica starts nothing, and nothing is proposed.
  pub all_leads-kept :
      Follows (c.nodes a) n
      → ((j : ℕ) (b : Ballot) (first : ℕ)
          → d.campaigns j ≡ some (b, first)
          → c.campaigns j ≡ some (b, first))
      → ((j : ℕ) (x : ℕ × List ℕ) → In x (d.todo j) → In x (c.todo j))
      → ((e : Entry) → In e d.proposals → In e c.proposals)
      → (j : ℕ) → Lead group d j
  all_leads-kept follows campaigns todo new j =
      leads-kept j (λ e. subst (λ i. Follows (c.nodes i) n) e follows) (campaigns j) (todo j)
        (λ e h. inl (new e h))
