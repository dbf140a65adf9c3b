-- ===== src/Paxos/Cluster/Kept.antt =====
-- internal/paxos/node.go: what holds of a group of replicas, and of one that leads or campaigns.
use paxos_2pc_payments.Base.{
  ℕ, ◌≤◌, ◌<◌, ◌≡◌, ◌≢◌, ◌⊎◌, inl, inr, ◌∙◌, ap, subst, some, List, true, In,
}
use paxos_2pc_payments.Paxos.Ballot.{Ballot, less, ◌≼◌, ≼_trans}
use paxos_2pc_payments.Paxos.Log.{Entry, get}
use paxos_2pc_payments.Paxos.Log.Entries.{IsValid}
use paxos_2pc_payments.Paxos.Node.{leader, is_committed}
use paxos_2pc_payments.Paxos.Spec.{Spec, Settled, IsSafe, Inv}
use paxos_2pc_payments.Paxos.Spec.Kept.{Later}
use paxos_2pc_payments.Paxos.Spec.Safe.{Settled-agrees}
use paxos_2pc_payments.Paxos.Cluster.{Cluster, Served, spec_of}
use paxos_2pc_payments.Paxos.Cluster.Roles.{Follows}

-- Nothing is proposed yet in a round.
abbrev pub Unused : Cluster → ℕ → Ballot → Type 0
Unused c s b = (e : Entry) → In e c.proposals → e.slot ≡ s → e.ballot ≡ b → ⊥

-- A replica that campaigns or leads: its ballot is its own, and what it has still to replicate, or
-- may hand out, is safe under it.
pub record Lead (group : List ℕ) (c : Cluster) (a : ℕ) : Type 0 where
  pub campaign :
      (b : Ballot) (first : ℕ)
      → c.campaigns a ≡ some (b, first)
      → (b.node ≡ a) × ((e : Entry) → In e c.proposals → e.ballot ≡ b → ⊥)
  pub own :
      (c.nodes a).role ≡ leader
      → ((c.nodes a).ballot.node ≡ a)
        × ((c.nodes a).ballot ≼ (c.nodes a).log.promised)
        × ((b : Ballot) (first : ℕ)
            → c.campaigns a ≡ some (b, first)
            → less (c.nodes a).ballot b ≡ true)
  pub planned :
      (c.nodes a).role ≡ leader
      → (s : ℕ) (v : List ℕ) → In (s, v) (c.todo a)
      → (s < (c.nodes a).next_slot)
        × IsSafe group (spec_of c) (c.nodes a).ballot s v
        × Unused c s (c.nodes a).ballot
  pub fresh :
      (c.nodes a).role ≡ leader
      → (s : ℕ) → (c.nodes a).next_slot ≤ s
      → ((v : List ℕ) → IsSafe group (spec_of c) (c.nodes a).ballot s v)
        × Unused c s (c.nodes a).ballot

-- The slot of the log holds a settled entry.
abbrev pub Holds : List ℕ → Cluster → ℕ → ℕ → Type 0
Holds group c a s = (x : Entry) × (get (c.nodes a).log s ≡ some x) × Settled group (spec_of c) x

-- What was served of the slots that were asked for is settled.
abbrev pub ServedSettled : List ℕ → Cluster → List Served → Type 0
ServedSettled group c xs =
    (x : Served)
    → In x xs
    → (e : Entry) → In e x.reply.entries
    → x.fetch.first ≤ e.slot
    → e.slot ≤ x.fetch.last
    → Settled group (spec_of c) e

pub record ClusterInv (group : List ℕ) (c : Cluster) : Type 0 where
  pub spec : Inv group (spec_of c)
  pub valid : (a : ℕ) → IsValid (c.nodes a).log
  pub wired : (a : ℕ) → ((c.nodes a).id ≡ a) × ((c.nodes a).peers ≡ group)
  pub proposer : (e : Entry) → In e c.proposals → e.ballot ≼ (c.nodes e.ballot.node).log.promised
  pub lead : (a : ℕ) → Lead group c a
  pub committed : (a s : ℕ) → is_committed (c.nodes a) s ≡ true → Holds group c a s
  pub served : ServedSettled group c c.served

module _ (group : List ℕ) (c d : Cluster) (later : Later group (spec_of c) (spec_of d)) where
  -- A replica that starts nothing keeps its part.
  pub Lead-kept :
      (j : ℕ)
      → Lead group c j
      → Follows (c.nodes j) (d.nodes j)
      → ((b : Ballot) (first : ℕ)
          → d.campaigns j ≡ some (b, first)
          → c.campaigns j ≡ some (b, first))
      → ((x : ℕ × List ℕ) → In x (d.todo j) → In x (c.todo j))
      → ((e : Entry) → In e d.proposals → In e c.proposals ⊎ (e.ballot.node ≢ j))
      → Lead group d j
  Lead-kept j l (_, _, follows) campaigns todo new = record {
    campaign = λ b first h.
        let (own, unused) = l.campaign b first (campaigns b first h) in
        (
          own,
          λ e there eb. elim (new e there) [
            | inl old ↦ unused e old eb
            | inr other ↦ other (ap (λ x. x.node) eb ∙ own)
          ],
        );
    own = λ lead.
        let (was, ballot, slot) = follows lead in
        let (own, below, above) = l.own was in
        (
          ap (λ x. x.node) ballot ∙ own,
          rw ballot (
              ≼_trans (c.nodes j).ballot (c.nodes j).log.promised (d.nodes j).log.promised below
                (later.raised j)),
          λ b first h. rw ballot (above b first (campaigns b first h)),
        );
    planned = λ lead s v h.
        let (was, ballot, slot) = follows lead in
        let (below, safe, unused) = l.planned was s v (todo (s, v) h) in
        (
          rw slot below,
          rw ballot (later.safe_kept (c.nodes j).ballot s v safe),
          Unused-kept lead s unused,
        );
    fresh = λ lead s h.
        let (was, ballot, slot) = follows lead in
        let (safe, unused) = l.fresh was s (subst (λ k. k ≤ s) slot h) in
        (
          λ v. rw ballot (later.safe_kept (c.nodes j).ballot s v (safe v)),
          Unused-kept lead s unused,
        );
  }
    where
      Unused-kept :
          (d.nodes j).role ≡ leader
          → (s : ℕ) → Unused c s (c.nodes j).ballot
          → Unused d s (d.nodes j).ballot
      Unused-kept lead s unused e there es eb =
          let (was, ballot, slot) = follows lead in
          elim (new e there) [
            | inl old ↦ unused e old es (eb ∙ ballot)
            | inr other ↦ other (ap (λ x. x.node) (eb ∙ ballot) ∙ (l.own was).0)
          ]

  pub proposer-kept :
      ClusterInv group c
      → ((e : Entry)
          → In e d.proposals
          → In e c.proposals ⊎ (e.ballot ≼ (c.nodes e.ballot.node).log.promised))
      → (e : Entry) → In e d.proposals
      → e.ballot ≼ (d.nodes e.ballot.node).log.promised
  proposer-kept v new e h =
      ≼_trans e.ballot (c.nodes e.ballot.node).log.promised (d.nodes e.ballot.node).log.promised
        (elim (new e h) [ inl old ↦ v.proposer e old | inr own ↦ own ]) (later.raised e.ballot.node)

  -- A slot whose entry stays.
  pub Holds-kept :
      (j s : ℕ)
      → get (d.nodes j).log s ≡ get (c.nodes j).log s
      → Holds group c j s
      → Holds group d j s
  Holds-kept j s same (x, held, settled) = (x, same ∙ held, later.settled_kept x settled)

-- A proposal that is at least as new as a settled entry of its slot is settled.
pub Settled-newer :
    (group : List ℕ) (σ : Spec) (x p : Entry)
    → Inv group σ
    → Settled group σ x
    → In p σ.proposals
    → x.slot ≡ p.slot
    → x.ballot ≼ p.ballot
    → Settled group σ p
Settled-newer group σ x p v (e, elected, slot, order, command, there) proposed same newer = (
  e,
  elected,
  slot ∙ same,
  ≼_trans e.ballot x.ballot p.ballot order newer,
  command
      ∙ Settled-agrees group σ v x p (e, elected, slot, order, command, there) proposed same newer,
  proposed,
)
