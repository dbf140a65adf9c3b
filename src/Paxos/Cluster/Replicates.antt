-- ===== src/Paxos/Cluster/Replicates.antt =====
-- internal/paxos/node.go: the invariant of the group, for the start of `replicate`.
use paxos_2pc_payments.Base.{
  ℕ, ◌≤◌, ◌≡◌, ◌≢◌, ◌⊎◌, inl, inr, refl, sym, ◌∙◌, ap, subst, some, List, ◌∷◌, true, arith, In,
  ◌==◌, if◌then◌else◌, lookup, lookup-insert,
}
use paxos_2pc_payments.Paxos.Ballot.{◌≼◌, ≼_trans, less, less_irrefl}
use paxos_2pc_payments.Paxos.Log.{Entry, get}
use paxos_2pc_payments.Paxos.Log.Entries.{IsValid, accept-IsValid}
use paxos_2pc_payments.Paxos.Node.{Node, Env, leader, is_committed}
use paxos_2pc_payments.Paxos.Node.Replication.{replicate_begin}
use paxos_2pc_payments.Paxos.Accepts.{accept-done, accept-failed}
use paxos_2pc_payments.Paxos.Spec.{Run, at}
use paxos_2pc_payments.Paxos.Spec.Kept.{Later, Run-Inv}
use paxos_2pc_payments.Paxos.Spec.Safe.{not_both}
use paxos_2pc_payments.Paxos.Cluster.{
  Cluster, spec_of, with_node, on_replicate, send_accept, drop_slot,
}
use paxos_2pc_payments.Paxos.Cluster.Roles.{Follows, replicate_begin-Follows}
use paxos_2pc_payments.Paxos.Cluster.Stores.{on_replicate-Run, replicate_begin-elim, own_entry}
use paxos_2pc_payments.Paxos.Cluster.Proposers.{drop_slot-In}
use paxos_2pc_payments.Paxos.Cluster.Kept.{ClusterInv, Lead, Holds, Unused, Settled-newer}
use paxos_2pc_payments.Paxos.Cluster.Moved.{
  moved, later, node_at_self, leads-kept, decide, at_self, at-other,
}

module _ (group : List ℕ) (env : Env) (c : Cluster) (inv : ClusterInv group c) (a slot : ℕ)
    (command : List ℕ) where
  own : Entry
  own = own_entry (c.nodes a) slot command

  after : Node → Cluster
  after n = record (with_node a n c) { todo = λ j. at a j (drop_slot slot (c.todo j)) (c.todo j) }

  -- The leader's own entry, where one was stored.
  abbrev Stored : Node → Cluster → Type 0
  Stored n d =
      ((c.nodes a).role ≡ leader)
      × (d.proposals ≡ own ∷ c.proposals)
      × ((s : ℕ) → get n.log s ≡ (if slot == s then some own else get (c.nodes a).log s))

  abbrev Same : Node → Cluster → Type 0
  Same n d = (d.proposals ≡ c.proposals) × ((s : ℕ) → get n.log s ≡ get (c.nodes a).log s)

  abbrev Outcome : Node → Cluster → Type 0
  Outcome n d =
      (d.nodes ≡ (λ j. at a j n (c.nodes j)))
      × (d.campaigns ≡ c.campaigns)
      × (d.todo ≡ (λ j. at a j (drop_slot slot (c.todo j)) (c.todo j)))
      × (d.served ≡ c.served)
      × IsValid n.log
      × (n.committed ≡ (c.nodes a).committed)
      × (Same n d ⊎ Stored n d)

  outcome :
      Outcome (replicate_begin env (c.nodes a) slot command).0 (on_replicate env a slot command c)
  unfolding on_replicate after own get
  outcome =
      replicate_begin-elim (λ out. Outcome out.0 (send_accept a out.1 (after out.0))) env
        (c.nodes a) slot command (refl, refl, refl, refl, inv.valid a, refl, inl (refl, λ s. refl))
        (λ lead e.
          let f = accept-failed (c.nodes a).log env.disk own e in
          (
            refl,
            refl,
            refl,
            refl,
            accept-IsValid (c.nodes a).log env.disk own (inv.valid a),
            refl,
            inl (refl, λ s. ap (λ es. lookup s es) f.0),
          ))
        (λ lead e.
          let f = accept-done (c.nodes a).log env.disk own e in
          (
            refl,
            refl,
            refl,
            refl,
            accept-IsValid (c.nodes a).log env.disk own (inv.valid a),
            refl,
            inr (
              lead,
              refl,
              λ s. ap (λ es. lookup s es) f.0 ∙ lookup-insert s slot own (c.nodes a).log.entries,
            ),
          ))

  module _ (planned : In (slot, command) (c.todo a))
      (up : (c.nodes a).log.promised ≼ (c.nodes a).ballot)
      (newer : (x : Entry)
        → is_committed (c.nodes a) slot ≡ true
        → get (c.nodes a).log slot ≡ some x
        → x.ballot ≼ (c.nodes a).ballot) where
    n : Node
    n = (replicate_begin env (c.nodes a) slot command).0

    d : Cluster
    d = on_replicate env a slot command c

    follows : Follows (c.nodes a) n
    unfolding n
    follows = replicate_begin-Follows env (c.nodes a) slot command

    facts : Outcome n d
    unfolding n d
    facts = outcome

    -- The leader's ballot is its promise.
    down : (c.nodes a).role ≡ leader → (c.nodes a).ballot ≼ (c.nodes a).log.promised
    down lead = ((inv.lead a).own lead).1

    run : Run group (spec_of c) (spec_of d)
    unfolding d
    run =
        on_replicate-Run group c a env slot command up down
          (λ lead. ((inv.lead a).planned lead slot command planned).1)
          (λ lead f there same.
            absurd (
              ((inv.lead a).planned lead slot command planned).2 f there (sym same.0) (sym same.1)))

    grown : Later group (spec_of c) (spec_of d)
    grown = later group c d a n inv facts.0 run

    self : d.nodes a ≡ n
    self = node_at_self group c d a n inv facts.0 run

    -- A proposal is an old one, or the leader's own.
    proposed :
        (e : Entry)
        → In e d.proposals
        → In e c.proposals ⊎ ((e ≡ own) × ((c.nodes a).role ≡ leader))
    proposed e h = elim (facts.6) [
      | inl (same, held) ↦ inl (subst (In e) same h)
      | inr (lead, new, held) ↦ elim (subst (In e) new h) [
        | inl now ↦ inr (now, lead)
        | inr old ↦ inl old
      ]
    ]

    left_to_do : (j : ℕ) (x : ℕ × List ℕ) → In x (d.todo j) → In x (c.todo j) × (a ≡ j → x.0 ≢ slot)
    left_to_do j x h =
        let h' = subst (In x) (ap (λ f. f j) facts.2) h in
        elim (decide a j) [
          | inl same ↦
              let (there, other) = drop_slot-In slot x (c.todo j) (
                subst (In x) (at_self j (drop_slot slot (c.todo j)) (c.todo j))
                  (subst (λ i. In x (at i j (drop_slot slot (c.todo j)) (c.todo j))) same h')) in
              (there, λ e. other)
          | inr other ↦ (
            subst (In x) (at-other a j (drop_slot slot (c.todo j)) (c.todo j) other) h',
            λ e. absurd (other e),
          )
        ]

    leader_own :
        (d.nodes a).role ≡ leader
        → ((c.nodes a).role ≡ leader)
          × ((d.nodes a).ballot ≡ (c.nodes a).ballot)
          × ((d.nodes a).next_slot ≡ (c.nodes a).next_slot)
    leader_own = (subst (λ m. Follows (c.nodes a) m) (sym self) follows).2

    Unused-kept :
        (c.nodes a).role ≡ leader
        → (s : ℕ) → s ≢ slot
        → Unused c s (c.nodes a).ballot
        → Unused d s (c.nodes a).ballot
    unfolding own
    Unused-kept lead s other unused e h es eb = elim (proposed e h) [
      | inl old ↦ unused e old es eb
      | inr (now, _) ↦ other (sym es ∙ ap (λ x. x.slot) now)
    ]

    own_lead : Lead group d a
    unfolding own
    own_lead = record {
      campaign = λ b first h.
          let h' = ap (λ f. f a) (sym facts.1) ∙ h in
          let (node, unused) = (inv.lead a).campaign b first h' in
          (
            node,
            λ e there eb. elim (proposed e there) [
              | inl old ↦ unused e old eb
              | inr (now, lead) ↦
                  not_both b b
                    (subst (λ x. less x b ≡ true) (ap (λ x. x.ballot) (sym now) ∙ eb)
                      (((inv.lead a).own lead).2 b first h'))
                    (less_irrefl b)
            ],
          );
      own = λ l.
          let (lead, ballot, next) = leader_own l in
          let (node, below, above) = (inv.lead a).own lead in
          (
            ap (λ x. x.node) ballot ∙ node,
            rw ballot (
                ≼_trans (c.nodes a).ballot (c.nodes a).log.promised (d.nodes a).log.promised below
                  (grown.raised a)),
            λ b first h. rw ballot (above b first (ap (λ f. f a) (sym facts.1) ∙ h)),
          );
      planned = λ l s v h.
          let (lead, ballot, next) = leader_own l in
          let (there, other) = left_to_do a (s, v) h in
          let (below, safe, unused) = (inv.lead a).planned lead s v there in
          (
            rw next below,
            rw ballot (grown.safe_kept (c.nodes a).ballot s v safe),
            rw ballot (Unused-kept lead s (other refl) unused),
          );
      fresh = λ l s h.
          let (lead, ballot, next) = leader_own l in
          let h' : (c.nodes a).next_slot ≤ s = subst (λ k. k ≤ s) next h in
          let (safe, unused) = (inv.lead a).fresh lead s h' in
          let below = ((inv.lead a).planned lead slot command planned).0 in
          (
            λ v. rw ballot (grown.safe_kept (c.nodes a).ballot s v (safe v)),
            rw ballot (Unused-kept lead s (λ e. omega (arith, e)) unused),
          );
    }

    leads : (j : ℕ) → Lead group d j
    unfolding own
    leads j = elim (decide a j) [
      | inl same ↦ subst (Lead group d) same own_lead
      | inr other ↦
          leads-kept group c d a n inv facts.0 run j (λ e. absurd (other e))
            (λ b first h. ap (λ f. f j) (sym facts.1) ∙ h) (λ x h. (left_to_do j x h).0)
            (λ e h. elim (proposed e h) [
              | inl old ↦ inl old
              | inr (now, lead) ↦ inr (λ node.
                  other (sym ((inv.lead a).own lead).0 ∙ ap (λ x. x.ballot.node) (sym now) ∙ node))
            ])
    ]

    committed : (s : ℕ) → is_committed n s ≡ true → Holds group d a s
    unfolding own
    committed s h =
        let old : is_committed (c.nodes a) s ≡ true = ground (arith, facts.5) in
        let (x, held, settled) = inv.committed a s old in
        let there = ap (λ m. get m.log s) self in
        elim facts.6 [
          | inl (same, kept) ↦ (x, there ∙ kept s ∙ held, grown.settled_kept x settled)
          | inr (lead, new, stored) ↦ elim (decide slot s) [
            | inr other ↦ (x, there ∙ stored s ∙ ground arith, grown.settled_kept x settled)
            | inl written ↦ (
              own,
              there ∙ stored s ∙ ground arith,
              Settled-newer group (spec_of d) x own (Run-Inv group (spec_of c) inv.spec run).0
                  (grown.settled_kept x settled) (subst (In own) (sym new) (inl refl))
                  ((inv.spec.held_proposed a s x held).0 ∙ sym written)
                  (newer x (subst (λ i. is_committed (c.nodes a) i ≡ true) (sym written) old)
                    (subst (λ i. get (c.nodes a).log i ≡ some x) (sym written) held)),
            )
          ]
        ]

    pub replicate-ClusterInv : ClusterInv group (on_replicate env a slot command c)
    unfolding d own
    replicate-ClusterInv =
        moved group c d a n inv facts.0 run (follows.0, follows.1) facts.4
          (λ e h. elim (proposed e h) [
            | inl old ↦ inl old
            | inr (now, lead) ↦
                let (node, below, above) = (inv.lead a).own lead in
                inr (
                  subst (λ x. x.ballot ≼ (c.nodes x.ballot.node).log.promised) (sym now)
                    (subst (λ i. (c.nodes a).ballot ≼ (c.nodes i).log.promised) (sym node) below))
          ])
          leads committed (λ x h. inv.served x (subst (In x) facts.3 h))
