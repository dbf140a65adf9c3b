-- ===== src/Paxos/Cluster/Elections.antt =====
-- internal/paxos/node.go: what the winner of a campaign proposes.
use paxos_2pc_payments.Base.{
  ℕ, zero, suc, ◌+◌, ◌-◌, ◌≤◌, ◌<◌, ◌≡◌, inl, inr, refl, sym, ◌∙◌, ap, subst, Option, none, some,
  List, [], ◌∷◌, arith, In, In-append, In-append_left, In-append_right, length, Dict, lookup,
}
use paxos_2pc_payments.Paxos.Ballot.{Ballot, less_irrefl, majority}
use paxos_2pc_payments.Paxos.Log.{Entry, get, entries_from}
use paxos_2pc_payments.Paxos.Log.Entries.{IsValid}
use paxos_2pc_payments.Paxos.Node.{Env, Message, reset_election}
use paxos_2pc_payments.Paxos.Node.Election.{pick, recovery, recovered, become_leader}
use paxos_2pc_payments.Paxos.Choice.{pick-Beats, pick-from, pick-mx, lookup_empty, Beats}
use paxos_2pc_payments.Paxos.Elected.{oks, reported, known}
use paxos_2pc_payments.Paxos.Spec.{IsSafe, IsQuorum, Inv}
use paxos_2pc_payments.Paxos.Spec.Safe.{Reached, fresh-IsSafe, adopted-IsSafe}
use paxos_2pc_payments.Paxos.Cluster.{Cluster, spec_of, FromOthers, Promised}
use paxos_2pc_payments.Paxos.Cluster.Views.{entries_from-In, scan-In}
use paxos_2pc_payments.Paxos.Cluster.Answers.{
  ok_senders, ok_senders-In, reported-In, In-reported, voters-IsQuorum,
}

-- A planned slot is in the range, and its command is what is recovered for it.
recovery-In :
    (best : Dict Entry) (k slot s : ℕ) (v : List ℕ)
    → In (s, v) (recovery best k slot)
    → (slot ≤ s) × (s < slot + k) × (v ≡ recovered (lookup s best))
unfolding recovery
recovery-In best zero slot s v h = elim h [ ]
recovery-In best (suc k) slot s v (inl e) =
    let same : s ≡ slot = ap (λ p. p.0) e in
    (
      omega (arith, same),
      omega (arith, same),
      ap (λ p. p.1) e ∙ ap (λ i. recovered (lookup i best)) (sym same),
    )
recovery-In best (suc k) slot s v (inr h) =
    let (low, high, command) = recovery-In best k (slot + 1) s v h in
    (omega arith, omega arith, command)

module _ (group : List ℕ) (c : Cluster) (a : ℕ) (b : Ballot) (first : ℕ) (rs : List Message)
    (inv : Inv group (spec_of c)) (valid : IsValid (c.nodes a).log) (member : In a group)
    (promised : (c.nodes a).log.promised ≡ b) (others : FromOthers group a rs)
    (answered : (r : Message) → In r rs → Promised c b first r)
    (enough : majority (length group) ≤ oks rs + 1) where
  abbrev all : List Entry
  all = known (c.nodes a) first rs

  -- What is known was proposed.
  known-proposed : (e : Entry) → In e all → In e c.proposals
  unfolding entries_from get
  known-proposed e h = elim (In-append e (entries_from (c.nodes a).log first) (reported rs) h) [
    | inl own ↦
        let (s, there, le) =
          scan-In (c.nodes a).log.entries ((c.nodes a).log.max_slot + 1 - first) first e own in
        (inv.held_proposed a s e there).1
    | inr told ↦
        let (r, there, ok, entry) = In-reported rs e told in
        inv.report_proposed _ (answered r there ok) e entry
  ]

  -- The voters have reached the ballot, and what they voted for in a slot is covered.
  reached :
      (s : ℕ) → first ≤ s → (j : ℕ) → In j (a ∷ ok_senders rs) → Reached group (spec_of c) b s all j
  reached s h j (inl self) = rw self (
    rw promised (less_irrefl b),
    λ e voted es under.
        let (x, held, covers) = inv.vote_held a e voted in
        (
          x,
          In-append_left x (entries_from (c.nodes a).log first) (reported rs)
              (entries_from-In (c.nodes a).log first e.slot x valid (rw es h) held),
          (inv.held_proposed a e.slot x held).0 ∙ es,
          covers,
        ),
  )
  reached s h j (inr other) =
      let (r, there, ok, eq) = ok_senders-In j rs other in
      let report = answered r there ok in
      rw eq (
        inv.report_promised _ report,
        λ e voted es under.
            let (x, among, slot, covers) = inv.report_covers _ report e voted under (rw es h) in
            (
              x,
              In-append_right x (entries_from (c.nodes a).log first) (reported rs)
                  (reported-In r rs x there ok among),
              slot ∙ es,
              covers,
            ),
      )

  IsQuorum-of_voters : IsQuorum group (a ∷ ok_senders rs)
  IsQuorum-of_voters = voters-IsQuorum group a rs member others enough

  best : Dict Entry × ℕ
  best = pick first ([], 0) all

  -- The command that is recovered for a slot is safe.
  recovered-IsSafe :
      (s : ℕ) → first ≤ s → IsSafe group (spec_of c) b s (recovered (lookup s best.0))
  unfolding best
  recovered-IsSafe s h = by_best (lookup s best.0) refl
    where
      by_best :
          (o : Option Entry) → lookup s best.0 ≡ o → IsSafe group (spec_of c) b s (recovered o)
      by_best none e =
          fresh-IsSafe group (spec_of c) inv b s (a ∷ ok_senders rs) IsQuorum-of_voters all
            (reached s h)
            (λ x there slot.
              subst (λ o. Beats o x) e
                (subst (λ i. Beats (lookup i best.0) x) slot
                  (pick-Beats first [] 0 all x there (rw slot h))))
            []
      by_best (some x) e = elim (pick-from first [] 0 all s x e) [
        | inl never ↦ absurd (lookup_empty s x never)
        | inr (among, slot) ↦
            adopted-IsSafe group (spec_of c) inv b s (a ∷ ok_senders rs) IsQuorum-of_voters all
              (reached s h) x (known-proposed x among) slot
              (λ y there ys.
                subst (λ o. Beats o y) e
                  (subst (λ i. Beats (lookup i best.0) y) ys
                    (pick-Beats first [] 0 all y there (rw ys h))))
      ]

  -- Behind the recovered slots every command is safe.
  beyond-IsSafe : (s : ℕ) → first ≤ s → best.1 < s → (v : List ℕ) → IsSafe group (spec_of c) b s v
  unfolding best
  beyond-IsSafe s h above v =
      fresh-IsSafe group (spec_of c) inv b s (a ∷ ok_senders rs) IsQuorum-of_voters all
        (reached s h)
        (λ x there slot. absurd (omega (arith, slot, pick-mx first [] 0 all x there (rw slot h)))) v

  -- What the winner plans, and what it may hand out, is safe under its ballot.
  pub winner-IsSafe :
      (env : Env)
      → (let (n, plan) = become_leader env (c.nodes a) b all first in
          ((s : ℕ) (v : List ℕ)
            → In (s, v) plan
            → (s < n.next_slot) × IsSafe group (spec_of c) b s v)
          × ((s : ℕ) → n.next_slot ≤ s → (v : List ℕ) → IsSafe group (spec_of c) b s v))
  unfolding become_leader reset_election best
  winner-IsSafe env = (
    λ s v h.
        let (low, high, command) = recovery-In best.0 (best.1 + 1 - first) first s v h in
        (ground arith, rw command (recovered-IsSafe s low)),
    λ s h v. beyond-IsSafe s (ground arith) (ground arith) v,
  )
