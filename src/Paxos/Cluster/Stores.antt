-- ===== src/Paxos/Cluster/Stores.antt =====
-- internal/paxos/node.go: entries that a replica stores without being asked to: a leader its own
-- ones, and a replica that catches up those of the leader, as steps of Spec.antt.
use paxos_2pc_payments.Base.{
  ℕ, ◌≡◌, inl, refl, Option, none, some, List, ◌∷◌, Bool, true, false, arith, if◌then◌else◌, In,
  lookup-insert,
}
use paxos_2pc_payments.Paxos.Ballot.{◌≼◌, less_irrefl, ≼_antisym}
use paxos_2pc_payments.Paxos.Log.{Log, Entry, get, accept}
use paxos_2pc_payments.Paxos.Node.{Node, Role, leader, Env, Message, is_leader}
use paxos_2pc_payments.Paxos.Node.Replication.{replicate_begin, accept_request}
use paxos_2pc_payments.Paxos.Accepts.{accept-done, accept-failed}
use paxos_2pc_payments.Paxos.Spec.{
  Spec, SameRound, IsSafe, Step, propose, vote, Run, here, next, at,
}
use paxos_2pc_payments.Paxos.Cluster.{
  Cluster, spec_of, with_node, send_accept, on_replicate, drop_slot,
}
use paxos_2pc_payments.Paxos.Cluster.Views.{raise-Step}

-- The entry that a leader stores.
abbrev pub own_entry : Node → ℕ → List ℕ → Entry
own_entry n slot command = record { slot = slot; ballot = n.ballot; command = command }

abbrev pub with_log : Node → Log → Node
with_log n l = record n { log = l }

-- The ends of the first half of `replicate`.
pub replicate_begin-elim :
    (P : Node × Option Message → Type 0) (env : Env) (n : Node) (slot : ℕ) (command : List ℕ)
    → P (n, none)
    → (n.role ≡ leader
        → (accept n.log env.disk (own_entry n slot command)).1 ≡ false
        → P (with_log n (accept n.log env.disk (own_entry n slot command)).0, none))
    → (n.role ≡ leader
        → (accept n.log env.disk (own_entry n slot command)).1 ≡ true
        → P (
          with_log n (accept n.log env.disk (own_entry n slot command)).0,
          some (
              accept_request
                (with_log n (accept n.log env.disk (own_entry n slot command)).0)
                n.ballot
                slot
                command),
        ))
    → P (replicate_begin env n slot command)
unfolding replicate_begin
replicate_begin-elim P env n slot command idle failed stored = by_role n.role refl
  where
    out : Log × Bool
    out = accept n.log env.disk (own_entry n slot command)

    by_disk :
        n.role ≡ leader
        → (x : Bool) → out.1 ≡ x
        → P (
          with_log n out.0,
          if x then some (accept_request (with_log n out.0) n.ballot slot command) else none,
        )
    by_disk lead true e = stored lead e
    by_disk lead false e = failed lead e

    by_role :
        (r : Role)
        → n.role ≡ r
        → P (
            if is_leader r
            then (
              with_log n out.0,
              if out.1
                  then some (accept_request (with_log n out.0) n.ballot slot command)
                  else none,
            )
            else (n, none))
    by_role leader e = by_disk e out.1 refl
    by_role Role.follower e = idle
    by_role Role.candidate e = idle

module _ (group : List ℕ) (c : Cluster) (a : ℕ) where
  -- A leader's own entry: a proposal, and the leader's vote for it.
  pub on_replicate-Run :
      (env : Env) (slot : ℕ) (command : List ℕ)
      → (c.nodes a).log.promised ≼ (c.nodes a).ballot
      → ((c.nodes a).role ≡ leader → (c.nodes a).ballot ≼ (c.nodes a).log.promised)
      → ((c.nodes a).role ≡ leader → IsSafe group (spec_of c) (c.nodes a).ballot slot command)
      → ((c.nodes a).role ≡ leader
          → (f : Entry) → In f c.proposals
          → SameRound (own_entry (c.nodes a) slot command) f
          → command ≡ f.command)
      → Run group (spec_of c) (spec_of (on_replicate env a slot command c))
  unfolding on_replicate get
  on_replicate-Run env slot command up down safe one =
      replicate_begin-elim
        (λ out. Run group (spec_of c) (spec_of (send_accept a out.1 (after out.0)))) env n slot
        command (next here (raise-Step group c a n refl (less_irrefl n.log.promised)))
        (λ lead e.
          let f = accept-failed n.log env.disk (own_entry n slot command) e in
          next here
            (raise-Step group c a (with_log n stored.0) f.0 (rw f.1 (less_irrefl n.log.promised))))
        (λ lead e. next (next here (proposal lead)) (own_vote lead e))
    where
      n : Node
      n = c.nodes a

      stored : Log × Bool
      stored = accept n.log env.disk (own_entry n slot command)

      after : Node → Cluster
      after n' = record (with_node a n' c) {
        todo = λ j. at a j (drop_slot slot (c.todo j)) (c.todo j);
      }

      proposed : Spec
      proposed = record (spec_of c) { proposals = own_entry n slot command ∷ c.proposals }

      proposal : n.role ≡ leader → Step group (spec_of c) proposed
      proposal lead =
          propose (own_entry n slot command) (safe lead) (one lead) (λ j. refl) (λ j s. refl) refl
            refl refl

      own_vote :
          n.role ≡ leader
          → stored.1 ≡ true
          → Step group proposed (
              spec_of (
                send_accept a
                  (some (accept_request (with_log n stored.0) n.ballot slot command))
                  (after (with_log n stored.0))))
      own_vote lead e =
          let f = accept-done n.log env.disk (own_entry n slot command) e in
          vote a (own_entry n slot command) (inl refl) up
            (λ j. ground (arith, f.1, ≼_antisym n.log.promised n.ballot up (down lead)))
            (λ j s.
              ground (arith, f.0, lookup-insert s slot (own_entry n slot command) n.log.entries))
            refl refl refl
