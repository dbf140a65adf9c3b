-- ===== src/Paxos/Cluster/Views.antt =====
-- internal/paxos/node.go and log.go: a step of a replica, as steps of Spec.antt.
use paxos_2pc_payments.Base.{
  ℕ, zero, suc, ◌+◌, ◌-◌, ◌≤◌, ◌≡◌, inl, inr, refl, sym, ◌∙◌, ap, subst, Option, none, some, List,
  [], ◌∷◌, true, false, Bool-cases, arith, if◌then◌else◌, ◌==◌, In, Dict, lookup,
}
use paxos_2pc_payments.Paxos.Ballot.{◌≼◌, less_irrefl}
use paxos_2pc_payments.Paxos.Log.{Log, Entry, get, entries_from, scan, cons_some}
use paxos_2pc_payments.Paxos.Log.Entries.{IsValid, find_slot, entries_from_lem}
use paxos_2pc_payments.Paxos.Node.{Node, Env, Message}
use paxos_2pc_payments.Paxos.Node.Handlers.{handle_prepare, handle_accept, entry_of}
use paxos_2pc_payments.Paxos.Accepts.{handle_prepare_lem, handle_accept_lem}
use paxos_2pc_payments.Paxos.Spec.{Inv, Step, promise, vote, report, Run, here, next, at}
use paxos_2pc_payments.Paxos.Cluster.{Cluster, spec_of, with_node, report_of, on_prepare, on_accept}

find_slot-In : (s : ℕ) (e : Entry) (es : List Entry) → find_slot s es ≡ some e → In e es
find_slot-In s e [] h = absurd (ground arith)
find_slot-In s e (x ∷ es) h = elim (Bool-cases (x.slot == s)) [
  | inl same ↦ inl (ground arith)
  | inr other ↦ inr (find_slot-In s e es (ground arith))
]

-- What is reported is held.
pub scan-In :
    (d : Dict Entry) (n first : ℕ) (e : Entry)
    → In e (scan d n first)
    → (s : ℕ) × (lookup s d ≡ some e) × (first ≤ s)
unfolding scan
scan-In d zero first e h = elim h [ ]
scan-In d (suc n) first e h = found (λ k. scan-In d n (first + 1) e k) (lookup first d) refl h
  where
    found :
        (In e (scan d n (first + 1)) → (s : ℕ) × (lookup s d ≡ some e) × (first + 1 ≤ s))
        → (o : Option Entry) → lookup first d ≡ o
        → In e (cons_some o (scan d n (first + 1)))
        → (s : ℕ) × (lookup s d ≡ some e) × (first ≤ s)
    found rest none eq h = let (s, there, le) = rest h in (s, there, omega arith)
    found rest (some x) eq (inl same) = (first, eq ∙ ap some (sym same), omega arith)
    found rest (some x) eq (inr later) = let (s, there, le) = rest later in (s, there, omega arith)

-- What is held from a slot on is reported.
pub entries_from-In :
    (l : Log) (first s : ℕ) (e : Entry)
    → IsValid l
    → first ≤ s
    → get l s ≡ some e
    → In e (entries_from l first)
entries_from-In l first s e v h held =
    find_slot-In s e (entries_from l first) (ground (arith, (entries_from_lem l first s v).0))

module _ (group : List ℕ) (c : Cluster) (a : ℕ) where
  -- A replica whose entries stay and whose promise does not fall.
  pub raise-Step :
      (n : Node)
      → n.log.entries ≡ (c.nodes a).log.entries
      → (c.nodes a).log.promised ≼ n.log.promised
      → Step group (spec_of c) (spec_of (with_node a n c))
  unfolding get
  raise-Step n entries up =
      promise a n.log.promised up (λ j. ground arith) (λ j s. ground arith) refl refl refl

  -- A prepare: a promise, and a report where it is answered with OK.
  pub on_prepare-Run :
      (env : Env) (msg : Message)
      → Inv group (spec_of c)
      → IsValid (handle_prepare env (c.nodes a) msg).0.log
      → (handle_prepare env (c.nodes a) msg).1.entries ≡ (
          if (handle_prepare env (c.nodes a) msg).1.ok
          then entries_from (handle_prepare env (c.nodes a) msg).0.log msg.slot
          else [])
      → Run group (spec_of c) (spec_of (on_prepare env a msg c))
  unfolding on_prepare entries_from get
  on_prepare-Run env msg v valid answer = elim (handle_prepare_lem env (c.nodes a) msg).1 [
    | inr (refused, why, same) ↦
        rw refused
          (next here (raise-Step n' entries (rw same (less_irrefl (c.nodes a).log.promised))))
    | inl (ok, up, now) ↦ rw ok (
        next (next here (raise-Step n' entries (rw now up))) (
          report (report_of a msg reply) (at_self ok now) (complete ok) (reported ok) (λ j. refl)
            (λ j s. refl) refl refl refl))
  ]
    where
      n' : Node
      n' = (handle_prepare env (c.nodes a) msg).0

      reply : Message
      reply = (handle_prepare env (c.nodes a) msg).1

      entries : n'.log.entries ≡ (c.nodes a).log.entries
      entries = (handle_prepare_lem env (c.nodes a) msg).0

      from : reply.ok ≡ true → reply.entries ≡ entries_from n'.log msg.slot
      from ok = answer ∙ rw ok refl

      at_self :
          reply.ok ≡ true
          → n'.log.promised ≡ msg.ballot
          → msg.ballot ≼ (at a a n' (c.nodes a)).log.promised
      at_self ok now = ground (arith, less_irrefl msg.ballot)

      complete :
          reply.ok ≡ true
          → (s : ℕ) (e : Entry) → msg.slot ≤ s
          → get (at a a n' (c.nodes a)).log s ≡ some e
          → In e reply.entries
      complete ok s e h held =
          subst (λ es. In e es) (sym (from ok))
            (entries_from-In n'.log msg.slot s e valid h (ground arith))

      scanned :
          (e : Entry)
          → In e (entries_from n'.log msg.slot)
          → In e (scan n'.log.entries (n'.log.max_slot + 1 - msg.slot) msg.slot)
      scanned e h = h

      held : (s : ℕ) (e : Entry) → lookup s n'.log.entries ≡ some e → get (c.nodes a).log s ≡ some e
      held s e there = subst (λ d. lookup s d ≡ some e) entries there

      reported : reply.ok ≡ true → (e : Entry) → In e reply.entries → In e c.proposals
      reported ok e h =
          let (s, there, le) =
            scan-In n'.log.entries (n'.log.max_slot + 1 - msg.slot) msg.slot e
              (scanned e (subst (λ es. In e es) (from ok) h)) in
          (v.held_proposed a s e (held s e there)).1

  -- An accept: a vote where it is answered with OK.
  pub on_accept-Run :
      (env : Env) (msg : Message)
      → In (entry_of msg) c.proposals
      → (c.nodes a).log.promised ≼ (handle_accept env (c.nodes a) msg).0.log.promised
      → Run group (spec_of c) (spec_of (on_accept env a msg c))
  unfolding on_accept get
  on_accept-Run env msg proposed up = elim (Bool-cases reply.ok) [
    | inr refused ↦ rw refused (
        next here (
          promise a n'.log.promised up (λ j. ground arith) (λ j s. kept refused j s) refl refl
            refl))
    | inl ok ↦ rw ok (
        next here (
          vote a (entry_of msg) proposed (below ok) (λ j. now ok j) (λ j s. put ok j s) refl refl
            refl))
  ]
    where
      n' : Node
      n' = (handle_accept env (c.nodes a) msg).0

      reply : Message
      reply = (handle_accept env (c.nodes a) msg).1

      kept :
          reply.ok ≡ false → (j s : ℕ) → get (at a j n' (c.nodes j)).log s ≡ get (c.nodes j).log s
      kept refused j s = ground (arith, handle_accept_lem env (c.nodes a) msg s)

      below : reply.ok ≡ true → (c.nodes a).log.promised ≼ msg.ballot
      below ok = ground (arith, handle_accept_lem env (c.nodes a) msg 0)

      now :
          reply.ok ≡ true
          → (j : ℕ)
          → (at a j n' (c.nodes j)).log.promised ≡ at a j msg.ballot (c.nodes j).log.promised
      now ok j = ground (arith, handle_accept_lem env (c.nodes a) msg 0)

      put :
          reply.ok ≡ true
          → (j s : ℕ)
          → get (at a j n' (c.nodes j)).log s
            ≡ at a j
                (at msg.slot s (some (entry_of msg)) (get (c.nodes j).log s))
                (get (c.nodes j).log s)
      put ok j s = ground (arith, handle_accept_lem env (c.nodes a) msg s)
