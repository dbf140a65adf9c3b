-- ===== src/Paxos/Cluster/Acceptors.antt =====
-- internal/paxos/node.go: the invariant of the group, for acceptors and the steps without entries.
use paxos_2pc_payments.Base.{
  ℕ, ◌+◌, ◌-◌, ◌≤◌, ◌≡◌, inl, inr, refl, sym, ◌∙◌, ap, subst, some, List, ◌∷◌, true, Bool-cases,
  arith, In, ◌==◌, ==→eq,
}
use paxos_2pc_payments.Paxos.Ballot.{◌≼◌}
use paxos_2pc_payments.Paxos.Log.{Entry, get, entries_from}
use paxos_2pc_payments.Paxos.Node.{Node, Env, Message, is_committed}
use paxos_2pc_payments.Paxos.Node.Handlers.{
  Fetch, handle_prepare, handle_accept, handle_commit, handle_catch_up, entry_of,
}
use paxos_2pc_payments.Paxos.Node.Replication.{heartbeat_request}
use paxos_2pc_payments.Paxos.Accepts.{handle_accept_lem}
use paxos_2pc_payments.Paxos.Promises.Handled.{accept-≼}
use paxos_2pc_payments.Paxos.Spec.{Settled, Inv, Run, here, next}
use paxos_2pc_payments.Paxos.Spec.Kept.{Later, Run-Inv}
use paxos_2pc_payments.Paxos.Cluster.{
  Cluster, Served, spec_of, with_node, on_prepare, on_accept, on_heartbeat, on_commit, on_serve,
  catch_up_request, Quiet,
}
use paxos_2pc_payments.Paxos.Cluster.Roles.{
  Quiet-Follows, Quiet-Keeps, handle_prepare-Follows, handle_accept-Follows, handle_commit-Follows,
  handle_commit-Keeps,
}
use paxos_2pc_payments.Paxos.Cluster.Logs.{
  IsValid-same, handle_prepare-Keeps, handle_prepare-entries, handle_accept-committed,
  handle_accept-IsValid,
}
use paxos_2pc_payments.Paxos.Cluster.Views.{scan-In, raise-Step, on_prepare-Run, on_accept-Run}
use paxos_2pc_payments.Paxos.Cluster.Kept.{ClusterInv, ServedSettled, Settled-newer}
use paxos_2pc_payments.Paxos.Cluster.Announced.{Known}
use paxos_2pc_payments.Paxos.Cluster.Moved.{
  moved, later, node_at_self, committed-kept, all_leads-kept,
}

module _ (group : List ℕ) (env : Env) (c : Cluster) (inv : ClusterInv group c) (a : ℕ) where
  pub Quiet-ClusterInv : (n : Node) → Quiet env (c.nodes a) n → ClusterInv group (with_node a n c)
  Quiet-ClusterInv n q =
      let f = Quiet-Follows env (c.nodes a) n q in
      let (entries, highest, committed, up) = Quiet-Keeps env (c.nodes a) n q in
      let run : Run group (spec_of c) (spec_of (with_node a n c)) =
        next here (raise-Step group c a n entries up) in
      moved group c (with_node a n c) a n inv refl run (f.0, f.1)
        (IsValid-same (c.nodes a).log n.log (inv.valid a) entries highest) (λ e h. inl h)
        (all_leads-kept group c (with_node a n c) a n inv refl run f (λ j b first h. h) (λ j x h. h)
          (λ e h. h))
        (committed-kept group c (with_node a n c) a n inv refl run entries committed) inv.served

  pub prepare-ClusterInv : (msg : Message) → ClusterInv group (on_prepare env a msg c)
  unfolding on_prepare
  prepare-ClusterInv msg =
      let n = (handle_prepare env (c.nodes a) msg).0 in
      let d = on_prepare env a msg c in
      let f = handle_prepare-Follows env (c.nodes a) msg in
      let (entries, highest, committed, up) = handle_prepare-Keeps env (c.nodes a) msg in
      let valid = IsValid-same (c.nodes a).log n.log (inv.valid a) entries highest in
      let run =
        on_prepare-Run group c a env msg inv.spec valid
          (handle_prepare-entries env (c.nodes a) msg) in
      moved group c d a n inv refl run (f.0, f.1) valid (λ e h. inl h)
        (all_leads-kept group c d a n inv refl run f (λ j b first h. h) (λ j x h. h) (λ e h. h))
        (committed-kept group c d a n inv refl run entries committed) inv.served

  -- A slot that is known to be committed keeps its command when a newer entry is accepted.
  accept_committed :
      (msg : Message)
      → In (entry_of msg) c.proposals
      → ((x : Entry)
          → is_committed (c.nodes a) msg.slot ≡ true
          → get (c.nodes a).log msg.slot ≡ some x
          → x.ballot ≼ msg.ballot)
      → Later group (spec_of c) (spec_of (on_accept env a msg c))
      → Inv group (spec_of (on_accept env a msg c))
      → (s : ℕ) → is_committed (c.nodes a) s ≡ true
      → (x : Entry) × (get (handle_accept env (c.nodes a) msg).0.log s ≡ some x)
        × Settled group (spec_of (on_accept env a msg c)) x
  accept_committed msg proposed newer kept spec s h =
      let (x, held, settled) = inv.committed a s h in
      elim (handle_accept_lem env (c.nodes a) msg s) [
        | inr (refused, same) ↦ (x, same ∙ held, kept.settled_kept x settled)
        | inl (ok, above, now, same) ↦ elim (Bool-cases (msg.slot == s)) [
          | inr other ↦ (x, same ∙ ground arith, kept.settled_kept x settled)
          | inl written ↦ (
            entry_of msg,
            same ∙ ground arith,
            Settled-newer group (spec_of (on_accept env a msg c)) x (entry_of msg) spec
                (kept.settled_kept x settled) (kept.proposals_kept (entry_of msg) proposed)
                ((inv.spec.held_proposed a s x held).0 ∙ sym (==→eq msg.slot s written))
                (newer x
                  (subst (λ i. is_committed (c.nodes a) i ≡ true) (sym (==→eq msg.slot s written))
                    h)
                  (subst (λ i. get (c.nodes a).log i ≡ some x) (sym (==→eq msg.slot s written))
                    held)),
          )
        ]
      ]

  pub accept-ClusterInv :
      (msg : Message)
      → In (entry_of msg) c.proposals
      → ((x : Entry)
          → is_committed (c.nodes a) msg.slot ≡ true
          → get (c.nodes a).log msg.slot ≡ some x
          → x.ballot ≼ msg.ballot)
      → ClusterInv group (on_accept env a msg c)
  unfolding on_accept
  accept-ClusterInv msg proposed newer =
      let n = (handle_accept env (c.nodes a) msg).0 in
      let d = on_accept env a msg c in
      let f = handle_accept-Follows env (c.nodes a) msg in
      let run = on_accept-Run group c a env msg proposed (accept-≼ env (c.nodes a) msg) in
      moved group c d a n inv refl run (f.0, f.1)
        (handle_accept-IsValid env (c.nodes a) msg (inv.valid a)) (λ e h. inl h)
        (all_leads-kept group c d a n inv refl run f (λ j b first h. h) (λ j x h. h) (λ e h. h))
        (λ s h.
          let (x, held, settled) =
            accept_committed msg proposed newer (later group c d a n inv refl run)
              (Run-Inv group (spec_of c) inv.spec run).0 s
              (ground (arith, handle_accept-committed env (c.nodes a) msg)) in
          (x, ap (λ m. get m.log s) (node_at_self group c d a n inv refl run) ∙ held, settled))
        inv.served

  pub commit-ClusterInv : (msg : Message) → ClusterInv group (on_commit env a msg c)
  unfolding on_commit
  commit-ClusterInv msg =
      let n = (handle_commit env (c.nodes a) msg).0 in
      let d = on_commit env a msg c in
      let f = handle_commit-Follows env (c.nodes a) msg in
      let (entries, highest, committed, up) = handle_commit-Keeps env (c.nodes a) msg in
      let run : Run group (spec_of c) (spec_of d) = next here (raise-Step group c a n entries up) in
      moved group c d a n inv refl run (f.0, f.1)
        (IsValid-same (c.nodes a).log n.log (inv.valid a) entries highest) (λ e h. inl h)
        (all_leads-kept group c d a n inv refl run f (λ j b first h. h) (λ j x h. h) (λ e h. h))
        (committed-kept group c d a n inv refl run entries committed) inv.served

module _ (group : List ℕ) (c : Cluster) (inv : ClusterInv group c) where
  -- The invariant does not speak of the messages that only announce or ask.
  relisted :
      (ms : List Message) (fs : List (ℕ × Fetch)) (xs : List Served)
      → ServedSettled group c xs
      → ClusterInv group (record c { announced = ms; fetches = fs; served = xs })
  relisted ms fs xs served = record {
    spec = inv.spec;
    valid = inv.valid;
    wired = inv.wired;
    proposer = inv.proposer;
    lead = λ j. record {
      campaign = (inv.lead j).campaign;
      own = (inv.lead j).own;
      planned = (inv.lead j).planned;
      fresh = (inv.lead j).fresh;
    };
    committed = inv.committed;
    served = served;
  }

  pub heartbeat-ClusterInv : (a : ℕ) → ClusterInv group (on_heartbeat a c)
  unfolding on_heartbeat
  heartbeat-ClusterInv a =
      relisted (heartbeat_request (c.nodes a) ∷ c.announced) c.fetches c.served inv.served

  -- What a replica serves of slots that it has applied is settled.
  serves-Settled :
      (known : Known c) (a : ℕ) (f : Fetch)
      → In (a, f) c.fetches
      → (e : Entry) → In e (handle_catch_up (c.nodes f.source) (catch_up_request a f.first)).entries
      → f.first ≤ e.slot
      → e.slot ≤ f.last
      → Settled group (spec_of c) e
  unfolding handle_catch_up entries_from get
  serves-Settled known a f asked e there low high =
      let l = (c.nodes f.source).log in
      let (s, held, above) = scan-In l.entries (l.max_slot + 1 - f.first) f.first e there in
      let own : e.slot ≡ s = (inv.valid f.source).own_slot s e held in
      let (start, end) = known.fetched (a, f) asked in
      let (x, held', settled) =
        inv.committed f.source s
          (known.applied f.source s (omega (arith, own)) (omega (arith, own))) in
      subst (Settled group (spec_of c)) (cc (sym held' ∙ held)) settled

  pub serve-ClusterInv :
      (known : Known c) (a : ℕ) (f : Fetch)
      → In (a, f) c.fetches
      → ClusterInv group (on_serve a f c)
  unfolding on_serve
  serve-ClusterInv known a f asked =
      relisted c.announced c.fetches
        (record {
          requester = a;
          fetch = f;
          reply = handle_catch_up (c.nodes f.source) (catch_up_request a f.first);
        }
          ∷ c.served)
        (λ x h. elim h [
          | inr old ↦ inv.served x old
          | inl same ↦
              subst
                (λ y.
                  (e : Entry)
                  → In e y.reply.entries
                  → y.fetch.first ≤ e.slot
                  → e.slot ≤ y.fetch.last
                  → Settled group (spec_of c) e)
                (sym same) (serves-Settled known a f asked)
        ])
