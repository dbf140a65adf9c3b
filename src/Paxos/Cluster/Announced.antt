-- ===== src/Paxos/Cluster/Announced.antt =====
-- internal/paxos/node.go: a heartbeat announces, and a fetch asks for, only slots that the sender of
-- the heartbeat has applied, and a replica has applied only slots that it knows to be committed.
use paxos_2pc_payments.Base.{
  ℕ, ◌≤◌, ◌≡◌, ◌⊎◌, inl, inr, refl, sym, subst, Option, none, some, List, ◌∷◌, true, arith, In,
}
use paxos_2pc_payments.Paxos.Node.{Node, Env, Message, is_committed}
use paxos_2pc_payments.Paxos.Node.Handlers.{Fetch, handle_prepare, handle_accept, handle_commit}
use paxos_2pc_payments.Paxos.Node.Election.{campaign_prepare, campaign_end}
use paxos_2pc_payments.Paxos.Node.Replication.{
  propose_begin, replicate_begin, replicate_end, heartbeat_request, catch_up,
}
use paxos_2pc_payments.Paxos.Spec.{at}
use paxos_2pc_payments.Paxos.Cluster.{
  Cluster, Move, prepare, accept, campaign, election, propose, replicate, conclude, heartbeat,
  commit, serve, catching_up, quiet, on_prepare, on_accept, on_campaign, on_election, on_propose,
  on_replicate, on_conclude, on_heartbeat, on_commit, on_serve, on_catch_up, send_accept, add_fetch,
  drop_slot, with_node,
}
use paxos_2pc_payments.Paxos.Cluster.Moved.{at-elim}
use paxos_2pc_payments.Paxos.Cluster.Applied.{
  Grown, Same-Grown, handle_prepare-Same, handle_accept-Same, handle_commit-Same,
  campaign_prepare-Same, campaign_end-Same, replicate_begin-Same, propose_begin-Same,
  replicate_end-Grown, catch_up-Grown, Quiet-Grown,
}

-- A fetch asks for slots that its source has applied.
abbrev pub Answerable : Cluster → ℕ × Fetch → Type 0
Answerable c (a, f) = (1 ≤ f.first) × (f.last ≤ (c.nodes f.source).applied_index)

-- A heartbeat announces no slot that its sender has not applied.
abbrev pub Honest : Cluster → Message → Type 0
Honest c m = m.commit_index ≤ (c.nodes m.sender).applied_index

pub record Known (c : Cluster) : Type 0 where
  pub applied :
      (j s : ℕ) → 1 ≤ s → s ≤ (c.nodes j).applied_index → is_committed (c.nodes j) s ≡ true
  pub announced : (m : Message) → In m c.announced → Honest c m
  pub fetched : (x : ℕ × Fetch) → In x c.fetches → Answerable c x

-- What is left of it when the replicas go on.
Grown-Known :
    (c d : Cluster)
    → ((j : ℕ) → Grown (c.nodes j) (d.nodes j))
    → ((m : Message) → In m d.announced → In m c.announced ⊎ Honest c m)
    → ((x : ℕ × Fetch) → In x d.fetches → In x c.fetches ⊎ Answerable c x)
    → Known c
    → Known d
Grown-Known c d grown sent asked k = record {
  applied = λ j s low high. elim ((grown j).2 s high) [
    | inl old ↦ (grown j).1 s (k.applied j s low old)
    | inr new ↦ new
  ];
  announced = λ m h.
      let honest : Honest c m = elim (sent m h) [ inl old ↦ k.announced m old | inr new ↦ new ] in
      omega (arith, honest, (grown m.sender).0);
  fetched = λ (a, f) h.
      let answerable : Answerable c (a, f) = elim (asked (a, f) h) [
        | inl old ↦ k.fetched (a, f) old
        | inr new ↦ new
      ] in
      (answerable.0, omega (arith, answerable.1, (grown f.source).0));
}

Grown-refl : (n : Node) → Grown n n
Grown-refl n = Same-Grown n n (refl, refl)

-- A step of one replica.
at-Grown :
    (c : Cluster) (a : ℕ) (n : Node)
    → Grown (c.nodes a) n
    → (j : ℕ) → Grown (c.nodes j) (at a j n (c.nodes j))
at-Grown c a n h j =
    at-elim (λ i m. Grown (c.nodes i) m) a j n c.nodes h (λ other. Grown-refl (c.nodes j))

-- Such a step that announces and asks for nothing.
step-Known :
    (c d : Cluster) (a : ℕ) (n : Node)
    → d.nodes ≡ (λ j. at a j n (c.nodes j))
    → d.announced ≡ c.announced
    → d.fetches ≡ c.fetches
    → Grown (c.nodes a) n
    → Known c
    → Known d
step-Known c d a n nodes sent asked h k =
    Grown-Known c d (λ j. subst (λ f. Grown (c.nodes j) (f j)) (sym nodes) (at-Grown c a n h j))
      (λ m there. inl (subst (In m) sent there)) (λ x there. inl (subst (In x) asked there)) k

-- A fetch that a heartbeat starts asks its sender, for slots that it announces.
handle_commit-fetch :
    (env : Env) (n : Node) (msg : Message) (f : Fetch)
    → (handle_commit env n msg).2 ≡ some f
    → (f.source ≡ msg.sender) × (1 ≤ f.first) × (f.last ≡ msg.commit_index)
unfolding handle_commit
handle_commit-fetch env n msg f h = (ground arith, ground arith, ground arith)

handle_commit-Answerable :
    (c : Cluster) (env : Env) (a : ℕ) (msg : Message) (f : Fetch)
    → Honest c msg
    → (handle_commit env (c.nodes a) msg).2 ≡ some f
    → Answerable c (a, f)
handle_commit-Answerable c env a msg f honest h =
    let (source, start, end) = handle_commit-fetch env (c.nodes a) msg f h in
    (start, rw (source, end) honest)

add_fetch-cases :
    (a : ℕ) (o : Option Fetch) (fs : List (ℕ × Fetch)) (x : ℕ × Fetch)
    → In x (add_fetch a o fs)
    → In x fs ⊎ ((f : Fetch) × (o ≡ some f) × (x ≡ (a, f)))
add_fetch-cases a none fs x h = inl h
add_fetch-cases a (some f) fs x (inl same) = inr (f, refl, same)
add_fetch-cases a (some f) fs x (inr old) = inl old

commit-Known :
    (c : Cluster) (env : Env) (a : ℕ) (msg : Message)
    → In msg c.announced
    → Known c
    → Known (on_commit env a msg c)
unfolding on_commit
commit-Known c env a msg sent k =
    let out = handle_commit env (c.nodes a) msg in
    Grown-Known c (on_commit env a msg c)
      (at-Grown c a out.0 (Same-Grown (c.nodes a) out.0 (handle_commit-Same env (c.nodes a) msg)))
      (λ m h. inl h)
      (λ x h. elim (add_fetch-cases a out.2 c.fetches x h) [
        | inl old ↦ inl old
        | inr (f, new, same) ↦ inr (
            subst (Answerable c) (sym same)
              (handle_commit-Answerable c env a msg f (k.announced msg sent) new))
      ])
      k

heartbeat-Known : (c : Cluster) (a : ℕ) → (c.nodes a).id ≡ a → Known c → Known (on_heartbeat a c)
unfolding on_heartbeat heartbeat_request
heartbeat-Known c a own k =
    Grown-Known c (on_heartbeat a c) (λ j. Grown-refl (c.nodes j))
      (λ m h. elim h [
        | inr old ↦ inl old
        | inl same ↦ inr (subst (Honest c) (sym same) (rw own (omega arith)))
      ])
      (λ x h. inl h) k

propose-Known :
    (c : Cluster) (a waiter : ℕ) (command : List ℕ)
    → Known c
    → Known (on_propose a waiter command c)
unfolding on_propose
propose-Known c a waiter command k = by_slot (propose_begin (c.nodes a) waiter) refl
  where
    by_slot :
        (o : Option (Node × ℕ))
        → propose_begin (c.nodes a) waiter ≡ o
        → Known (elim o as (λ x. Cluster) [
          | none ↦ c
          | some (n, slot) ↦ record (with_node a n c) {
            todo = λ j. at a j ((slot, command) ∷ c.todo j) (c.todo j);
          }
        ])
    by_slot none e = k
    by_slot (some (n, slot)) e =
        step-Known c
          (record (with_node a n c) { todo = λ j. at a j ((slot, command) ∷ c.todo j) (c.todo j) })
          a n refl refl refl
          (Same-Grown (c.nodes a) n (propose_begin-Same (c.nodes a) n waiter slot e)) k

send_accept-Known : (a : ℕ) (o : Option Message) (c : Cluster) → Known c → Known (send_accept a o c)
send_accept-Known a none c k = k
send_accept-Known a (some m) c k = record {
  applied = k.applied;
  announced = k.announced;
  fetched = k.fetched;
}

replicate-Known :
    (c : Cluster) (env : Env) (a slot : ℕ) (command : List ℕ)
    → Known c
    → Known (on_replicate env a slot command c)
unfolding on_replicate
replicate-Known c env a slot command k =
    let out = replicate_begin env (c.nodes a) slot command in
    let d = record (with_node a out.0 c) {
      todo = λ j. at a j (drop_slot slot (c.todo j)) (c.todo j);
    } in
    send_accept-Known a out.1 d (
      step-Known c d a out.0 refl refl refl
        (Same-Grown (c.nodes a) out.0 (replicate_begin-Same env (c.nodes a) slot command)) k)

pub Move-Known :
    (group : List ℕ) (env : Env) (c d : Cluster)
    → ((a : ℕ) → (c.nodes a).id ≡ a)
    → Known c
    → Move group env c d
    → Known d
unfolding on_prepare on_accept on_campaign on_election on_conclude on_serve on_catch_up
Move-Known group env c d own k (prepare a msg member) =
    step-Known c (on_prepare env a msg c) a (handle_prepare env (c.nodes a) msg).0 refl refl refl
      (Same-Grown (c.nodes a) (handle_prepare env (c.nodes a) msg).0
        (handle_prepare-Same env (c.nodes a) msg))
      k
Move-Known group env c d own k (accept a msg member proposed newer) =
    step-Known c (on_accept env a msg c) a (handle_accept env (c.nodes a) msg).0 refl refl refl
      (Same-Grown (c.nodes a) (handle_accept env (c.nodes a) msg).0
        (handle_accept-Same env (c.nodes a) msg))
      k
Move-Known group env c d own k (campaign a rs member room) =
    step-Known c (on_campaign env a rs c) a (campaign_prepare env (c.nodes a) rs).0 refl refl refl
      (Same-Grown (c.nodes a) (campaign_prepare env (c.nodes a) rs).0
        (campaign_prepare-Same env (c.nodes a) rs))
      k
Move-Known group env c d own k (election a b first rs member running promised others answered) =
    step-Known c (on_election env a b first rs c) a (campaign_end env (c.nodes a) b first rs).0 refl
      refl refl
      (Same-Grown (c.nodes a) (campaign_end env (c.nodes a) b first rs).0
        (campaign_end-Same env (c.nodes a) b first rs))
      k
Move-Known group env c d own k (propose a waiter command member) =
    propose-Known c a waiter command k
Move-Known group env c d own k (replicate a slot command member planned up newer) =
    replicate-Known c env a slot command k
Move-Known group env c d own k (conclude a e rs member voted others answered) =
    step-Known c (on_conclude env a e.ballot e.slot rs c) a
      (replicate_end env (c.nodes a) e.ballot e.slot rs).0 refl refl refl
      (replicate_end-Grown env (c.nodes a) e.ballot e.slot rs) k
Move-Known group env c d own k (heartbeat a member) = heartbeat-Known c a (own a) k
Move-Known group env c d own k (commit a msg member sent) = commit-Known c env a msg sent k
Move-Known group env c d own k (serve a f asked) = record {
  applied = k.applied;
  announced = k.announced;
  fetched = k.fetched;
}
Move-Known group env c d own k (catching_up a f reply member asked served) =
    step-Known c (on_catch_up env a f reply c) a (catch_up env (c.nodes a) f.first f.last reply)
      refl refl refl (catch_up-Grown env (c.nodes a) f.first f.last reply) k
Move-Known group env c d own k (quiet a n member q) =
    step-Known c (with_node a n c) a n refl refl refl (Quiet-Grown env (c.nodes a) n q) k
