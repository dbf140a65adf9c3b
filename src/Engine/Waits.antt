-- ===== src/Engine/Waits.antt =====
-- internal/cluster/engine.go: what the waits of the engine end with, and the leader that a command
-- goes to.
use paxos_2pc_payments.Base.{
  ℕ, ◌≡◌, ◌⊎◌, refl, sym, ap, subst, ◌∙◌, inl, inr, Bool, Bool-cases, by_if, by_option, true, false,
  Option, none, some, List, [], ◌∷◌, In, arith, if◌then◌else◌,
}
use paxos_2pc_payments.Ledger.{Command, Result}
use paxos_2pc_payments.Engine.{Engine, View, NodeInfo, majority_group, leader_of}
use paxos_2pc_payments.Engine.Commands.{
  World, Failure, leader_missing, quorum_unreachable, Proposal, done, quorum_lost, not_leader,
  broken, all_settled, poll, await_settled, nudge, wait_for_leader, find_leader, leader_for,
  pass_time, Event, campaigns, conclude, propose_to, propose, report, proposes,
}

poll-done :
    (e : Engine) (ss : List ℕ) (v : View) (vs : List View)
    → (poll e ss v vs).0 ≡ true
    → In (poll e ss v vs).1 (v ∷ vs) × (all_settled e (poll e ss v vs).1 ss ≡ true)
unfolding poll
poll-done e ss v [] h = (inl refl, h)
poll-done e ss v (v' ∷ vs) h =
    by_if
      (λ (o : Bool × View × List View).
        o.0 ≡ true → In (o.1) (v ∷ v' ∷ vs) × (all_settled e (o.1) ss ≡ true))
      (all_settled e v ss) (true, v, v' ∷ vs) (poll e ss v' vs) (λ calm k. (inl refl, calm))
      (λ busy k. let (there, calm) = poll-done e ss v' vs k in (inr there, calm)) h

poll-finds :
    (e : Engine) (ss : List ℕ) (v : View) (vs : List View) (x : View)
    → In x (v ∷ vs)
    → all_settled e x ss ≡ true
    → (poll e ss v vs).0 ≡ true
unfolding poll
poll-finds e ss v [] x (inl same) h = subst (λ z. all_settled e z ss ≡ true) same h
poll-finds e ss v [] x (inr there) h = absurd there
poll-finds e ss v (v' ∷ vs) x there h =
    by_if (λ (o : Bool × View × List View). o.0 ≡ true) (all_settled e v ss) (true, v, v' ∷ vs)
      (poll e ss v' vs) (λ calm. refl)
      (λ busy. elim there [
        | inl same ↦ absurd (ground (arith, busy, subst (λ z. all_settled e z ss ≡ true) same h))
        | inr k ↦ poll-finds e ss v' vs x k h
      ])

-- `awaitSettled` reports success exactly where, at one of the polls before its deadline, every
-- listed shard was settled, and it does so at the first such poll; the engine is as before.
pub await_settled_lem :
    (w : World) (ss : List ℕ)
    → ((await_settled w ss).0.engine ≡ w.engine)
      × ((await_settled w ss).1 ≡ true → all_settled w.engine (await_settled w ss).0.view ss ≡ true)
      × ((v : View)
          → In v (w.view ∷ w.later)
          → all_settled w.engine v ss ≡ true
          → (await_settled w ss).1 ≡ true)
unfolding await_settled
await_settled_lem w ss =
    (refl, (λ h. (poll-done w.engine ss w.view w.later h).1), poll-finds w.engine ss w.view w.later)

wait-none :
    (e : Engine) (s : ℕ) (v : View) (vs : List View)
    → (wait_for_leader e s v vs).0 ≡ none
    → (x : View) → In x (v ∷ vs)
    → leader_of e x s ≡ none
unfolding wait_for_leader
wait-none e s v [] h x (inl same) = subst (λ z. leader_of e z s ≡ none) (sym same) h
wait-none e s v [] h x (inr there) = absurd there
wait-none e s v (v' ∷ vs) h x there =
    by_option
      (λ (o : Option (ℕ × NodeInfo) × View × List View). o.0 ≡ none → leader_of e x s ≡ none)
      (leader_of e v s) (wait_for_leader e s v' vs) (λ l. (some l, v, v' ∷ vs))
      (λ missing k. elim there [
        | inl same ↦ subst (λ z. leader_of e z s ≡ none) (sym same) missing
        | inr later ↦ wait-none e s v' vs k x later
      ])
      (λ l found k. absurd (ground (arith, k))) h

wait-some :
    (e : Engine) (s : ℕ) (v : View) (vs : List View) (l : ℕ × NodeInfo)
    → (wait_for_leader e s v vs).0 ≡ some l
    → leader_of e (wait_for_leader e s v vs).1 s ≡ some l
unfolding wait_for_leader
wait-some e s v [] l h = h
wait-some e s v (v' ∷ vs) l h =
    by_option
      (λ (o : Option (ℕ × NodeInfo) × View × List View).
        o.0 ≡ some l → leader_of e (o.1) s ≡ some l)
      (leader_of e v s) (wait_for_leader e s v' vs) (λ l. (some l, v, v' ∷ vs))
      (λ missing k. wait-some e s v' vs l k) (λ l' found k. found ∙ k) h

-- The wait ends with one of the views.
wait-view :
    (e : Engine) (s : ℕ) (v : View) (vs : List View) → In (wait_for_leader e s v vs).1 (v ∷ vs)
unfolding wait_for_leader
wait-view e s v [] = inl refl
wait-view e s v (v' ∷ vs) =
    by_option (λ (o : Option (ℕ × NodeInfo) × View × List View). In (o.1) (v ∷ v' ∷ vs))
      (leader_of e v s) (wait_for_leader e s v' vs) (λ l. (some l, v, v' ∷ vs))
      (λ missing. inr (wait-view e s v' vs)) (λ l found. inl refl)

-- What `leaderFor` ends with where the shard has a quorum group: a leader, as `leaderOf` finds it
-- at the poll at which the wait ended, or no leader, where `leaderOf` found none at any poll.
abbrev pub Found : World → ℕ → World × Option (ℕ × NodeInfo) × Option Failure → Type 0
Found w s (w', some l, e) =
    (leader_of w.engine w'.view s ≡ some l)
    × In w'.view (w.view ∷ w.later)
    × (e ≡ none)
    × (w'.engine ≡ w.engine)
Found w s (w', none, e) =
    (e ≡ some leader_missing)
    × (w'.engine ≡ w.engine)
    × ((x : View) → In x (w.view ∷ w.later) → leader_of w.engine x s ≡ none)

passing :
    (e : Engine) (v : View) (vs : List View) (es : List Event) (x : View)
    → In x vs
    → let w = pass_time (record { engine = e; view = v; later = vs; events = es }) in
      In x (w.view ∷ w.later)
passing e v [] es x h = absurd h
passing e v (v' ∷ vs) es x h = h

passing_engine :
    (e : Engine) (v : View) (vs : List View) (es : List Event)
    → (pass_time (record { engine = e; view = v; later = vs; events = es })).engine ≡ e
passing_engine e v [] es = refl
passing_engine e v (v' ∷ vs) es = refl

nudge-views :
    (s : ℕ) (group : List ℕ) (w : World) (x : View)
    → In x w.later
    → In x ((nudge s group w).view ∷ (nudge s group w).later)
nudge-views s [] w x h = inr h
nudge-views s (r ∷ group) w x h = passing w.engine w.view w.later (campaigns s r ∷ w.events) x h

passed :
    (e : Engine) (v : View) (vs : List View) (es : List Event) (x : View)
    → let w = pass_time (record { engine = e; view = v; later = vs; events = es }) in
      In x (w.view ∷ w.later) → In x (v ∷ vs)
passed e v [] es x h = h
passed e v (v' ∷ vs) es x h = inr h

-- A nudge leaves no view that was not to come.
nudge-seen :
    (s : ℕ) (group : List ℕ) (w : World) (x : View)
    → In x ((nudge s group w).view ∷ (nudge s group w).later)
    → In x (w.view ∷ w.later)
nudge-seen s [] w x h = h
nudge-seen s (r ∷ group) w x h = passed w.engine w.view w.later (campaigns s r ∷ w.events) x h

pub nudge-engine : (s : ℕ) (group : List ℕ) (w : World) → (nudge s group w).engine ≡ w.engine
nudge-engine s [] w = refl
nudge-engine s (r ∷ group) w = passing_engine w.engine w.view w.later (campaigns s r ∷ w.events)

find_leader-Found : (w : World) (s : ℕ) → Found w s (find_leader w s)
unfolding find_leader
find_leader-Found w s =
    let (found, v, vs) = wait_for_leader w.engine s w.view w.later in
    let w' = record w { view = v; later = vs } in
    by_option (Found w s) found (w', none, some leader_missing) (λ l. (w', some l, none))
      (λ missing. (refl, refl, wait-none w.engine s w.view w.later missing))
      (λ l found. (
        wait-some w.engine s w.view w.later l found,
        wait-view w.engine s w.view w.later,
        refl,
        refl,
      ))

nudged-Found :
    (w w₁ : World) (s : ℕ)
    → w₁.engine ≡ w.engine
    → ((x : View) → In x w.later → In x (w₁.view ∷ w₁.later))
    → ((x : View) → In x (w₁.view ∷ w₁.later) → In x (w.view ∷ w.later))
    → leader_of w.engine w.view s ≡ none
    → (o : World × Option (ℕ × NodeInfo) × Option Failure) → Found w₁ s o
    → Found w s o
nudged-Found w w₁ s same views seen missing (w', some l, e) (led, at, ok, kept) =
    (subst (λ z. leader_of z w'.view s ≡ some l) same led, seen w'.view at, ok, kept ∙ same)
nudged-Found w w₁ s same views seen missing (w', none, e) (err, kept, silent) = (
  err,
  kept ∙ same,
  λ x h. elim h [
    | inl now ↦ subst (λ z. leader_of w.engine z s ≡ none) (sym now) missing
    | inr later ↦ subst (λ z. leader_of z x s ≡ none) same (silent x (views x later))
  ],
)

-- `leaderFor` fails at once, without a step of any replica, where the shard has no quorum group.
-- Otherwise it returns a leader that `leaderOf` finds at one of the polls before its deadline, and
-- it gives up only where no poll finds one.
pub leader_for_lem :
    (w : World) (s : ℕ)
    → ((majority_group w.engine s).1 ≡ false → leader_for w s ≡ (w, none, some quorum_unreachable))
      × ((majority_group w.engine s).1 ≡ true → Found w s (leader_for w s))
unfolding leader_for
leader_for_lem w s =
    let group = (majority_group w.engine s).0 in
    let looked =
      elim (leader_of w.engine w.view s) as (λ z. World × Option (ℕ × NodeInfo) × Option Failure) [
        | none ↦ find_leader (nudge s group w) s
        | some l ↦ (w, some l, none)
      ] in
    (
      λ small. ap (λ b. if b then looked else (w, none, some quorum_unreachable)) small,
      λ ok.
          subst (Found w s)
            (sym (ap (λ b. if b then looked else (w, none, some quorum_unreachable)) ok))
            (by_option (Found w s) (leader_of w.engine w.view s) (find_leader (nudge s group w) s)
              (λ l. (w, some l, none))
              (λ missing.
                nudged-Found w (nudge s group w) s (nudge-engine s group w) (nudge-views s group w)
                  (nudge-seen s group w) missing (find_leader (nudge s group w) s)
                  (find_leader-Found (nudge s group w) s))
              (λ l found. (found, inl refl, refl, refl))),
    )

conclude-done :
    (w : World) (s l : ℕ) (p : Proposal) (r : Result) → (conclude w s l p).1 ≡ some r → p ≡ done r
unfolding conclude
conclude-done w s l (done x) r h = cc
conclude-done w s l quorum_lost r h = absurd (ground (arith, h))
conclude-done w s l not_leader r h = absurd (ground (arith, h))
conclude-done w s l broken r h = absurd (ground (arith, h))

-- The result is what a leader, as `leaderOf` finds it in one of the views of a
-- wait, has made of the command.
abbrev pub FromLeader : World → ℕ → Command → (ℕ → Command → Proposal) → Option Result → Type 0
FromLeader w s c answer none = Unit
FromLeader w s c answer (some r) =
    (v : View) × In v (w.view ∷ w.later)
    × (l : ℕ) × (i : NodeInfo) × (leader_of w.engine v s ≡ some (l, i))
    × (answer l c ≡ done r)

propose_to-FromLeader :
    (w : World) (s : ℕ) (c : Command) (answer : ℕ → Command → Proposal)
    → (o : World × Option (ℕ × NodeInfo) × Option Failure) → Found w s o
    → FromLeader w s c answer (propose_to s c answer o).1
unfolding propose_to
propose_to-FromLeader w s c answer (w', none, e) found = tt
propose_to-FromLeader w s c answer (w', some (l, i), e) (led, at, ok, kept) =
    result (conclude w₁ s l (answer l c)).1 refl
  where
    w₁ : World
    w₁ = pass_time (report (proposes s l i.ballot) w')

    result : (o : Option Result) → (conclude w₁ s l (answer l c)).1 ≡ o → FromLeader w s c answer o
    result none h = tt
    result (some r) h = (w'.view, at, l, i, led, conclude-done w₁ s l (answer l c) r h)

-- Where a shard has no quorum group, `propose` fails, no replica is asked for anything and nothing
-- changes. Otherwise a result that it returns is what the leader of the quorum group, as `leaderOf`
-- finds it in what the replicas answer now or at a poll before the deadline, has made of the
-- command.
pub propose_lem :
    (w : World) (s : ℕ) (c : Command) (answer : ℕ → Command → Proposal)
    → (((majority_group w.engine s).1 ≡ false)
        × (propose w s c answer ≡ (w, none, some quorum_unreachable)))
      ⊎ (((majority_group w.engine s).1 ≡ true) × FromLeader w s c answer (propose w s c answer).1)
unfolding propose
propose_lem w s c answer =
    let (small, large) = leader_for_lem w s in
    elim (Bool-cases (majority_group w.engine s).1) [
      | inl ok ↦ inr (ok, propose_to-FromLeader w s c answer (leader_for w s) (large ok))
      | inr cut ↦ inl (cut, ap (propose_to s c answer) (small cut))
    ]
