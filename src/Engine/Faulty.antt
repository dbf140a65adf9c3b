-- ===== src/Engine/Faulty.antt =====
-- internal/cluster/engine.go: what the operator's commands do to the fault table, and to the groups
-- that can decide.
use paxos_2pc_payments.Base.{
  ℕ, ◌+◌, length, ◌≡◌, ◌≢◌, refl, sym, ap, subst, ◌∙◌, ◌⊎◌, inl, inr, Bool, by_if, Bool-cases,
  ==→eq, not, ◌==◌, true, false, Option, none, some, List, [], ◌∷◌, arith, if◌then◌else◌,
  lookup-insert, lookup-erase,
}
use paxos_2pc_payments.Faults.{Faults, kill, revive, heal, partitioned, is_dead}
use paxos_2pc_payments.Engine.{
  Engine, View, NodeInfo, replica, replicas, alive, majority_group, leader_of, keep_alive,
}
use paxos_2pc_payments.Engine.Commands.{
  World, Failure, unknown_node, already_down, already_up, not_partitioned, await_settled, elect,
  report, killed, set_faults, nudge, or_else, report_unsettled, no_quorum, leader_down,
  follower_down, majority_lost, revived, healed,
}
use paxos_2pc_payments.Engine.Operator.{
  Name, take_down, kill_found, kill_node, bring_up, revive_found, revive_node, settle_shard, watch,
  is_named, applied_of, numbers, elect_missing, heal_net,
}
use paxos_2pc_payments.Engine.Waits.{nudge-engine}
use paxos_2pc_payments.Engine.Majority.{heal-majority_group, majority_group-Connected}
use paxos_2pc_payments.Engine.Reach.{check-none}
use paxos_2pc_payments.Engine.Leaders.{IsLeader, leader_of_lem}

or_else-engine :
    (o : Option (ℕ × NodeInfo)) (w w' : World) (e : Engine)
    → w.engine ≡ e
    → w'.engine ≡ e
    → (or_else o w w').engine ≡ e
or_else-engine none w w' e h k = h
or_else-engine (some l) w w' e h k = k

report_unsettled-engine : (s : ℕ) (o : World × Bool) → (report_unsettled s o).engine ≡ o.0.engine
unfolding report_unsettled
report_unsettled-engine s (w, true) = refl
report_unsettled-engine s (w, false) = refl

elect-engine : (w : World) (s : ℕ) → (elect w s).engine ≡ w.engine
unfolding elect await_settled
elect-engine w s =
    let group = (majority_group w.engine s).0 in
    let asked = or_else (leader_of w.engine w.view s) (nudge s group w) w in
    by_if (λ (z : World). z.engine ≡ w.engine) (majority_group w.engine s).1
      (report_unsettled s (await_settled asked (s ∷ [])))
      (await_settled (report (no_quorum s (length group)) w) (s ∷ [])).0
      (λ ok.
        report_unsettled-engine s (await_settled asked (s ∷ []))
        ∙ or_else-engine (leader_of w.engine w.view s) (nudge s group w) w w.engine
            (nudge-engine s group w) refl)
      (λ small. refl)

abbrev with_faults : (Faults → Faults) → Engine → Engine
with_faults g e = record e { faults = g e.faults }

take_down-engine :
    (w : World) (id s : ℕ) → (take_down w id s).engine ≡ with_faults (λ f. kill f id) w.engine
unfolding take_down await_settled
take_down-engine w id s =
    let w₁ = report (killed id) (set_faults (kill w.engine.faults id) w) in
    by_if (λ (z : World). z.engine ≡ with_faults (λ f. kill f id) w.engine)
      (is_named (leader_of w.engine w.view s) id) (elect (report (leader_down s) w₁) s)
      (await_settled
        (report (if (majority_group w₁.engine s).1 then follower_down s else majority_lost s) w₁)
        (s ∷ [])).0
      (λ led. elect-engine (report (leader_down s) w₁) s) (λ followed. refl)

settle_shard-engine :
    (w : World) (s : ℕ) (o : Option (ℕ × NodeInfo)) → (settle_shard w s o).engine ≡ w.engine
unfolding settle_shard await_settled
settle_shard-engine w s none = elect-engine w s
settle_shard-engine w s (some l) = refl

watch-engine :
    (w : World) (r id before : ℕ) (o : Option (ℕ × NodeInfo))
    → (watch w r id before o).engine ≡ w.engine
unfolding watch
watch-engine w r id before none = refl
watch-engine w r id before (some (l, i)) = ground arith

bring_up-engine :
    (w : World) (r id s : ℕ) → (bring_up w r id s).engine ≡ with_faults (λ f. revive f id) w.engine
unfolding bring_up
bring_up-engine w r id s =
    let w₁ = report (revived id) (set_faults (revive w.engine.faults id) w) in
    let w₂ = settle_shard w₁ s (leader_of w₁.engine w₁.view s) in
    watch-engine w₂ r id (applied_of (w.view r)) (leader_of w₂.engine w₂.view s)
    ∙ settle_shard-engine w₁ s (leader_of w₁.engine w₁.view s)

elect_missing-engine :
    (w : World) (s : ℕ) (shards : List (List ℕ)) → (elect_missing w s shards).engine ≡ w.engine
unfolding elect_missing
elect_missing-engine w s [] = refl
elect_missing-engine w s (rs ∷ shards) =
    elect_missing-engine (or_else (leader_of w.engine w.view s) (elect w s) w) (s + 1) shards
    ∙ or_else-engine (leader_of w.engine w.view s) (elect w s) w w.engine (elect-engine w s) refl

-- A replica that is marked as down is not found as a leader, whatever it answers.
leader_of-alive :
    (e : Engine) (v : View) (s l : ℕ) (i : NodeInfo)
    → leader_of e v s ≡ some (l, i)
    → is_dead e.faults l ≡ false
leader_of-alive e v s l i h =
    let (ok, member, said, best) = subst (IsLeader e v s) h (leader_of_lem e v s) in
    (check-none e.faults l l ((majority_group-Connected e s).1 l l member member)).0

killed_dead : (f : Faults) (id : ℕ) → is_dead (kill f id) id ≡ true
unfolding kill is_dead
killed_dead f id = ground (arith, lookup-insert id id true f.dead)

revived_alive : (f : Faults) (id : ℕ) → alive (revive f id) id ≡ true
unfolding revive is_dead
revived_alive f id = ground (arith, lookup-erase id id f.dead)

-- What was found is not the replica of this name.
abbrev pub NotNamed : ℕ → Option (ℕ × NodeInfo) → Type 0
NotNamed id none = Unit
NotNamed id (some (l, i)) = l ≢ id

-- What a success of `Kill` comes to for the replica that the name stands for: it is down, and is
-- not found as a leader any more, if the name is its own, and it is as alive as before if not.
abbrev pub Downed : ℕ → ℕ → Engine → Type 0
Downed id r e =
    ((id ≡ r) × (alive e.faults r ≡ false) × ((v : View) (t : ℕ) → NotNamed r (leader_of e v t)))
    ⊎ ((id ≢ r) × (alive e.faults r ≡ true))

-- What `Kill` does to a name with this replica: an error without a change, or the name is down, no
-- other part of the engine has changed, and the replica is `Downed`.
abbrev pub Killed : World → ℕ → Option (ℕ × ℕ) → World × Option Failure → Type 0
Killed w id none o = o ≡ (w, some unknown_node)
Killed w id (some (r, s)) o =
    ((alive w.engine.faults r ≡ false) × (o ≡ (w, some already_down)))
    ⊎ ((alive w.engine.faults r ≡ true)
        × (o.1 ≡ none)
        × (o.0.engine ≡ with_faults (λ f. kill f id) w.engine)
        × Downed id r o.0.engine)

down-NotNamed :
    (e : Engine) (id : ℕ) (v : View) (t : ℕ)
    → NotNamed id (leader_of (with_faults (λ f. kill f id) e) v t)
down-NotNamed e id v t = by_found (leader_of (with_faults (λ f. kill f id) e) v t) refl
  where
    true_false : true ≡ false → ⊥
    true_false e = ground (arith, e)

    by_found :
        (o : Option (ℕ × NodeInfo))
        → leader_of (with_faults (λ f. kill f id) e) v t ≡ o
        → NotNamed id o
    by_found none h = tt
    by_found (some (l, i)) h = λ same. true_false (
        sym (killed_dead e.faults id)
        ∙ subst (λ z. is_dead (kill e.faults id) z ≡ false) same
            (leader_of-alive (with_faults (λ f. kill f id) e) v t l i h))

kill-alive_ne : (f : Faults) (id r : ℕ) → id ≢ r → alive f r ≡ true → alive (kill f id) r ≡ true
unfolding kill is_dead
kill-alive_ne f id r other up =
    let off : (id == r) ≡ false = ground arith in ground (arith, lookup-insert r id true f.dead)

kill-Downed :
    (e : Engine) (id r : ℕ) → alive e.faults r ≡ true → Downed id r (with_faults (λ f. kill f id) e)
kill-Downed e id r up = elim (Bool-cases (id == r)) [
  | inl same ↦
      let eq = ==→eq id r same in
      inl (
        eq,
        subst (λ z. alive (kill e.faults id) z ≡ false) eq (ap not (killed_dead e.faults id)),
        λ v t.
            subst (λ z. NotNamed z (leader_of (with_faults (λ f. kill f id) e) v t)) eq
              (down-NotNamed e id v t),
      )
  | inr other ↦ let ne : id ≢ r = λ h. ground arith in inr (ne, kill-alive_ne e.faults id r ne up)
]

kill_found-Killed : (w : World) (id : ℕ) (o : Option (ℕ × ℕ)) → Killed w id o (kill_found w id o)
unfolding kill_found
kill_found-Killed w id none = refl
kill_found-Killed w id (some (r, s)) =
    by_if (Killed w id (some (r, s))) (alive w.engine.faults r) (take_down w id s, none)
      (w, some already_down)
      (λ up. inr (
        up,
        refl,
        take_down-engine w id s,
        subst (Downed id r) (sym (take_down-engine w id s)) (kill-Downed w.engine id r up),
      ))
      (λ down. inl (down, refl))

-- `Kill` answers `unknown_node` for a name without a replica and `already_down` for a replica that
-- is down, and changes nothing then. Otherwise it succeeds and marks the name, as it was typed, as
-- down, and changes nothing else of the engine. If that is the name of the replica that it stands
-- for, the replica is down and, whatever the replicas answer, it is not found as a leader any more;
-- if it is another spelling of it, as `s00n1` is of `s0n1`, the replica is as alive as before.
pub kill_node_lem :
    (w : World) (name : Name) → Killed w name.id (replica w.engine name.parsed) (kill_node w name)
unfolding kill_node
kill_node_lem w name = kill_found-Killed w name.id (replica w.engine name.parsed)

-- What `Revive` does to a name with this replica.
abbrev pub Revived : World → ℕ → Option (ℕ × ℕ) → World × Option Failure → Type 0
Revived w id none o = o ≡ (w, some unknown_node)
Revived w id (some (r, s)) o =
    ((alive w.engine.faults r ≡ true) × (o ≡ (w, some already_up)))
    ⊎ ((alive w.engine.faults r ≡ false)
        × (o.1 ≡ none)
        × (o.0.engine ≡ with_faults (λ f. revive f id) w.engine)
        × (alive o.0.engine.faults id ≡ true))

revive_found-Revived :
    (w : World) (id : ℕ) (o : Option (ℕ × ℕ)) → Revived w id o (revive_found w id o)
unfolding revive_found
revive_found-Revived w id none = refl
revive_found-Revived w id (some (r, s)) =
    by_if (Revived w id (some (r, s))) (alive w.engine.faults r) (w, some already_up)
      (bring_up w r id s, none) (λ up. inl (up, refl))
      (λ down. inr (
        down,
        refl,
        bring_up-engine w r id s,
        ap (λ z. alive z.faults id) (bring_up-engine w r id s) ∙ revived_alive w.engine.faults id,
      ))

-- `Revive` answers `unknown_node` for a name without a replica and `already_up` for a replica that
-- is up, and changes nothing then. Otherwise it marks the name as up and changes nothing else of
-- the engine, whatever the election and the waits that follow end with.
pub revive_node_lem :
    (w : World) (name : Name)
    → Revived w name.id (replica w.engine name.parsed) (revive_node w name)
unfolding revive_node
revive_node_lem w name = revive_found-Revived w name.id (replica w.engine name.parsed)

-- What `Heal` does: an error without a change, or every majority group is all of the live replicas.
abbrev pub Healed : World → World × Option Failure → Type 0
Healed w o =
    ((partitioned w.engine.faults ≡ false) × (o ≡ (w, some not_partitioned)))
    ⊎ ((partitioned w.engine.faults ≡ true)
        × (o.1 ≡ none)
        × ((s : ℕ)
            → (majority_group o.0.engine s).0 ≡ keep_alive w.engine.faults (replicas w.engine s)))

-- `Heal` fails on a network that is not partitioned, without a change. Otherwise it succeeds, and
-- then the majority group of every shard is all of its live replicas.
pub heal_net_lem : (w : World) → Healed w (heal_net w)
unfolding heal_net await_settled
heal_net_lem w =
    let w₁ = report healed (set_faults (heal w.engine.faults) w) in
    let w₂ = elect_missing w₁ 0 w.engine.shards in
    by_if (Healed w) (partitioned w.engine.faults)
      ((await_settled w₂ (numbers 0 w.engine.cfg.shards)).0, none) (w, some not_partitioned)
      (λ apart. inr (
        apart,
        refl,
        λ s.
            ap (λ z. (majority_group z s).0) (elect_missing-engine w₁ 0 w.engine.shards)
            ∙ heal-majority_group w.engine s,
      ))
      (λ whole. inl (whole, refl))
