-- ===== src/Engine/Operator.antt =====
-- internal/cluster/engine.go: the faults that the operator injects, and their removal. A name comes
-- with what `ParseNode` makes of it.
use paxos_2pc_payments.Base.{
  ℕ, zero, suc, ◌+◌, ◌-◌, ◌%◌, int64_mod, Bool, true, false, Option, none, some, List, [], ◌∷◌,
  ◌++◌, map, ◌==◌, leb, if◌then◌else◌, eqb_ℤ,
}
use paxos_2pc_payments.Faults.{kill, revive, partition, heal, partitioned, group_of}
use paxos_2pc_payments.Engine.{
  Engine, NodeInfo, View, replica, alive, majority_group, leader_of, leader_of_any, in_group,
}
use paxos_2pc_payments.Engine.Commands.{
  World, Event, Failure, report, set_faults, await_settled, elect, or_else, unknown_node,
  already_down, already_up, not_partitioned, killed, revived, follower_down, majority_lost,
  leader_down, leads_again, already_current, caught_up, catching_up, split, healed, unlisted,
  will_step_down, cut_off, keeps_leading,
}

-- A node name as it was typed, and the shard and index that it stands for.
pub record Name : Type 0 where
  pub id : ℕ
  pub parsed : Option (ℕ × ℕ)

abbrev pub is_named : Option (ℕ × NodeInfo) → ℕ → Bool
is_named none id = false
is_named (some (l, i)) id = l == id

-- What `Kill` does to a replica that is up.
unfoldable pub take_down : World → ℕ → ℕ → World
unfolding elect await_settled
take_down w id s =
    let was_leader = is_named (leader_of w.engine w.view s) id in
    let w₁ = report (killed id) (set_faults (kill w.engine.faults id) w) in
    if was_leader
    then elect (report (leader_down s) w₁) s
    else (await_settled
        (report (if (majority_group w₁.engine s).1 then follower_down s else majority_lost s) w₁)
        (s ∷ [])).0

-- `Kill` on what `replica` returned.
unfoldable pub kill_found : World → ℕ → Option (ℕ × ℕ) → World × Option Failure
unfolding take_down
kill_found w id none = (w, some unknown_node)
kill_found w id (some (r, s)) =
    if alive w.engine.faults r then (take_down w id s, none) else (w, some already_down)

-- `Kill`
unfoldable pub kill_node : World → Name → World × Option Failure
unfolding kill_found
kill_node w name = kill_found w name.id (replica w.engine name.parsed)

abbrev pub applied_of : Option NodeInfo → ℕ
applied_of none = 0
applied_of (some i) = i.applied

-- What `Revive` reports of a replica that has caught up; the difference is one of `uint64`.
abbrev pub caught_up_event : ℕ → ℕ → ℕ → ℕ → Event
caught_up_event id leader before now =
    let missed = (now + int64_mod - before) % int64_mod in
    if leader == id
    then leads_again id missed
    else (if missed == 0 then already_current id missed else caught_up id missed)

abbrev pub reached : ℕ → Option NodeInfo → Bool
reached target none = false
reached target (some now) = leb target now.applied

-- The wait of `Revive` for a replica to have applied what the leader had.
unfoldable pub wait_caught_up : ℕ → ℕ → ℕ → ℕ → ℕ → View → List View → Event × View × List View
wait_caught_up r id leader before target v [] = (
  if reached target (v r)
      then caught_up_event id leader before (applied_of (v r))
      else catching_up id,
  v,
  [],
)
wait_caught_up r id leader before target v (v' ∷ vs) =
    let rest = wait_caught_up r id leader before target v' vs in
    if reached target (v r)
    then (caught_up_event id leader before (applied_of (v r)), v, v' ∷ vs)
    else rest

-- What `Revive` does once the shard has settled.
unfoldable pub watch : World → ℕ → ℕ → ℕ → Option (ℕ × NodeInfo) → World
unfolding wait_caught_up
watch w r id before none = w
watch w r id before (some (l, i)) =
    if eqb_ℤ (group_of w.engine.faults id) (group_of w.engine.faults l)
    then (let (x, v, vs) = wait_caught_up r id l before i.applied w.view w.later in
        report x (record w { view = v; later = vs }))
    else w

-- An election where a shard has no leader, and else a wait.
unfoldable pub settle_shard : World → ℕ → Option (ℕ × NodeInfo) → World
unfolding elect await_settled
settle_shard w s none = elect w s
settle_shard w s (some l) = (await_settled w (s ∷ [])).0

-- What `Revive` does to a replica that is down.
unfoldable pub bring_up : World → ℕ → ℕ → ℕ → World
unfolding settle_shard watch
bring_up w r id s =
    let before = applied_of (w.view r) in
    let w₁ = report (revived id) (set_faults (revive w.engine.faults id) w) in
    let w₂ = settle_shard w₁ s (leader_of w₁.engine w₁.view s) in
    watch w₂ r id before (leader_of w₂.engine w₂.view s)

-- `Revive` on what `replica` returned.
unfoldable pub revive_found : World → ℕ → Option (ℕ × ℕ) → World × Option Failure
unfolding bring_up
revive_found w id none = (w, some unknown_node)
revive_found w id (some (r, s)) =
    if alive w.engine.faults r then (w, some already_up) else (bring_up w r id s, none)

-- `Revive`
unfoldable pub revive_node : World → Name → World × Option Failure
unfolding revive_found
revive_node w name = revive_found w name.id (replica w.engine name.parsed)

-- Every name is that of a replica.
unfoldable pub all_known : Engine → List Name → Bool
all_known e [] = true
all_known e (n ∷ names) =
    let rest = all_known e names in elim (replica e n.parsed) [ none ↦ false | some r ↦ rest ]

unfoldable pub known_groups : Engine → List (List Name) → Bool
unfolding all_known
known_groups e [] = true
known_groups e (g ∷ groups) = if all_known e g then known_groups e groups else false

abbrev pub ids : List Name → List ℕ
ids g = map (λ n. n.id) g

unfoldable pub joined : List (List ℕ) → List ℕ
joined [] = []
joined (g ∷ groups) = g ++ joined groups

-- The replicas that no group lists.
unfoldable pub rest_of : List ℕ → List ℕ → List ℕ
rest_of listed [] = []
rest_of listed (r ∷ rs) =
    let rest = rest_of listed rs in if in_group listed r then rest else r ∷ rest

-- A group lists a replica of the shard.
unfoldable pub hit : List ℕ → List ℕ → Bool
hit listed [] = false
hit listed (r ∷ rs) = if in_group listed r then true else hit listed rs

-- The shards from number `s` on that a group lists a replica of.
unfoldable pub affected : List ℕ → ℕ → List (List ℕ) → List ℕ
unfolding hit
affected listed s [] = []
affected listed s (rs ∷ shards) =
    let rest = affected listed (s + 1) shards in if hit listed rs then s ∷ rest else rest

-- What `Partition` says of the leader of a shard.
abbrev pub leader_event : ℕ → List ℕ × Bool → Option (ℕ × NodeInfo) → World → World
leader_event s (group, ok) none w = w
leader_event s (group, ok) (some (l, i)) w =
    if ok
    then report (if in_group group l then keeps_leading s l else cut_off s l) w
    else report (will_step_down s l) w

-- The last loop of `Partition`.
unfoldable pub elect_affected : World → List ℕ → World
unfolding elect
elect_affected w [] = w
elect_affected w (s ∷ ss) =
    elect_affected
      (elect (leader_event s (majority_group w.engine s) (leader_of_any w.engine w.view s) w) s) ss

abbrev pub report_rest : List ℕ → World → World
report_rest [] w = w
report_rest (r ∷ rs) w = report (unlisted (r ∷ rs)) w

-- `Partition`
unfoldable pub partition_net : World → List (List Name) → World × Option Failure
unfolding known_groups joined rest_of affected elect_affected
partition_net w groups =
    if known_groups w.engine groups
    then (let named = map ids groups in
        let listed = joined named in
        let w₁ = report split (set_faults (partition w.engine.faults named) w) in
        let w₂ = report_rest (rest_of listed (joined w.engine.shards)) w₁ in
        (elect_affected w₂ (affected listed 0 w.engine.shards), none))
    else (w, some unknown_node)

-- An election in every shard without a leader, from shard `s` on.
unfoldable pub elect_missing : World → ℕ → List (List ℕ) → World
unfolding elect
elect_missing w s [] = w
elect_missing w s (rs ∷ shards) =
    elect_missing (or_else (leader_of w.engine w.view s) (elect w s) w) (s + 1) shards

-- The numbers below `n`, from `s` on.
unfoldable pub numbers : ℕ → ℕ → List ℕ
numbers s zero = []
numbers s (suc n) = s ∷ numbers (s + 1) n

-- `Heal`
unfoldable pub heal_net : World → World × Option Failure
unfolding elect_missing numbers await_settled
heal_net w =
    if partitioned w.engine.faults
    then (let w₁ = report healed (set_faults (heal w.engine.faults) w) in
        let w₂ = elect_missing w₁ 0 w.engine.shards in
        ((await_settled w₂ (numbers 0 w.engine.cfg.shards)).0, none))
    else (w, some not_partitioned)

-- `Bootstrap`
unfoldable pub bootstrap : World → ℕ → List (List ℕ) → World
unfolding elect
bootstrap w s [] = w
bootstrap w s (rs ∷ shards) = bootstrap (elect w s) (s + 1) shards
