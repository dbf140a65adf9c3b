-- ===== src/Engine/Commands.antt =====
-- internal/cluster/engine.go: the commands of the operator. A world has the engine, what its
-- replicas answer now and at the later polls of a wait, and what has been reported. A wait ends
-- with the last of the views: its deadline has passed.
use paxos_2pc_payments.Base.{
  ℕ, Bool, true, false, Option, none, some, List, [], ◌∷◌, ◌==◌, if◌then◌else◌, length, ℤ, pos,
}
use paxos_2pc_payments.Paxos.Ballot.{Ballot}
use paxos_2pc_payments.Faults.{Faults}
use paxos_2pc_payments.Ledger.{Op, Command, Result, Sentinel, err}
use paxos_2pc_payments.Engine.{
  Engine, View, NodeInfo, shard_for, majority_group, leader_of, settled,
}

-- What the engine reports and asks of replicas, without the wording.
pub data Event : Type 0 where
  no_quorum : (s reachable : ℕ) → Event
  campaigns : (s id : ℕ) → Event
  not_settled : (s : ℕ) → Event
  proposes : (s id : ℕ) (b : Ballot) → Event
  accept_failed : (s id : ℕ) → Event
  commits : (s slot : ℕ) → Event
  read_served : (s slot : ℕ) → Event
  killed revived : (id : ℕ) → Event
  follower_down majority_lost leader_down : (s : ℕ) → Event
  leads_again already_current caught_up : (id missed : ℕ) → Event
  catching_up : (id : ℕ) → Event
  split healed : Event
  unlisted : (ids : List ℕ) → Event
  will_step_down cut_off keeps_leading : (s id : ℕ) → Event

pub data Failure : Type 0 where
  quorum_unreachable leader_missing unknown_node already_down already_up not_partitioned : Failure
  refused : Sentinel → Failure
  failed : Failure

pub record World : Type 0 where
  pub engine : Engine
  pub view : View
  pub later : List View
  pub events : List Event

abbrev pub report : Event → World → World
report x w = record w { events = x ∷ w.events }

abbrev pub set_faults : Faults → World → World
set_faults f w = record w { engine = record w.engine { faults = f } }

-- Time passes: the replicas answer what they answer next.
abbrev pub pass_time : World → World
pass_time w = elim w.later [ [] ↦ w | v ∷ vs ↦ record w { view = v; later = vs } ]

-- Every listed shard is settled.
unfoldable pub all_settled : Engine → View → List ℕ → Bool
all_settled e v [] = true
all_settled e v (s ∷ ss) = if settled e v s then all_settled e v ss else false

-- The loop of `awaitSettled`: whether it ended well, and the views that are left.
unfoldable pub poll : Engine → List ℕ → View → List View → Bool × View × List View
unfolding all_settled
poll e ss v [] = (all_settled e v ss, v, [])
poll e ss v (v' ∷ vs) =
    let rest = poll e ss v' vs in if all_settled e v ss then (true, v, v' ∷ vs) else rest

-- `awaitSettled`
unfoldable pub await_settled : World → List ℕ → World × Bool
unfolding poll
await_settled w ss =
    let (done, v, vs) = poll w.engine ss w.view w.later in (record w { view = v; later = vs }, done)

-- The first replica of a group campaigns.
abbrev pub nudge : ℕ → List ℕ → World → World
nudge s [] w = w
nudge s (r ∷ group) w = pass_time (report (campaigns s r) w)

abbrev pub or_else : Option (ℕ × NodeInfo) → World → World → World
or_else none w w' = w
or_else (some l) w w' = w'

-- What `elect` reports of a wait without success.
unfoldable pub report_unsettled : ℕ → World × Bool → World
report_unsettled s (w, true) = w
report_unsettled s (w, false) = report (not_settled s) w

-- `elect`
unfoldable pub elect : World → ℕ → World
unfolding await_settled report_unsettled
elect w s =
    let (group, ok) = majority_group w.engine s in
    if ok
    then report_unsettled s
        (await_settled (or_else (leader_of w.engine w.view s) (nudge s group w) w) (s ∷ []))
    else (await_settled (report (no_quorum s (length group)) w) (s ∷ [])).0

-- The loop of `leaderFor` after its campaign.
unfoldable pub wait_for_leader :
    Engine → ℕ → View → List View → Option (ℕ × NodeInfo) × View × List View
wait_for_leader e s v [] = (leader_of e v s, v, [])
wait_for_leader e s v (v' ∷ vs) =
    let rest = wait_for_leader e s v' vs in
    elim (leader_of e v s) [ some l ↦ (some l, v, v' ∷ vs) | none ↦ rest ]

-- The wait of `leaderFor`, and what it returns after it.
unfoldable pub find_leader : World → ℕ → World × Option (ℕ × NodeInfo) × Option Failure
unfolding wait_for_leader
find_leader w s =
    let (found, v, vs) = wait_for_leader w.engine s w.view w.later in
    let w' = record w { view = v; later = vs } in
    elim found [ some l ↦ (w', some l, none) | none ↦ (w', none, some leader_missing) ]

-- `leaderFor`
unfoldable pub leader_for : World → ℕ → World × Option (ℕ × NodeInfo) × Option Failure
unfolding find_leader
leader_for w s =
    let (group, ok) = majority_group w.engine s in
    if ok
    then elim (leader_of w.engine w.view s) [
      | some l ↦ (w, some l, none)
      | none ↦ find_leader (nudge s group w) s
    ]
    else (w, none, some quorum_unreachable)

-- What `Propose` of the leader returns: the result of the command, or an error.
pub data Proposal : Type 0 where
  done : Result → Proposal
  quorum_lost not_leader broken : Proposal

-- The end of `propose`
unfoldable pub conclude : World → ℕ → ℕ → Proposal → World × Option Result × Option Failure
conclude w s l (done result) = (report (commits s result.slot) w, some result, none)
conclude w s l quorum_lost = (report (accept_failed s l) w, none, some quorum_unreachable)
conclude w s l not_leader = (w, none, some leader_missing)
conclude w s l broken = (w, none, some failed)

-- `propose` with what `leaderFor` returned.
unfoldable pub propose_to :
    ℕ
    → Command
    → (ℕ → Command → Proposal)
    → World × Option (ℕ × NodeInfo) × Option Failure
    → World × Option Result × Option Failure
unfolding conclude
propose_to s c answer (w, none, e) = (w, none, e)
propose_to s c answer (w, some (l, i), e) =
    conclude (pass_time (report (proposes s l i.ballot) w)) s l (answer l c)

-- `propose`, where `answer` is what a leader makes of a command.
unfoldable pub propose :
    World → ℕ → Command → (ℕ → Command → Proposal) → World × Option Result × Option Failure
unfolding propose_to
propose w s c answer = propose_to s c answer (leader_for w s)

abbrev pub err_of : Option Failure → Option Result → Option Failure
err_of (some e) r = some e
err_of none none = some failed
err_of none (some r) = elim (err r) [ none ↦ none | some e ↦ some (refused e) ]

abbrev pub put_command : ℕ → ℤ → Command
put_command key value = record { op = Op.put; key = key; to = 0; amount = value; tx = 0 }

abbrev pub get_command : ℕ → Command
get_command key = record { op = Op.get; key = key; to = 0; amount = pos 0; tx = 0 }

abbrev pub transfer_command : ℕ → ℕ → ℤ → Command
transfer_command from to amount = record {
  op = Op.transfer;
  key = from;
  to = to;
  amount = amount;
  tx = 0;
}

-- The end of `Get`
unfoldable pub after_get : World → ℕ → Option Result → Option Failure → World × ℤ × Option Failure
after_get w s r (some e) = (w, pos 0, some e)
after_get w s none none = (w, pos 0, none)
after_get w s (some r) none = (report (read_served s r.slot) w, r.value, none)

module _ (text : ℕ → List ℕ) (answer : ℕ → Command → Proposal) where
  -- The shard of a key.
  abbrev pub home : World → ℕ → ℕ
  home w key = shard_for (text key) w.engine.cfg.shards

  -- `Put`
  unfoldable pub put : World → ℕ → ℤ → World × Option Failure
  unfolding propose
  put w key value =
      let (w₁, r, e) = propose w (home w key) (put_command key value) answer in (w₁, err_of e r)

  -- `Get`
  unfoldable pub get : World → ℕ → World × ℤ × Option Failure
  unfolding propose
  get w key =
      let (w₁, r, e) = propose w (home w key) (get_command key) answer in
      after_get w₁ (home w key) r (err_of e r)

  -- `Transfer`; `two_phase` is the coordinator of internal/twopc on two shards.
  unfoldable pub transfer :
      (ℕ → ℕ → World → World × Option Failure) → World → ℕ → ℕ → ℤ → World × Option Failure
  unfolding propose
  transfer two_phase w from to amount =
      if home w from == home w to
      then (let (w₁, r, e) = propose w (home w from) (transfer_command from to amount) answer in
          (w₁, err_of e r))
      else two_phase (home w from) (home w to) w
