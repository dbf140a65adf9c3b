-- ===== src/Examples/Engines.antt =====
-- internal/cluster: one shard of three replicas, of which 3 is cut off.
use paxos_2pc_payments.Base.{
  ℕ, ◌≡◌, ◌≤◌, ◌↔◌, ◌⊎◌, ◌≤◌, refl, inl, inr, subst, sym, ◌==◌, if◌then◌else◌, true, false, none,
  some, List, [], ◌∷◌, leb, length, In, Distinct, arith, pos,
}
use paxos_2pc_payments.Paxos.Node.{leader, follower}
use paxos_2pc_payments.Ledger.{Command, Code}
use paxos_2pc_payments.Faults.{Faults, new_faults, partition, check}
use paxos_2pc_payments.Engine.{Engine, View, replica, majority_group, leader_of, settled, infos}
use paxos_2pc_payments.Engine.Majority.{Connected, majority_group_lem, majority_group_unique}
use paxos_2pc_payments.Engine.Leaders.{IsLeader, leader_of_lem}
use paxos_2pc_payments.Engine.Settled.{IsSettled, settled_lem}
use paxos_2pc_payments.Engine.Commands.{
  World, Proposal, done, propose, put_command, quorum_unreachable,
}
use paxos_2pc_payments.Engine.Status.{status}
use paxos_2pc_payments.Engine.Waits.{FromLeader, propose_lem}
use paxos_2pc_payments.Engine.Operator.{Name, kill_node, heal_net}
use paxos_2pc_payments.Engine.Faulty.{Killed, kill_node_lem, Healed, heal_net_lem}

abbrev faults : Faults
faults = partition new_faults ((1 ∷ 2 ∷ []) ∷ (3 ∷ []) ∷ [])

abbrev engine : Engine
engine = record {
  cfg = record { shards = 1; nodes_per_shard = 3 };
  shards = (1 ∷ 2 ∷ 3 ∷ []) ∷ [];
  faults = faults;
}

-- Replica 3 still leads under an older ballot than replica 2.
abbrev view : View
view r = some (record {
  id = r;
  role = some (if r == 1 then follower else leader);
  ballot = record { num = if r == 2 then 5 else 4; node = r };
  applied = 7;
  accounts = record { key = 65; balance = pos 9; locked_by = 0 } ∷ [];
})

abbrev world : World
world = record { engine = engine; view = view; later = view ∷ []; events = [] }

abbrev answered : ℕ → Command → Proposal
answered l c = done (record { code = Code.ok; value = pos 9; slot = 8 })

abbrev both : List ℕ
both = 2 ∷ 1 ∷ []

both-Distinct : Distinct both
both-Distinct = ((λ h. elim h [ inl e ↦ omega (arith, e) | inr k ↦ k ]), ((λ h. h), tt))

both-Connected : Connected faults (1 ∷ 2 ∷ 3 ∷ []) both
unfolding check paxos_2pc_payments.Base.lookup partition new_faults paxos_2pc_payments.Base.insert
    paxos_2pc_payments.Base.erase
both-Connected = (
  (λ a h. elim h [
    | inl e ↦ inr (inl e)
    | inr k ↦ elim k [ inl e ↦ inl e | inr none_left ↦ absurd none_left ]
  ]),
  (λ a b h k. elim h [
    | inl e ↦ elim k [
      | inl e' ↦ reach 2 2 a b e e' refl
      | inr k' ↦ elim k' [ inl e' ↦ reach 2 1 a b e e' refl | inr none_left ↦ absurd none_left ]
    ]
    | inr h' ↦ elim h' [
      | inl e ↦ elim k [
        | inl e' ↦ reach 1 2 a b e e' refl
        | inr k' ↦ elim k' [ inl e' ↦ reach 1 1 a b e e' refl | inr none_left ↦ absurd none_left ]
      ]
      | inr none_left ↦ absurd none_left
    ]
  ]),
)
  where
    reach : (x y a b : ℕ) → a ≡ x → b ≡ y → check faults x y ≡ none → check faults a b ≡ none
    reach x y a b e e' h =
        subst (λ z. check faults z b ≡ none) (sym e)
          (subst (λ z. check faults x z ≡ none) (sym e') h)

majority_group_lem_example :
    Connected faults (1 ∷ 2 ∷ 3 ∷ []) (majority_group engine 0).0
    × (length both ≤ length (majority_group engine 0).0)
    × ((majority_group engine 0).1 ≡ leb 2 (length (majority_group engine 0).0))
majority_group_lem_example = majority_group_lem engine 0 both both-Distinct both-Connected

majority_group_unique_example :
    ((majority_group engine 0).1 ≡ true) × ((a : ℕ) → In a both → In a (majority_group engine 0).0)
majority_group_unique_example =
    majority_group_unique engine 0 both (omega arith) both-Distinct both-Connected (omega arith)

leader_of_lem_example : IsLeader engine view 0 (leader_of engine view 0)
leader_of_lem_example = leader_of_lem engine view 0

settled_lem_example :
    (settled engine view 0 ≡ true)
    ↔ IsSettled faults (majority_group engine 0).0 (majority_group engine 0).1 (infos engine view 0)
settled_lem_example = settled_lem engine view 0

propose_lem_example :
    (((majority_group engine 0).1 ≡ false)
      × (propose world 0 (put_command 1 (pos 9)) answered ≡ (world, none, some quorum_unreachable)))
    ⊎ (((majority_group engine 0).1 ≡ true)
        × FromLeader world 0
            (put_command 1 (pos 9))
            answered
            (propose world 0 (put_command 1 (pos 9)) answered).1)
propose_lem_example = propose_lem world 0 (put_command 1 (pos 9)) answered

abbrev second : Name
second = record { id = 2; parsed = some (0, 1) }

kill_node_lem_example : Killed world 2 (replica engine (some (0, 1))) (kill_node world second)
kill_node_lem_example = kill_node_lem world second

heal_net_lem_example : Healed world (heal_net world)
heal_net_lem_example = heal_net_lem world

-- The status has the account of the leader, replica 2.
status_of_2 :
    (status engine view).accounts
    ≡ record { key = 65; shard = 0; balance = pos 9; locked_by = 0; stale = false } ∷ []
unfolding status leader_of paxos_2pc_payments.Faults.is_dead paxos_2pc_payments.Base.lookup
    partition new_faults paxos_2pc_payments.Faults.group_of paxos_2pc_payments.Base.insert
    paxos_2pc_payments.Base.erase infos
status_of_2 = refl
