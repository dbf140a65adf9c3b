-- ===== src/Examples/Applying.antt =====
-- internal/paxos/node.go: a replica with two committed slots, for a machine that counts bytes.
use paxos_2pc_payments.Base.{
  ℕ, ◌+◌, ◌≡◌, ◌≤◌, ◌<◌, refl, true, none, List, [], ◌∷◌, arith, length, lookup,
}
use paxos_2pc_payments.Paxos.Log.{get}
use paxos_2pc_payments.Paxos.Node.{Node, new_node}
use paxos_2pc_payments.Paxos.Node.Apply.{applicable, drain}
use paxos_2pc_payments.Paxos.Drain.{Reflects, drain-Reflects, drain_complete, drain-Agree}
use paxos_2pc_payments.Paxos.Drain.Notified.{Notified, result_at, drain-Notified}
use paxos_2pc_payments.Examples.Logs.{memory, memory-IsValid, env, defaults}

abbrev counting : ℕ → ℕ → List ℕ → ℕ × ℕ
counting n slot command = (n + length command, slot)

-- A caller waits for slot 2.
abbrev node : Node
node = record (new_node env 1 (1 ∷ 2 ∷ 3 ∷ []) memory defaults) {
  committed = (1, true) ∷ (2, true) ∷ [];
  results = (2, 40) ∷ [];
}

-- A second replica, which has not heard of slot 2 yet.
abbrev behind : Node
behind = record (new_node env 2 (1 ∷ 2 ∷ 3 ∷ []) memory defaults) { committed = (1, true) ∷ [] }

drain-Reflects_example : Reflects counting 0 (drain counting 3 node 0).0 (drain counting 3 node 0).1
unfolding new_node
drain-Reflects_example = drain-Reflects counting 0 3 node 0 refl

drain_complete_example : applicable (drain counting 3 node 0).0 ≡ none
unfolding new_node paxos_2pc_payments.Paxos.Log.accept paxos_2pc_payments.Paxos.Log.new_mem_log
drain_complete_example = drain_complete counting 3 node 0 memory-IsValid short
  where
    short : node.log.max_slot < node.applied_index + 3
    short = omega arith

drain-Agree_example : (drain counting 1 node 0).1 ≡ (drain counting 3 behind 0).1
unfolding new_node drain lookup paxos_2pc_payments.Base.erase get
    paxos_2pc_payments.Paxos.Log.accept paxos_2pc_payments.Paxos.Log.new_mem_log
    paxos_2pc_payments.Base.insert
drain-Agree_example = drain-Agree counting 0 1 3 node behind 0 0 refl refl refl (refl, tt)

drain-Notified_example :
    Notified counting (40, result_at counting 0 node.log 2) (drain counting 3 node 0).2
    × (lookup 2 (drain counting 3 node 0).0.results ≡ none)
unfolding drain lookup new_node get paxos_2pc_payments.Paxos.Log.accept
    paxos_2pc_payments.Paxos.Log.new_mem_log paxos_2pc_payments.Base.insert
    paxos_2pc_payments.Base.erase
drain-Notified_example =
    drain-Notified counting 0 3 node 0 2 40 refl refl (omega arith) both_applied
  where
    both_applied : 2 ≤ (drain counting 3 node 0).0.applied_index
    both_applied = omega arith
