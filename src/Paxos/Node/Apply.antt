-- ===== src/Paxos/Node/Apply.antt =====
-- internal/paxos/node.go: `drainApplicable`, which hands the committed commands to the state
-- machine in slot order.
use paxos_2pc_payments.Base.{
  ℕ, zero, suc, ◌+◌, Option, none, some, List, [], ◌∷◌, if◌then◌else◌, lookup, erase,
}
use paxos_2pc_payments.Paxos.Log.{Entry, is_noop, get}
use paxos_2pc_payments.Paxos.Node.{Node, is_committed}

-- The next slot of a node, if it is committed and its entry is stored.
abbrev pub applicable : Node → Option Entry
applicable n =
    if is_committed n (n.applied_index + 1) then get n.log (n.applied_index + 1) else none

-- The node after its next slot is applied: nobody waits for that slot any more.
unfoldable pub advance : Node → Node
advance n = record n {
  applied_index = n.applied_index + 1;
  results = erase (n.applied_index + 1) n.results;
}

-- `StateMachine.Apply`, which the package does not implement.
module _ {S R : Type 0} (step : S → ℕ → List ℕ → S × R) where
  -- A no-op is not applied, and has no result.
  unfoldable pub apply_entry : S → ℕ → Entry → S × Option R
  unfolding is_noop
  apply_entry st slot e =
      if is_noop e then (st, none) else (let (st', r) = step st slot e.command in (st', some r))

  -- The result for the caller that waits for a slot.
  abbrev pub notify : Option ℕ → Option R → List (ℕ × Option R) → List (ℕ × Option R)
  notify none r rest = rest
  notify (some waiter) r rest = (waiter, r) ∷ rest

  -- The loop, for at most `fuel` slots: the node, the state, and the results handed over.
  unfoldable pub drain : ℕ → Node → S → Node × S × List (ℕ × Option R)
  unfolding apply_entry advance
  drain zero n st = (n, st, [])
  drain (suc fuel) n st = elim (applicable n) [
    | none ↦ (n, st, [])
    | some e ↦
        let (st', r) = apply_entry st (n.applied_index + 1) e in
        let (n', st'', out) = drain fuel (advance n) st' in
        (n', st'', notify (lookup (n.applied_index + 1) n.results) r out)
  ]
