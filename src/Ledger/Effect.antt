-- ===== src/Ledger/Effect.antt =====
-- internal/ledger/ledger.go: the transitions of a machine as a step relation, one constructor for
-- each way in which `applyLocked` changes the state, and that the code makes no other.
use paxos_2pc_payments.Base.{
  ℕ, ◌≡◌, ◌<◌, inl, inr, refl, true, false, none, some, List, ◌∷◌, arith, lookup, insert, erase,
  contains, Option-cases, length, ltb_ℤ,
}
use paxos_2pc_payments.Ledger.{
  Op, put, get, transfer, prepare, commit, abort, unknown_op, Command, Machine, Result, ok, served,
  fail, balance, overdraws, check_locked, apply_put, apply_get, move_funds, apply_transfer, vote,
  apply_prepare, settle, apply_commit, apply_abort, apply_locked, is_committed, dispatch,
}

-- What a command `c` did to a machine `m`, with the state and the result that it left.
pub data Effect (m : Machine) (c : Command) : Machine × Result → Type 0 where
  unchanged : (r : Result) → Effect m c (m, r)
  wrote :
      c.op ≡ put
      → lookup c.key m.locks ≡ none
      → (contains c.key m.balances ≡ false → 0 < m.max_keys → length m.balances < m.max_keys)
      → Effect m c (record m { balances = insert c.key c.amount m.balances }, served c.amount)
  moved :
      c.op ≡ transfer
      → lookup c.key m.locks ≡ none
      → lookup c.to m.locks ≡ none
      → contains c.key m.balances ≡ true
      → contains c.to m.balances ≡ true
      → ltb_ℤ (balance m c.key) c.amount ≡ false
      → Effect m c (move_funds m c, served (balance (move_funds m c) c.key))
  voted :
      c.op ≡ prepare
      → lookup c.tx m.prepared ≡ none
      → lookup c.tx m.decided ≡ none
      → lookup c.key m.locks ≡ none
      → contains c.key m.balances ≡ true
      → overdraws (balance m c.key) c.amount ≡ false
      → Effect m c (
        record m { locks = insert c.key c.tx m.locks; prepared = insert c.tx c m.prepared },
        served (balance m c.key),
      )
  settled :
      (p : Command)
      → c.op ≡ commit
      → lookup c.tx m.prepared ≡ some p
      → Effect m c (settle m c p, served (balance (settle m c p) p.key))
  dropped :
      (p : Command)
      → c.op ≡ abort
      → lookup c.tx m.prepared ≡ some p
      → is_committed m c.tx ≡ false
      → Effect m c (
        record m {
          locks = erase p.key m.locks;
          prepared = erase c.tx m.prepared;
          decided = insert c.tx abort m.decided;
        },
        fail ok,
      )
  stale :
      (p : Command)
      → c.op ≡ abort
      → lookup c.tx m.prepared ≡ some p
      → is_committed m c.tx ≡ true
      → Effect m c
          (record m { locks = erase p.key m.locks; prepared = erase c.tx m.prepared }, fail ok)
  barred :
      c.op ≡ abort
      → lookup c.tx m.prepared ≡ none
      → is_committed m c.tx ≡ false
      → Effect m c (record m { decided = insert c.tx abort m.decided }, fail ok)

-- A key that passes the check exists and is free.
check_locked-free :
    (m : Machine) (k : ℕ) (ks : List ℕ)
    → check_locked m (k ∷ ks) ≡ none
    → (contains k m.balances ≡ true) × (lookup k m.locks ≡ none) × (check_locked m ks ≡ none)
unfolding check_locked contains
check_locked-free m k ks h = ground arith

module _ (m : Machine) (c : Command) where
  put-Effect : c.op ≡ put → Effect m c (apply_put m c)
  unfolding apply_put contains
  put-Effect e = grind (arith, unchanged, wrote)

  get-Effect : c.op ≡ get → Effect m c (apply_get m c)
  unfolding apply_get
  get-Effect e = grind (arith, unchanged)

  transfer-Effect : c.op ≡ transfer → Effect m c (apply_transfer m c)
  unfolding apply_transfer contains
  transfer-Effect e = grind (arith, unchanged, moved)

  vote-Effect :
      c.op ≡ prepare
      → lookup c.tx m.prepared ≡ none
      → lookup c.tx m.decided ≡ none
      → Effect m c (vote m c)
  unfolding vote contains
  vote-Effect e f d = grind (arith, unchanged, voted)

  prepare-Effect : c.op ≡ prepare → Effect m c (apply_prepare m c)
  unfolding apply_prepare
  prepare-Effect e = elim (Option-cases (lookup c.tx m.prepared)) [
    | inr (p, old) ↦ rw (old, apply_prepare) (unchanged _)
    | inl fresh ↦ elim (Option-cases (lookup c.tx m.decided)) [
      | inr (d, done) ↦ rw (fresh, apply_prepare, done) (unchanged _)
      | inl free ↦ rw (fresh, apply_prepare, free) (vote-Effect e fresh free)
    ]
  ]

  commit-Effect : c.op ≡ commit → Effect m c (apply_commit m c)
  unfolding apply_commit
  commit-Effect e = grind (arith, unchanged, settled)

  abort-Effect : c.op ≡ abort → Effect m c (apply_abort m c)
  unfolding apply_abort is_committed
  abort-Effect e = elim (Option-cases (lookup c.tx m.prepared)) [
    | inl gone ↦ grind (arith, unchanged, barred)
    | inr (p, old) ↦ grind (arith, dropped, stale)
  ]

-- Every command has one of the effects.
pub apply_locked-Effect : (m : Machine) (c : Command) → Effect m c (apply_locked m c)
unfolding apply_locked
apply_locked-Effect m c = by_op c.op refl
  where
    by_op : (op : Op) → c.op ≡ op → Effect m c (dispatch op m c)
    by_op put e = put-Effect m c e
    by_op get e = get-Effect m c e
    by_op transfer e = transfer-Effect m c e
    by_op prepare e = prepare-Effect m c e
    by_op commit e = commit-Effect m c e
    by_op abort e = abort-Effect m c e
    by_op (unknown_op n) e = unchanged _
