-- ===== src/Ledger/Steps.antt =====
-- internal/ledger/ledger.go: every command keeps the invariant, and a refusal changes nothing.
use paxos_2pc_payments.Base.{
  ℕ, ◌≡◌, ◌≢◌, inl, inr, refl, true, false, none, some, List, [], ◌∷◌, arith, ◌<◌, ◌≤◌, length,
  lookup, insert, contains, lookup-insert, lookup-erase_self, length-insert_le,
  length-insert_present, Bool-cases, sub64, Option-cases, Dict, ℤ,
}
use paxos_2pc_payments.Ledger.{
  Command, commit, abort, Machine, Result, ok, balance, move_funds, settle, apply_locked, run,
}
use paxos_2pc_payments.Ledger.Invariant.{Inv, write-Inv, hold-Inv, drop-Inv, decide-Inv}
use paxos_2pc_payments.Ledger.Effect.{
  Effect, unchanged, wrote, moved, voted, settled, dropped, stale, barred, apply_locked-Effect,
}

-- Writing to an account that exists keeps the bound on their number.
few-insert :
    (n k : ℕ) (v : ℤ) (d : Dict ℤ)
    → contains k d ≡ true
    → (0 < n → length d ≤ n)
    → 0 < n
    → length (insert k v d) ≤ n
unfolding contains
few-insert n k v d h few p = elim (Option-cases (lookup k d)) [
  | inl gone ↦ absurd (ground arith)
  | inr (w, e) ↦ omega (arith, length-insert_present k v {w = w} d e)
]

pub contains-insert :
    (j k : ℕ) (v : ℤ) (d : Dict ℤ) → contains j d ≡ true → contains j (insert k v d) ≡ true
unfolding contains
contains-insert j k v d h = ground (arith, lookup-insert j k v d)

few-write :
    (n k : ℕ) (v : ℤ) (d : Dict ℤ)
    → (contains k d ≡ false → 0 < n → length d < n)
    → (0 < n → length d ≤ n)
    → 0 < n
    → length (insert k v d) ≤ n
few-write n k v d new old p = elim (Bool-cases (contains k d)) [
  | inl e ↦ few-insert n k v d e old p
  | inr e ↦ omega (arith, new e p, length-insert_le k v d)
]

module _ {m : Machine} (inv : Inv m) where
  move_funds-Inv :
      (c : Command)
      → lookup c.key m.locks ≡ none
      → lookup c.to m.locks ≡ none
      → contains c.key m.balances ≡ true
      → contains c.to m.balances ≡ true
      → Inv (move_funds m c)
  unfolding move_funds
  move_funds-Inv c free free' here there =
      let v : ℤ = sub64 (balance m c.key) c.amount in
      let fits = few-insert m.max_keys c.key v m.balances here inv.few in
      write-Inv (write-Inv inv c.key v free fits) c.to _ free' (
        few-insert m.max_keys c.to _ (insert c.key v m.balances)
          (contains-insert c.to c.key v m.balances there) fits)

  settle-Inv : (c p : Command) → lookup c.tx m.prepared ≡ some p → Inv (settle m c p)
  unfolding settle
  settle-Inv c p e =
      write-Inv (decide-Inv (drop-Inv inv c.tx p e) c.tx commit (lookup-erase_self c.tx m.prepared))
        p.key _ (lookup-erase_self p.key m.locks)
        (few-insert m.max_keys p.key _ m.balances (inv.known c.tx p e) inv.few)

  Effect-Inv : {c : Command} {out : Machine × Result} → Effect m c out → Inv out.0
  Effect-Inv (unchanged r) = inv
  Effect-Inv {c} (wrote o free fits) =
      write-Inv inv c.key c.amount free
        (few-write m.max_keys c.key c.amount m.balances fits inv.few)
  Effect-Inv {c} (moved o free free' here there enough) = move_funds-Inv c free free' here there
  Effect-Inv {c} (voted o fresh open_tx free here cover) =
      hold-Inv inv c free fresh open_tx here cover
  Effect-Inv {c} (settled p o e) = settle-Inv c p e
  Effect-Inv {c} (dropped p o e n) =
      decide-Inv (drop-Inv inv c.tx p e) c.tx abort (lookup-erase_self c.tx m.prepared)
  Effect-Inv {c} (stale p o e y) = drop-Inv inv c.tx p e
  Effect-Inv {c} (barred o e n) = decide-Inv inv c.tx abort e

-- Every command keeps the invariant of the machine: locks and prepared transactions match, no
-- prepared transaction is decided, every prepared debit is covered, and the number of accounts
-- stays within its bound.
pub apply_locked-Inv : (m : Machine) (c : Command) → Inv m → Inv (apply_locked m c).0
apply_locked-Inv m c inv = Effect-Inv inv (apply_locked-Effect m c)

pub run-Inv : (m : Machine) (cs : List Command) → Inv m → Inv (run m cs)
unfolding run
run-Inv m [] inv = inv
run-Inv m (c ∷ cs) inv = run-Inv (apply_locked m c).0 cs (apply_locked-Inv m c inv)

Effect-refused :
    {m : Machine} {c : Command} {out : Machine × Result}
    → Effect m c out
    → out.1.code ≢ ok
    → out.0 ≡ m
Effect-refused (unchanged r) h = refl
Effect-refused (wrote _ _ _) h = absurd (h refl)
Effect-refused (moved _ _ _ _ _ _) h = absurd (h refl)
Effect-refused (voted _ _ _ _ _ _) h = absurd (h refl)
Effect-refused (settled _ _ _) h = absurd (h refl)
Effect-refused (dropped _ _ _ _) h = absurd (h refl)
Effect-refused (stale _ _ _ _) h = absurd (h refl)
Effect-refused (barred _ _ _) h = absurd (h refl)

-- A command that is refused, for whatever reason, leaves the machine as it was.
pub apply_locked_refused :
    (m : Machine) (c : Command) → (apply_locked m c).1.code ≢ ok → (apply_locked m c).0 ≡ m
apply_locked_refused m c h = Effect-refused (apply_locked-Effect m c) h
