-- ===== src/Ledger/Decision.antt =====
-- internal/ledger/ledger.go: a decision is final, and phase 2 is idempotent.
use paxos_2pc_payments.Base.{
  ℕ, ℤ, ◌≡◌, refl, none, some, List, [], ◌∷◌, arith, inl, inr, Option-cases, lookup, lookup-insert,
}
use paxos_2pc_payments.Ledger.{
  Op, Command, commit, abort, Machine, Result, ok, unknown_tx, fail, move_funds, settle,
  apply_locked, run, is_committed, apply_commit, apply_abort, apply_prepare, commit_command,
  abort_command, prepare_command,
}
use paxos_2pc_payments.Ledger.Invariant.{Inv}
use paxos_2pc_payments.Ledger.Effect.{
  Effect, unchanged, wrote, moved, voted, settled, dropped, stale, barred, apply_locked-Effect,
}
use paxos_2pc_payments.Ledger.Steps.{apply_locked-Inv, run-Inv}

-- Transaction `t` is committed, or aborted, on this machine.
abbrev pub IsCommitted : Machine → ℕ → Type 0
IsCommitted m t = lookup t m.decided ≡ some commit

abbrev pub IsAborted : Machine → ℕ → Type 0
IsAborted m t = lookup t m.decided ≡ some abort

module _ {m : Machine} (inv : Inv m) (t : ℕ) where
  open inv use {undecided}

  settle-IsCommitted : (c p : Command) → IsCommitted m t → IsCommitted (settle m c p) t
  unfolding settle
  settle-IsCommitted c p h = ground (arith, lookup-insert t c.tx commit m.decided)

  settle-IsAborted :
      (c p : Command) → lookup c.tx m.prepared ≡ some p → IsAborted m t → IsAborted (settle m c p) t
  unfolding settle
  settle-IsAborted c p e h = ground (arith, undecided c.tx p, lookup-insert t c.tx commit m.decided)

  move_funds-decided : (c : Command) → (move_funds m c).decided ≡ m.decided
  unfolding move_funds
  move_funds-decided c = refl

  pub Effect-IsCommitted :
      {c : Command} {out : Machine × Result}
      → Effect m c out
      → IsCommitted m t
      → IsCommitted out.0 t
  unfolding is_committed
  Effect-IsCommitted (unchanged r) h = h
  Effect-IsCommitted (wrote o free fits) h = h
  Effect-IsCommitted {c} (moved o free free' here there enough) h = rw (move_funds-decided c) h
  Effect-IsCommitted (voted o fresh open_tx free here cover) h = h
  Effect-IsCommitted {c} (settled p o e) h = settle-IsCommitted c p h
  Effect-IsCommitted {c} (dropped p o e n) h = ground (arith, lookup-insert t c.tx abort m.decided)
  Effect-IsCommitted (stale p o e y) h = h
  Effect-IsCommitted {c} (barred o e n) h = ground (arith, lookup-insert t c.tx abort m.decided)

  pub Effect-IsAborted :
      {c : Command} {out : Machine × Result} → Effect m c out → IsAborted m t → IsAborted out.0 t
  Effect-IsAborted (unchanged r) h = h
  Effect-IsAborted (wrote o free fits) h = h
  Effect-IsAborted {c} (moved o free free' here there enough) h = rw (move_funds-decided c) h
  Effect-IsAborted (voted o fresh open_tx free here cover) h = h
  Effect-IsAborted {c} (settled p o e) h = settle-IsAborted c p e h
  Effect-IsAborted {c} (dropped p o e n) h = ground (arith, lookup-insert t c.tx abort m.decided)
  Effect-IsAborted (stale p o e y) h = h
  Effect-IsAborted {c} (barred o e n) h = ground (arith, lookup-insert t c.tx abort m.decided)

pub run-IsCommitted :
    (m : Machine) (t : ℕ) (cs : List Command) → Inv m → IsCommitted m t → IsCommitted (run m cs) t
unfolding run
run-IsCommitted m t [] inv h = h
run-IsCommitted m t (c ∷ cs) inv h =
    run-IsCommitted (apply_locked m c).0 t cs (apply_locked-Inv m c inv)
      (Effect-IsCommitted inv t (apply_locked-Effect m c) h)

run-IsAborted :
    (m : Machine) (t : ℕ) (cs : List Command) → Inv m → IsAborted m t → IsAborted (run m cs) t
unfolding run
run-IsAborted m t [] inv h = h
run-IsAborted m t (c ∷ cs) inv h =
    run-IsAborted (apply_locked m c).0 t cs (apply_locked-Inv m c inv)
      (Effect-IsAborted inv t (apply_locked-Effect m c) h)

pub apply_commit_committed :
    (m : Machine) (c : Command) → IsCommitted m c.tx → apply_commit m c ≡ (m, fail ok)
unfolding apply_commit
apply_commit_committed m c h = ground arith

apply_commit_aborted :
    (m : Machine) (c : Command)
    → lookup c.tx m.prepared ≡ none
    → IsAborted m c.tx
    → apply_commit m c ≡ (m, fail unknown_tx)
unfolding apply_commit
apply_commit_aborted m c gone h = ground arith

apply_prepare_decided :
    (m : Machine) (c : Command) {op : Op}
    → lookup c.tx m.prepared ≡ none
    → lookup c.tx m.decided ≡ some op
    → apply_prepare m c ≡ (m, fail unknown_tx)
unfolding apply_prepare
apply_prepare_decided m c gone h = ground arith

apply_abort_committed :
    (m : Machine) (c : Command)
    → lookup c.tx m.prepared ≡ none
    → IsCommitted m c.tx
    → apply_abort m c ≡ (m, fail ok)
unfolding apply_abort is_committed
apply_abort_committed m c gone h = ground arith

pub decided-unprepared :
    (m : Machine) (t : ℕ) {op : Op}
    → Inv m
    → lookup t m.decided ≡ some op
    → lookup t m.prepared ≡ none
decided-unprepared m t inv h = elim (Option-cases (lookup t m.prepared)) [
  | inl e ↦ e
  | inr (p, e) ↦ absurd (ground (arith, inv.undecided t p e))
]

-- Once a transaction is committed on a shard, at any later time a retried commit and an abort of
-- it answer OK and change nothing, and a prepare of it is refused and changes nothing.
pub committed_is_final :
    (m : Machine) (cs : List Command) (t key : ℕ) (delta : ℤ)
    → Inv m
    → IsCommitted m t
    → let m' = run m cs in
      (apply_locked m' (commit_command t) ≡ (m', fail ok))
      × (apply_locked m' (abort_command t) ≡ (m', fail ok))
      × (apply_locked m' (prepare_command t key delta) ≡ (m', fail unknown_tx))
unfolding apply_locked
committed_is_final m cs t key delta inv h =
    let m' = run m cs in
    let h' = run-IsCommitted m t cs inv h in
    let gone = decided-unprepared m' t (run-Inv m cs inv) h' in
    (
      apply_commit_committed m' (commit_command t) h',
      apply_abort_committed m' (abort_command t) gone h',
      apply_prepare_decided m' (prepare_command t key delta) gone h',
    )

-- Once a transaction is aborted on a shard, at any later time a commit and a prepare of it are
-- refused and change nothing, so it never moves money there.
pub aborted_is_final :
    (m : Machine) (cs : List Command) (t key : ℕ) (delta : ℤ)
    → Inv m
    → IsAborted m t
    → let m' = run m cs in
      (apply_locked m' (commit_command t) ≡ (m', fail unknown_tx))
      × (apply_locked m' (prepare_command t key delta) ≡ (m', fail unknown_tx))
unfolding apply_locked
aborted_is_final m cs t key delta inv h =
    let m' = run m cs in
    let h' = run-IsAborted m t cs inv h in
    let gone = decided-unprepared m' t (run-Inv m cs inv) h' in
    (
      apply_commit_aborted m' (commit_command t) gone h',
      apply_prepare_decided m' (prepare_command t key delta) gone h',
    )
