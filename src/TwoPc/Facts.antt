-- ===== src/TwoPc/Facts.antt =====
-- internal/twopc/twopc.go: where one shard can stand in a transaction, and what each command of
-- the protocol does to that.
use paxos_2pc_payments.Base.{
  ℕ, ℤ, ◌≡◌, ◌≢◌, ◌⊎◌, inl, inr, refl, false, ◌&&◌, none, some, arith, ◌==◌, lookup, Option-cases,
  lookup-insert,
}
use paxos_2pc_payments.Ledger.{
  Command, Machine, Result, ok, op_eq, commit, abort, apply_locked, prepare_command, commit_command,
  settle, move_funds,
}
use paxos_2pc_payments.Ledger.Invariant.{Inv}
use paxos_2pc_payments.Ledger.Effect.{
  Effect, unchanged, wrote, moved, voted, settled, dropped, stale, barred, apply_locked-Effect,
}
use paxos_2pc_payments.Ledger.Steps.{apply_locked-Inv}
use paxos_2pc_payments.Ledger.Guarantee.{ends, Effect-Keeps, apply_prepare-Voted, commit_prepared}
use paxos_2pc_payments.Ledger.Decision.{IsCommitted, Effect-IsCommitted}

abbrev pub IsPrepared : Machine → ℕ → Type 0
IsPrepared m t = lookup t m.prepared ≢ none

-- Transaction `t` is prepared.
abbrev pub Waiting : ℕ → Machine → Type 0
Waiting t m = Inv m × IsPrepared m t

-- It is committed.
abbrev pub Done : ℕ → Machine → Type 0
Done t m = Inv m × IsCommitted m t

-- It is prepared or committed.
abbrev pub Bound : ℕ → Machine → Type 0
Bound t m = Inv m × (IsPrepared m t ⊎ IsCommitted m t)

-- It is not committed.
abbrev pub Clear : ℕ → Machine → Type 0
Clear t m = Inv m × (lookup t m.decided ≢ some commit)

pub Waiting-kept :
    (t : ℕ) (m : Machine) (c : Command)
    → ends t c ≡ false
    → Waiting t m
    → Waiting t (apply_locked m c).0
Waiting-kept t m c n (inv, p) = elim (Option-cases (lookup t m.prepared)) [
  | inl gone ↦ absurd (p gone)
  | inr (q, e) ↦ (
    apply_locked-Inv m c inv,
    λ h. ground (arith, (Effect-Keeps inv t q e n (apply_locked-Effect m c)).prepared),
  )
]

pub Done-kept : (t : ℕ) (m : Machine) (c : Command) → Done t m → Done t (apply_locked m c).0
Done-kept t m c (inv, h) =
    (apply_locked-Inv m c inv, Effect-IsCommitted inv t (apply_locked-Effect m c) h)

foreign-ends : (t : ℕ) (c : Command) → (c.tx == t) ≡ false → ends t c ≡ false
foreign-ends t c h = ground arith

pub Waiting-foreign :
    (t : ℕ) (m : Machine) (c : Command)
    → (c.tx == t) ≡ false
    → Waiting t m
    → Waiting t (apply_locked m c).0
Waiting-foreign t m c h = Waiting-kept t m c (foreign-ends t c h)

pub Bound-foreign :
    (t : ℕ) (m : Machine) (c : Command)
    → (c.tx == t) ≡ false
    → Bound t m
    → Bound t (apply_locked m c).0
Bound-foreign t m c h (inv, inl p) =
    let (inv', p') = Waiting-foreign t m c h (inv, p) in (inv', inl p')
Bound-foreign t m c h (inv, inr d) = let (inv', d') = Done-kept t m c (inv, d) in (inv', inr d')

settle-IsCommitted_self : (m : Machine) (c p : Command) → IsCommitted (settle m c p) c.tx
unfolding settle
settle-IsCommitted_self m c p = ground (arith, lookup-insert c.tx c.tx commit m.decided)

-- A commit settles what is prepared and leaves what is committed.
pub Bound-commit : (t : ℕ) (m : Machine) → Bound t m → Done t (apply_locked m (commit_command t)).0
Bound-commit t m (inv, inr d) = Done-kept t m (commit_command t) (inv, d)
Bound-commit t m (inv, inl p) = elim (Option-cases (lookup t m.prepared)) [
  | inl gone ↦ absurd (p gone)
  | inr (q, e) ↦ (
    apply_locked-Inv m (commit_command t) inv,
    rw (commit_prepared m q (commit_command t) inv refl e)
        (settle-IsCommitted_self m (commit_command t) q),
  )
]

-- A YES vote.
pub prepare-Waiting :
    (t key : ℕ) (delta : ℤ) (m : Machine)
    → Inv m
    → (apply_locked m (prepare_command t key delta)).1.code ≡ ok
    → Waiting t (apply_locked m (prepare_command t key delta)).0
unfolding apply_locked
prepare-Waiting t key delta m inv e =
    let v = apply_prepare-Voted m (prepare_command t key delta) e in
    (apply_locked-Inv m (prepare_command t key delta) inv, λ h. ground (arith, v.stored))

settle-decided_ne :
    (m : Machine) (c p : Command) (t : ℕ)
    → (c.tx == t) ≡ false
    → lookup t (settle m c p).decided ≡ lookup t m.decided
unfolding settle
settle-decided_ne m c p t h = ground (arith, lookup-insert t c.tx commit m.decided)

move_funds-decided : (m : Machine) (c : Command) → (move_funds m c).decided ≡ m.decided
unfolding move_funds
move_funds-decided m c = refl

-- Only a commit of `t` commits it.
Effect-Clear :
    (t : ℕ) {m : Machine} {c : Command} {out : Machine × Result}
    → (op_eq c.op commit && c.tx == t) ≡ false
    → Effect m c out
    → lookup t m.decided ≢ some commit
    → lookup t out.0.decided ≢ some commit
Effect-Clear t n (unchanged r) h = h
Effect-Clear t n (wrote o free fits) h = h
Effect-Clear t {m} {c} n (moved o free free' here there enough) h = rw (move_funds-decided m c) h
Effect-Clear t n (voted o fresh open_tx free here cover) h = h
Effect-Clear t {m} {c} n (settled p o e) h = rw (settle-decided_ne m c p t (ground arith)) h
Effect-Clear t {m} {c} n (dropped p o e x) h =
    λ q. ground (arith, h, lookup-insert t c.tx abort m.decided)
Effect-Clear t n (stale p o e y) h = h
Effect-Clear t {m} {c} n (barred o e x) h =
    λ q. ground (arith, h, lookup-insert t c.tx abort m.decided)

pub Clear-kept :
    (t : ℕ) (m : Machine) (c : Command)
    → (op_eq c.op commit && c.tx == t) ≡ false
    → Clear t m
    → Clear t (apply_locked m c).0
Clear-kept t m c n (inv, h) =
    (apply_locked-Inv m c inv, Effect-Clear t n (apply_locked-Effect m c) h)

pub Clear-foreign :
    (t : ℕ) (m : Machine) (c : Command)
    → (c.tx == t) ≡ false
    → Clear t m
    → Clear t (apply_locked m c).0
Clear-foreign t m c h = Clear-kept t m c (ground arith)
