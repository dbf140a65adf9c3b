-- ===== src/Ledger/Guarantee.antt =====
-- internal/ledger/ledger.go: a YES vote of `prepareLocked` is a guarantee.
use paxos_2pc_payments.Base.{
  ℕ, ◌≡◌, ◌⊎◌, inl, inr, refl, Bool, true, false, ◌&&◌, ◌||◌, none, some, List, [], ◌∷◌, arith,
  ◌==◌, ℤ, pos, ◌≤ℤ◌, ltb_ℤ, add64, All, sym, ap, ap₂, subst, ◌∙◌, eqb_ℤ→eq, lookup, lookup-insert,
  lookup-erase, Option-cases, lookup-insert_self, lookup-erase_self,
}
use paxos_2pc_payments.Ledger.{
  commit_command, Op, op_eq, Command, command_eq, prepare, commit, abort, Machine, Result, ok,
  balance, move_funds, settle, apply_locked, run, overdraws, dispatch, served, apply_prepare, vote,
  apply_commit, commit_command,
}
use paxos_2pc_payments.Ledger.Invariant.{Inv}
use paxos_2pc_payments.Ledger.Effect.{
  Effect, unchanged, wrote, moved, voted, settled, dropped, stale, barred, apply_locked-Effect,
}
use paxos_2pc_payments.Ledger.Steps.{apply_locked-Inv, run-Inv}

-- The command decides transaction `t`.
abbrev pub ends : ℕ → Command → Bool
ends t c = (op_eq c.op commit || op_eq c.op abort) && c.tx == t

-- Transaction `t` stays prepared as `p`, and the balance of its account stays.
pub record Keeps (m : Machine) (t : ℕ) (p : Command) (m' : Machine) : Type 0 where
  pub prepared : lookup t m'.prepared ≡ some p
  pub balance : lookup p.key m'.balances ≡ lookup p.key m.balances

module _ {m : Machine} (inv : Inv m) (t : ℕ) (p : Command) (e : lookup t m.prepared ≡ some p) where
  open inv use {held, undecided, owner}

  move_funds-Keeps :
      (c : Command)
      → lookup c.key m.locks ≡ none
      → lookup c.to m.locks ≡ none
      → Keeps m t p (move_funds m c)
  unfolding move_funds
  move_funds-Keeps c free free' = record {
    prepared = e;
    balance = grind (arith, held t p, lookup-insert);
  }

  settle-Keeps :
      (c q : Command)
      → (c.tx == t) ≡ false
      → lookup c.tx m.prepared ≡ some q
      → Keeps m t p (settle m c q)
  unfolding settle
  settle-Keeps c q ne eq = record {
    prepared = ground (arith, lookup-erase t c.tx m.prepared);
    balance = grind (arith, held t p, held c.tx q, lookup-insert);
  }

  pub Effect-Keeps :
      {c : Command} {out : Machine × Result} → ends t c ≡ false → Effect m c out → Keeps m t p out.0
  Effect-Keeps n (unchanged r) = record { prepared = e; balance = refl }
  Effect-Keeps {c} n (wrote o free fits) = record {
    prepared = e;
    balance = ground (arith, held t p, lookup-insert p.key c.key c.amount m.balances);
  }
  Effect-Keeps {c} n (moved o free free' here there enough) = move_funds-Keeps c free free'
  Effect-Keeps {c} n (voted o fresh open_tx free here cover) = record {
    prepared = ground (arith, lookup-insert t c.tx c m.prepared);
    balance = refl;
  }
  Effect-Keeps {c} n (settled q o eq) = settle-Keeps c q (ground arith) eq
  Effect-Keeps {c} n (dropped q o eq no_c) = record {
    prepared = ground (arith, lookup-erase t c.tx m.prepared);
    balance = refl;
  }
  Effect-Keeps {c} n (stale q o eq y) = record {
    prepared = ground (arith, lookup-erase t c.tx m.prepared);
    balance = refl;
  }
  Effect-Keeps n (barred o eq no_c) = record { prepared = e; balance = refl }

pub run-Keeps :
    (m : Machine) (t : ℕ) (p : Command) (cs : List Command)
    → Inv m
    → lookup t m.prepared ≡ some p
    → All (λ c. ends t c ≡ false) cs
    → Keeps m t p (run m cs)
unfolding run
run-Keeps m t p [] inv e n = record { prepared = e; balance = refl }
run-Keeps m t p (c ∷ cs) inv e n =
    let k = Effect-Keeps inv t p e n.0 (apply_locked-Effect m c) in
    let k' = run-Keeps (apply_locked m c).0 t p cs (apply_locked-Inv m c inv) k.prepared n.1 in
    record { prepared = k'.prepared; balance = k'.balance ∙ k.balance }

-- Commands that the code finds equal have the same account and the same amount.
command_eq→eq : (a b : Command) → command_eq a b ≡ true → (a.key ≡ b.key) × (a.amount ≡ b.amount)
unfolding command_eq
command_eq→eq a b h = ground (arith, eqb_ℤ→eq a.amount b.amount)

-- What a YES vote leaves: the prepared command, covered, on the balance that was there.
pub record Voted (m : Machine) (c : Command) (m' : Machine) : Type 0 where
  pub command : Command
  pub stored : lookup c.tx m'.prepared ≡ some command
  pub same_key : command.key ≡ c.key
  pub same_amount : command.amount ≡ c.amount
  pub untouched : m'.balances ≡ m.balances

pub apply_prepare-Voted :
    (m : Machine) (c : Command) → (apply_prepare m c).1.code ≡ ok → Voted m c (apply_prepare m c).0
unfolding apply_prepare vote
apply_prepare-Voted m c h = elim (Option-cases (lookup c.tx m.prepared)) [
  | inr (p, old) ↦ record {
    command = p;
    stored = ground arith;
    same_key = ground (arith, command_eq→eq p c);
    same_amount = ground (arith, command_eq→eq p c);
    untouched = ground arith;
  }
  | inl fresh ↦ record {
    command = c;
    stored = ground (arith, lookup-insert_self c.tx c m.prepared);
    same_key = refl;
    same_amount = refl;
    untouched = ground arith;
  }
]

pub dispatch_op :
    (m : Machine) (c : Command) (o : Op) → c.op ≡ o → apply_locked m c ≡ dispatch o m c
unfolding apply_locked
dispatch_op m c o e = ap (λ x. dispatch x m c) e

pub apply_commit-settle :
    (m : Machine) (p c : Command)
    → lookup c.tx m.decided ≡ none
    → lookup c.tx m.prepared ≡ some p
    → apply_commit m c ≡ (settle m c p, served (balance (settle m c p) p.key))
unfolding apply_commit
apply_commit-settle m p c u e = ground arith

-- A commit of a transaction that is prepared as `p`.
pub commit_prepared :
    (m : Machine) (p c : Command)
    → Inv m
    → c.op ≡ commit
    → lookup c.tx m.prepared ≡ some p
    → apply_locked m c ≡ (settle m c p, served (balance (settle m c p) p.key))
commit_prepared m p c inv o e =
    dispatch_op m c commit o ∙ apply_commit-settle m p c (inv.undecided c.tx p e) e

settle_balance :
    (m : Machine) (c p : Command)
    → lookup p.key (settle m c p).balances ≡ some (add64 (balance m p.key) p.amount)
unfolding settle
settle_balance m c p = lookup-insert_self p.key (add64 (balance m p.key) p.amount) m.balances

settle_frees : (m : Machine) (c p : Command) → lookup p.key (settle m c p).locks ≡ none
unfolding settle
settle_frees m c p = lookup-erase_self p.key m.locks

covers : (b a : ℤ) → overdraws b a ≡ false → (ltb_ℤ a (pos 0) ≡ false) ⊎ (pos 0 ≤ℤ add64 b a)
unfolding overdraws
covers b a h = ground arith

balance_of :
    (m m' : Machine) (k : ℕ)
    → lookup k m.balances ≡ lookup k m'.balances
    → balance m k ≡ balance m' k
unfolding balance
balance_of m m' k e = rw (e, balance) refl

-- Once `prepareLocked` has voted YES on a command `c`, a commit of its transaction succeeds,
-- whatever other commands come in between, as long as none of them commits or aborts that
-- transaction. The account then holds the balance that it had at the vote plus the delta of `c`,
-- its lock is free, and if `c` debits, the new balance is not negative.
pub vote_guarantees_commit :
    (m : Machine) (c : Command) (cs : List Command)
    → Inv m
    → c.op ≡ prepare
    → (apply_locked m c).1.code ≡ ok
    → All (λ x. ends c.tx x ≡ false) cs
    → let (m', r) = apply_locked (run (apply_locked m c).0 cs) (commit_command c.tx) in
      (r.code ≡ ok)
      × (lookup c.key m'.balances ≡ some (add64 (balance m c.key) c.amount))
      × (lookup c.key m'.locks ≡ none)
      × ((ltb_ℤ c.amount (pos 0) ≡ false) ⊎ (pos 0 ≤ℤ add64 (balance m c.key) c.amount))
vote_guarantees_commit m c cs inv op accepted others =
    rw (commit_prepared m₂ p d inv₂ refl kept.prepared) (refl, funds, free, covered)
  where
    m₁ : Machine
    m₁ = (apply_locked m c).0

    v : Voted m c m₁
    v =
        subst (λ r. r.1.code ≡ ok → Voted m c r.0) (sym (dispatch_op m c prepare op))
          (apply_prepare-Voted m c) accepted

    p : Command
    p = v.command

    m₂ : Machine
    m₂ = run m₁ cs

    kept : Keeps m₁ c.tx p m₂
    kept = run-Keeps m₁ c.tx p cs (apply_locked-Inv m c inv) v.stored others

    inv₂ : Inv m₂
    inv₂ = run-Inv m₁ cs (apply_locked-Inv m c inv)

    d : Command
    d = commit_command c.tx

    before : balance m₂ p.key ≡ balance m c.key
    before =
        balance_of m₂ m p.key (kept.balance ∙ ap (lookup p.key) v.untouched)
        ∙ ap (balance m) v.same_key

    funds : lookup c.key (settle m₂ d p).balances ≡ some (add64 (balance m c.key) c.amount)
    funds =
        ap (λ k. lookup k (settle m₂ d p).balances) (sym v.same_key)
        ∙ settle_balance m₂ d p
        ∙ ap₂ (λ b a. some (add64 b a)) before v.same_amount

    free : lookup c.key (settle m₂ d p).locks ≡ none
    free = ap (λ k. lookup k (settle m₂ d p).locks) (sym v.same_key) ∙ settle_frees m₂ d p

    covered : (ltb_ℤ c.amount (pos 0) ≡ false) ⊎ (pos 0 ≤ℤ add64 (balance m c.key) c.amount)
    covered =
        covers (balance m c.key) c.amount
          (ap₂ overdraws (sym before) (sym v.same_amount) ∙ inv₂.covered c.tx p kept.prepared)
