-- ===== src/Ledger/Totals.antt =====
-- internal/ledger/ledger.go: the sum of the balances under each command.
use paxos_2pc_payments.Base.{
  ℕ, ℤ, pos, ◌≡◌, ◌≢◌, ◌+ℤ◌, ◌-ℤ◌, inl, inr, refl, true, none, some, [], ◌∷◌, if◌then◌else◌, ◌&&◌,
  not, ◌==◌, arith, ◌∙◌, ap, sub64, add64, lookup, insert, erase, contains, lookup-insert, int_laws,
  Dict, NodupKeys, IsInt64, insert-NodupKeys, add64_of_IsInt64, sub64_of_IsInt64, Option-cases,
  Bool-cases, erase_absent,
}
use paxos_2pc_payments.Ledger.{
  Op, Op-discrete, Command, put, commit, Machine, Result, move_funds, settle, balance, apply_locked,
  op_eq, is_committed, apply_commit,
}
use paxos_2pc_payments.Ledger.Invariant.{Inv}
use paxos_2pc_payments.Ledger.Effect.{
  Effect, unchanged, wrote, moved, voted, settled, dropped, stale, barred, apply_locked-Effect,
}
use paxos_2pc_payments.Ledger.Steps.{contains-insert}
use paxos_2pc_payments.Ledger.Guarantee.{dispatch_op}

-- The sum of the values of a map.
pub sum : Dict ℤ → ℤ
sum [] = pos 0
sum ((k, v) ∷ d) = v +ℤ sum d

abbrev pub total : Machine → ℤ
total m = sum m.balances

sum-erase :
    (k : ℕ) (v : ℤ) (d : Dict ℤ) → NodupKeys d → lookup k d ≡ some v → sum (erase k d) +ℤ v ≡ sum d
unfolding sum lookup erase
sum-erase k v [] n h = absurd (ground arith)
sum-erase k v ((j, w) ∷ d) n h = grind (int_laws, sum-erase k v d n.1, erase_absent k d)

-- A write to a key that is there.
sum-insert :
    (k : ℕ) (v w : ℤ) (d : Dict ℤ)
    → NodupKeys d
    → lookup k d ≡ some w
    → sum (insert k v d) +ℤ w ≡ sum d +ℤ v
unfolding sum insert
sum-insert k v w d n h = grind (int_laws, sum-erase k w d n h)

balance_found :
    (m : Machine) (k : ℕ) → contains k m.balances ≡ true → lookup k m.balances ≡ some (balance m k)
unfolding contains balance
balance_found m k h = ground arith

-- What a commit will add to its shard: the delta of a transaction that is prepared and not yet
-- committed. No other command but a put changes the sum.
abbrev pub booked : Machine → Command → ℤ
booked m c =
    if op_eq c.op commit && not (is_committed m c.tx)
    then elim (lookup c.tx m.prepared) [ none ↦ pos 0 | some p ↦ p.amount ]
    else pos 0

-- The sums that a command may form stay within an int64.
pub record NoOverflow (m : Machine) (c : Command) : Type 0 where
  pub current : IsInt64 (balance m c.key)
  pub debit : IsInt64 (balance m c.key -ℤ c.amount)
  pub credit : IsInt64 (balance m c.to +ℤ c.amount)
  pub settlement :
      (p : Command) → lookup c.tx m.prepared ≡ some p → IsInt64 (balance m p.key +ℤ p.amount)

sum-write :
    (m : Machine) (k : ℕ) (v : ℤ)
    → NodupKeys m.balances
    → contains k m.balances ≡ true
    → sum (insert k v m.balances) +ℤ balance m k ≡ total m +ℤ v
sum-write m k v n h = sum-insert k v (balance m k) m.balances n (balance_found m k h)

add_nothing : (a : ℤ) → a +ℤ pos 0 ≡ a
add_nothing a = omega int_laws

sub-add : (a b : ℤ) → a -ℤ b +ℤ b ≡ a
sub-add a b = omega int_laws

balance-insert :
    (m : Machine) (j k : ℕ) (v : ℤ)
    → balance (record m { balances = insert k v m.balances }) j
      ≡ (if k == j then v else balance m j)
unfolding balance
balance-insert m j k v = ground (arith, lookup-insert j k v m.balances)

module _ {m : Machine} (inv : Inv m) (c : Command) (fits : NoOverflow m c) where
  move_funds-total :
      contains c.key m.balances ≡ true
      → contains c.to m.balances ≡ true
      → total (move_funds m c) ≡ total m
  unfolding move_funds
  move_funds-total here there = grind (
    int_laws,
    sum-write m c.key v inv.nodup here,
    sum-write m₁ c.to (add64 (balance m₁ c.to) c.amount)
        (insert-NodupKeys c.key v m.balances inv.nodup)
        (contains-insert c.to c.key v m.balances there),
    sub64_of_IsInt64 (balance m c.key) c.amount fits.debit,
    add64_of_IsInt64 (balance m₁ c.to) c.amount in_range,
  )
    where
      v : ℤ
      v = sub64 (balance m c.key) c.amount

      m₁ : Machine
      m₁ = record m { balances = insert c.key v m.balances }

      in_range : IsInt64 (balance m₁ c.to +ℤ c.amount)
      in_range = ground (
        arith,
        balance-insert m c.to c.key v,
        fits.current,
        fits.credit,
        sub64_of_IsInt64 (balance m c.key) c.amount fits.debit,
        sub-add (balance m c.key) c.amount,
      )

  settle-total :
      (p : Command) → lookup c.tx m.prepared ≡ some p → total (settle m c p) ≡ total m +ℤ p.amount
  unfolding settle
  settle-total p e = grind (
    int_laws,
    sum-write m p.key (add64 (balance m p.key) p.amount) inv.nodup (inv.known c.tx p e),
    add64_of_IsInt64 (balance m p.key) p.amount (fits.settlement p e),
  )

  Effect-total :
      {out : Machine × Result} → c.op ≢ put → c.op ≢ commit → Effect m c out → total out.0 ≡ total m
  Effect-total np nc (unchanged r) = refl
  Effect-total np nc (wrote o free roomy) = absurd (np o)
  Effect-total np nc (moved o free free' here there enough) = move_funds-total here there
  Effect-total np nc (voted o fresh open_tx free here cover) = refl
  Effect-total np nc (settled p o e) = absurd (nc o)
  Effect-total np nc (dropped p o e n) = refl
  Effect-total np nc (stale p o e y) = refl
  Effect-total np nc (barred o e n) = refl

  commit-total : c.op ≡ commit → total (apply_commit m c).0 ≡ total m +ℤ booked m c
  unfolding apply_commit
  commit-total o = elim (Bool-cases (is_committed m c.tx)) [
    | inl done ↦ ground (arith, add_nothing (total m))
    | inr open_tx ↦ elim (Option-cases (lookup c.tx m.prepared)) [
      | inl gone ↦ ground (arith, add_nothing (total m))
      | inr (p, e) ↦ ground (arith, settle-total p e)
    ]
  ]

  other-total : c.op ≢ put → c.op ≢ commit → total (apply_locked m c).0 ≡ total m +ℤ booked m c
  other-total np nc = Effect-total np nc (apply_locked-Effect m c) ∙ not_booked c.op refl
    where
      not_booked : (o : Op) → c.op ≡ o → total m ≡ total m +ℤ booked m c
      not_booked commit e = absurd (nc e)
      not_booked _ e = ground (arith, add_nothing (total m))

-- Conservation: without an overflow, every command but a put leaves the sum of a shard's balances
-- as it was, except that the first commit of a prepared transaction adds that transaction's delta.
pub apply_locked-total :
    (m : Machine) (c : Command)
    → Inv m
    → NoOverflow m c
    → c.op ≢ put
    → total (apply_locked m c).0 ≡ total m +ℤ booked m c
apply_locked-total m c inv fits np = elim (Op-discrete c.op commit) [
  | yes o ↦ ap (λ r. total r.0) (dispatch_op m c commit o) ∙ commit-total inv c fits o
  | no o ↦ other-total inv c fits np o
]
