-- ===== src/Ledger.antt =====
-- internal/ledger/ledger.go: the state machine that each shard replicates, a map of balances with
-- the lock table of two-phase commit. Account and transaction names are only compared, so they are
-- numbers; balances and amounts are int64, with Go's wrap-around. The texts of results are for
-- display and are left out, so a result is its code and its number.
pub mod Invariant
pub mod Effect
pub mod Steps
pub mod Guarantee
pub mod Decision
pub mod Totals
use native.Mathlib.Decide.{ℕ_discrete}
use paxos_2pc_payments.Base.{
  ℕ, Bool, false, ◌&&◌, not, Option, none, some, List, [], ◌∷◌, ℤ, pos, ltb_ℤ, eqb_ℤ, add64, sub64,
  ltb, leb, ◌==◌, if◌then◌else◌, length, Dict, lookup, insert, erase, contains,
}

-- `Op`; a log entry may carry any other string, too.
pub data Op : Type 0 where
  put get transfer prepare commit abort : Op
  unknown_op : ℕ → Op

pub Op-discrete : Discrete Op
Op-discrete = hlevel ℕ_discrete

abbrev pub op_code : Op → ℕ
op_code put = 0
op_code get = 1
op_code transfer = 2
op_code prepare = 3
op_code commit = 4
op_code abort = 5
op_code (unknown_op n) = 6

-- `==` on two values of `Op`.
abbrev pub op_eq : Op → Op → Bool
op_eq (unknown_op a) (unknown_op b) = a == b
op_eq a b = op_code a == op_code b

pub record Command : Type 0 where
  pub op : Op
  pub key : ℕ
  pub to : ℕ
  pub amount : ℤ
  pub tx : ℕ

-- `existing == c`, on structs.
unfoldable pub command_eq : Command → Command → Bool
command_eq a b =
    op_eq a.op b.op && a.key == b.key && a.to == b.to && eqb_ℤ a.amount b.amount && a.tx == b.tx

pub data Code : Type 0 where
  ok no_such_key insufficient locked too_many_keys unknown_tx bad_command : Code

-- The sentinel errors of `Result.Err`.
pub data Sentinel : Type 0 where
  err_no_such_key err_insufficient_funds err_locked err_too_many_keys : Sentinel
  err_unknown_tx err_bad_command : Sentinel

pub record Result : Type 0 where
  pub code : Code
  pub value : ℤ
  pub slot : ℕ

abbrev pub sentinel : Code → Option Sentinel
sentinel ok = none
sentinel no_such_key = some err_no_such_key
sentinel insufficient = some err_insufficient_funds
sentinel locked = some err_locked
sentinel too_many_keys = some err_too_many_keys
sentinel unknown_tx = some err_unknown_tx
sentinel bad_command = some err_bad_command

abbrev pub err : Result → Option Sentinel
err r = sentinel r.code

-- A result without a value, as the code writes it before `Apply` fills the slot in.
abbrev pub fail : Code → Result
fail c = record { code = c; value = pos 0; slot = 0 }

abbrev pub served : ℤ → Result
served v = record { code = ok; value = v; slot = 0 }

pub record Machine : Type 0 where
  pub max_keys : ℕ
  pub balances : Dict ℤ
  pub locks : Dict ℕ
  pub prepared : Dict Command
  pub decided : Dict Op

unfoldable pub new : ℕ → Machine
new max_keys = record {
  max_keys = max_keys;
  balances = [];
  locks = [];
  prepared = [];
  decided = [];
}

-- `m.balances[k]`, which is 0 for a missing key.
unfoldable pub balance : Machine → ℕ → ℤ
balance m k = elim (lookup k m.balances) [ none ↦ pos 0 | some v ↦ v ]

-- `m.decided[tx] == OpCommit`
unfoldable pub is_committed : Machine → ℕ → Bool
is_committed m tx = elim (lookup tx m.decided) [ none ↦ false | some op ↦ op_eq op commit ]

-- `checkLocked`: the result of the first key that is missing or held.
unfoldable pub check_locked : Machine → List ℕ → Option Result
check_locked m [] = none
check_locked m (k ∷ ks) =
    let rest = check_locked m ks in
    if not (contains k m.balances)
    then some (fail no_such_key)
    else (if contains k m.locks then some (fail locked) else rest)

unfoldable pub apply_put : Machine → Command → Machine × Result
apply_put m c =
    if contains c.key m.locks
    then (m, fail locked)
    else (if not (contains c.key m.balances)
          && ltb 0 m.max_keys
          && leb m.max_keys (length m.balances)
        then (m, fail too_many_keys)
        else (record m { balances = insert c.key c.amount m.balances }, served c.amount))

unfoldable pub apply_get : Machine → Command → Machine × Result
apply_get m c = elim (lookup c.key m.balances) [
  | none ↦ (m, fail no_such_key)
  | some v ↦ (m, served v)
]

-- The two writes of a transfer, the second over what the first has left.
unfoldable pub move_funds : Machine → Command → Machine
unfolding balance
move_funds m c =
    let m₁ = record m { balances = insert c.key (sub64 (balance m c.key) c.amount) m.balances } in
    record m₁ { balances = insert c.to (add64 (balance m₁ c.to) c.amount) m₁.balances }

unfoldable pub apply_transfer : Machine → Command → Machine × Result
unfolding check_locked
apply_transfer m c = elim (check_locked m (c.key ∷ c.to ∷ [])) [
  | some r ↦ (m, r)
  | none ↦
      if ltb_ℤ (balance m c.key) c.amount
      then (m, fail insufficient)
      else (move_funds m c, served (balance (move_funds m c) c.key))
]

-- `c.Amount < 0 && balance+c.Amount < 0`, the overdraft test of a prepare.
unfoldable pub overdraws : ℤ → ℤ → Bool
overdraws b amount = ltb_ℤ amount (pos 0) && ltb_ℤ (add64 b amount) (pos 0)

-- A new vote, once the transaction is neither prepared nor decided here.
unfoldable pub vote : Machine → Command → Machine × Result
unfolding check_locked
vote m c = elim (check_locked m (c.key ∷ [])) [
  | some r ↦ (m, r)
  | none ↦ if overdraws (balance m c.key) c.amount then (m, fail insufficient) else (
    record m { locks = insert c.key c.tx m.locks; prepared = insert c.tx c m.prepared },
    served (balance m c.key),
  )
]

-- `prepareLocked`
unfoldable pub apply_prepare : Machine → Command → Machine × Result
unfolding vote
apply_prepare m c = elim (lookup c.tx m.prepared) [
  | some existing ↦ (m, if command_eq existing c then fail ok else fail bad_command)
  | none ↦ elim (lookup c.tx m.decided) [ some op ↦ (m, fail unknown_tx) | none ↦ vote m c ]
]

-- A commit of the prepared command `p`.
unfoldable pub settle : Machine → Command → Command → Machine
unfolding balance
settle m c p = record m {
  balances = insert p.key (add64 (balance m p.key) p.amount) m.balances;
  locks = erase p.key m.locks;
  prepared = erase c.tx m.prepared;
  decided = insert c.tx commit m.decided;
}

unfoldable pub apply_commit : Machine → Command → Machine × Result
unfolding settle is_committed
apply_commit m c = if is_committed m c.tx then (m, fail ok) else elim (lookup c.tx m.prepared) [
  | none ↦ (m, fail unknown_tx)
  | some p ↦ (settle m c p, served (balance (settle m c p) p.key))
]

-- The lock and the prepare of a transaction that is aborted, if it has one.
unfoldable pub release : Machine → ℕ → Machine
release m tx = elim (lookup tx m.prepared) [
  | none ↦ m
  | some p ↦ record m { locks = erase p.key m.locks; prepared = erase tx m.prepared }
]

unfoldable pub apply_abort : Machine → Command → Machine × Result
unfolding release is_committed
apply_abort m c =
    let m₁ = release m c.tx in
    (
      if is_committed m₁ c.tx then m₁ else record m₁ { decided = insert c.tx abort m₁.decided },
      fail ok,
    )

abbrev dispatch : Op → Machine → Command → Machine × Result
dispatch put m c = apply_put m c
dispatch get m c = apply_get m c
dispatch transfer m c = apply_transfer m c
dispatch prepare m c = apply_prepare m c
dispatch commit m c = apply_commit m c
dispatch abort m c = apply_abort m c
dispatch (unknown_op n) m c = (m, fail bad_command)

-- `applyLocked`
unfoldable pub apply_locked : Machine → Command → Machine × Result
apply_locked m c = dispatch c.op m c

-- `Apply`, over what `Decode` makes of the bytes of a log entry.
module _ {Raw : Type 0} (decode : Raw → Option Command) where
  unfoldable pub apply : Machine → ℕ → Raw → Machine × Result
  apply m slot raw = elim (decode raw) [
    | none ↦ (m, record { code = bad_command; value = pos 0; slot = slot })
    | some c ↦ let (m', r) = apply_locked m c in (m', record r { slot = slot })
  ]

-- The state after a list of commands.
unfoldable pub run : Machine → List Command → Machine
run m [] = m
run m (c ∷ cs) = run (apply_locked m c).0 cs

-- The commands of a shard's side of a transaction: `participant.Prepare`, `Commit` and `Abort` of
-- internal/cluster/engine.go. A field that a struct literal leaves out is zero.
abbrev pub prepare_command : ℕ → ℕ → ℤ → Command
prepare_command tx key delta = record { op = prepare; key = key; to = 0; amount = delta; tx = tx }

abbrev pub commit_command : ℕ → Command
commit_command tx = record { op = commit; key = 0; to = 0; amount = pos 0; tx = tx }

abbrev pub abort_command : ℕ → Command
abort_command tx = record { op = abort; key = 0; to = 0; amount = pos 0; tx = tx }
