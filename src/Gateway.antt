-- ===== src/Gateway.antt =====
-- gateway/transfer.go and gateway/registry.go: the coordinator of a transfer between two banks. The
-- banks are those of `Bank`; a call goes through the network, so what happens to each call, and
-- what else the banks do before it, is an argument. Messages of errors are left out.
pub mod Calls
pub mod Atomic
pub mod Unheard
use paxos_2pc_payments.Base.{
  ℕ, zero, suc, ◌+◌, Option, none, some, List, [], ◌∷◌, ℤ, Dict, lookup, insert, if◌then◌else◌,
}
use paxos_2pc_payments.Status.{Status, not_found, unavailable, data_loss, retriable}
use paxos_2pc_payments.Accounts.{Io}
use paxos_2pc_payments.Bank.{
  debit, credit, Participant, Append, Kind, cmd_prepare, cmd_commit, cmd_abort, Command, Answer,
  done, refused, apply_command, transaction_key,
}

-- The banks that are registered, by name: `bankRegistry.client` finds them.
abbrev pub World : Type 0
World = Dict Participant

-- A call that does not reach its bank, one whose answer is lost, and one that is answered.
pub data Delivery : Type 0 where
  lost unheard : Status → Delivery
  heard : Delivery

-- What a call meets: the commands that banks apply before it, its delivery, and the bank's files.
pub record Call : Type 0 where
  pub others : List (ℕ × Io × Append × Command)
  pub delivery : Delivery
  pub io : Io
  pub append : Append

-- A command at the leader of a bank.
unfoldable pub apply_at : Io → Append → World → ℕ → Command → World × Answer
apply_at io append w name c = elim (lookup name w) [
  | none ↦ (w, refused unavailable)
  | some p ↦ let (p', a) = apply_command io append p c in (insert name p' w, a)
]

unfoldable pub interfere : World → List (ℕ × Io × Append × Command) → World
interfere w [] = w
interfere w ((name, io, append, c) ∷ cs) = interfere (apply_at io append w name c).0 cs

abbrev pub deliver : Delivery → Io → Append → World → ℕ → Command → World × Answer
deliver (lost s) io append w name c = (w, refused s)
deliver (unheard s) io append w name c = ((apply_at io append w name c).0, refused s)
deliver heard io append w name c = apply_at io append w name c

-- One call of a bank.
unfoldable pub rpc : Call → World → ℕ → Command → World × Answer
rpc call w name c = deliver call.delivery call.io call.append (interfere w call.others) name c

-- `TransferRequest`
pub record Request : Type 0 where
  pub transaction : ℕ
  pub from_bank : ℕ
  pub to_bank : ℕ
  pub from_account : ℕ
  pub to_account : ℕ
  pub amount : ℤ

-- `debit` and `credit` of `transfer`, as the commands that the banks make of them.
abbrev pub debit_command : Request → Kind → Command
debit_command r kind = record {
  kind = kind;
  key = transaction_key r.transaction debit;
  op = debit;
  account = r.from_account;
  counterparty = r.to_account;
  amount = r.amount;
}

abbrev pub credit_command : Request → Kind → Command
credit_command r kind = record {
  kind = kind;
  key = transaction_key r.transaction credit;
  op = credit;
  account = r.to_account;
  counterparty = r.from_account;
  amount = r.amount;
}

abbrev pub commit_attempts : ℕ
commit_attempts = 3

-- What an attempt of `commit` leads to: the end, or the next attempt.
abbrev pub after_attempt :
    World
    → Option Participant
    → World × Answer
    → (Status → World × Option Status)
    → World × Option Status
after_attempt w none out next = (w, some not_found)
after_attempt w (some _) (w', done _) next = (w', none)
after_attempt w (some _) (w', refused s) next = if retriable s then next s else (w', some s)

-- The loop of `commit`, for the attempts that are left; `none` is success.
unfoldable pub commit_loop :
    (ℕ → Call) → ℕ → ℕ → Option Status → World → ℕ → Command → World × Option Status
commit_loop calls zero attempt last w name c = (w, last)
commit_loop calls (suc left) attempt last w name c =
    after_attempt w (lookup name w) (rpc (calls attempt) w name c)
      (λ s. commit_loop calls left (attempt + 1) (some s) (rpc (calls attempt) w name c).0 name c)

-- `commit`
unfoldable pub commit : (ℕ → Call) → World → ℕ → Command → World × Option Status
unfolding commit_loop
commit calls w name c = commit_loop calls commit_attempts 1 none w name c

-- What the calls of one transfer meet; a commit has a call for each attempt.
pub record Env : Type 0 where
  pub debit_vote : Call
  pub credit_vote : Call
  pub debit_commit : ℕ → Call
  pub credit_commit : ℕ → Call
  pub debit_abort : Call
  pub credit_abort : Call

-- `coordinator.abort`, whose error is only logged.
unfoldable pub abort : Call → World → ℕ → Command → World
abort call w name c = (rpc call w name c).0

-- The answer of a transfer whose debit is committed.
abbrev pub after_credit : World × Option Status → World × Option Status
after_credit (w, none) = (w, none)
after_credit (w, some s) = (w, some data_loss)

-- What `transfer` does after the commit of the debit.
abbrev pub after_debit : Env → Request → World × Option Status → World × Option Status
after_debit env r (w, some s) = (
  abort env.credit_abort (abort env.debit_abort w r.from_bank (debit_command r cmd_abort)) r.to_bank
      (credit_command r cmd_abort),
  some s,
)
after_debit env r (w, none) =
    after_credit (commit env.credit_commit w r.to_bank (credit_command r cmd_commit))

-- Phase 2 of `transfer`; `wrapPhase` keeps the status.
unfoldable pub phase_two : Env → World → Request → World × Option Status
unfolding commit abort
phase_two env w r =
    after_debit env r (commit env.debit_commit w r.from_bank (debit_command r cmd_commit))

-- What `transfer` does after the vote of the receiver's bank.
abbrev pub after_credit_vote : Env → Request → World × Answer → World × Option Status
after_credit_vote env r (w, refused s) =
    (abort env.debit_abort w r.from_bank (debit_command r cmd_abort), some s)
after_credit_vote env r (w, done _) = phase_two env w r

-- What `transfer` does after the vote of the sender's bank.
abbrev pub after_debit_vote : Env → Request → World × Answer → World × Option Status
after_debit_vote env r (w, refused s) = (w, some s)
after_debit_vote env r (w, done _) =
    after_credit_vote env r (rpc env.credit_vote w r.to_bank (credit_command r cmd_prepare))

-- `transfer`
unfoldable pub transfer : Env → World → Request → World × Option Status
unfolding phase_two abort rpc
transfer env w r = elim (lookup r.from_bank w) [
  | none ↦ (w, some not_found)
  | some _ ↦ elim (lookup r.to_bank w) [
    | none ↦ (w, some not_found)
    | some _ ↦
        after_debit_vote env r (rpc env.debit_vote w r.from_bank (debit_command r cmd_prepare))
  ]
]
