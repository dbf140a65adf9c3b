-- ===== src/Examples/SubCents.antt =====
-- bank/twopc.go and internal/accounts/accounts.go: debits of a part of a cent.
use paxos_2pc_payments.Base.{ℕ, ◌+◌, ◌≡◌, refl, zero, suc, List, [], ◌∷◌, ◌++◌, pos, negsuc}
use paxos_2pc_payments.Accounts.{Account, Io}
use paxos_2pc_payments.Accounts.Laws.{stored}
use paxos_2pc_payments.Bank.{
  debit, Append, synced, Command, Kind, cmd_prepare, cmd_commit, run, new_participant, open_ledger,
}
use paxos_2pc_payments.Bank.Promise.{working}

-- One account, with 1.00.
abbrev rows : List Account
rows = record { id = 1; username = 1; password = 0; bank = 1; balance = pos 1000 } ∷ []

abbrev entry : Kind → ℕ → ℕ → Io × Append × Command
entry kind key amount = (
  working,
  synced,
  record { kind = kind; key = key; op = debit; account = 1; counterparty = 9; amount = pos amount },
)

-- A command for each key below a number.
abbrev each : Kind → ℕ → ℕ → List (Io × Append × Command)
each kind zero amount = []
each kind (suc k) amount = entry kind k amount ∷ each kind k amount

-- Ten debits of 0.006 and one of 0.93 are all covered by 1.00, and leave -0.03.
overdrawn_by_rounding :
    stored
      (run (new_participant rows (open_ledger [])) (
        entry cmd_prepare 20 930 ∷ each cmd_prepare 10 6
        ++ each cmd_commit 10 6
        ++ entry cmd_commit 20 930 ∷ [])).accounts
      1
    ≡ negsuc 29
unfolding stored paxos_2pc_payments.Accounts.find run paxos_2pc_payments.Bank.apply_command
    paxos_2pc_payments.Bank.commit paxos_2pc_payments.Bank.has paxos_2pc_payments.Base.lookup
    paxos_2pc_payments.Bank.prepare new_participant open_ledger paxos_2pc_payments.Accounts.balance
    paxos_2pc_payments.Base.◌-ℤ◌ paxos_2pc_payments.Bank.reserved paxos_2pc_payments.Base.insert
    paxos_2pc_payments.Base.erase paxos_2pc_payments.Base.◌+ℤ◌ paxos_2pc_payments.Accounts.add_delta
    paxos_2pc_payments.Accounts.written paxos_2pc_payments.Accounts.cents
overdrawn_by_rounding = refl
