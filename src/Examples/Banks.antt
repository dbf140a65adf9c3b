-- ===== src/Examples/Banks.antt =====
-- bank/ and gateway/: a bank with two accounts, and a transfer of 30 thousandths between two banks.
use paxos_2pc_payments.Base.{
  ℕ, ◌+◌, ◌≡◌, ◌⊎◌, refl, true, false, some, List, [], ◌∷◌, pos, ◌+ℤ◌, ◌≤ℤ◌, if◌then◌else◌, ◌==◌,
  All, lookup, insert, inl, inr, arith,
}
use paxos_2pc_payments.Status.{unavailable}
use paxos_2pc_payments.Accounts.{Account, Error, Io, find, add_delta, cents}
use paxos_2pc_payments.Accounts.Laws.{stored, add_delta_lem}
use paxos_2pc_payments.Accounts.Cents.{IsCents, WholeRows}
use paxos_2pc_payments.Bank.{
  debit, credit, Participant, Append, synced, Command, Kind, cmd_prepare, cmd_commit, prepare, run,
  reserved, has, new_participant, open_ledger, delta_of, done, transaction_key,
}
use paxos_2pc_payments.Bank as Bank
use paxos_2pc_payments.Bank.Funds.{run-no_overdraft}
use paxos_2pc_payments.Bank.Once.{commit_once}
use paxos_2pc_payments.Bank.Books.{Books, run-Books}
use paxos_2pc_payments.Bank.Settled.{SettledIn}
use paxos_2pc_payments.Bank.Promise.{working, prepare_guarantees_commit}
use paxos_2pc_payments.Bank.Crash.{crash_in_commit, credit_log, crash_in_commit_repeats}
use paxos_2pc_payments.Gateway.{
  World, Call, heard, unheard, Env, Request, transfer, rpc, debit_command, credit_command,
  phase_two,
}
use paxos_2pc_payments.Gateway.Calls.{Sound, insert-Sound, booked}
use paxos_2pc_payments.Gateway.Unheard.{unheard_debit_stays}
use paxos_2pc_payments.Gateway.Atomic.{BothBooked, transfer-books}

abbrev account : ℕ → ℕ → Account
account id balance = record {
  id = id;
  username = id;
  password = 0;
  bank = 1;
  balance = pos balance;
}

abbrev rows : List Account
rows = account 1 100 ∷ account 2 50 ∷ []

add_delta_lem_example :
    (((add_delta working rows 1 (pos 5)).1 ≡ inr (stored rows 1 +ℤ pos 5))
      × (stored (add_delta working rows 1 (pos 5)).0 2
          ≡ cents (if 1 == 2 then stored rows 2 +ℤ pos 5 else stored rows 2)))
    ⊎ (((e : Error) × ((add_delta working rows 1 (pos 5)).1 ≡ inl e))
        × ((add_delta working rows 1 (pos 5)).0 ≡ rows))
add_delta_lem_example = add_delta_lem working rows 1 (pos 5) 2

abbrev entry : Kind → ℕ → ℕ → ℕ → Io × Append × Command
entry kind key from amount = (
  working,
  synced,
  record {
    kind = kind;
    key = key;
    op = debit;
    account = from;
    counterparty = 9;
    amount = pos amount;
  },
)

-- Two debits of 70 from an account of 100; only the first one is prepared.
abbrev log : List (Io × Append × Command)
log =
    entry cmd_prepare 2 1 70
    ∷ entry cmd_prepare 4 1 70
    ∷ entry cmd_commit 4 1 70
    ∷ entry cmd_commit 2 1 70
    ∷ []

whole_rows : WholeRows rows
whole_rows = ((refl, refl), ((refl, refl), tt))

whole_amounts : All (λ c. IsCents c.2.amount) log
whole_amounts = ((refl, refl), ((refl, refl), ((refl, refl), ((refl, refl), tt))))

run-no_overdraft_example :
    (pos 0 ≤ℤ stored (run (new_participant rows (open_ledger [])) log).accounts 1)
    × (reserved (run (new_participant rows (open_ledger [])) log).prepared 1
        ≤ℤ stored (run (new_participant rows (open_ledger [])) log).accounts 1)
run-no_overdraft_example =
    run-no_overdraft rows (open_ledger []) log 1 (omega arith, (omega arith, tt)) whole_rows
      whole_amounts

run-Books_example : Books rows (run (new_participant rows (open_ledger [])) log)
run-Books_example = run-Books rows log whole_rows (refl, (refl, (refl, (refl, tt)))) whole_amounts

abbrev bank : Participant
bank = new_participant rows (open_ledger [])

abbrev prepared_bank : Participant
prepared_bank = run bank (entry cmd_prepare 2 1 70 ∷ [])

commit_once_example :
    (let p₁ =
        run
          (Bank.commit working synced prepared_bank 2 debit 1 9 (pos 70)).0
          (entry cmd_prepare 2 1 70 ∷ []) in
      let (p₂, answer) = Bank.commit working synced p₁ 2 debit 1 9 (pos 70) in
      (answer ≡ done true) × (p₂.accounts ≡ p₁.accounts) × (p₂.ledger ≡ p₁.ledger))
unfolding Bank.commit has lookup run Bank.apply_command prepare new_participant open_ledger
    paxos_2pc_payments.Accounts.balance find paxos_2pc_payments.Base.◌-ℤ◌ reserved
    paxos_2pc_payments.Base.insert add_delta
commit_once_example =
    commit_once working working synced synced prepared_bank 2 debit debit 1 1 9 9 (pos 70) (pos 70)
      (entry cmd_prepare 2 1 70 ∷ []) refl

prepare_guarantees_commit_example :
    (let p₁ = run (prepare working bank 2 debit 1 9 (pos 70)).0 (entry cmd_prepare 4 1 30 ∷ []) in
      let (p₂, answer) = Bank.commit working synced p₁ 2 debit 1 9 (pos 70) in
      (answer ≡ done false)
      × (has p₂.ledger 2 ≡ true)
      × (stored p₂.accounts 1 ≡ cents (stored p₁.accounts 1 +ℤ delta_of debit (pos 70))))
unfolding lookup new_participant has open_ledger prepare paxos_2pc_payments.Accounts.balance find
    paxos_2pc_payments.Base.◌-ℤ◌ reserved
prepare_guarantees_commit_example =
    prepare_guarantees_commit working bank 2 debit 1 9 (pos 70) (entry cmd_prepare 4 1 30 ∷ []) refl
      refl refl (refl, tt)

crash_in_commit_repeats_example :
    let voted = (prepare working (new_participant rows (open_ledger [])) 3 credit 2 9 (pos 30)).0 in
    stored
      (run (crash_in_commit voted 3 credit 2 9 (pos 30)) (credit_log 3 2 9 (pos 30))).accounts
      2
    ≡ cents (cents (stored rows 2 +ℤ pos 30) +ℤ pos 30)
unfolding find
crash_in_commit_repeats_example =
    crash_in_commit_repeats rows 3 2 9 (pos 30) (account 2 50) refl refl refl

abbrev other_bank : Participant
other_bank = new_participant (account 9 10 ∷ []) (open_ledger [])

abbrev world : World
world = insert 1 bank (insert 2 other_bank [])

world-Sound : Sound world
unfolding lookup new_participant
world-Sound =
    insert-Sound (insert 2 other_bank []) 1 bank (insert-Sound [] 2 other_bank empty fresh₂) fresh₁
  where
    empty : Sound []
    empty b = tt

    fresh₁ : SettledIn bank
    fresh₁ = tt

    fresh₂ : SettledIn other_bank
    fresh₂ = tt

abbrev answered : Call
answered = record { others = []; delivery = heard; io = working; append = synced }

-- The answer to the first commit of the debit is lost.
abbrev late : ℕ → Call
late attempt = if attempt == 1 then record answered { delivery = unheard unavailable } else answered

abbrev calls : Env
calls = record {
  debit_vote = answered;
  credit_vote = answered;
  debit_commit = late;
  credit_commit = λ k. answered;
  debit_abort = answered;
  credit_abort = answered;
}

abbrev payment : Request
payment = record {
  transaction = 5;
  from_bank = 1;
  to_bank = 2;
  from_account = 1;
  to_account = 9;
  amount = pos 30;
}

transfer-books_example : BothBooked payment (transfer calls world payment).0
unfolding transfer lookup paxos_2pc_payments.Gateway.apply_at paxos_2pc_payments.Gateway.interfere
    Bank.apply_command prepare has new_participant open_ledger paxos_2pc_payments.Accounts.balance
    find paxos_2pc_payments.Base.◌-ℤ◌ reserved paxos_2pc_payments.Base.insert
    paxos_2pc_payments.Base.erase paxos_2pc_payments.Status.retriable Bank.commit transaction_key
    add_delta
transfer-books_example = transfer-books calls world payment world-Sound refl

-- Both banks have voted for the payment, and no answer to a commit of the debit arrives.
abbrev voted : World
voted =
    (rpc answered (rpc answered world 1 (debit_command payment cmd_prepare)).0 2
      (credit_command payment cmd_prepare)).0

abbrev voter : Participant
voter = (Bank.apply_command working synced bank (debit_command payment cmd_prepare)).0

abbrev deaf_calls : Env
deaf_calls = record calls { debit_commit = λ k. record answered { delivery = unheard unavailable } }

unheard_debit_stays_example :
    let after = phase_two deaf_calls voted payment in
    (after.1 ≡ some unavailable)
    × (booked after.0 1 (transaction_key 5 debit) ≡ true)
    × (booked after.0 2 (transaction_key 5 credit) ≡ false)
unfolding transfer lookup rpc phase_two paxos_2pc_payments.Gateway.apply_at
    paxos_2pc_payments.Gateway.interfere Bank.apply_command prepare has new_participant open_ledger
    paxos_2pc_payments.Accounts.balance find paxos_2pc_payments.Base.◌-ℤ◌ reserved
    paxos_2pc_payments.Base.insert paxos_2pc_payments.Base.erase paxos_2pc_payments.Status.retriable
    Bank.commit transaction_key add_delta
unheard_debit_stays_example =
    unheard_debit_stays deaf_calls voted payment unavailable voter (λ e. omega (arith, e)) refl
      (λ i. (refl, refl)) refl refl refl refl refl
