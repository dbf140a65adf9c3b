-- ===== src/Bank/Crash.antt =====
-- bank/twopc.go: `commit` writes the balance before the ledger line. A replica that dies between
-- the two starts again from its files and replays its Paxos log.
use paxos_2pc_payments.Base.{
  ℕ, ℤ, pos, ◌≡◌, ◌+ℤ◌, refl, false, none, some, List, [], ◌∷◌, ◌==◌, arith, leb_ℤ, lookup, ap, ap₂,
  ◌∙◌,
}
use paxos_2pc_payments.Accounts.{Account, Io, find, updated, cents, balance}
use paxos_2pc_payments.Accounts as Accounts
use paxos_2pc_payments.Accounts.Laws.{stored, updated-stored, updated-known}
use paxos_2pc_payments.Bank.{
  Operation, credit, Participant, Append, synced, not_written, move, book, record_line, release,
  prepare, hold, commit, Command, apply_command, Kind, cmd_prepare, cmd_commit, delta_of, has, run,
  open_ledger, new_participant,
}
use paxos_2pc_payments.Bank.Funds.{prepare-kept}
use paxos_2pc_payments.Bank.Promise.{
  prepare_guarantees_commit, prepared-Standing, commit_moves, working,
}

-- A replica that starts again, from what is in its files.
abbrev pub restart : Participant → Participant
restart p = new_participant p.accounts (open_ledger p.ledger.lines)

-- A commit that is cut off when its ledger line is to be written, and the start after it.
unfoldable pub crash_in_commit : Participant → ℕ → Operation → ℕ → ℕ → ℤ → Participant
unfolding commit
crash_in_commit p key op account counterparty amount =
    restart (commit working not_written p key op account counterparty amount).0

-- The two entries of the Paxos log for one credit.
abbrev pub credit_log : ℕ → ℕ → ℕ → ℤ → List (Io × Append × Command)
credit_log key account counterparty amount =
    (working, synced, entry cmd_prepare) ∷ (working, synced, entry cmd_commit) ∷ []
  where
    entry : Kind → Command
    entry kind = record {
      kind = kind;
      key = key;
      op = credit;
      account = account;
      counterparty = counterparty;
      amount = amount;
    }

prepare_credit :
    (p : Participant) (key account counterparty : ℕ) (amount : ℤ) (a : Account)
    → (account == counterparty) ≡ false
    → leb_ℤ amount (pos 0) ≡ false
    → lookup key p.prepared ≡ none
    → find account p.accounts ≡ some a
    → (prepare working p key credit account counterparty amount).1 ≡ none
unfolding prepare hold balance
prepare_credit p key account counterparty amount a other positive fresh there = grind (arith, there)

-- The files of a movement whose ledger line is not written.
move_cut_off :
    (p : Participant) (key : ℕ) (op : Operation) (account counterparty : ℕ) (amount : ℤ)
    (a : Account)
    → find account p.accounts ≡ some a
    → let p' = (move working not_written p key op account counterparty amount).0 in
      (p'.accounts ≡ updated account (delta_of op amount) p.accounts) × (p'.ledger ≡ p.ledger)
unfolding move book record_line release Accounts.add_delta
move_cut_off p key op account counterparty amount a there =
    (grind (arith, there), grind (arith, there))

-- A commit that follows a yes has written the balance when it is to write the line.
crash_in_commit-files :
    (p : Participant) (key account counterparty : ℕ) (amount : ℤ) (a : Account)
    → (account == counterparty) ≡ false
    → leb_ℤ amount (pos 0) ≡ false
    → lookup key p.prepared ≡ none
    → has p.ledger key ≡ false
    → find account p.accounts ≡ some a
    → crash_in_commit
        (prepare working p key credit account counterparty amount).0
        key
        credit
        account
        counterparty
        amount
      ≡ new_participant (updated account amount p.accounts) (open_ledger p.ledger.lines)
unfolding crash_in_commit
crash_in_commit-files p key account counterparty amount a other positive fresh new there =
    let voted = prepare_credit p key account counterparty amount a other positive fresh there in
    let p₁ = (prepare working p key credit account counterparty amount).0 in
    let kept = prepare-kept working p key credit account counterparty amount in
    let moves =
      commit_moves working not_written p₁ key credit account counterparty amount
        (prepared-Standing working p key credit account counterparty amount fresh new voted) in
    let files =
      move_cut_off p₁ key credit account counterparty amount a
        (ap (λ l. find account l) kept.0 ∙ there) in
    ap (λ o. restart o.0) moves
    ∙ ap₂ (λ l k. new_participant l (open_ledger k))
        (files.0 ∙ ap (λ l. updated account amount l) kept.0) (ap (λ k. k.lines) (files.1 ∙ kept.1))

-- A credit of a log that runs after a start commits once more.
credit_log-stored :
    (rows : List Account) (key account counterparty : ℕ) (amount : ℤ) (a : Account)
    → (account == counterparty) ≡ false
    → leb_ℤ amount (pos 0) ≡ false
    → find account rows ≡ some a
    → stored
        (run
          (new_participant rows (open_ledger []))
          (credit_log key account counterparty amount)).accounts
        account
      ≡ cents (stored rows account +ℤ amount)
unfolding new_participant open_ledger run apply_command lookup has
credit_log-stored rows key account counterparty amount a other positive there =
    let p = new_participant rows (open_ledger []) in
    let voted = prepare_credit p key account counterparty amount a other positive refl there in
    let kept = prepare-kept working p key credit account counterparty amount in
    (prepare_guarantees_commit working p key credit account counterparty amount [] refl refl voted
      tt).2
    ∙ ap (λ l. cents (stored l account +ℤ amount)) kept.0

-- A crash between the two writes of a commit repeats it: let a bank without reservations and lines
-- vote for a credit, and let its commit be cut off when the ledger line is to be written. Then the
-- replica, started again from its files, runs its log and credits the account a second time, for
-- any account that exists and is not the counterparty, any positive amount and any key.
pub crash_in_commit_repeats :
    (rows : List Account) (key account counterparty : ℕ) (amount : ℤ) (a : Account)
    → (account == counterparty) ≡ false
    → leb_ℤ amount (pos 0) ≡ false
    → find account rows ≡ some a
    → let voted =
        (prepare working
          (new_participant rows (open_ledger []))
          key
          credit
          account
          counterparty
          amount).0 in
      stored
        (run
          (crash_in_commit voted key credit account counterparty amount)
          (credit_log key account counterparty amount)).accounts
        account
      ≡ cents (cents (stored rows account +ℤ amount) +ℤ amount)
unfolding new_participant open_ledger lookup has
crash_in_commit_repeats rows key account counterparty amount a other positive there =
    let p = new_participant rows (open_ledger []) in
    let (b, still) = updated-known account account amount rows a a there there in
    ap (λ q. stored (run q (credit_log key account counterparty amount)).accounts account)
      (crash_in_commit-files p key account counterparty amount a other positive refl refl there)
    ∙ credit_log-stored (updated account amount rows) key account counterparty amount b other
        positive still
    ∙ ap (λ x. cents (x +ℤ amount)) once
  where
    once : stored (updated account amount rows) account ≡ cents (stored rows account +ℤ amount)
    once = ground (arith, updated-stored account account amount rows a there)
