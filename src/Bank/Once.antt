-- ===== src/Bank/Once.antt =====
-- bank/twopc.go: a commit is retried, and moves the money at most once.
use paxos_2pc_payments.Base.{
  ℕ, ℤ, ◌≡◌, ◌⊎◌, inl, inr, true, false, List, [], ◌∷◌, arith, lookup, lookup-insert, Option-cases,
  subst, sym,
}
use paxos_2pc_payments.Accounts.{Account, Error, Io}
use paxos_2pc_payments.Accounts as Accounts
use paxos_2pc_payments.Bank.{
  Operation, Participant, Append, synced, not_written, sync_failed, Line, line_of, release, book,
  move, move_found, record_line, commit, abort, Command, apply_command, Kind, cmd_prepare,
  cmd_commit, cmd_abort, unknown_kind, done, delta_of, has, run, Ledger, dispatch,
}
use paxos_2pc_payments.Bank.Funds.{line_of-key, prepare-kept}

-- The key stays in the ledger.
abbrev pub Has : ℕ → Participant → Type 0
Has k p = has p.ledger k ≡ true

pub record_line-has :
    (append : Append) (l : Ledger) (x : Line) (k : ℕ)
    → has l k ≡ true
    → has (record_line append l x).0 k ≡ true
unfolding record_line has
record_line-has synced l x k h = grind (arith, lookup-insert)
record_line-has not_written l x k h = h
record_line-has sync_failed l x k h = h

book-Has :
    (append : Append) (p : Participant) (x : Line) (k : ℕ) → Has k p → Has k (book append p x).0
unfolding book release
book-Has append p x k h = record_line-has append p.ledger x k h

move-Has :
    (io : Io) (append : Append) (p : Participant) (key : ℕ) (op : Operation)
    (account counterparty : ℕ) (amount : ℤ) (k : ℕ)
    → Has k p
    → Has k (move io append p key op account counterparty amount).0
unfolding move Accounts.add_delta release
move-Has io append p key op account counterparty amount k h =
    by_found (Accounts.add_delta io p.accounts account (delta_of op amount))
  where
    by_found :
        (out : List Account × (Error ⊎ ℤ))
        → Has k (move_found append p key op account counterparty amount out).0
    by_found (rows, inl Accounts.err_not_found) = h
    by_found (rows, inl Accounts.already_registered) = h
    by_found (rows, inl Accounts.io_error) = h
    by_found (rows, inr b) =
        book-Has append (record p { accounts = rows }) (line_of key op account counterparty amount)
          k h

pub apply_command-Has :
    (io : Io) (append : Append) (p : Participant) (c : Command) (k : ℕ)
    → Has k p
    → Has k (apply_command io append p c).0
unfolding apply_command abort commit release
apply_command-Has io append p c k h = by_kind c.kind
  where
    by_kind : (kind : Kind) → Has k (dispatch kind io append p c).0
    by_kind cmd_prepare =
        subst (λ l. has l k ≡ true)
          (sym (prepare-kept io p c.key c.op c.account c.counterparty c.amount).1) h
    by_kind cmd_commit = elim (Option-cases (lookup c.key p.prepared)) [
      | inl gone ↦ ground arith
      | inr (r, there) ↦
          ground (arith, move-Has io append p c.key c.op c.account c.counterparty c.amount k h)
    ]
    by_kind cmd_abort = h
    by_kind (unknown_kind n) = h

pub run-Has :
    (p : Participant) (cs : List (Io × Append × Command)) (k : ℕ) → Has k p → Has k (run p cs)
unfolding run
run-Has p [] k h = h
run-Has p ((io, append, c) ∷ cs) k h =
    run-Has (apply_command io append p c).0 cs k (apply_command-Has io append p c k h)

-- A movement that reports success has written its line.
book-done :
    (append : Append) (p : Participant) (x : Line)
    → (book append p x).1 ≡ done false
    → Has x.key (book append p x).0
unfolding book record_line release has
book-done synced p x e = grind (arith, lookup-insert)
book-done not_written p x e = absurd (ground arith)
book-done sync_failed p x e = absurd (ground arith)

pub move-done :
    (io : Io) (append : Append) (p : Participant) (key : ℕ) (op : Operation)
    (account counterparty : ℕ) (amount : ℤ)
    → (move io append p key op account counterparty amount).1 ≡ done false
    → Has key (move io append p key op account counterparty amount).0
unfolding move
move-done io append p key op account counterparty amount =
    by_found (Accounts.add_delta io p.accounts account (delta_of op amount))
  where
    by_found :
        (out : List Account × (Error ⊎ ℤ))
        → (move_found append p key op account counterparty amount out).1 ≡ done false
        → Has key (move_found append p key op account counterparty amount out).0
    by_found (rows, inl Accounts.err_not_found) e = absurd (ground arith)
    by_found (rows, inl Accounts.already_registered) e = absurd (ground arith)
    by_found (rows, inl Accounts.io_error) e = absurd (ground arith)
    by_found (rows, inr b) e =
        subst
          (λ k.
            Has k
              (book append (record p { accounts = rows })
                (line_of key op account counterparty amount)).0)
          (line_of-key key op account counterparty amount)
          (book-done append (record p { accounts = rows })
            (line_of key op account counterparty amount) e)

pub commit-done :
    (io : Io) (append : Append) (p : Participant) (key : ℕ) (op : Operation)
    (account counterparty : ℕ) (amount : ℤ)
    → (commit io append p key op account counterparty amount).1 ≡ done false
    → Has key (commit io append p key op account counterparty amount).0
unfolding commit
commit-done io append p key op account counterparty amount e =
    elim (Option-cases (lookup key p.prepared)) [
      | inl gone ↦ ground (arith)
      | inr (r, there) ↦ ground (arith, move-done io append p key op account counterparty amount)
    ]

-- At most once: after a commit that applied its operation, and any further log of commands, every
-- commit of the same key, whatever its details and whatever the files do, answers that it is
-- settled, and changes neither a balance nor the ledger.
pub commit_once :
    (io io' : Io) (append append' : Append) (p : Participant) (key : ℕ) (op op' : Operation)
    (account account' counterparty counterparty' : ℕ) (amount amount' : ℤ)
    (cs : List (Io × Append × Command))
    → (commit io append p key op account counterparty amount).1 ≡ done false
    → (let p₁ = run (commit io append p key op account counterparty amount).0 cs in
        let (p₂, answer) = commit io' append' p₁ key op' account' counterparty' amount' in
        (answer ≡ done true) × (p₂.accounts ≡ p₁.accounts) × (p₂.ledger ≡ p₁.ledger))
unfolding commit release
commit_once io io' append append' p key op op' account account' counterparty counterparty' amount
      amount' cs e =
    let h =
      run-Has (commit io append p key op account counterparty amount).0 cs key
        (commit-done io append p key op account counterparty amount e) in
    (ground arith, ground arith, ground arith)
