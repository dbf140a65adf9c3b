-- ===== src/Bank/Settled.antt =====
-- bank/twopc.go: a settled reservation is one for a key of the ledger, so a commit that succeeds,
-- in whichever way, leaves its key in the ledger.
use paxos_2pc_payments.Base.{
  ℕ, ℤ, ◌≡◌, ◌⊎◌, inl, inr, refl, Bool, true, false, some, List, [], ◌∷◌, ◌==◌, arith, lookup,
  insert, erase, Dict, All, Option-cases, Bool-cases,
}
use paxos_2pc_payments.Accounts.{Account, Error, Io}
use paxos_2pc_payments.Accounts as Accounts
use paxos_2pc_payments.Bank.{
  Operation, Reservation, Participant, Append, Line, line_of, Ledger, commit, abort, release, move,
  move_found, book, record_line, Command, apply_command, Kind, cmd_prepare, cmd_commit, cmd_abort,
  unknown_kind, done, dispatch, delta_of, has, run,
}
use paxos_2pc_payments.Bank.Funds.{Held, unchanged, replayed, fresh, prepare-Held}
use paxos_2pc_payments.Bank.Once.{Has, commit-done, record_line-has}

abbrev Marked : Ledger → ℕ × Reservation → Type 0
Marked l (k, r) = (r.settled ≡ false) ⊎ (has l k ≡ true)

abbrev pub SettledIn : Participant → Type 0
SettledIn p = All (λ e. Marked p.ledger e) p.prepared

erase-Marked :
    (l : Ledger) (k : ℕ) (d : Dict Reservation)
    → All (λ e. Marked l e) d
    → All (λ e. Marked l e) (erase k d)
unfolding erase
erase-Marked l k [] h = tt
erase-Marked l k ((j, r) ∷ d) h = elim (Bool-cases (j == k)) [
  | inl same ↦ ground (arith, erase-Marked l k d h.1)
  | inr other ↦ ground (arith, erase-Marked l k d h.1, h.0)
]

lookup-Marked :
    (l : Ledger) (k : ℕ) (d : Dict Reservation) (r : Reservation)
    → All (λ e. Marked l e) d
    → lookup k d ≡ some r
    → Marked l (k, r)
unfolding lookup
lookup-Marked l k [] r h e = absurd (ground arith)
lookup-Marked l k ((j, x) ∷ d) r h e = grind (arith, lookup-Marked l k d r h.1, h.0)

grow-Marked :
    (l l' : Ledger) (d : Dict Reservation)
    → ((k : ℕ) → has l k ≡ true → has l' k ≡ true)
    → All (λ e. Marked l e) d
    → All (λ e. Marked l' e) d
grow-Marked l l' [] g h = tt
grow-Marked l l' ((k, r) ∷ d) g (inl live, h) = (inl live, grow-Marked l l' d g h)
grow-Marked l l' ((k, r) ∷ d) g (inr old, h) = (inr (g k old), grow-Marked l l' d g h)

release-SettledIn : (p : Participant) (key : ℕ) → SettledIn p → SettledIn (release p key)
unfolding release
release-SettledIn p key h = erase-Marked p.ledger key p.prepared h

Held-SettledIn : {p p' : Participant} → SettledIn p → Held p p' → SettledIn p'
unfolding insert
Held-SettledIn h unchanged = h
Held-SettledIn {p} h (replayed key op account counterparty amount pos_amount old) =
    (inr old, erase-Marked p.ledger key p.prepared h)
Held-SettledIn {p} h (fresh key op account counterparty amount pos_amount enough) =
    (inl refl, erase-Marked p.ledger key p.prepared h)

move-SettledIn :
    (io : Io) (append : Append) (p : Participant) (key : ℕ) (op : Operation)
    (account counterparty : ℕ) (amount : ℤ)
    → SettledIn p
    → SettledIn (move io append p key op account counterparty amount).0
unfolding move release book
move-SettledIn io append p key op account counterparty amount h =
    by_found (Accounts.add_delta io p.accounts account (delta_of op amount))
  where
    x : Line
    x = line_of key op account counterparty amount

    by_found :
        (out : List Account × (Error ⊎ ℤ))
        → SettledIn (move_found append p key op account counterparty amount out).0
    by_found (rows, inl Accounts.err_not_found) = release-SettledIn p key h
    by_found (rows, inl Accounts.already_registered) = h
    by_found (rows, inl Accounts.io_error) = h
    by_found (rows, inr b) = erase-Marked (record_line append p.ledger x).0 x.key p.prepared (
        grow-Marked p.ledger (record_line append p.ledger x).0 p.prepared
          (λ k old. record_line-has append p.ledger x k old) h)

pub apply_command-SettledIn :
    (io : Io) (append : Append) (p : Participant) (c : Command)
    → SettledIn p
    → SettledIn (apply_command io append p c).0
unfolding apply_command abort commit
apply_command-SettledIn io append p c h = by_kind c.kind
  where
    by_kind : (kind : Kind) → SettledIn (dispatch kind io append p c).0
    by_kind cmd_prepare =
        Held-SettledIn h (prepare-Held io p c.key c.op c.account c.counterparty c.amount)
    by_kind cmd_commit = elim (Option-cases (lookup c.key p.prepared)) [
      | inl gone ↦ grind (arith, h, release-SettledIn p c.key h)
      | inr (r, there) ↦ grind (
        arith,
        h,
        release-SettledIn p c.key h,
        move-SettledIn io append p c.key c.op c.account c.counterparty c.amount h,
      )
    ]
    by_kind cmd_abort = release-SettledIn p c.key h
    by_kind (unknown_kind n) = h

pub run-SettledIn :
    (p : Participant) (cs : List (Io × Append × Command)) → SettledIn p → SettledIn (run p cs)
unfolding run
run-SettledIn p [] h = h
run-SettledIn p ((io, append, c) ∷ cs) h =
    run-SettledIn (apply_command io append p c).0 cs (apply_command-SettledIn io append p c h)

move-not_settled :
    (io : Io) (append : Append) (p : Participant) (key : ℕ) (op : Operation)
    (account counterparty : ℕ) (amount : ℤ)
    → ¬ ((move io append p key op account counterparty amount).1 ≡ done true)
unfolding move book
move-not_settled io append p key op account counterparty amount =
    by_found (Accounts.add_delta io p.accounts account (delta_of op amount))
  where
    by_found :
        (out : List Account × (Error ⊎ ℤ))
        → ¬ ((move_found append p key op account counterparty amount out).1 ≡ done true)
    by_found (rows, inl Accounts.err_not_found) e = absurd (ground arith)
    by_found (rows, inl Accounts.already_registered) e = absurd (ground arith)
    by_found (rows, inl Accounts.io_error) e = absurd (ground arith)
    by_found (rows, inr b) e = absurd (ground arith)

commit-old :
    (io : Io) (append : Append) (p : Participant) (key : ℕ) (op : Operation)
    (account counterparty : ℕ) (amount : ℤ)
    → SettledIn p
    → (commit io append p key op account counterparty amount).1 ≡ done true
    → Has key (commit io append p key op account counterparty amount).0
unfolding commit release
commit-old io append p key op account counterparty amount h e =
    elim (Bool-cases (has p.ledger key)) [
      | inl old ↦ ground arith
      | inr new ↦ elim (Option-cases (lookup key p.prepared)) [
        | inl gone ↦ absurd (ground arith)
        | inr (r, there) ↦ grind (
          arith,
          lookup-Marked p.ledger key p.prepared r h there,
          move-not_settled io append p key op account counterparty amount,
        )
      ]
    ]

-- A commit that is answered with success, as new or as settled, leaves its key in the ledger.
pub commit-settles :
    (io : Io) (append : Append) (p : Participant) (key : ℕ) (op : Operation)
    (account counterparty : ℕ) (amount : ℤ) (b : Bool)
    → SettledIn p
    → (commit io append p key op account counterparty amount).1 ≡ done b
    → Has key (commit io append p key op account counterparty amount).0
commit-settles io append p key op account counterparty amount false h e =
    commit-done io append p key op account counterparty amount e
commit-settles io append p key op account counterparty amount true h e =
    commit-old io append p key op account counterparty amount h e

-- The same of a log entry that is a commit.
pub apply_command-settles :
    (io : Io) (append : Append) (p : Participant) (c : Command) (b : Bool)
    → c.kind ≡ cmd_commit
    → SettledIn p
    → (apply_command io append p c).1 ≡ done b
    → Has c.key (apply_command io append p c).0
unfolding apply_command
apply_command-settles io append p c b kind h = by_kind c.kind kind
  where
    by_kind :
        (k : Kind)
        → k ≡ cmd_commit
        → (dispatch k io append p c).1 ≡ done b
        → Has c.key (dispatch k io append p c).0
    by_kind cmd_commit e f =
        commit-settles io append p c.key c.op c.account c.counterparty c.amount b h f
    by_kind _ e f = absurd (ground arith)
