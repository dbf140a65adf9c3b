-- ===== src/Bank/Promise.antt =====
-- bank/twopc.go: a bank that voted yes can commit.
use paxos_2pc_payments.Base.{
  ℕ, ℤ, ◌≡◌, ◌+ℤ◌, inl, inr, refl, Bool, true, false, Option, none, some, List, [], ◌∷◌, ◌==◌,
  arith, lookup, lookup-insert, lookup-erase, Option-cases, subst, sym, All,
}
use paxos_2pc_payments.Accounts.{Account, Io, find}
use paxos_2pc_payments.Accounts as Accounts
use paxos_2pc_payments.Accounts.Laws.{stored, updated-stored, updated-known}
use paxos_2pc_payments.Bank.{
  Operation, debit, credit, Reservation, reservation, Participant, Append, synced, not_written,
  sync_failed, Line, line_of, hold, prepare, release, book, move, move_found, record_line, commit,
  abort, Command, apply_command, Kind, cmd_prepare, cmd_commit, cmd_abort, unknown_kind, done,
  delta_of, has, run, Ledger, dispatch, operation_eq,
}
use paxos_2pc_payments.Bank.Funds.{line_of-key, prepare-kept}

-- A live reservation of a key that is not settled, for an account that exists.
pub record Standing (key : ℕ) (r : Reservation) (p : Participant) : Type 0 where
  pub there : lookup key p.prepared ≡ some r
  pub unsettled : has p.ledger key ≡ false
  pub known : (a : Account) × (find r.account p.accounts ≡ some a)

module _ (key : ℕ) (r : Reservation) where
  release-Standing :
      (p : Participant) (k : ℕ)
      → (k == key) ≡ false
      → Standing key r p
      → Standing key r (release p k)
  unfolding release
  release-Standing p k other s = record {
    there = grind (arith, s.there, lookup-erase key k p.prepared);
    unsettled = s.unsettled;
    known = s.known;
  }

  prepare-there :
      (io : Io) (p : Participant) (k : ℕ) (op : Operation) (account counterparty : ℕ) (amount : ℤ)
      → (k == key) ≡ false
      → lookup key p.prepared ≡ some r
      → lookup key (prepare io p k op account counterparty amount).0.prepared ≡ some r
  unfolding prepare hold
  prepare-there io p k op account counterparty amount other h = grind (arith, h, lookup-insert)

  prepare-Standing :
      (io : Io) (p : Participant) (k : ℕ) (op : Operation) (account counterparty : ℕ) (amount : ℤ)
      → (k == key) ≡ false
      → Standing key r p
      → Standing key r (prepare io p k op account counterparty amount).0
  prepare-Standing io p k op account counterparty amount other s =
      let kept = prepare-kept io p k op account counterparty amount in
      record {
        there = prepare-there io p k op account counterparty amount other s.there;
        unsettled = subst (λ l. has l key ≡ false) (sym kept.1) s.unsettled;
        known = subst (λ rows. (a : Account) × (find r.account rows ≡ some a)) (sym kept.0) s.known;
      }

  record_line-unsettled :
      (append : Append) (l : Ledger) (x : Line)
      → (x.key == key) ≡ false
      → has l key ≡ false
      → has (record_line append l x).0 key ≡ false
  unfolding record_line has
  record_line-unsettled synced l x other h = grind (arith, lookup-insert)
  record_line-unsettled not_written l x other h = h
  record_line-unsettled sync_failed l x other h = h

  move-Standing :
      (io : Io) (append : Append) (p : Participant) (k : ℕ) (op : Operation)
      (account counterparty : ℕ) (amount : ℤ)
      → (k == key) ≡ false
      → Standing key r p
      → Standing key r (move io append p k op account counterparty amount).0
  unfolding move Accounts.add_delta book release
  move-Standing io append p k op account counterparty amount other s =
      by_io io.readable io.replaced (find account p.accounts) refl
    where
      by_io :
          (rd w : Bool) (o : Option Account)
          → find account p.accounts ≡ o
          → Standing key r
              (move_found append p k op account counterparty amount
                (Accounts.add_found rd w p.accounts account (delta_of op amount) o)).0
      by_io false w o e = s
      by_io true w none e = release-Standing p k other s
      by_io true false (some a) e = s
      by_io true true (some a) e = record {
        there = grind (
          arith,
          s.there,
          lookup-erase key k p.prepared,
          line_of-key k op account counterparty amount,
        );
        unsettled =
            record_line-unsettled append p.ledger (line_of k op account counterparty amount)
              (subst (λ x. (x == key) ≡ false) (sym (line_of-key k op account counterparty amount))
                other)
              s.unsettled;
        known =
            updated-known account r.account (delta_of op amount) p.accounts a s.known.0 e s.known.1;
      }

  apply_command-Standing :
      (io : Io) (append : Append) (p : Participant) (c : Command)
      → (c.key == key) ≡ false
      → Standing key r p
      → Standing key r (apply_command io append p c).0
  unfolding apply_command abort commit
  apply_command-Standing io append p c other s = by_kind c.kind
    where
      by_kind : (kind : Kind) → Standing key r (dispatch kind io append p c).0
      by_kind cmd_prepare =
          prepare-Standing io p c.key c.op c.account c.counterparty c.amount other s
      by_kind cmd_commit = elim (Option-cases (lookup c.key p.prepared)) [
        | inl gone ↦ grind (arith, s, release-Standing p c.key other s)
        | inr (x, there) ↦ grind (
          arith,
          s,
          release-Standing p c.key other s,
          move-Standing io append p c.key c.op c.account c.counterparty c.amount other s,
        )
      ]
      by_kind cmd_abort = release-Standing p c.key other s
      by_kind (unknown_kind n) = s

  run-Standing :
      (p : Participant) (cs : List (Io × Append × Command))
      → All (λ c. (c.2.key == key) ≡ false) cs
      → Standing key r p
      → Standing key r (run p cs)
  unfolding run
  run-Standing p [] ok s = s
  run-Standing p ((io, append, c) ∷ cs) ok s =
      run-Standing (apply_command io append p c).0 cs ok.1
        (apply_command-Standing io append p c ok.0 s)

abbrev pub working : Io
working = record { readable = true; replaced = true }

-- A fresh prepare that answers yes leaves its reservation.
pub prepared-Standing :
    (io : Io) (p : Participant) (key : ℕ) (op : Operation) (account counterparty : ℕ) (amount : ℤ)
    → lookup key p.prepared ≡ none
    → has p.ledger key ≡ false
    → (prepare io p key op account counterparty amount).1 ≡ none
    → Standing key
        (reservation op account counterparty amount false)
        (prepare io p key op account counterparty amount).0
unfolding prepare Accounts.balance hold
prepared-Standing io p key op account counterparty amount fresh new yes_vote =
    elim (Option-cases (find account p.accounts)) [
      | inl gone ↦ absurd (grind arith)
      | inr (a, there) ↦
          let kept = prepare-kept io p key op account counterparty amount in
          record {
            there = grind (arith, lookup-insert);
            unsettled = subst (λ l. has l key ≡ false) (sym kept.1) new;
            known =
                subst (λ rows. (a : Account) × (find account rows ≡ some a)) (sym kept.0)
                  (a, there);
          }
    ]

operation_eq_refl : (op : Operation) → operation_eq op op ≡ true
operation_eq_refl debit = refl
operation_eq_refl credit = refl

pub commit_moves :
    (io : Io) (append : Append) (p : Participant) (key : ℕ) (op : Operation)
    (account counterparty : ℕ) (amount : ℤ)
    → Standing key (reservation op account counterparty amount false) p
    → commit io append p key op account counterparty amount
      ≡ move io append p key op account counterparty amount
unfolding commit
commit_moves io append p key op account counterparty amount s =
    grind (arith, s.there, s.unsettled, operation_eq_refl op)

move_works :
    (p : Participant) (key : ℕ) (op : Operation) (account counterparty : ℕ) (amount : ℤ)
    (a : Account)
    → find account p.accounts ≡ some a
    → (let (p', answer) = move working synced p key op account counterparty amount in
        (answer ≡ done false)
        × (has p'.ledger key ≡ true)
        × (stored p'.accounts account
            ≡ Accounts.cents (stored p.accounts account +ℤ delta_of op amount)))
unfolding move book record_line has Accounts.add_delta release
move_works p key op account counterparty amount a there = (
  grind (arith, there),
  grind (arith, there, lookup-insert, line_of-key),
  grind (arith, there, updated-stored account account (delta_of op amount) p.accounts a there),
)

-- The commit of a standing reservation.
Standing-commits :
    (p : Participant) (key : ℕ) (op : Operation) (account counterparty : ℕ) (amount : ℤ)
    → Standing key (reservation op account counterparty amount false) p
    → (let (p', answer) = commit working synced p key op account counterparty amount in
        (answer ≡ done false)
        × (has p'.ledger key ≡ true)
        × (stored p'.accounts account
            ≡ Accounts.cents (stored p.accounts account +ℤ delta_of op amount)))
Standing-commits p key op account counterparty amount s =
    let moved = commit_moves working synced p key op account counterparty amount s in
    subst
      (λ out.
        (out.1 ≡ done false)
        × (has out.0.ledger key ≡ true)
        × (stored out.0.accounts account
            ≡ Accounts.cents (stored p.accounts account +ℤ delta_of op amount)))
      (sym moved) (move_works p key op account counterparty amount s.known.0 s.known.1)

-- A vote is a promise: after a prepare that reserved, and any further log of commands that are not
-- of its key, the matching commit succeeds when the files work, stores the balance with the amount
-- added or subtracted, rounded to two decimals as every stored balance is, and is in the ledger.
pub prepare_guarantees_commit :
    (io : Io) (p : Participant) (key : ℕ) (op : Operation) (account counterparty : ℕ) (amount : ℤ)
    (cs : List (Io × Append × Command))
    → lookup key p.prepared ≡ none
    → has p.ledger key ≡ false
    → (prepare io p key op account counterparty amount).1 ≡ none
    → All (λ c. (c.2.key == key) ≡ false) cs
    → (let p₁ = run (prepare io p key op account counterparty amount).0 cs in
        let (p₂, answer) = commit working synced p₁ key op account counterparty amount in
        (answer ≡ done false)
        × (has p₂.ledger key ≡ true)
        × (stored p₂.accounts account
            ≡ Accounts.cents (stored p₁.accounts account +ℤ delta_of op amount)))
prepare_guarantees_commit io p key op account counterparty amount cs fresh new yes_vote others =
    Standing-commits (run (prepare io p key op account counterparty amount).0 cs) key op account
      counterparty amount
      (run-Standing key (reservation op account counterparty amount false)
        (prepare io p key op account counterparty amount).0 cs others
        (prepared-Standing io p key op account counterparty amount fresh new yes_vote))
