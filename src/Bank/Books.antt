-- ===== src/Bank/Books.antt =====
-- bank/ledger.go with bank/twopc.go: the balances and the ledger account for each other.
use paxos_2pc_payments.Base.{
  ℕ, ℤ, pos, ◌≡◌, ◌≢◌, ◌⊎◌, ◌+ℤ◌, inl, inr, refl, Bool, true, false, Option, none, some, List, [],
  ◌∷◌, ◌++◌, if◌then◌else◌, ◌==◌, arith, lookup, lookup-insert, Option-cases, Bool-cases, subst,
  sym, int_laws, All,
}
use paxos_2pc_payments.Accounts.{Account, Io, find, updated}
use paxos_2pc_payments.Accounts as Accounts
use paxos_2pc_payments.Accounts.Laws.{stored, updated-stored_whole, updated-WholeRows}
use paxos_2pc_payments.Accounts.Cents.{IsCents, cents_of_IsCents, WholeRows}
use paxos_2pc_payments.Bank.{
  Operation, debit, credit, Participant, Append, synced, Line, printed, line_of, prepare, release,
  book, move, move_found, record_line, commit, abort, Command, apply_command, Kind, cmd_prepare,
  cmd_commit, cmd_abort, unknown_kind, delta_of, has, run, dispatch, keys_of, open_ledger,
  new_participant,
}
use paxos_2pc_payments.Bank.Funds.{line_of-key, prepare-kept, delta_of-IsCents}

-- What a line moves into an account.
abbrev pub line_delta : Line → ℕ → ℤ
line_delta x a =
    if (elim x.op [ debit ↦ x.sender | credit ↦ x.receiver ]) == a
    then delta_of x.op x.amount
    else pos 0

unfoldable pub booked : List Line → ℕ → ℤ
booked [] a = pos 0
booked (x ∷ xs) a = line_delta x a +ℤ booked xs a

-- No key stands in two lines.
abbrev pub Distinct : List Line → Type 0
Distinct [] = Unit
Distinct (x ∷ xs) = (lookup x.key (keys_of xs) ≡ none) × Distinct xs

booked-append :
    (xs : List Line) (x : Line) (a : ℕ) → booked (xs ++ x ∷ []) a ≡ booked xs a +ℤ line_delta x a
unfolding booked
booked-append [] x a = grind int_laws
booked-append (y ∷ xs) x a = grind (int_laws, booked-append xs x a)

keys_of-append :
    (xs : List Line) (x : Line) (k : ℕ)
    → lookup k (keys_of (xs ++ x ∷ [])) ≡ (if x.key == k then some true else lookup k (keys_of xs))
keys_of-append [] x k = grind (arith, lookup-insert)
keys_of-append (y ∷ xs) x k = grind (arith, lookup-insert, keys_of-append xs x k)

keys_apart :
    (y x : Line) (xs : List Line)
    → lookup x.key (keys_of (y ∷ xs)) ≡ none
    → (y.key ≢ x.key) × (lookup x.key (keys_of xs) ≡ none)
keys_apart y x xs h = grind (arith, lookup-insert)

Distinct-append :
    (xs : List Line) (x : Line)
    → Distinct xs
    → lookup x.key (keys_of xs) ≡ none
    → Distinct (xs ++ x ∷ [])
unfolding lookup
Distinct-append [] x d h = (refl, tt)
Distinct-append (y ∷ xs) x d h =
    let apart = keys_apart y x xs h in
    (grind (arith, keys_of-append xs x y.key, d.0), Distinct-append xs x d.1 apart.1)

-- `keys_of` holds no other value than true.
keys_of-true :
    (xs : List Line) (k : ℕ) → (lookup k (keys_of xs) ≡ none) ⊎ (lookup k (keys_of xs) ≡ some true)
unfolding lookup
keys_of-true [] k = inl refl
keys_of-true (y ∷ xs) k = grind (arith, lookup-insert, keys_of-true xs k)

-- Opening balances and lines add up to the balances; each key is booked once, and indexed; the
-- balances are whole cents.
pub record Books (rows : List Account) (p : Participant) : Type 0 where
  pub balanced : (a : ℕ) → stored p.accounts a ≡ stored rows a +ℤ booked p.ledger.lines a
  pub distinct : Distinct p.ledger.lines
  pub indexed : (k : ℕ) → lookup k p.ledger.applied ≡ lookup k (keys_of p.ledger.lines)
  pub whole : WholeRows p.accounts

printed-delta :
    (key : ℕ) (op : Operation) (account counterparty : ℕ) (amount : ℤ) (a : ℕ)
    → IsCents amount
    → line_delta (printed (line_of key op account counterparty amount)) a
      ≡ (if account == a then delta_of op amount else pos 0)
printed-delta key debit account counterparty amount a h = rw (cents_of_IsCents amount h) refl
printed-delta key credit account counterparty amount a h = rw (cents_of_IsCents amount h) refl

printed-key :
    (key : ℕ) (op : Operation) (account counterparty : ℕ) (amount : ℤ)
    → (printed (line_of key op account counterparty amount)).key ≡ key
printed-key key op account counterparty amount = line_of-key key op account counterparty amount

module _ (rows : List Account) where
  release-Books : (p : Participant) (key : ℕ) → Books rows p → Books rows (release p key)
  unfolding release
  release-Books p key b = record {
    balanced = b.balanced;
    distinct = b.distinct;
    indexed = b.indexed;
    whole = b.whole;
  }

  same-Books :
      (p p' : Participant)
      → p'.accounts ≡ p.accounts
      → p'.ledger ≡ p.ledger
      → Books rows p
      → Books rows p'
  same-Books p p' e f b = record {
    balanced = λ a. grind (arith, b.balanced a);
    distinct = subst (λ l. Distinct l.lines) (sym f) b.distinct;
    indexed = λ k. grind (arith, b.indexed k);
    whole = subst WholeRows (sym e) b.whole;
  }

  book-Books :
      (p : Participant) (key : ℕ) (op : Operation) (account counterparty : ℕ) (amount : ℤ)
      (a : Account)
      → IsCents amount
      → Books rows p
      → has p.ledger key ≡ false
      → find account p.accounts ≡ some a
      → Books rows
          (book synced
            (record p { accounts = updated account (delta_of op amount) p.accounts })
            (line_of key op account counterparty amount)).0
  unfolding book record_line release has
  book-Books p key op account counterparty amount a exact b new there = record {
    balanced = λ j. grind (
      int_laws,
      b.balanced j,
      updated-stored_whole account j (delta_of op amount) p.accounts a there b.whole
          (delta_of-IsCents op amount exact),
      booked-append p.ledger.lines (printed (line_of key op account counterparty amount)) j,
      printed-delta key op account counterparty amount j exact,
    );
    distinct =
        Distinct-append p.ledger.lines (printed (line_of key op account counterparty amount))
          b.distinct
          (subst (λ k. lookup k (keys_of p.ledger.lines) ≡ none)
            (sym (printed-key key op account counterparty amount))
            (grind (arith, b.indexed key, keys_of-true p.ledger.lines key)));
    indexed = λ k. grind (
      arith,
      b.indexed k,
      lookup-insert,
      keys_of-append p.ledger.lines (printed (line_of key op account counterparty amount)) k,
    );
    whole = updated-WholeRows account (delta_of op amount) p.accounts;
  }

  move-Books :
      (io : Io) (p : Participant) (key : ℕ) (op : Operation) (account counterparty : ℕ) (amount : ℤ)
      → IsCents amount
      → Books rows p
      → has p.ledger key ≡ false
      → Books rows (move io synced p key op account counterparty amount).0
  unfolding move Accounts.add_delta
  move-Books io p key op account counterparty amount exact b new =
      by_io io.readable io.replaced (find account p.accounts) refl
    where
      by_io :
          (r w : Bool) (o : Option Account)
          → find account p.accounts ≡ o
          → Books rows
              (move_found synced p key op account counterparty amount
                (Accounts.add_found r w p.accounts account (delta_of op amount) o)).0
      by_io false w o e = b
      by_io true w none e = release-Books p key b
      by_io true false (some a) e = b
      by_io true true (some a) e = book-Books p key op account counterparty amount a exact b new e

  apply_command-Books :
      (io : Io) (p : Participant) (c : Command)
      → IsCents c.amount
      → Books rows p
      → Books rows (apply_command io synced p c).0
  unfolding apply_command abort commit
  apply_command-Books io p c exact b = by_kind c.kind
    where
      by_kind : (kind : Kind) → Books rows (dispatch kind io synced p c).0
      by_kind cmd_prepare =
          let kept = prepare-kept io p c.key c.op c.account c.counterparty c.amount in
          same-Books p (prepare io p c.key c.op c.account c.counterparty c.amount).0 kept.0 kept.1 b
      by_kind cmd_commit = elim (Bool-cases (has p.ledger c.key)) [
        | inl old ↦ grind (arith, release-Books p c.key b)
        | inr new ↦ elim (Option-cases (lookup c.key p.prepared)) [
          | inl gone ↦ grind (arith, b)
          | inr (r, there) ↦ grind (
            arith,
            b,
            release-Books p c.key b,
            move-Books io p c.key c.op c.account c.counterparty c.amount exact b new,
          )
        ]
      ]
      by_kind cmd_abort = release-Books p c.key b
      by_kind (unknown_kind n) = b

  run-Books_kept :
      (p : Participant) (cs : List (Io × Append × Command))
      → All (λ c. c.1 ≡ synced) cs
      → All (λ c. IsCents c.2.amount) cs
      → Books rows p
      → Books rows (run p cs)
  unfolding run
  run-Books_kept p [] ok exact b = b
  run-Books_kept p ((io, append, c) ∷ cs) ok exact b =
      run-Books_kept (apply_command io append p c).0 cs ok.1 exact.1 (
        subst (λ w. Books rows (apply_command io w p c).0) (sym ok.0)
          (apply_command-Books io p c exact.0 b))

  -- Exactly once, between whole cents: if the opening balances and the amounts of the commands are
  -- whole cents, then as long as the ledger's writes succeed, after any log of such commands every
  -- balance is the opening balance and what the ledger's lines move into the account, no key stands
  -- in two lines, the keys in memory are those of the lines, which a restart reads, and the balances
  -- are whole cents.
  pub run-Books :
      (cs : List (Io × Append × Command))
      → WholeRows rows
      → All (λ c. c.1 ≡ synced) cs
      → All (λ c. IsCents c.2.amount) cs
      → Books rows (run (new_participant rows (open_ledger [])) cs)
  unfolding new_participant open_ledger booked
  run-Books cs whole ok exact =
      run-Books_kept (new_participant rows (open_ledger [])) cs ok exact (record {
        balanced = λ a. grind int_laws;
        distinct = tt;
        indexed = λ k. refl;
        whole = whole;
      })
