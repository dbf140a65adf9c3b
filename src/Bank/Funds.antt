-- ===== src/Bank/Funds.antt =====
-- bank/twopc.go: reservations never exceed the balance.
use paxos_2pc_payments.Base.{
  ℕ, ℤ, pos, ◌≡◌, ◌+ℤ◌, ◌≤ℤ◌, leb_ℤ, inl, inr, refl, Bool, true, false, Option, none, some, List,
  [], ◌∷◌, if◌then◌else◌, ◌==◌, arith, lookup, insert, erase, int_laws, Dict, NodupKeys,
  Option-cases, erase-NodupKeys, insert-NodupKeys, All,
}
use paxos_2pc_payments.Accounts.{Account, Io, find, updated}
use paxos_2pc_payments.Accounts as Accounts
use paxos_2pc_payments.Accounts.Laws.{stored, found-stored, updated-stored_whole, updated-WholeRows}
use paxos_2pc_payments.Accounts.Cents.{IsCents, IsCents-minus, WholeRows}
use paxos_2pc_payments.Bank.{
  Operation, debit, credit, Reservation, reservation, held, reserved, Participant, Append, Line,
  line_of, set_prepared, hold, prepare, release, book, move, move_found, commit, abort, Command,
  apply_command, Kind, delta_of, matches, short, has, dispatch, cmd_prepare, cmd_commit, cmd_abort,
  unknown_kind, new_participant, run, Ledger,
}
use paxos_2pc_payments.Bank.Sums.{
  NonNegative, held_nonneg, reserved-erase, reserved-erase_le, reserved-insert, erase-NonNegative,
  lookup-NonNegative,
}

-- Every reservation is covered.
pub record Inv (p : Participant) : Type 0 where
  pub nodup : NodupKeys p.prepared
  pub positive : NonNegative p.prepared
  pub covered : (a : ℕ) → reserved p.prepared a ≤ℤ stored p.accounts a
  pub whole : WholeRows p.accounts

-- What a commit of whole cents adds.
pub delta_of-IsCents : (op : Operation) (amount : ℤ) → IsCents amount → IsCents (delta_of op amount)
delta_of-IsCents debit amount h = IsCents-minus amount h
delta_of-IsCents credit amount h = h

release-Inv : (p : Participant) (key : ℕ) → Inv p → Inv (release p key)
unfolding release
release-Inv p key v = record {
  nodup = erase-NodupKeys key p.prepared v.nodup;
  positive = erase-NonNegative key p.prepared v.positive;
  covered =
      λ a. grind (int_laws, v.covered a, reserved-erase_le key a p.prepared v.nodup v.positive);
  whole = v.whole;
}

-- A new reservation, of funds that are there.
set-Inv :
    (p : Participant) (key : ℕ) (r : Reservation)
    → Inv p
    → pos 0 ≤ℤ r.amount
    → ((a : ℕ) → held r a +ℤ reserved p.prepared a ≤ℤ stored p.accounts a)
    → Inv (set_prepared p key r)
unfolding insert
set-Inv p key r v h fits = record {
  nodup = insert-NodupKeys key r p.prepared v.nodup;
  positive = (h, erase-NonNegative key p.prepared v.positive);
  covered = λ a. grind (
    int_laws,
    fits a,
    reserved-insert key a r p.prepared,
    reserved-erase_le key a p.prepared v.nodup v.positive,
  );
  whole = v.whole;
}

-- What a prepare may do to the state.
pub data Held (p : Participant) : Participant → Type 0 where
  unchanged : Held p p
  replayed :
      (key : ℕ) (op : Operation) (account counterparty : ℕ) (amount : ℤ)
      → leb_ℤ amount (pos 0) ≡ false
      → has p.ledger key ≡ true
      → Held p (set_prepared p key (reservation op account counterparty amount true))
  fresh :
      (key : ℕ) (op : Operation) (account counterparty : ℕ) (amount : ℤ)
      → leb_ℤ amount (pos 0) ≡ false
      → short p op account (stored p.accounts account) amount ≡ false
      → Held p (set_prepared p key (reservation op account counterparty amount false))

hold-Held :
    (p : Participant) (key : ℕ) (op : Operation) (account counterparty : ℕ) (amount balance : ℤ)
    → leb_ℤ amount (pos 0) ≡ false
    → balance ≡ stored p.accounts account
    → Held p (hold p key op account counterparty amount balance).0
unfolding hold
hold-Held p key op account counterparty amount balance h b = grind (arith, unchanged, fresh)

pub prepare-Held :
    (io : Io) (p : Participant) (key : ℕ) (op : Operation) (account counterparty : ℕ) (amount : ℤ)
    → Held p (prepare io p key op account counterparty amount).0
unfolding prepare Accounts.balance
prepare-Held io p key op account counterparty amount =
    elim (Option-cases (find account p.accounts)) [
      | inl gone ↦ grind (arith, unchanged, replayed)
      | inr (a, there) ↦
          grind (arith, unchanged, replayed, hold-Held, found-stored p.accounts account a there)
    ]

-- A prepare moves no money and writes no line.
pub prepare-kept :
    (io : Io) (p : Participant) (key : ℕ) (op : Operation) (account counterparty : ℕ) (amount : ℤ)
    → ((prepare io p key op account counterparty amount).0.accounts ≡ p.accounts)
      × ((prepare io p key op account counterparty amount).0.ledger ≡ p.ledger)
prepare-kept io p key op account counterparty amount =
    by_case (prepare-Held io p key op account counterparty amount)
  where
    by_case : {p' : Participant} → Held p p' → (p'.accounts ≡ p.accounts) × (p'.ledger ≡ p.ledger)
    by_case unchanged = (refl, refl)
    by_case (replayed k o a c m h old) = (refl, refl)
    by_case (fresh k o a c m h e) = (refl, refl)

Held-Inv : {p p' : Participant} → Inv p → Held p p' → Inv p'
Held-Inv v unchanged = v
Held-Inv {p} v (replayed key op account counterparty amount h old) =
    set-Inv p key (reservation op account counterparty amount true) v (ground arith)
      (λ a. grind (int_laws, v.covered a))
Held-Inv {p} v (fresh key op account counterparty amount h enough) =
    set-Inv p key (reservation op account counterparty amount false) v (ground arith)
      (λ a. grind (int_laws, v.covered a))

-- The balance is written, and the reservation is gone.
moved-Inv :
    (p : Participant) (rows : List Account) (l : Ledger) (key : ℕ) (op : Operation)
    (account counterparty : ℕ) (amount : ℤ) (r : Reservation)
    → Inv p
    → lookup key p.prepared ≡ some r
    → matches r op account counterparty amount ≡ true
    → r.settled ≡ false
    → ((a : ℕ)
        → stored rows a ≡ (
            if account == a
            then stored p.accounts a +ℤ delta_of op amount
            else stored p.accounts a))
    → WholeRows rows
    → Inv (record { accounts = rows; ledger = l; prepared = erase key p.prepared })
moved-Inv p rows l key op account counterparty amount r v there same live wrote whole = record {
  nodup = erase-NodupKeys key p.prepared v.nodup;
  positive = erase-NonNegative key p.prepared v.positive;
  covered = λ a. grind (
    int_laws,
    v.covered a,
    reserved-erase key a p.prepared v.nodup,
    wrote a,
    lookup-NonNegative key p.prepared r v.positive there,
    held_nonneg r a,
  );
  whole = whole;
}

-- What the movement of a commit may do to the state.
data Moved (p : Participant) (key account : ℕ) (delta : ℤ) : Participant → Type 0 where
  failed : Moved p key account delta p
  vanished : Moved p key account delta (release p key)
  booked :
      (l : Ledger) (a : Account)
      → find account p.accounts ≡ some a
      → Moved p key account delta (record {
        accounts = updated account delta p.accounts;
        ledger = l;
        prepared = erase key p.prepared;
      })

pub line_of-key :
    (key : ℕ) (op : Operation) (account counterparty : ℕ) (amount : ℤ)
    → (line_of key op account counterparty amount).key ≡ key
line_of-key key debit account counterparty amount = refl
line_of-key key credit account counterparty amount = refl

book-Moved :
    (append : Append) (p : Participant) (key account : ℕ) (delta : ℤ) (a : Account) (x : Line)
    → find account p.accounts ≡ some a
    → x.key ≡ key
    → Moved p key account delta
        (book append (record p { accounts = updated account delta p.accounts }) x).0
unfolding book release
book-Moved append p key account delta a x there same = grind (arith, booked)

move-Moved :
    (io : Io) (append : Append) (p : Participant) (key : ℕ) (op : Operation)
    (account counterparty : ℕ) (amount : ℤ)
    → Moved p key account
        (delta_of op amount)
        (move io append p key op account counterparty amount).0
unfolding move Accounts.add_delta release
move-Moved io append p key op account counterparty amount =
    by_io io.readable io.replaced (find account p.accounts)
      (λ a there.
        book-Moved append p key account (delta_of op amount) a
          (line_of key op account counterparty amount) there
          (line_of-key key op account counterparty amount))
      refl
  where
    by_io :
        (r w : Bool) (o : Option Account)
        → ((a : Account)
            → find account p.accounts ≡ some a
            → Moved p key account
                (delta_of op amount)
                (book append
                  (record p { accounts = updated account (delta_of op amount) p.accounts })
                  (line_of key op account counterparty amount)).0)
        → find account p.accounts ≡ o
        → Moved p key account
            (delta_of op amount)
            (move_found append p key op account counterparty amount
              (Accounts.add_found r w p.accounts account (delta_of op amount) o)).0
    by_io false w o ok e = failed
    by_io true w none ok e = vanished
    by_io true false (some a) ok e = failed
    by_io true true (some a) ok e = ok a e

Moved-Inv :
    (p : Participant) (key : ℕ) (op : Operation) (account counterparty : ℕ) (amount : ℤ)
    (r : Reservation) (p' : Participant)
    → Inv p
    → lookup key p.prepared ≡ some r
    → matches r op account counterparty amount ≡ true
    → r.settled ≡ false
    → IsCents amount
    → Moved p key account (delta_of op amount) p'
    → Inv p'
Moved-Inv p key op account counterparty amount r p' v there same live exact failed = v
Moved-Inv p key op account counterparty amount r p' v there same live exact vanished =
    release-Inv p key v
Moved-Inv p key op account counterparty amount r p' v there same live exact (booked l a found) =
    moved-Inv p (updated account (delta_of op amount) p.accounts) l key op account counterparty
      amount r v there same live
      (λ j.
        updated-stored_whole account j (delta_of op amount) p.accounts a found v.whole
          (delta_of-IsCents op amount exact))
      (updated-WholeRows account (delta_of op amount) p.accounts)

commit-Inv :
    (io : Io) (append : Append) (p : Participant) (key : ℕ) (op : Operation)
    (account counterparty : ℕ) (amount : ℤ)
    → IsCents amount
    → Inv p
    → Inv (commit io append p key op account counterparty amount).0
unfolding commit release
commit-Inv io append p key op account counterparty amount exact v =
    elim (Option-cases (lookup key p.prepared)) [
      | inl gone ↦ grind (arith, v, release-Inv p key v)
      | inr (r, there) ↦ grind (
        arith,
        v,
        release-Inv p key v,
        exact,
        Moved-Inv p key op account counterparty amount r
            (move io append p key op account counterparty amount).0 v there,
        move-Moved io append p key op account counterparty amount,
      )
    ]

-- No command of whole cents, whatever the files do, breaks the cover of the reservations.
pub apply_command-Inv :
    (io : Io) (append : Append) (p : Participant) (c : Command)
    → IsCents c.amount
    → Inv p
    → Inv (apply_command io append p c).0
unfolding apply_command abort
apply_command-Inv io append p c exact v = by_kind c.kind
  where
    by_kind : (k : Kind) → Inv (dispatch k io append p c).0
    by_kind cmd_prepare =
        Held-Inv v (prepare-Held io p c.key c.op c.account c.counterparty c.amount)
    by_kind cmd_commit = commit-Inv io append p c.key c.op c.account c.counterparty c.amount exact v
    by_kind cmd_abort = release-Inv p c.key v
    by_kind (unknown_kind n) = v

run-Inv :
    (p : Participant) (cs : List (Io × Append × Command))
    → All (λ c. IsCents c.2.amount) cs
    → Inv p
    → Inv (run p cs)
unfolding run
run-Inv p [] exact v = v
run-Inv p ((io, append, c) ∷ cs) exact v =
    run-Inv (apply_command io append p c).0 cs exact.1 (apply_command-Inv io append p c exact.0 v)

reserved_nonneg : (d : Dict Reservation) (a : ℕ) → NonNegative d → pos 0 ≤ℤ reserved d a
unfolding reserved
reserved_nonneg [] a n = omega arith
reserved_nonneg ((k, r) ∷ d) a n = grind (int_laws, held_nonneg r a n.0, reserved_nonneg d a n.1)

stored_nonneg :
    (rows : List Account) (a : ℕ) → All (λ x. pos 0 ≤ℤ x.balance) rows → pos 0 ≤ℤ stored rows a
unfolding stored find
stored_nonneg [] a h = omega arith
stored_nonneg (x ∷ rows) a h = ground (arith, stored_nonneg rows a h.1)

new_participant-Inv :
    (rows : List Account) (l : Ledger)
    → All (λ x. pos 0 ≤ℤ x.balance) rows
    → WholeRows rows
    → Inv (new_participant rows l)
unfolding new_participant reserved
new_participant-Inv rows l h whole = record {
  nodup = tt;
  positive = tt;
  covered = λ a. stored_nonneg rows a h;
  whole = whole;
}

-- No overdraft, between whole cents: a bank that starts without a negative balance and without
-- reservations, and whose opening balances and commands' amounts are whole cents, never has a
-- negative balance, after any log of such commands and whatever the files do, and what is reserved
-- of an account is never more than its balance.
pub run-no_overdraft :
    (rows : List Account) (l : Ledger) (cs : List (Io × Append × Command)) (a : ℕ)
    → All (λ x. pos 0 ≤ℤ x.balance) rows
    → WholeRows rows
    → All (λ c. IsCents c.2.amount) cs
    → (pos 0 ≤ℤ stored (run (new_participant rows l) cs).accounts a)
      × (reserved (run (new_participant rows l) cs).prepared a
          ≤ℤ stored (run (new_participant rows l) cs).accounts a)
run-no_overdraft rows l cs a h whole exact =
    let v = run-Inv (new_participant rows l) cs exact (new_participant-Inv rows l h whole) in
    let n = reserved_nonneg (run (new_participant rows l) cs).prepared a v.positive in
    (grind (int_laws, v.covered a, n), v.covered a)
