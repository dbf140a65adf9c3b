-- ===== src/Bank.antt =====
-- bank/twopc.go, bank/ledger.go, bank/statemachine.go: a bank's side of two-phase commit, the
-- state machine that its replicas run. Keys, accounts and texts are only compared, so they are
-- numbers; amounts are thousandths (see `Accounts`). Log entries are applied one at a time, so no call
-- runs inside another one. What the files do is an argument.
pub mod Sums
pub mod Funds
pub mod Once
pub mod Books
pub mod Promise
pub mod Crash
pub mod Settled
use paxos_2pc_payments.Base.{
  ℕ, ◌+◌, ◌*◌, ◌⊎◌, inl, inr, Bool, true, false, ◌&&◌, not, Option, none, some, List, [], ◌∷◌, ◌++◌,
  ℤ, pos, ◌+ℤ◌, ◌-ℤ◌, leb_ℤ, ltb_ℤ, eqb_ℤ, ◌==◌, if◌then◌else◌, length, Dict, lookup, insert, erase,
}
use paxos_2pc_payments.Status.{
  Status, invalid_argument, not_found, internal, already_exists, failed_precondition, aborted,
  data_loss,
}
use paxos_2pc_payments.Accounts.{Account, Error, err_not_found}
use paxos_2pc_payments.Accounts as Accounts

-- `operation`
pub data Operation : Type 0 where
  debit credit : Operation

abbrev pub is_debit : Operation → Bool
is_debit debit = true
is_debit credit = false

abbrev pub operation_eq : Operation → Operation → Bool
operation_eq debit debit = true
operation_eq credit credit = true
operation_eq _ _ = false

-- `reservation`
pub record Reservation : Type 0 where
  pub op : Operation
  pub account : ℕ
  pub counterparty : ℕ
  pub amount : ℤ
  pub settled : Bool

-- A line of the transaction file.
pub record Line : Type 0 where
  pub key : ℕ
  pub sender : ℕ
  pub receiver : ℕ
  pub amount : ℤ
  pub op : Operation

-- `ledger`: the file and the set of its keys.
pub record Ledger : Type 0 where
  pub lines : List Line
  pub applied : Dict Bool

abbrev pub keys_of : List Line → Dict Bool
keys_of [] = []
keys_of (x ∷ xs) = insert x.key true (keys_of xs)

-- `openLedger`, over the file that it finds.
unfoldable pub open_ledger : List Line → Ledger
open_ledger lines = record { lines = lines; applied = keys_of lines }

-- `has`
unfoldable pub has : Ledger → ℕ → Bool
has l key = elim (lookup key l.applied) [ none ↦ false | some b ↦ b ]

-- What the file does with a new line: it is there and synced; nothing is written; or the line is
-- there, but the sync fails. A line that is written in part is not modelled.
pub data Append : Type 0 where
  synced not_written sync_failed : Append

-- A line as it is printed: the amount has two decimals.
abbrev pub printed : Line → Line
printed x = record x { amount = Accounts.cents x.amount }

-- `ledger.record`; the flag is false on an error.
unfoldable pub record_line : Append → Ledger → Line → Ledger × Bool
record_line synced l x =
    (record { lines = l.lines ++ printed x ∷ []; applied = insert x.key true l.applied }, true)
record_line not_written l x = (l, false)
record_line sync_failed l x = (record l { lines = l.lines ++ printed x ∷ [] }, false)

-- `ledger.count`
unfoldable pub count : Ledger → ℕ
count l = length l.applied

-- `participant`, with the file of its account store.
pub record Participant : Type 0 where
  pub accounts : List Account
  pub ledger : Ledger
  pub prepared : Dict Reservation

-- `newParticipant`
unfoldable pub new_participant : List Account → Ledger → Participant
new_participant rows l = record { accounts = rows; ledger = l; prepared = [] }

-- What a reservation holds of an account.
abbrev pub held : Reservation → ℕ → ℤ
held r account = if is_debit r.op && r.account == account && not r.settled then r.amount else pos 0

-- `reservedLocked`
unfoldable pub reserved : Dict Reservation → ℕ → ℤ
reserved [] account = pos 0
reserved ((k, r) ∷ d) account = held r account +ℤ reserved d account

-- The details that a prepare and a commit of one key have to share.
abbrev pub matches : Reservation → Operation → ℕ → ℕ → ℤ → Bool
matches r op account counterparty amount =
    operation_eq r.op op
    && r.account == account
    && r.counterparty == counterparty
    && eqb_ℤ r.amount amount

abbrev pub reservation : Operation → ℕ → ℕ → ℤ → Bool → Reservation
reservation op account counterparty amount settled = record {
  op = op;
  account = account;
  counterparty = counterparty;
  amount = amount;
  settled = settled;
}

abbrev pub set_prepared : Participant → ℕ → Reservation → Participant
set_prepared p key r = record p { prepared = insert key r p.prepared }

-- The funds of a debit are short.
abbrev pub short : Participant → Operation → ℕ → ℤ → ℤ → Bool
short p op account balance amount =
    is_debit op && ltb_ℤ (balance -ℤ reserved p.prepared account) amount

-- `prepare`, once the account is known; `none` is success.
unfoldable pub hold : Participant → ℕ → Operation → ℕ → ℕ → ℤ → ℤ → Participant × Option Status
hold p key op account counterparty amount balance = elim (lookup key p.prepared) [
  | some r ↦ (p, if matches r op account counterparty amount then none else some already_exists)
  | none ↦
      if short p op account balance amount
      then (p, some failed_precondition)
      else (set_prepared p key (reservation op account counterparty amount false), none)
]

-- `prepare`
unfoldable pub prepare :
    Accounts.Io → Participant → ℕ → Operation → ℕ → ℕ → ℤ → Participant × Option Status
unfolding hold
prepare io p key op account counterparty amount =
    if account == counterparty
    then (p, some invalid_argument)
    else (if leb_ℤ amount (pos 0)
        then (p, some invalid_argument)
        else (if has p.ledger key
            then (set_prepared p key (reservation op account counterparty amount true), none)
            else elim (Accounts.balance io p.accounts account) [
              | inl err_not_found ↦ (p, some not_found)
              | inl _ ↦ (p, some internal)
              | inr balance ↦ hold p key op account counterparty amount balance
            ]))

-- `release`
unfoldable pub release : Participant → ℕ → Participant
release p key = record p { prepared = erase key p.prepared }

-- The answer of `commit`: the flag tells a transfer that an earlier attempt has settled.
pub data Answer : Type 0 where
  done : Bool → Answer
  refused : Status → Answer

abbrev pub delta_of : Operation → ℤ → ℤ
delta_of debit amount = pos 0 -ℤ amount
delta_of credit amount = amount

-- The line of a settled operation.
abbrev pub line_of : ℕ → Operation → ℕ → ℕ → ℤ → Line
line_of key debit account counterparty amount = record {
  key = key;
  sender = account;
  receiver = counterparty;
  amount = amount;
  op = debit;
}
line_of key credit account counterparty amount = record {
  key = key;
  sender = counterparty;
  receiver = account;
  amount = amount;
  op = credit;
}

-- The ledger line after the balance is written.
unfoldable pub book : Append → Participant → Line → Participant × Answer
unfolding record_line release
book append p x =
    let (l, written) = record_line append p.ledger x in
    (release (record p { ledger = l }) x.key, if written then done false else refused data_loss)

-- What a commit does with the answer of `AddDelta`.
abbrev pub move_found :
    Append
    → Participant
    → ℕ
    → Operation
    → ℕ
    → ℕ
    → ℤ
    → List Account × (Error ⊎ ℤ)
    → Participant × Answer
move_found append p key op account counterparty amount (rows, inl err_not_found) =
    (release (record p { accounts = rows }) key, refused not_found)
move_found append p key op account counterparty amount (rows, inl e) =
    (record p { accounts = rows }, refused internal)
move_found append p key op account counterparty amount (rows, inr new_balance) =
    book append (record p { accounts = rows }) (line_of key op account counterparty amount)

-- The movement of a commit.
unfoldable pub move :
    Accounts.Io → Append → Participant → ℕ → Operation → ℕ → ℕ → ℤ → Participant × Answer
unfolding book release
move io append p key op account counterparty amount =
    move_found append p key op account counterparty amount
      (Accounts.add_delta io p.accounts account (delta_of op amount))

-- `commit`
unfoldable pub commit :
    Accounts.Io → Append → Participant → ℕ → Operation → ℕ → ℕ → ℤ → Participant × Answer
unfolding move release
commit io append p key op account counterparty amount =
    if has p.ledger key then (release p key, done true) else elim (lookup key p.prepared) [
      | none ↦ (p, refused aborted)
      | some r ↦
          if not (matches r op account counterparty amount)
          then (p, refused invalid_argument)
          else (if r.settled
              then (release p key, done true)
              else move io append p key op account counterparty amount)
    ]

-- `abort`
unfoldable pub abort : Participant → ℕ → Participant
unfolding release
abort p key = release p key

-- `pendingCount`
unfoldable pub pending_count : Participant → ℕ
pending_count p = length p.prepared

-- `transactionKey`: a number of its own for each transaction and operation, as the suffix keeps
-- the texts apart.
unfoldable pub transaction_key : ℕ → Operation → ℕ
transaction_key tx debit = 2 * tx
transaction_key tx credit = 2 * tx + 1

-- `cmdKind`; an entry may carry any other string, too.
pub data Kind : Type 0 where
  cmd_prepare cmd_commit cmd_abort : Kind
  unknown_kind : ℕ → Kind

-- `command`
pub record Command : Type 0 where
  pub kind : Kind
  pub key : ℕ
  pub op : Operation
  pub account : ℕ
  pub counterparty : ℕ
  pub amount : ℤ

abbrev pub answer : Option Status → Answer
answer none = done false
answer (some s) = refused s

abbrev pub dispatch : Kind → Accounts.Io → Append → Participant → Command → Participant × Answer
dispatch cmd_prepare io append p c =
    let (p', err) = prepare io p c.key c.op c.account c.counterparty c.amount in (p', answer err)
dispatch cmd_commit io append p c = commit io append p c.key c.op c.account c.counterparty c.amount
dispatch cmd_abort io append p c = (abort p c.key, done false)
dispatch (unknown_kind n) io append p c = (p, refused internal)

-- `Apply`, on a command that is decoded.
unfoldable pub apply_command : Accounts.Io → Append → Participant → Command → Participant × Answer
apply_command io append p c = dispatch c.kind io append p c

-- `Apply`, over what `decodeCommand` makes of the bytes of a log entry.
module _ {Raw : Type 0} (decode : Raw → Option Command) where
  unfoldable pub apply : Accounts.Io → Append → Participant → Raw → Participant × Answer
  apply io append p raw = elim (decode raw) [
    | none ↦ (p, refused internal)
    | some c ↦ apply_command io append p c
  ]

-- A log of commands, each with what the files do at it.
unfoldable pub run : Participant → List (Accounts.Io × Append × Command) → Participant
run p [] = p
run p ((io, append, c) ∷ cs) = run (apply_command io append p c).0 cs
