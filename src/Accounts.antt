-- ===== src/Accounts.antt =====
-- internal/accounts/accounts.go: the account file of a bank. The file is the list of its rows;
-- texts are only compared, so they are numbers. Amounts are float64 in the code and whole numbers
-- of thousandths here: sums are exact, and a balance is rounded to two decimals when it is written.
-- Whether a file can be read, and replaced, is an argument.
pub mod Cents
pub mod Laws
use paxos_2pc_payments.Base.{
  ℕ, ◌⊎◌, inl, inr, Bool, true, false, ◌&&◌, Option, none, some, List, [], ◌∷◌, ◌++◌, ℤ, ◌+ℤ◌, ◌==◌,
  if◌then◌else◌, ◌+◌, ◌*◌, ◌/◌, pos_part, neg_part, sub_ℕ,
}

-- A number of thousandths, rounded to a multiple of ten. Halves go up; with a float64 that depends
-- on its bits, and nothing that is proved depends on it.
abbrev pub round_tenth : ℕ → ℕ
round_tenth n = (n + 5) / 10 * 10

-- What `FormatFloat` with two decimals and `ParseFloat` leave of an amount.
unfoldable pub cents : ℤ → ℤ
cents z = sub_ℕ (round_tenth (pos_part z)) (round_tenth (neg_part z))

-- `Account`
pub record Account : Type 0 where
  pub id : ℕ
  pub username : ℕ
  pub password : ℕ
  pub bank : ℕ
  pub balance : ℤ

-- `ErrNotFound`, the error of `Create`, and whatever the files fail with.
pub data Error : Type 0 where
  err_not_found already_registered io_error : Error

-- Whether the file can be read, and whether the rename that replaces it succeeds.
pub record Io : Type 0 where
  pub readable : Bool
  pub replaced : Bool

-- What is in the file after `write` has replaced it.
unfoldable pub written : List Account → List Account
written [] = []
written (a ∷ rows) = record a { balance = cents a.balance } ∷ written rows

-- `NewStore`, over the file, if there is one.
unfoldable pub new_store : Io → Option (List Account) → Option (List Account)
new_store io none = if io.replaced then some [] else none
new_store io (some rows) = some rows

-- The first row of an account.
unfoldable pub find : ℕ → List Account → Option Account
find id [] = none
find id (a ∷ rows) = if a.id == id then some a else find id rows

-- `List`
unfoldable pub list : Io → List Account → Error ⊎ List Account
list io rows = if io.readable then inr rows else inl io_error

-- `Balance`
unfoldable pub balance : Io → List Account → ℕ → Error ⊎ ℤ
balance io rows id =
    if io.readable
    then elim (find id rows) [ none ↦ inl err_not_found | some a ↦ inr a.balance ]
    else inl io_error

-- `Exists`
unfoldable pub exists : Io → List Account → ℕ → Error ⊎ Bool
unfolding balance
exists io rows id = elim (balance io rows id) [
  | inr _ ↦ inr true
  | inl err_not_found ↦ inr false
  | inl e ↦ inl e
]

-- The loop of `AddDelta`: the first row of the account gets the delta.
unfoldable pub add_to : ℕ → ℤ → List Account → List Account
add_to id delta [] = []
add_to id delta (a ∷ rows) =
    let rest = add_to id delta rows in
    if a.id == id then record a { balance = a.balance +ℤ delta } ∷ rows else a ∷ rest

-- The file after a successful `AddDelta`.
unfoldable pub updated : ℕ → ℤ → List Account → List Account
unfolding add_to
updated id delta rows = written (add_to id delta rows)

-- `AddDelta`, on whether the file is read and replaced, and on the row of the account.
abbrev pub add_found :
    Bool → Bool → List Account → ℕ → ℤ → Option Account → List Account × (Error ⊎ ℤ)
add_found false replaced rows id delta found = (rows, inl io_error)
add_found true replaced rows id delta none = (rows, inl err_not_found)
add_found true false rows id delta (some a) = (rows, inl io_error)
add_found true true rows id delta (some a) = (updated id delta rows, inr (a.balance +ℤ delta))

-- `AddDelta`
unfoldable pub add_delta : Io → List Account → ℕ → ℤ → List Account × (Error ⊎ ℤ)
unfolding updated
add_delta io rows id delta = add_found io.readable io.replaced rows id delta (find id rows)

-- `Create`
unfoldable pub create : Io → List Account → Account → List Account × Option Error
create io rows a =
    if io.readable
    then elim (find a.id rows) [
      | some existing ↦ (
        rows,
        if existing.username == a.username && existing.password == a.password
            then none
            else some already_registered,
      )
      | none ↦ if io.replaced then (written (rows ++ a ∷ []), none) else (rows, some io_error)
    ]
    else (rows, some io_error)
