-- ===== src/Accounts/Laws.antt =====
-- internal/accounts/accounts.go: what the operations leave of each account.
use paxos_2pc_payments.Base.{
  ℕ, ◌≡◌, ◌⊎◌, inl, inr, Option, none, some, List, [], ◌∷◌, ℤ, pos, ◌+ℤ◌, ◌==◌, arith,
  if◌then◌else◌, Option-cases, Bool-cases, Bool, true, false, refl, ap, ◌∙◌,
}
use paxos_2pc_payments.Accounts.{
  Account, Error, err_not_found, io_error, Io, find, add_to, written, updated, cents, add_delta,
}
use paxos_2pc_payments.Accounts.Cents.{
  IsCents, cents_of_IsCents, IsCents-add, cents-IsCents, WholeRows,
}

-- The balance that a file holds for an account, 0 without a row.
abbrev pub held_balance : Option Account → ℤ
held_balance none = pos 0
held_balance (some a) = a.balance

unfoldable pub stored : List Account → ℕ → ℤ
stored rows id = held_balance (find id rows)

-- `AddDelta` changes one account, and no row comes or goes.
find-add_to :
    (id j : ℕ) (delta : ℤ) (rows : List Account) (a : Account)
    → find id rows ≡ some a
    → find j (add_to id delta rows)
      ≡ (if id == j then some (record a { balance = a.balance +ℤ delta }) else find j rows)
unfolding find add_to
find-add_to id j delta [] a h = absurd (ground arith)
find-add_to id j delta (x ∷ rows) a h = ground (arith, find-add_to id j delta rows a)

add_to-stored :
    (id j : ℕ) (delta : ℤ) (rows : List Account) (a : Account)
    → find id rows ≡ some a
    → stored (add_to id delta rows) j ≡ (if id == j then stored rows j +ℤ delta else stored rows j)
unfolding stored
add_to-stored id j delta rows a h = grind (arith, find-add_to id j delta rows a h)

pub found-stored :
    (rows : List Account) (id : ℕ) (a : Account)
    → find id rows ≡ some a
    → stored rows id ≡ a.balance
unfolding stored
found-stored rows id a h = ground arith

find-written :
    (j : ℕ) (rows : List Account) (a : Account)
    → find j rows ≡ some a
    → find j (written rows) ≡ some (record a { balance = cents a.balance })
unfolding find written
find-written j [] a h = absurd (ground arith)
find-written j (x ∷ rows) a h = ground (arith, find-written j rows a)

find-written-none :
    (j : ℕ) (rows : List Account) → find j rows ≡ none → find j (written rows) ≡ none
unfolding find written
find-written-none j [] h = refl
find-written-none j (x ∷ rows) h = ground (arith, find-written-none j rows)

written-stored : (j : ℕ) (rows : List Account) → stored (written rows) j ≡ cents (stored rows j)
unfolding stored cents
written-stored j rows = elim (Option-cases (find j rows)) [
  | inl gone ↦ rw (gone, find-written-none j rows gone) refl
  | inr (a, here) ↦ rw (here, find-written j rows a here) refl
]

-- The accounts of the file stay.
pub updated-known :
    (id j : ℕ) (delta : ℤ) (rows : List Account) (a x : Account)
    → find id rows ≡ some a
    → find j rows ≡ some x
    → (y : Account) × (find j (updated id delta rows) ≡ some y)
unfolding updated
updated-known id j delta rows a x h k = elim (Bool-cases (id == j)) [
  | inl same ↦ (
    _,
    find-written j (add_to id delta rows) (record a { balance = a.balance +ℤ delta })
        (ground (arith, find-add_to id j delta rows a h)),
  )
  | inr other ↦
      (_, find-written j (add_to id delta rows) x (ground (arith, find-add_to id j delta rows a h)))
]

pub updated-stored :
    (id j : ℕ) (delta : ℤ) (rows : List Account) (a : Account)
    → find id rows ≡ some a
    → stored (updated id delta rows) j
      ≡ cents (if id == j then stored rows j +ℤ delta else stored rows j)
unfolding updated
updated-stored id j delta rows a h =
    written-stored j (add_to id delta rows) ∙ ap cents (add_to-stored id j delta rows a h)

stored-IsCents : (rows : List Account) (j : ℕ) → WholeRows rows → IsCents (stored rows j)
unfolding stored find
stored-IsCents [] j h = (refl, refl)
stored-IsCents (x ∷ rows) j h = ground (arith, stored-IsCents rows j h.1)

-- Between whole cents, nothing is lost.
pub updated-stored_whole :
    (id j : ℕ) (delta : ℤ) (rows : List Account) (a : Account)
    → find id rows ≡ some a
    → WholeRows rows
    → IsCents delta
    → stored (updated id delta rows) j ≡ (if id == j then stored rows j +ℤ delta else stored rows j)
updated-stored_whole id j delta rows a h whole exact =
    updated-stored id j delta rows a h
    ∙ cents_of_IsCents (if id == j then stored rows j +ℤ delta else stored rows j)
        (by_account (id == j))
  where
    by_account : (b : Bool) → IsCents (if b then stored rows j +ℤ delta else stored rows j)
    by_account true = IsCents-add (stored rows j) delta (stored-IsCents rows j whole) exact
    by_account false = stored-IsCents rows j whole

written-WholeRows : (rows : List Account) → WholeRows (written rows)
unfolding written
written-WholeRows [] = tt
written-WholeRows (a ∷ rows) = (cents-IsCents a.balance, written-WholeRows rows)

pub updated-WholeRows :
    (id : ℕ) (delta : ℤ) (rows : List Account) → WholeRows (updated id delta rows)
unfolding updated
updated-WholeRows id delta rows = written-WholeRows (add_to id delta rows)

-- An update either answers with the balance of its account and the delta added up, and stores that
-- sum for the account and for every other account what was stored, each rounded to two decimals; or
-- it answers with an error and changes nothing.
pub add_delta_lem :
    (io : Io) (rows : List Account) (id : ℕ) (delta : ℤ) (j : ℕ)
    → (((add_delta io rows id delta).1 ≡ inr (stored rows id +ℤ delta))
        × (stored (add_delta io rows id delta).0 j
            ≡ cents (if id == j then stored rows j +ℤ delta else stored rows j)))
      ⊎ (((e : Error) × ((add_delta io rows id delta).1 ≡ inl e))
          × ((add_delta io rows id delta).0 ≡ rows))
unfolding add_delta
add_delta_lem io rows id delta j = elim (Bool-cases io.readable) [
  | inr unread ↦ inr ((io_error, ground arith), ground arith)
  | inl read ↦ elim (Option-cases (find id rows)) [
    | inl gone ↦ inr ((err_not_found, ground arith), ground arith)
    | inr (a, here) ↦ elim (Bool-cases io.replaced) [
      | inr kept ↦ inr ((io_error, ground arith), ground arith)
      | inl written ↦ inl (
        grind (arith, found-stored rows id a here),
        grind (arith, updated-stored id j delta rows a here),
      )
    ]
  ]
]
