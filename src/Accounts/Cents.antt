-- ===== src/Accounts/Cents.antt =====
-- internal/accounts/accounts.go: amounts of whole cents are stored as they are.
use paxos_2pc_payments.Base.{
  ◌%◌, ◌≡◌, ℤ, pos, negsuc, pos_part, neg_part, ◌+ℤ◌, ◌-ℤ◌, List, All, arith,
}
use paxos_2pc_payments.Accounts.{Account, cents}

-- A whole number of cents.
abbrev pub IsCents : ℤ → Type 0
IsCents z = (pos_part z % 10 ≡ 0) × (neg_part z % 10 ≡ 0)

pub cents_of_IsCents : (z : ℤ) → IsCents z → cents z ≡ z
unfolding cents
cents_of_IsCents (pos n) h = ground arith
cents_of_IsCents (negsuc n) h = ground arith

pub IsCents-add : (a b : ℤ) → IsCents a → IsCents b → IsCents (a +ℤ b)
unfolding ◌+ℤ◌
IsCents-add a b h k = ground arith

pub IsCents-minus : (a : ℤ) → IsCents a → IsCents (pos 0 -ℤ a)
unfolding ◌-ℤ◌
IsCents-minus a h = ground arith

pub cents-IsCents : (z : ℤ) → IsCents (cents z)
unfolding cents
cents-IsCents (pos n) = ground arith
cents-IsCents (negsuc n) = ground arith

-- Every balance of a file is a whole number of cents.
abbrev pub WholeRows : List Account → Type 0
WholeRows rows = All (λ a. IsCents a.balance) rows
