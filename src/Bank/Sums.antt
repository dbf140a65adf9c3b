-- ===== src/Bank/Sums.antt =====
-- bank/twopc.go: what `reservedLocked` adds up, as reservations come and go.
use paxos_2pc_payments.Base.{
  ℕ, ℤ, pos, ◌≡◌, ◌+ℤ◌, ◌≤ℤ◌, inl, inr, refl, Option, none, some, [], ◌∷◌, arith, lookup, insert,
  erase, int_laws, Dict, NodupKeys, Option-cases, erase_absent, subst, sym,
}
use paxos_2pc_payments.Bank.{Reservation, held, reserved}

abbrev pub held_of : Option Reservation → ℕ → ℤ
held_of none a = pos 0
held_of (some r) a = held r a

-- No reservation is of a negative amount.
abbrev pub NonNegative : Dict Reservation → Type 0
NonNegative [] = Unit
NonNegative ((k, r) ∷ d) = (pos 0 ≤ℤ r.amount) × NonNegative d

pub reserved-erase :
    (k a : ℕ) (d : Dict Reservation)
    → NodupKeys d
    → reserved (erase k d) a +ℤ held_of (lookup k d) a ≡ reserved d a
unfolding reserved lookup erase
reserved-erase k a [] n = grind int_laws
reserved-erase k a ((j, r) ∷ d) n = grind (int_laws, reserved-erase k a d n.1, erase_absent k d)

pub held_nonneg : (r : Reservation) (a : ℕ) → pos 0 ≤ℤ r.amount → pos 0 ≤ℤ held r a
held_nonneg r a h = ground arith

pub lookup-NonNegative :
    (k : ℕ) (d : Dict Reservation) (r : Reservation)
    → NonNegative d
    → lookup k d ≡ some r
    → pos 0 ≤ℤ r.amount
unfolding lookup
lookup-NonNegative k [] r n h = absurd (ground arith)
lookup-NonNegative k ((j, x) ∷ d) r n h = ground (arith, lookup-NonNegative k d r n.1)

pub erase-NonNegative : (k : ℕ) (d : Dict Reservation) → NonNegative d → NonNegative (erase k d)
unfolding erase
erase-NonNegative k [] n = tt
erase-NonNegative k ((j, x) ∷ d) n = ground (arith, erase-NonNegative k d n.1)

pub held_of_nonneg :
    (k a : ℕ) (d : Dict Reservation) → NonNegative d → pos 0 ≤ℤ held_of (lookup k d) a
held_of_nonneg k a d n = elim (Option-cases (lookup k d)) [
  | inl gone ↦ ground arith
  | inr (r, there) ↦
      subst (λ o. pos 0 ≤ℤ held_of o a) (sym there)
        (held_nonneg r a (lookup-NonNegative k d r n there))
]

pub reserved-erase_le :
    (k a : ℕ) (d : Dict Reservation)
    → NodupKeys d
    → NonNegative d
    → reserved (erase k d) a ≤ℤ reserved d a
reserved-erase_le k a d u n = grind (int_laws, reserved-erase k a d u, held_of_nonneg k a d n)

pub reserved-insert :
    (k a : ℕ) (r : Reservation) (d : Dict Reservation)
    → reserved (insert k r d) a ≡ held r a +ℤ reserved (erase k d) a
unfolding reserved insert
reserved-insert k a r d = refl
