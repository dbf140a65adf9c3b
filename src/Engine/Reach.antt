-- ===== src/Engine/Reach.antt =====
-- internal/cluster/engine.go: the sides of a partition, and who reaches whom.
use paxos_2pc_payments.Base.{
  ℕ, ◌+◌, ◌≤◌, ◌≡◌, ◌≢◌, refl, sym, subst, by_if, true, false, none, List, [], ◌∷◌, ◌&&◌, inl, inr,
  length, ℤ, eqb_ℤ, eqb_ℤ→eq, In, arith,
}
use paxos_2pc_payments.Faults.{Faults, is_dead, group_of, check}
use paxos_2pc_payments.Engine.{alive}
use paxos_2pc_payments.Engine.Sides.{side}

pub In-side :
    (f : Faults) (g : ℤ) (rs : List ℕ) (a : ℕ)
    → In a (side f g rs)
    → In a rs × (is_dead f a ≡ false) × (group_of f a ≡ g)
unfolding side
In-side f g [] a h = absurd h
In-side f g (r ∷ rs) a h =
    by_if (λ xs. In a xs → In a (r ∷ rs) × (is_dead f a ≡ false) × (group_of f a ≡ g))
      (alive f r && eqb_ℤ (group_of f r) g) (r ∷ side f g rs) (side f g rs)
      (λ holds p. elim p [
        | inl e ↦
            subst (λ x. In x (r ∷ rs) × (is_dead f x ≡ false) × (group_of f x ≡ g)) (sym e)
              (inl refl, up_of r holds, eqb_ℤ→eq (group_of f r) g (same_of r holds))
        | inr q ↦ let (member, up, same) = In-side f g rs a q in (inr member, up, same)
      ])
      (λ other p. let (member, up, same) = In-side f g rs a p in (inr member, up, same)) h
  where
    up_of : (x : ℕ) → (alive f x && eqb_ℤ (group_of f x) g) ≡ true → is_dead f x ≡ false
    up_of x holds = ground (arith, holds)

    same_of : (x : ℕ) → (alive f x && eqb_ℤ (group_of f x) g) ≡ true → eqb_ℤ (group_of f x) g ≡ true
    same_of x holds = ground (arith, holds)

pub side-In :
    (f : Faults) (g : ℤ) (rs : List ℕ) (a : ℕ)
    → In a rs
    → is_dead f a ≡ false
    → group_of f a ≡ g
    → In a (side f g rs)
unfolding side
side-In f g [] a h up same = absurd h
side-In f g (r ∷ rs) a h up same =
    by_if (In a) (alive f r && eqb_ℤ (group_of f r) g) (r ∷ side f g rs) (side f g rs)
      (λ holds. elim h [ inl e ↦ inl e | inr k ↦ inr (side-In f g rs a k up same) ])
      (λ other. elim h [
        | inl e ↦
            absurd
              (out_of (subst (λ x. (alive f x && eqb_ℤ (group_of f x) g) ≡ false) (sym e) other))
        | inr k ↦ side-In f g rs a k up same
      ])
  where
    out_of : (alive f a && eqb_ℤ (group_of f a) g) ≡ false → ⊥
    out_of other = ground (arith, other, up, same)

pub length-sides :
    (f : Faults) (g h : ℤ) (rs : List ℕ)
    → g ≢ h
    → length (side f g rs) + length (side f h rs) ≤ length rs
unfolding side
length-sides f g h [] apart = omega arith
length-sides f g h (r ∷ rs) apart = ground (
  arith,
  length-sides f g h rs apart,
  eqb_ℤ→eq (group_of f r) g,
  eqb_ℤ→eq (group_of f r) h,
  apart,
)

pub check-none :
    (f : Faults) (a b : ℕ)
    → check f a b ≡ none
    → (is_dead f a ≡ false) × (group_of f a ≡ group_of f b)
unfolding check
check-none f a b h = (ground (arith, h), eqb_ℤ→eq (group_of f a) (group_of f b) (ground (arith, h)))

pub none-check :
    (f : Faults) (a b : ℕ)
    → is_dead f a ≡ false
    → is_dead f b ≡ false
    → group_of f a ≡ group_of f b
    → check f a b ≡ none
unfolding check
none-check f a b up up' same = ground (arith, up, up', same)
