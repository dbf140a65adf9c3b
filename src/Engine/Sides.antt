-- ===== src/Engine/Sides.antt =====
-- internal/cluster/engine.go: the sides of a partitioned shard, and the one that can decide.
use paxos_2pc_payments.Base.{
  ℕ, ◌≤◌, ◌≡◌, refl, sym, ap, subst, ◌∙◌, by_if, append_nil, append_assoc, ◌⊎◌, true, List, [], ◌∷◌,
  ◌++◌, ◌&&◌, inl, inr, if◌then◌else◌, length, ℤ, eqb_ℤ, eqb_ℤ→eq, In, arith,
}
use paxos_2pc_payments.Faults.{Faults, group_of}
use paxos_2pc_payments.Engine.{alive, add_member, gather, beats, largest}

-- The live replicas of a list on one side of the partition.
unfoldable pub side : Faults → ℤ → List ℕ → List ℕ
side f g [] = []
side f g (r ∷ rs) =
    let rest = side f g rs in if alive f r && eqb_ℤ (group_of f r) g then r ∷ rest else rest

-- What the groups have under a key.
unfoldable pub members : ℤ → List (ℤ × List ℕ) → List ℕ
members g [] = []
members g ((k, rs) ∷ groups) = if eqb_ℤ k g then rs else members g groups

eqb_ℤ_refl : (a : ℤ) → eqb_ℤ a a ≡ true
eqb_ℤ_refl a = ground arith

members-add_member :
    (h g : ℤ) (r : ℕ) (groups : List (ℤ × List ℕ))
    → members h (add_member g r groups)
      ≡ (if eqb_ℤ g h then members h groups ++ (r ∷ []) else members h groups)
unfolding members add_member
members-add_member h g r [] = ground arith
members-add_member h g r ((k, rs) ∷ groups) =
    ground (arith, members-add_member h g r groups, eqb_ℤ→eq g k)

pub members-gather :
    (f : Faults) (h : ℤ) (rs : List ℕ) (groups : List (ℤ × List ℕ))
    → members h (gather f rs groups) ≡ members h groups ++ side f h rs
unfolding gather side
members-gather f h [] groups = sym (append_nil (members h groups))
members-gather f h (r ∷ rs) groups = ground (
  arith,
  members-gather f h rs groups,
  members-gather f h rs (add_member (group_of f r) r groups),
  members-add_member h (group_of f r) r groups,
  append_assoc (members h groups) (r ∷ []) (side f h rs),
)

-- No key stands twice.
unfoldable pub Keyed : List (ℤ × List ℕ) → Type 0
Keyed [] = Unit
Keyed ((k, rs) ∷ groups) = ((g : List ℕ) → In (k, g) groups → ⊥) × Keyed groups

In-add_member :
    (g k : ℤ) (r : ℕ) (xs : List ℕ) (groups : List (ℤ × List ℕ))
    → In (k, xs) (add_member g r groups)
    → (k ≡ g) ⊎ ((ys : List ℕ) × In (k, ys) groups)
unfolding add_member
In-add_member g k r xs [] (inl same) = inl (ap (λ e. e.0) same)
In-add_member g k r xs [] (inr h) = absurd h
In-add_member g k r xs ((j, zs) ∷ groups) h =
    by_if (λ gs. In (k, xs) gs → (k ≡ g) ⊎ ((ys : List ℕ) × In (k, ys) ((j, zs) ∷ groups)))
      (eqb_ℤ g j) ((j, zs ++ (r ∷ [])) ∷ groups) ((j, zs) ∷ add_member g r groups)
      (λ same p. elim p [
        | inl e ↦ inl (ap (λ x. x.0) e ∙ sym (eqb_ℤ→eq g j same))
        | inr q ↦ inr (xs, inr q)
      ])
      (λ other p. elim p [
        | inl e ↦ inr (zs, inl (ap (λ x. (x.0, zs)) e))
        | inr q ↦ elim (In-add_member g k r xs groups q) [
          | inl e ↦ inl e
          | inr (ys, there) ↦ inr (ys, inr there)
        ]
      ])
      h

add_member-Keyed :
    (g : ℤ) (r : ℕ) (groups : List (ℤ × List ℕ)) → Keyed groups → Keyed (add_member g r groups)
unfolding Keyed add_member
add_member-Keyed g r [] d = ((λ xs h. h), tt)
add_member-Keyed g r ((k, rs) ∷ groups) d =
    by_if Keyed (eqb_ℤ g k) ((k, rs ++ (r ∷ [])) ∷ groups) ((k, rs) ∷ add_member g r groups)
      (λ same. d)
      (λ other. (
        (λ xs h. elim (In-add_member g k r xs groups h) [
          | inl e ↦ absurd (ground (arith, other, sym e))
          | inr (ys, there) ↦ d.0 ys there
        ]),
        add_member-Keyed g r groups d.1,
      ))

pub gather-Keyed :
    (f : Faults) (rs : List ℕ) (groups : List (ℤ × List ℕ))
    → Keyed groups
    → Keyed (gather f rs groups)
unfolding gather
gather-Keyed f [] groups d = d
gather-Keyed f (r ∷ rs) groups d =
    gather-Keyed f rs (if alive f r then add_member (group_of f r) r groups else groups) (
      by_if Keyed (alive f r) (add_member (group_of f r) r groups) groups
        (λ up. add_member-Keyed (group_of f r) r groups d) (λ down. d))

pub members_of_Keyed :
    (k : ℤ) (xs : List ℕ) (groups : List (ℤ × List ℕ))
    → Keyed groups
    → In (k, xs) groups
    → members k groups ≡ xs
unfolding Keyed members
members_of_Keyed k xs [] d h = absurd h
members_of_Keyed k xs ((j, ys) ∷ groups) d (inl same) =
    by_if (λ zs. zs ≡ xs) (eqb_ℤ j k) ys (members k groups) (λ e. sym (ap (λ x. x.1) same))
      (λ other. absurd (ground (arith, other, ap (λ x. x.0) same)))
members_of_Keyed k xs ((j, ys) ∷ groups) d (inr h) =
    by_if (λ zs. zs ≡ xs) (eqb_ℤ j k) ys (members k groups)
      (λ same. absurd (d.0 xs (subst (λ z. In (z, xs) groups) (sym (eqb_ℤ→eq j k same)) h)))
      (λ other. members_of_Keyed k xs groups d.1 h)

pub largest-from :
    (best : List ℕ) (groups : List (ℤ × List ℕ))
    → (largest best groups ≡ best) ⊎ ((k : ℤ) × In (k, largest best groups) groups)
unfolding largest
largest-from best [] = inl refl
largest-from best ((k, g) ∷ groups) =
    by_if (λ b. (largest b groups ≡ best) ⊎ ((j : ℤ) × In (j, largest b groups) ((k, g) ∷ groups)))
      (beats g best) g best
      (λ won. elim (largest-from g groups) [
        | inl e ↦ inr (k, inl (ap (λ x. (k, x)) e))
        | inr (j, there) ↦ inr (j, inr there)
      ])
      (λ lost. elim (largest-from best groups) [
        | inl e ↦ inl e
        | inr (j, there) ↦ inr (j, inr there)
      ])

largest-ge :
    (best : List ℕ) (groups : List (ℤ × List ℕ)) → length best ≤ length (largest best groups)
unfolding largest
largest-ge best [] = omega arith
largest-ge best ((k, g) ∷ groups) = ground (arith, largest-ge best groups, largest-ge g groups)

pub largest-max :
    (h : ℤ) (best : List ℕ) (groups : List (ℤ × List ℕ))
    → length (members h groups) ≤ length (largest best groups)
unfolding largest members
largest-max h best [] = omega arith
largest-max h best ((k, g) ∷ groups) = ground (
  arith,
  largest-ge best groups,
  largest-ge g groups,
  largest-max h best groups,
  largest-max h g groups,
)
