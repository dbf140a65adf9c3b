-- ===== src/Engine/Settled.antt =====
-- internal/cluster/engine.go: when `settled` calls a shard settled.
use paxos_2pc_payments.Base.{
  ℕ, ◌+◌, ◌≤◌, ◌<◌, ◌≡◌, ◌↔◌, ◌⊎◌, refl, sym, subst, inl, inr, Bool, by_if, true, false, Option,
  none, some, List, [], ◌∷◌, ◌&&◌, In, arith, if◌then◌else◌,
}
use paxos_2pc_payments.Faults.{Faults}
use paxos_2pc_payments.Engine.{
  Engine, View, NodeInfo, leads, alive, in_group, infos, count_leaders, majority_group, verdict,
  settled,
}

-- The answer is that of a live replica that says that it leads.
abbrev pub Claims : Faults → NodeInfo → Type 0
Claims f i = (leads i && alive f i.id) ≡ true

-- The count of the leaders from `n` on: some leader is outside of the group, or none is, and the
-- count has risen exactly where there is one.
Counted : Faults → List ℕ → Bool → ℕ → List NodeInfo → Option ℕ → Type 0
Counted f group ok n is none =
    (i : NodeInfo) × In i is × Claims f i × ((ok && in_group group i.id) ≡ false)
Counted f group ok n is (some m) =
    ((i : NodeInfo) → In i is → Claims f i → (ok && in_group group i.id) ≡ true)
    × (n ≤ m)
    × (n < m → (i : NodeInfo) × In i is × Claims f i)
    × ((i : NodeInfo) → In i is → Claims f i → n < m)

count-Counted :
    (f : Faults) (group : List ℕ) (ok : Bool) (n : ℕ) (is : List NodeInfo)
    → Counted f group ok n is (count_leaders f group ok n is)
unfolding Counted count_leaders
count-Counted f group ok n [] =
    ((λ i h. absurd h), omega arith, (λ h. absurd (omega (arith, h))), (λ i h. absurd h))
count-Counted f group ok n (x ∷ is) =
    by_if (Counted f group ok n (x ∷ is)) (leads x && alive f x.id)
      (if ok && in_group group x.id then count_leaders f group ok (n + 1) is else none)
      (count_leaders f group ok n is)
      (λ claims.
        by_if (Counted f group ok n (x ∷ is)) (ok && in_group group x.id)
          (count_leaders f group ok (n + 1) is) none
          (λ inside.
            counted claims inside (count_leaders f group ok (n + 1) is)
              (count-Counted f group ok (n + 1) is))
          (λ outside. (x, inl refl, claims, outside)))
      (λ silent. skipped silent (count_leaders f group ok n is) (count-Counted f group ok n is))
  where
    counted :
        Claims f x
        → (ok && in_group group x.id) ≡ true
        → (o : Option ℕ) → Counted f group ok (n + 1) is o
        → Counted f group ok n (x ∷ is) o
    counted claims inside none (i, there, said, outside) = (i, inr there, said, outside)
    counted claims inside (some m) (all_in, low, found, high) = (
      (λ i h said. elim h [
        | inl e ↦ subst (λ z. (ok && in_group group z.id) ≡ true) (sym e) inside
        | inr k ↦ all_in i k said
      ]),
      omega (arith, low),
      (λ h. (x, inl refl, claims)),
      (λ i h said. omega (arith, low)),
    )

    skipped :
        (leads x && alive f x.id) ≡ false
        → (o : Option ℕ) → Counted f group ok n is o
        → Counted f group ok n (x ∷ is) o
    skipped silent none (i, there, said, outside) = (i, inr there, said, outside)
    skipped silent (some m) (all_in, low, found, high) = (
      (λ i h said. elim h [ inl e ↦ absurd (mute i e said) | inr k ↦ all_in i k said ]),
      low,
      (λ h. let (i, there, said) = found h in (i, inr there, said)),
      (λ i h said. elim h [ inl e ↦ absurd (mute i e said) | inr k ↦ high i k said ]),
    )
      where
        mute : (i : NodeInfo) → i ≡ x → Claims f i → ⊥
        mute i e said = ground (arith, silent, subst (Claims f) e said)

-- Every live leader is in the quorum group, and there is one where there is such a group.
abbrev pub IsSettled : Faults → List ℕ → Bool → List NodeInfo → Type 0
IsSettled f group ok is =
    ((i : NodeInfo) → In i is → Claims f i → (ok && in_group group i.id) ≡ true)
    × ((ok ≡ false) ⊎ ((i : NodeInfo) × In i is × Claims f i))

verdict-IsSettled :
    (f : Faults) (group : List ℕ) (ok : Bool) (is : List NodeInfo) (o : Option ℕ)
    → Counted f group ok 0 is o
    → (verdict ok o ≡ true) ↔ IsSettled f group ok is
unfolding Counted
verdict-IsSettled f group ok is none (i, there, said, outside) = (
  (λ h. absurd (ground (arith, h))),
  λ calm. absurd (ground (arith, outside, calm.0 i there said)),
)
verdict-IsSettled f group true is (some m) (all_in, low, found, high) = (
  (λ h. (all_in, inr (found (ground (arith, h))))),
  λ calm. elim calm.1 [
    | inl cut ↦ absurd (ground (arith, cut))
    | inr (i, there, said) ↦ ground (arith, high i there said)
  ],
)
verdict-IsSettled f group false is (some m) (all_in, low, found, high) =
    ((λ h. (all_in, inl refl)), λ calm. refl)

-- `settled` holds of a shard exactly where every live replica that answers that it leads is in the
-- quorum group, and there is such a replica if there is a quorum group.
pub settled_lem :
    (e : Engine) (v : View) (s : ℕ)
    → (settled e v s ≡ true)
      ↔ IsSettled e.faults (majority_group e s).0 (majority_group e s).1 (infos e v s)
unfolding settled
settled_lem e v s =
    let (group, ok) = majority_group e s in
    verdict-IsSettled e.faults group ok (infos e v s)
      (count_leaders e.faults group ok 0 (infos e v s))
      (count-Counted e.faults group ok 0 (infos e v s))
