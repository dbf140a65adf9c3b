-- ===== src/Engine/Majority.antt =====
-- internal/cluster/engine.go: the group that `majorityGroup` returns, and the sets of replicas
-- that reach each other.
use paxos_2pc_payments.Base.{
  ℕ, ◌≤◌, ◌≡◌, ◌≢◌, refl, sym, ap, subst, ◌∙◌, Bool-cases, true, none, List, [], ◌∷◌, leb, inl, inr,
  length, length-Distinct_le, ℤ, pos, eqb_ℤ, eqb_ℤ→eq, In, Distinct, arith,
}
use paxos_2pc_payments.Faults.{Faults, is_dead, group_of, check, heal}
use paxos_2pc_payments.Engine.{
  Engine, replicas, quorum, gather, largest, majority_group, keep_alive,
}
use paxos_2pc_payments.Engine.Sides.{
  side, members, Keyed, members-gather, gather-Keyed, members_of_Keyed, largest-from, largest-max,
}
use paxos_2pc_payments.Engine.Reach.{In-side, side-In, length-sides, check-none, none-check}

-- Replicas of a list that all reach each other.
abbrev pub Connected : Faults → List ℕ → List ℕ → Type 0
Connected f rs q = ((a : ℕ) → In a q → In a rs) × ((a b : ℕ) → In a q → In b q → check f a b ≡ none)

empty : (xs : List ℕ) → length xs ≤ 0 → xs ≡ []
empty [] h = refl
empty (x ∷ xs) h = absurd (omega (arith, h))

-- The group is one side of the partition, and no side is larger.
group-side :
    (e : Engine) (s : ℕ)
    → ((g : ℤ) × ((majority_group e s).0 ≡ side e.faults g (replicas e s)))
      × ((h : ℤ) → length (side e.faults h (replicas e s)) ≤ length (majority_group e s).0)
unfolding majority_group members Keyed
group-side e s =
    let f = e.faults in
    let rs = replicas e s in
    let groups = gather f rs [] in
    (
      elim (largest-from [] groups) [
        | inl e ↦ (
          pos 0,
          e
              ∙ sym (
                  empty (side f (pos 0) rs) (
                    subst (λ n. length (side f (pos 0) rs) ≤ length n) e
                      (subst (λ xs. length xs ≤ length (largest [] groups))
                        (members-gather f (pos 0) rs []) (largest-max (pos 0) [] groups)))),
        )
        | inr (k, there) ↦ (
          k,
          sym (members_of_Keyed k (largest [] groups) groups (gather-Keyed f rs [] tt) there)
              ∙ members-gather f k rs [],
        )
      ],
      λ h.
          subst (λ xs. length xs ≤ length (largest [] groups)) (members-gather f h rs [])
            (largest-max h [] groups),
    )

Connected-side :
    (f : Faults) (rs q : List ℕ) (a : ℕ)
    → Connected f rs q
    → In a q
    → (x : ℕ) → In x q
    → In x (side f (group_of f a) rs)
Connected-side f rs q a connected there x h =
    let (up, same) = check-none f x a (connected.1 x a h there) in
    side-In f (group_of f a) rs x (connected.0 x h) up same

-- A set of replicas that reach each other is no larger than the side of each of them.
Connected-le :
    (f : Faults) (rs q : List ℕ) (a : ℕ)
    → Distinct q
    → Connected f rs q
    → In a q
    → length q ≤ length (side f (group_of f a) rs)
Connected-le f rs q a distinct connected there =
    length-Distinct_le q (side f (group_of f a) rs) distinct
      (Connected-side f rs q a connected there)

side-Connected : (f : Faults) (g : ℤ) (rs : List ℕ) → Connected f rs (side f g rs)
side-Connected f g rs = (
  (λ a h. (In-side f g rs a h).0),
  λ a b h k.
      let (member, up, same) = In-side f g rs a h in
      let (member', up', same') = In-side f g rs b k in none-check f a b up up' (same ∙ sym same'),
)

pub majority_group-Connected :
    (e : Engine) (s : ℕ) → Connected e.faults (replicas e s) (majority_group e s).0
majority_group-Connected e s =
    let ((g, from), most) = group-side e s in
    subst (Connected e.faults (replicas e s)) (sym from) (side-Connected e.faults g (replicas e s))

majority_group-most :
    (e : Engine) (s : ℕ) (q : List ℕ)
    → Distinct q
    → Connected e.faults (replicas e s) q
    → length q ≤ length (majority_group e s).0
majority_group-most e s [] distinct connected = omega arith
majority_group-most e s (a ∷ q) distinct connected = omega (
  arith,
  Connected-le e.faults (replicas e s) (a ∷ q) a distinct connected (inl refl),
  (group-side e s).1 (group_of e.faults a),
)

-- `majorityGroup` returns replicas of the shard that are alive and all reach each other, as the
-- fault table decides. A set of replicas of the shard that all reach each other is no larger, and
-- the group is reported as a quorum exactly when it is one.
pub majority_group_lem :
    (e : Engine) (s : ℕ) (q : List ℕ)
    → Distinct q
    → Connected e.faults (replicas e s) q
    → Connected e.faults (replicas e s) (majority_group e s).0
      × (length q ≤ length (majority_group e s).0)
      × ((majority_group e s).1 ≡ leb (quorum e.cfg) (length (majority_group e s).0))
unfolding majority_group
majority_group_lem e s q distinct connected =
    (majority_group-Connected e s, majority_group-most e s q distinct connected, refl)

reported :
    (e : Engine) (s : ℕ)
    → quorum e.cfg ≤ length (majority_group e s).0
    → (majority_group e s).1 ≡ true
unfolding majority_group
reported e s h = ground (arith, h)

-- Where a shard has no more replicas than the configuration says, any replicas that all reach each
-- other and are a quorum are in the group that `majorityGroup` returns, and it reports a quorum. So
-- two sides of a partition are never both a quorum.
pub majority_group_unique :
    (e : Engine) (s : ℕ) (q : List ℕ)
    → length (replicas e s) ≤ e.cfg.nodes_per_shard
    → Distinct q
    → Connected e.faults (replicas e s) q
    → quorum e.cfg ≤ length q
    → ((majority_group e s).1 ≡ true) × ((a : ℕ) → In a q → In a (majority_group e s).0)
majority_group_unique e s [] sized distinct connected enough = absurd (omega (arith, enough))
majority_group_unique e s (a ∷ q) sized distinct connected enough =
    let f = e.faults in
    let rs = replicas e s in
    let ((g, from), most) = group-side e s in
    let fits = Connected-le f rs (a ∷ q) a distinct connected (inl refl) in
    let large = most (group_of f a) in
    elim (Bool-cases (eqb_ℤ g (group_of f a))) [
      | inl same ↦ (
        reported e s (omega (arith, enough, fits, large)),
        λ x h.
            subst (In x) (ap (λ z. side f z rs) (sym (eqb_ℤ→eq g (group_of f a) same)) ∙ sym from)
              (Connected-side f rs (a ∷ q) a connected (inl refl) x h),
      )
      | inr other ↦ absurd (
          omega (
            arith,
            enough,
            fits,
            large,
            ap length from,
            length-sides f g (group_of f a) rs (λ e. ground (arith, other, e)),
            sized,
          ))
    ]

healed_side : (f : Faults) (rs : List ℕ) → side (heal f) (pos 0) rs ≡ keep_alive f rs
unfolding side keep_alive heal is_dead group_of
healed_side f [] = refl
healed_side f (r ∷ rs) = ground (arith, healed_side f rs)

healed_other : (f : Faults) (g : ℤ) (rs : List ℕ) → g ≢ pos 0 → side (heal f) g rs ≡ []
unfolding side heal group_of
healed_other f g [] other = refl
healed_other f g (r ∷ rs) other = ground (arith, healed_other f g rs other, eqb_ℤ→eq (pos 0) g)

-- Once `Heal` has run, the majority group of a shard is its live replicas, in their order.
pub heal-majority_group :
    (e : Engine) (s : ℕ)
    → (majority_group (record e { faults = heal e.faults }) s).0
      ≡ keep_alive e.faults (replicas e s)
heal-majority_group e s =
    let f = e.faults in
    let rs = replicas e s in
    let ((g, from), most) = group-side (record e { faults = heal f }) s in
    elim (Bool-cases (eqb_ℤ g (pos 0))) [
      | inl same ↦ from ∙ ap (λ z. side (heal f) z rs) (eqb_ℤ→eq g (pos 0) same) ∙ healed_side f rs
      | inr other ↦
          let nothing = from ∙ healed_other f g rs (λ e. ground (arith, other, e)) in
          nothing
          ∙ sym (
              empty (keep_alive f rs) (
                subst (λ xs. length xs ≤ 0) (healed_side f rs)
                  (subst (λ xs. length (side (heal f) (pos 0) rs) ≤ length xs) nothing
                    (most (pos 0)))))
    ]
