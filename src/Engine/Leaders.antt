-- ===== src/Engine/Leaders.antt =====
-- internal/cluster/engine.go: the leader that `leaderOf` finds.
use paxos_2pc_payments.Base.{
  ℕ, ◌≡◌, refl, sym, ap, subst, ◌∙◌, ◌⊎◌, inl, inr, Bool-cases, by_if, true, false, Option, none,
  some, Option-cases, List, [], ◌∷◌, In, arith, if◌then◌else◌,
}
use paxos_2pc_payments.Paxos.Ballot.{Ballot, less, ◌≼◌, ≼_trans, less→≼}
use paxos_2pc_payments.Engine.{
  Engine, View, NodeInfo, claim, stronger, strongest, majority_group, leader_of,
}

-- The answer has the ballot at least.
Above : NodeInfo → Option (ℕ × NodeInfo) → Type 0
Above i none = ⊥
Above i (some (r, j)) = i.ballot ≼ j.ballot

≼_refl : (b : Ballot) → b ≼ b
unfolding less
≼_refl b = ground arith

Above-trans :
    (i j : NodeInfo) (best : Option (ℕ × NodeInfo))
    → i.ballot ≼ j.ballot
    → Above j best
    → Above i best
unfolding Above
Above-trans i j none h k = k
Above-trans i j (some (r, b)) h k = ≼_trans i.ballot j.ballot b.ballot h k

stronger-Above :
    (best : Option (ℕ × NodeInfo)) (r : ℕ) (i : NodeInfo) → Above i (stronger best r (some i))
unfolding Above
stronger-Above none r i = ≼_refl i.ballot
stronger-Above (some (b, j)) r i =
    by_if (Above i) (less j.ballot i.ballot) (some (r, i)) (some (b, j)) (λ won. ≼_refl i.ballot)
      (λ kept. kept)

stronger_keeps :
    (i : NodeInfo) (best : Option (ℕ × NodeInfo)) (r : ℕ) (o : Option NodeInfo)
    → Above i best
    → Above i (stronger best r o)
unfolding Above
stronger_keeps i best r none h = h
stronger_keeps i none r (some j) h = absurd h
stronger_keeps i (some (b, k)) r (some j) h =
    by_if (Above i) (less k.ballot j.ballot) (some (r, j)) (some (b, k))
      (λ won. ≼_trans i.ballot k.ballot j.ballot h (less→≼ k.ballot j.ballot won)) (λ kept. h)

strongest_keeps :
    (v : View) (i : NodeInfo) (best : Option (ℕ × NodeInfo)) (rs : List ℕ)
    → Above i best
    → Above i (strongest v best rs)
unfolding strongest
strongest_keeps v i best [] h = h
strongest_keeps v i best (r ∷ rs) h =
    strongest_keeps v i (stronger best r (claim v r)) rs (stronger_keeps i best r (claim v r) h)

strongest-Above :
    (v : View) (best : Option (ℕ × NodeInfo)) (rs : List ℕ) (r : ℕ) (i : NodeInfo)
    → In r rs
    → claim v r ≡ some i
    → Above i (strongest v best rs)
unfolding strongest
strongest-Above v best [] r i h said = absurd h
strongest-Above v best (x ∷ rs) r i (inl e) said =
    strongest_keeps v i (stronger best x (claim v x)) rs (
      subst (λ o. Above i (stronger best x o)) (sym (ap (claim v) (sym e) ∙ said))
        (stronger-Above best x i))
strongest-Above v best (x ∷ rs) r i (inr h) said =
    strongest-Above v (stronger best x (claim v x)) rs r i h said

abbrev Is : Option (ℕ × NodeInfo) → ℕ → NodeInfo → Type 0
Is o r i = o ≡ some (r, i)

stronger-some :
    (best : Option (ℕ × NodeInfo)) (x r : ℕ) (j i : NodeInfo)
    → stronger best x (some j) ≡ some (r, i)
    → (best ≡ some (r, i)) ⊎ ((r ≡ x) × (j ≡ i))
stronger-some none x r j i h = inr (cc, cc)
stronger-some (some (b, k)) x r j i h =
    by_if (λ o. Is o r i → Is (some (b, k)) r i ⊎ ((r ≡ x) × (j ≡ i))) (less k.ballot j.ballot)
      (some (x, j)) (some (b, k)) (λ won e. inr (cc, cc)) (λ kept e. inl e) h

-- The replica found is the given one, or one of the list that says that it leads.
stronger_from :
    (v : View) (best : Option (ℕ × NodeInfo)) (x r : ℕ) (i : NodeInfo)
    → stronger best x (claim v x) ≡ some (r, i)
    → (best ≡ some (r, i)) ⊎ ((r ≡ x) × (claim v r ≡ some i))
stronger_from v best x r i h = elim (Option-cases (claim v x)) [
  | inl nothing ↦ inl (ap (stronger best x) (sym nothing) ∙ h)
  | inr (j, said) ↦ elim (stronger-some best x r j i (ap (stronger best x) (sym said) ∙ h)) [
    | inl kept ↦ inl kept
    | inr (e, same) ↦ inr (e, ap (claim v) e ∙ said ∙ ap some same)
  ]
]

strongest_from :
    (v : View) (best : Option (ℕ × NodeInfo)) (rs : List ℕ) (r : ℕ) (i : NodeInfo)
    → strongest v best rs ≡ some (r, i)
    → (best ≡ some (r, i)) ⊎ (In r rs × (claim v r ≡ some i))
unfolding strongest
strongest_from v best [] r i h = inl h
strongest_from v best (x ∷ rs) r i h =
    elim (strongest_from v (stronger best x (claim v x)) rs r i h) [
      | inr (there, said) ↦ inr (inr there, said)
      | inl found ↦ elim (stronger_from v best x r i found) [
        | inl kept ↦ inl kept
        | inr (e, said) ↦ inr (inl e, said)
      ]
    ]

-- What `leaderOf` finds: a replica of the quorum group whose answer says that it leads, under a
-- ballot that no other such replica exceeds; or nothing, where there is no such replica.
abbrev pub IsLeader : Engine → View → ℕ → Option (ℕ × NodeInfo) → Type 0
IsLeader e v s (some (r, i)) =
    ((majority_group e s).1 ≡ true)
    × In r (majority_group e s).0
    × (claim v r ≡ some i)
    × ((r' : ℕ) (j : NodeInfo)
        → In r' (majority_group e s).0
        → claim v r' ≡ some j
        → j.ballot ≼ i.ballot)
IsLeader e v s none =
    ((majority_group e s).1 ≡ false) ⊎ ((r : ℕ) → In r (majority_group e s).0 → claim v r ≡ none)

-- `leaderOf` returns a replica exactly where the shard has a quorum group and one of its members
-- says that it leads. What it returns is such a member, and none of them has a higher ballot; a
-- leader that is cut off in a minority is never returned.
pub leader_of_lem : (e : Engine) (v : View) (s : ℕ) → IsLeader e v s (leader_of e v s)
unfolding leader_of Above
leader_of_lem e v s =
    let group = (majority_group e s).0 in
    elim (Bool-cases (majority_group e s).1) [
      | inl ok ↦
          subst (IsLeader e v s) (sym (ap (λ b. if b then strongest v none group else none) ok))
            (found (strongest v none group) refl ok)
      | inr small ↦
          subst (IsLeader e v s) (sym (ap (λ b. if b then strongest v none group else none) small))
            (inl small)
    ]
  where
    found :
        (o : Option (ℕ × NodeInfo))
        → strongest v none (majority_group e s).0 ≡ o
        → (majority_group e s).1 ≡ true
        → IsLeader e v s o
    found none h ok = inr (λ r member. elim (Option-cases (claim v r)) [
      | inl silent ↦ silent
      | inr (i, said) ↦
          absurd (subst (Above i) h (strongest-Above v none (majority_group e s).0 r i member said))
    ])
    found (some (r, i)) h ok = elim (strongest_from v none (majority_group e s).0 r i h) [
      | inl e ↦ absurd (ground (arith, e))
      | inr (member, said) ↦ (
        ok,
        member,
        said,
        λ r' j there speaks.
            subst (Above j) h (strongest-Above v none (majority_group e s).0 r' j there speaks),
      )
    ]
