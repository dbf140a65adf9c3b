-- ===== src/Base/Members.antt =====
-- Membership, lists without repetition, and lists that share a member.
use Prim.Native.Nat.{ℕ, ◌+◌, ◌≤◌, ◌<◌}
use mathlib.Core.Path.{◌≡◌, refl, sym, subst, ◌∙◌}
use mathlib.Core.Logic.{◌≢◌, ◌⊎◌, inl, inr}
use mathlib.Core.List.{List, [], ◌∷◌, ◌++◌}
use native.Mathlib.Omega.{arith}
use paxos_2pc_payments.Base.Lists.{length, length-append}

-- An element is in a list; the place is kept.
abbrev pub In : {A : Type 0} → A → List A → Type 0
In a [] = ⊥
In a (x ∷ xs) = (a ≡ x) ⊎ In a xs

-- No element stands twice.
abbrev pub Distinct : {A : Type 0} → List A → Type 0
Distinct [] = Unit
Distinct (x ∷ xs) = (In x xs → ⊥) × Distinct xs

module _ {A : Type 0} where
  pub In-append_left : (a : A) (xs ys : List A) → In a xs → In a (xs ++ ys)
  In-append_left a [] ys h = elim h [ ]
  In-append_left a (x ∷ xs) ys (inl e) = inl e
  In-append_left a (x ∷ xs) ys (inr h) = inr (In-append_left a xs ys h)

  pub In-append_right : (a : A) (xs ys : List A) → In a ys → In a (xs ++ ys)
  In-append_right a [] ys h = h
  In-append_right a (x ∷ xs) ys h = inr (In-append_right a xs ys h)

  pub In-append : (a : A) (xs ys : List A) → In a (xs ++ ys) → In a xs ⊎ In a ys
  In-append a [] ys h = inr h
  In-append a (x ∷ xs) ys (inl e) = inl (inl e)
  In-append a (x ∷ xs) ys (inr h) = elim (In-append a xs ys h) [
    | inl there ↦ inl (inr there)
    | inr there ↦ inr there
  ]

  -- A list without one of its elements.
  without : (a : A) (xs : List A) → In a xs → List A
  without a [] h = []
  without a (x ∷ xs) (inl e) = xs
  without a (x ∷ xs) (inr h) = x ∷ without a xs h

  length-without : (a : A) (xs : List A) (h : In a xs) → length xs ≡ length (without a xs h) + 1
  unfolding without
  length-without a [] h = elim h [ ]
  length-without a (x ∷ xs) (inl e) = omega arith
  length-without a (x ∷ xs) (inr h) = omega (arith, length-without a xs h)

  In-without : (a b : A) (xs : List A) (h : In a xs) → In b xs → (b ≡ a) ⊎ In b (without a xs h)
  unfolding without
  In-without a b [] h k = elim h [ ]
  In-without a b (x ∷ xs) (inl e) (inl k) = inl (k ∙ sym e)
  In-without a b (x ∷ xs) (inl e) (inr k) = inr k
  In-without a b (x ∷ xs) (inr h) (inl k) = inr (inl k)
  In-without a b (x ∷ xs) (inr h) (inr k) = elim (In-without a b xs h k) [
    | inl e ↦ inl e
    | inr there ↦ inr (inr there)
  ]

  -- Distinct elements of a list are at most as many as it has.
  pub length-Distinct_le :
      (xs ys : List A) → Distinct xs → ((a : A) → In a xs → In a ys) → length xs ≤ length ys
  length-Distinct_le [] ys d sub = omega arith
  length-Distinct_le (x ∷ xs) ys d sub =
      let here = sub x (inl refl) in
      omega (
        arith,
        length-without x ys here,
        length-Distinct_le xs (without x ys here) d.1 (λ a h.
            elim (In-without x a ys here (sub a (inr h))) [
              | inl e ↦ absurd (d.0 (subst (λ z. In z xs) e h))
              | inr there ↦ there
            ]),
      )

decide_In : (a : ℕ) (xs : List ℕ) → In a xs ⊎ (In a xs → ⊥)
decide_In a [] = inr (λ h. h)
decide_In a (x ∷ xs) = elim (decide a x) [
  | inl e ↦ inl (inl e)
  | inr ne ↦ elim (decide_In a xs) [
    | inl h ↦ inl (inr h)
    | inr none_there ↦ inr (λ h. elim h [ inl e ↦ ne e | inr k ↦ none_there k ])
  ]
]
  where
    decide : (a b : ℕ) → (a ≡ b) ⊎ (a ≢ b)
    decide a b = ground arith

-- A common element of two lists, or there is none.
common : (xs ys : List ℕ) → ((a : ℕ) × In a xs × In a ys) ⊎ ((a : ℕ) → In a xs → In a ys → ⊥)
common [] ys = inr (λ a h k. h)
common (x ∷ xs) ys = elim (decide_In x ys) [
  | inl there ↦ inl (x, inl refl, there)
  | inr gone ↦ elim (common xs ys) [
    | inl (a, h, k) ↦ inl (a, inr h, k)
    | inr apart ↦
        inr (λ a h k. elim h [ inl e ↦ gone (subst (λ z. In z ys) e k) | inr j ↦ apart a j k ])
  ]
]

Distinct-append :
    (xs ys : List ℕ)
    → Distinct xs
    → Distinct ys
    → ((a : ℕ) → In a xs → In a ys → ⊥)
    → Distinct (xs ++ ys)
Distinct-append [] ys d e apart = e
Distinct-append (x ∷ xs) ys d e apart = (
  λ h. elim (In-append x xs ys h) [ inl k ↦ d.0 k | inr k ↦ apart x (inl refl) k ],
  Distinct-append xs ys d.1 e (λ a h k. apart a (inr h) k),
)

-- Two lists of distinct members of a group that are together longer than it share a member.
pub overlap :
    (group xs ys : List ℕ)
    → Distinct xs
    → Distinct ys
    → ((a : ℕ) → In a xs → In a group)
    → ((a : ℕ) → In a ys → In a group)
    → length group < length xs + length ys
    → (a : ℕ) × In a xs × In a ys
overlap group xs ys dx dy sx sy long = elim (common xs ys) [
  | inl found ↦ found
  | inr apart ↦ absurd (
      omega (
        arith,
        length-append xs ys,
        length-Distinct_le (xs ++ ys) group (Distinct-append xs ys dx dy apart)
            (λ a h. elim (In-append a xs ys h) [ inl k ↦ sx a k | inr k ↦ sy a k ]),
      ))
]
