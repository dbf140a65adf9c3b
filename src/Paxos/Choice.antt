-- ===== src/Paxos/Choice.antt =====
-- internal/paxos/node.go: `becomeLeader` adopts, for each slot, the entry with the highest ballot.
use paxos_2pc_payments.Base.{
  ℕ, zero, suc, ◌+◌, ◌-◌, ◌≤◌, ◌<◌, ◌≡◌, ◌≢◌, ◌⊎◌, inl, inr, refl, Option, none, some, List, [],
  ◌∷◌, arith, ltb, if◌then◌else◌, Dict, lookup, insert, lookup-insert, Option-cases, ◌∙◌, ap, sym,
  map, subst, In,
}
use paxos_2pc_payments.Paxos.Ballot.{Ballot, ◌≼◌, less_irrefl, less→≼, ≼_trans}
use paxos_2pc_payments.Paxos.Log.{Entry}
use paxos_2pc_payments.Paxos.Node.{Node, Env, reset_election}
use paxos_2pc_payments.Paxos.Node.Election.{better, pick, recovery, recovered, become_leader}

-- An entry is among others.
abbrev pub Among : Entry → List Entry → Type 0
Among e es = In e es

-- What `best` holds for a slot: nothing that was not reported, and nothing lower than a report.
abbrev pub Beats : Option Entry → Entry → Type 0
Beats none e = ⊥
Beats (some x) e = e.ballot ≼ x.ballot

step_best : ℕ → Dict Entry × ℕ → Entry → Dict Entry × ℕ
step_best first (best, mx) e = if ltb e.slot first then (best, mx) else (
  if better (lookup e.slot best) e then insert e.slot e best else best,
  if ltb mx e.slot then e.slot else mx,
)

pick_cons :
    (first : ℕ) (acc : Dict Entry × ℕ) (e : Entry) (es : List Entry)
    → pick first acc (e ∷ es) ≡ pick first (step_best first acc e) es
unfolding pick step_best
pick_cons first (best, mx) e es = refl

-- The new holder of the entry's own slot beats it.
step-Beats_self :
    (first : ℕ) (best : Dict Entry) (mx : ℕ) (e : Entry)
    → first ≤ e.slot
    → Beats (lookup e.slot (step_best first (best, mx) e).0) e
unfolding step_best
step-Beats_self first best mx e h = elim (Option-cases (lookup e.slot best)) [
  | inl gone ↦ grind (arith, lookup-insert, less_irrefl)
  | inr (x, there) ↦ grind (arith, lookup-insert, less_irrefl, less→≼)
]

step-Beats :
    (first : ℕ) (best : Dict Entry) (mx s : ℕ) (e x : Entry)
    → Beats (lookup s best) x
    → Beats (lookup s (step_best first (best, mx) e).0) x
unfolding step_best
step-Beats first best mx s e x h = elim (Option-cases (lookup s best)) [
  | inl gone ↦ grind (arith, lookup-insert, less→≼, ≼_trans)
  | inr (y, there) ↦ grind (arith, lookup-insert, less→≼, ≼_trans)
]

-- What a holder was before the step, or the new entry.
step-from :
    (first : ℕ) (best : Dict Entry) (mx s : ℕ) (e x : Entry)
    → lookup s (step_best first (best, mx) e).0 ≡ some x
    → (lookup s best ≡ some x) ⊎ ((x ≡ e) × (e.slot ≡ s))
unfolding step_best
step-from first best mx s e x h = grind (arith, lookup-insert)

step-mx :
    (first : ℕ) (best : Dict Entry) (mx : ℕ) (e : Entry) → mx ≤ (step_best first (best, mx) e).1
unfolding step_best
step-mx first best mx e = ground arith

step-mx_self :
    (first : ℕ) (best : Dict Entry) (mx : ℕ) (e : Entry)
    → first ≤ e.slot
    → e.slot ≤ (step_best first (best, mx) e).1
unfolding step_best
step-mx_self first best mx e h = ground arith

pick-Beats_kept :
    (first : ℕ) (best : Dict Entry) (mx : ℕ) (es : List Entry) (s : ℕ) (x : Entry)
    → Beats (lookup s best) x
    → Beats (lookup s (pick first (best, mx) es).0) x
unfolding pick step_best
pick-Beats_kept first best mx [] s x h = h
pick-Beats_kept first best mx (e ∷ es) s x h =
    pick-Beats_kept first (step_best first (best, mx) e).0 (step_best first (best, mx) e).1 es s x
      (step-Beats first best mx s e x h)

pub pick-Beats :
    (first : ℕ) (best : Dict Entry) (mx : ℕ) (es : List Entry) (x : Entry)
    → Among x es
    → first ≤ x.slot
    → Beats (lookup x.slot (pick first (best, mx) es).0) x
unfolding pick step_best
pick-Beats first best mx [] x none_there h = elim none_there [ ]
pick-Beats first best mx (e ∷ es) x (inl same) h =
    pick-Beats_kept first (step_best first (best, mx) e).0 (step_best first (best, mx) e).1 es
      x.slot x
      (subst (λ y. Beats (lookup y.slot (step_best first (best, mx) e).0) y) (sym same)
        (step-Beats_self first best mx e (subst (λ y. first ≤ y.slot) same h)))
pick-Beats first best mx (e ∷ es) x (inr later) h =
    pick-Beats first (step_best first (best, mx) e).0 (step_best first (best, mx) e).1 es x later h

pub pick-from :
    (first : ℕ) (best : Dict Entry) (mx : ℕ) (es : List Entry) (s : ℕ) (x : Entry)
    → lookup s (pick first (best, mx) es).0 ≡ some x
    → (lookup s best ≡ some x) ⊎ (Among x es × (x.slot ≡ s))
unfolding pick step_best
pick-from first best mx [] s x h = inl h
pick-from first best mx (e ∷ es) s x h =
    elim (pick-from first (step_best first (best, mx) e).0 (step_best first (best, mx) e).1 es s x
      h) [
        | inr (later, at) ↦ inr (inr later, at)
        | inl held ↦ elim (step-from first best mx s e x held) [
          | inl before ↦ inl before
          | inr (same, at) ↦ inr (inl same, ap (λ y. y.slot) same ∙ at)
        ]
      ]

le_chain : {a b c : ℕ} → a ≤ b → b ≤ c → a ≤ c
le_chain h k = omega arith

pick-mx_kept :
    (first : ℕ) (best : Dict Entry) (mx : ℕ) (es : List Entry) → mx ≤ (pick first (best, mx) es).1
unfolding pick step_best
pick-mx_kept first best mx [] = omega arith
pick-mx_kept first best mx (e ∷ es) =
    le_chain (step-mx first best mx e)
      (pick-mx_kept first (step_best first (best, mx) e).0 (step_best first (best, mx) e).1 es)

pub pick-mx :
    (first : ℕ) (best : Dict Entry) (mx : ℕ) (es : List Entry) (x : Entry)
    → Among x es
    → first ≤ x.slot
    → x.slot ≤ (pick first (best, mx) es).1
unfolding pick step_best
pick-mx first best mx [] x none_there h = elim none_there [ ]
pick-mx first best mx (e ∷ es) x (inl same) h =
    subst (λ y. y.slot ≤ (pick first (step_best first (best, mx) e) es).1) (sym same)
      (le_chain (step-mx_self first best mx e (subst (λ y. first ≤ y.slot) same h))
        (pick-mx_kept first (step_best first (best, mx) e).0 (step_best first (best, mx) e).1 es))
pick-mx first best mx (e ∷ es) x (inr later) h =
    pick-mx first (step_best first (best, mx) e).0 (step_best first (best, mx) e).1 es x later h

step-mx_from :
    (first : ℕ) (best : Dict Entry) (mx : ℕ) (e : Entry)
    → ((step_best first (best, mx) e).1 ≡ mx) ⊎ ((step_best first (best, mx) e).1 ≡ e.slot)
unfolding step_best
step-mx_from first best mx e = ground arith

-- The last slot is one that was reported.
pick-mx_from :
    (first : ℕ) (best : Dict Entry) (mx : ℕ) (es : List Entry)
    → ((pick first (best, mx) es).1 ≡ mx)
      ⊎ ((x : Entry) × Among x es × (x.slot ≡ (pick first (best, mx) es).1))
unfolding pick step_best
pick-mx_from first best mx [] = inl refl
pick-mx_from first best mx (e ∷ es) =
    elim (pick-mx_from first (step_best first (best, mx) e).0 (step_best first (best, mx) e).1 es) [
      | inr (x, there, at) ↦ inr (x, inr there, at)
      | inl same ↦ elim (step-mx_from first best mx e) [
        | inl before ↦ inl (same ∙ before)
        | inr own ↦ inr (e, inl refl, sym (same ∙ own))
      ]
    ]

-- A pair among others.
abbrev pub Planned : ℕ × List ℕ → List (ℕ × List ℕ) → Type 0
Planned p qs = In p qs

-- The slots of a range, in order.
abbrev pub range : ℕ → ℕ → List ℕ
range slot zero = []
range slot (suc k) = slot ∷ range (slot + 1) k

decide : (a b : ℕ) → (a ≡ b) ⊎ (a ≢ b)
decide a b = ground arith

-- A slot of the range is proposed again, with what is recovered for it.
recovery-Planned :
    (best : Dict Entry) (k slot s : ℕ)
    → slot ≤ s
    → s < slot + k
    → Planned (s, recovered (lookup s best)) (recovery best k slot)
unfolding recovery
recovery-Planned best zero slot s h j = absurd (omega arith)
recovery-Planned best (suc k) slot s h j = elim (decide s slot) [
  | inl same ↦ inl (ap (λ x. (x, recovered (lookup x best))) same)
  | inr other ↦ inr (recovery-Planned best k (slot + 1) s (omega arith) (omega arith))
]

recovery-slots :
    (best : Dict Entry) (k slot : ℕ) → map (λ p. p.0) (recovery best k slot) ≡ range slot k
unfolding recovery
recovery-slots best zero slot = refl
recovery-slots best (suc k) slot = ap (λ xs. slot ∷ xs) (recovery-slots best k (slot + 1))

-- The entry with the highest ballot of its slot among those reported, and its place in a plan.
abbrev pub Chosen : Entry → List Entry → List (ℕ × List ℕ) → Type 0
Chosen e gathered plan =
    (x : Entry) × Among x gathered
    × (x.slot ≡ e.slot)
    × (e.ballot ≼ x.ballot)
    × Planned (e.slot, x.command) plan

pub lookup_empty : (s : ℕ) (x : Entry) → lookup s [] ≡ some x → ⊥
unfolding lookup
lookup_empty s x h = ground arith

last_slot : (first mx : ℕ) → mx + 1 - first ≡ (if ltb (mx + 1) first then first else mx + 1) - first
last_slot first mx = ground arith

pick-Chosen :
    (e : Entry) (gathered : List Entry) (first : ℕ)
    → Among e gathered
    → first ≤ e.slot
    → Chosen e gathered (
        recovery
          (pick first ([], 0) gathered).0
          ((pick first ([], 0) gathered).1 + 1 - first)
          first)
pick-Chosen e gathered first there h =
    let top = pick-mx first [] 0 gathered e there h in
    let beaten = pick-Beats first [] 0 gathered e there h in
    let plan =
      recovery-Planned (pick first ([], 0) gathered).0 ((pick first ([], 0) gathered).1 + 1 - first)
        first e.slot h (omega arith) in
    elim (Option-cases (lookup e.slot (pick first ([], 0) gathered).0)) [
      | inl gone ↦ elim (subst (λ o. Beats o e) gone beaten) [ ]
      | inr (x, held) ↦ elim (pick-from first [] 0 gathered e.slot x held) [
        | inl never ↦ absurd (lookup_empty e.slot x never)
        | inr (among, at) ↦ (
          x,
          among,
          at,
          subst (λ o. Beats o e) held beaten,
          subst
              (λ o.
                Planned (e.slot, recovered o)
                  (recovery (pick first ([], 0) gathered).0
                    ((pick first ([], 0) gathered).1 + 1 - first) first))
              held plan,
        )
      ]
    ]

-- The requests of the winner are for the slots from the first to the last reported one, in order
-- and without a gap, and the next fresh slot lies behind them.
pub become_leader_plan :
    (env : Env) (n : Node) (b : Ballot) (gathered : List Entry) (first : ℕ)
    → (first ≤ (become_leader env n b gathered first).0.next_slot)
      × (map (λ p. p.0) (become_leader env n b gathered first).1
          ≡ range first ((become_leader env n b gathered first).0.next_slot - first))
unfolding become_leader reset_election
become_leader_plan env n b gathered first = (
  ground arith,
  recovery-slots (pick first ([], 0) gathered).0 ((pick first ([], 0) gathered).1 + 1 - first) first
      ∙ ap (λ k. range first k) (last_slot first (pick first ([], 0) gathered).1),
)

-- No slot behind the last reported one is proposed again.
pub become_leader-bound :
    (env : Env) (n : Node) (b : Ballot) (gathered : List Entry) (first s : ℕ)
    → 0 < s
    → first ≤ s
    → s < (become_leader env n b gathered first).0.next_slot
    → (x : Entry) × Among x gathered × (s ≤ x.slot)
unfolding become_leader reset_election
become_leader-bound env n b gathered first s above low high =
    elim (pick-mx_from first [] 0 gathered) [
      | inl none_there ↦ absurd (ground arith)
      | inr (x, there, at) ↦ (x, there, ground arith)
    ]

-- A recovered slot is proposed again with the command of a highest ballot reported for it.
pub become_leader-Chosen :
    (env : Env) (n : Node) (b : Ballot) (gathered : List Entry) (first : ℕ) (e : Entry)
    → Among e gathered
    → first ≤ e.slot
    → Chosen e gathered (become_leader env n b gathered first).1
      × (e.slot < (become_leader env n b gathered first).0.next_slot)
unfolding become_leader reset_election
become_leader-Chosen env n b gathered first e there h =
    let top = pick-mx first [] 0 gathered e there h in
    (pick-Chosen e gathered first there h, ground arith)
