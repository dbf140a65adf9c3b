-- ===== src/Paxos/Drain/Notified.antt =====
-- internal/paxos/node.go: `drainApplicable` hands each result to the caller that waits for it.
use paxos_2pc_payments.Base.{
  ℕ, zero, suc, ◌+◌, ◌-◌, ◌≤◌, ◌<◌, ◌≡◌, ◌⊎◌, inl, inr, Option, none, some, List, [], ◌∷◌, arith,
  lookup, Option-cases, sym, ap, ap₂, ◌∙◌, subst, lookup-erase, lookup-erase_self,
}
use paxos_2pc_payments.Paxos.Log.{Entry, Log, get}
use paxos_2pc_payments.Paxos.Node.{Node}
use paxos_2pc_payments.Paxos.Node.Apply.{applicable, advance, apply_entry, notify, drain}
use paxos_2pc_payments.Paxos.Drain.{
  decide, after, drain_stop, drain_next, applicable-get, execute, Reflects, advance-Reflects,
}

module _ {S R : Type 0} (step : S → ℕ → List ℕ → S × R) where
  -- A caller and its result are among those handed over.
  abbrev pub Notified : ℕ × Option R → List (ℕ × Option R) → Type 0
  Notified p [] = ⊥
  Notified p (q ∷ qs) = (p ≡ q) ⊎ Notified p qs

  abbrev pub result_entry : S → ℕ → Option Entry → Option R
  result_entry st s none = none
  result_entry st s (some e) = (apply_entry step st s e).1

  -- What the entry of a slot results in, in the state before it.
  abbrev pub result_at : S → Log → ℕ → Option R
  result_at s₀ l s = result_entry (execute step s₀ l (s - 1)) s (get l s)

  result_here :
      (s₀ : S) (n : Node) (st : S) (e : Entry)
      → Reflects step s₀ n st
      → applicable n ≡ some e
      → result_at s₀ n.log (n.applied_index + 1) ≡ (apply_entry step st (n.applied_index + 1) e).1
  result_here s₀ n st e h go =
      ap₂ (λ k o. result_entry (execute step s₀ n.log k) (n.applied_index + 1) o)
        (back n.applied_index) (applicable-get step n e go).1
      ∙ ap (λ x. (apply_entry step x (n.applied_index + 1) e).1) (sym h)
    where
      back : (k : ℕ) → k + 1 - 1 ≡ k
      back k = omega arith

  notify-keeps :
      (w : Option ℕ) (r : Option R) (rest : List (ℕ × Option R)) (p : ℕ × Option R)
      → Notified p rest
      → Notified p (notify step w r rest)
  notify-keeps none r rest p h = h
  notify-keeps (some w) r rest p h = inr h

  drain-results :
      (fuel : ℕ) (n : Node) (st : S) (s : ℕ)
      → lookup s n.results ≡ none
      → lookup s (drain step fuel n st).0.results ≡ none
  unfolding drain advance
  drain-results zero n st s h = h
  drain-results (suc fuel) n st s h = elim (Option-cases (applicable n)) [
    | inl stop ↦ subst (λ r. lookup s r.0.results ≡ none) (sym (drain_stop step fuel n st stop)) h
    | inr (e, go) ↦
        subst (λ r. lookup s r.0.results ≡ none) (sym (drain_next step fuel n st e go))
          (drain-results fuel (advance n) (apply_entry step st (n.applied_index + 1) e).0 s
            (ground (arith, lookup-erase s (n.applied_index + 1) n.results)))
  ]

  Notified-here :
      (s₀ : S) (fuel : ℕ) (n : Node) (st : S) (w : ℕ) (e : Entry)
      → Reflects step s₀ n st
      → applicable n ≡ some e
      → lookup (n.applied_index + 1) n.results ≡ some w
      → Notified
          (w, result_at s₀ n.log (n.applied_index + 1))
          (notify step
            (lookup (n.applied_index + 1) n.results)
            (apply_entry step st (n.applied_index + 1) e).1
            (after step fuel n st e).2)
        × (lookup (n.applied_index + 1) (after step fuel n st e).0.results ≡ none)
  unfolding advance
  Notified-here s₀ fuel n st w e r go wait = (
    subst
        (λ o.
          Notified (w, result_at s₀ n.log (n.applied_index + 1))
            (notify step o (apply_entry step st (n.applied_index + 1) e).1
              (after step fuel n st e).2))
        (sym wait) (inl (ap (λ x. (w, x)) (result_here s₀ n st e r go))),
    drain-results fuel (advance n) (apply_entry step st (n.applied_index + 1) e).0
        (n.applied_index + 1) (lookup-erase_self (n.applied_index + 1) n.results),
  )

  -- The slot that the loop takes first, or a later one.
  Notified-next :
      (s₀ : S) (fuel : ℕ) (n : Node) (st : S) (s w : ℕ) (e : Entry)
      → Notified (w, result_at s₀ n.log s) (after step fuel n st e).2
        × (lookup s (after step fuel n st e).0.results ≡ none)
      → Notified
          (w, result_at s₀ n.log s)
          (notify step
            (lookup (n.applied_index + 1) n.results)
            (apply_entry step st (n.applied_index + 1) e).1
            (after step fuel n st e).2)
        × (lookup s (after step fuel n st e).0.results ≡ none)
  Notified-next s₀ fuel n st s w e (told, gone) = (
    notify-keeps (lookup (n.applied_index + 1) n.results)
        (apply_entry step st (n.applied_index + 1) e).1 (after step fuel n st e).2
        (w, result_at s₀ n.log s) told,
    gone,
  )

  -- Whoever waits for a slot that the loop passes is handed that slot's result.
  pub drain-Notified :
      (s₀ : S) (fuel : ℕ) (n : Node) (st : S) (s w : ℕ)
      → Reflects step s₀ n st
      → lookup s n.results ≡ some w
      → n.applied_index < s
      → s ≤ (drain step fuel n st).0.applied_index
      → Notified (w, result_at s₀ n.log s) (drain step fuel n st).2
        × (lookup s (drain step fuel n st).0.results ≡ none)
  unfolding drain advance
  drain-Notified s₀ zero n st s w r wait h k = absurd (omega arith)
  drain-Notified s₀ (suc fuel) n st s w r wait h k = elim (Option-cases (applicable n)) [
    | inl stop ↦
        absurd (omega (arith, ap (λ r. r.0.applied_index) (drain_stop step fuel n st stop)))
    | inr (e, go) ↦
        subst (λ r. Notified (w, result_at s₀ n.log s) r.2 × (lookup s r.0.results ≡ none))
          (sym (drain_next step fuel n st e go))
          (elim (decide s (n.applied_index + 1)) [
            | inl same ↦
                subst
                  (λ x.
                    Notified (w, result_at s₀ n.log x)
                      (notify step (lookup (n.applied_index + 1) n.results)
                        (apply_entry step st (n.applied_index + 1) e).1 (after step fuel n st e).2)
                    × (lookup x (after step fuel n st e).0.results ≡ none))
                  (sym same)
                  (Notified-here s₀ fuel n st w e r go
                    (subst (λ x. lookup x n.results ≡ some w) same wait))
            | inr other ↦ Notified-next s₀ fuel n st s w e (
                drain-Notified s₀ fuel (advance n) (apply_entry step st (n.applied_index + 1) e).0 s
                  w (advance-Reflects step s₀ n st e go r)
                  (ground (arith, lookup-erase s (n.applied_index + 1) n.results)) (omega arith)
                  (subst (λ r. s ≤ r.0.applied_index) (drain_next step fuel n st e go) k))
          ])
  ]
