-- ===== src/Paxos/Drain.antt =====
-- internal/paxos/node.go: `drainApplicable` executes the log, slot by slot.
pub mod Notified
use paxos_2pc_payments.Base.{
  ℕ, zero, suc, ◌+◌, ◌≤◌, ◌<◌, ◌≡◌, ◌≢◌, ◌⊎◌, inl, inr, refl, true, Option, none, some, List, [],
  arith, lookup, Option-cases, sym, ap, ap₂, ◌∙◌, subst,
}
use paxos_2pc_payments.Paxos.Log.{Entry, Log, get}
use paxos_2pc_payments.Paxos.Log.Entries.{IsValid}
use paxos_2pc_payments.Paxos.Node.{Node, is_committed}
use paxos_2pc_payments.Paxos.Node.Apply.{applicable, advance, apply_entry, notify, drain}

decide : (a b : ℕ) → (a ≡ b) ⊎ (a ≢ b)
decide a b = ground arith

module _ {S R : Type 0} (step : S → ℕ → List ℕ → S × R) where
  abbrev pub execute_entry : S → ℕ → Option Entry → S
  execute_entry st s none = st
  execute_entry st s (some e) = (apply_entry step st s e).0

  -- The log executed up to a slot: an account of the state that no replica's progress enters.
  abbrev pub execute : S → Log → ℕ → S
  execute st l zero = st
  execute st l (suc k) = let before = execute st l k in execute_entry before (suc k) (get l (suc k))

  drain_stop :
      (fuel : ℕ) (n : Node) (st : S)
      → applicable n ≡ none
      → drain step (suc fuel) n st ≡ (n, st, [])
  unfolding drain
  drain_stop fuel n st h = ground (arith)

  -- The loop behind its first slot.
  abbrev after : ℕ → Node → S → Entry → Node × S × List (ℕ × Option R)
  after fuel n st e = drain step fuel (advance n) (apply_entry step st (n.applied_index + 1) e).0

  drain_next :
      (fuel : ℕ) (n : Node) (st : S) (e : Entry)
      → applicable n ≡ some e
      → drain step (suc fuel) n st ≡ (
        (after fuel n st e).0,
        (after fuel n st e).1,
        notify step
            (lookup (n.applied_index + 1) n.results)
            (apply_entry step st (n.applied_index + 1) e).1
            (after fuel n st e).2,
      )
  unfolding drain
  drain_next fuel n st e h = ground (arith)

  -- What the loop leaves as it was.
  abbrev Same : Node → Node → Type 0
  Same n n' = (n'.log ≡ n.log) × (n'.committed ≡ n.committed) × (n.applied_index ≤ n'.applied_index)

  advance-Same : (n : Node) → Same n (advance n)
  unfolding advance
  advance-Same n = (refl, refl, omega arith)

  Same-trans : (a b c : Node) → Same a b → Same b c → Same a c
  Same-trans a b c h k = (k.0 ∙ h.0, k.1 ∙ h.1, omega arith)

  drain-Same : (fuel : ℕ) (n : Node) (st : S) → Same n (drain step fuel n st).0
  unfolding drain
  drain-Same zero n st = (refl, refl, omega arith)
  drain-Same (suc fuel) n st = elim (Option-cases (applicable n)) [
    | inl stop ↦ subst (λ r. Same n r.0) (sym (drain_stop fuel n st stop)) (refl, refl, omega arith)
    | inr (e, go) ↦
        subst (λ r. Same n r.0) (sym (drain_next fuel n st e go))
          (Same-trans n (advance n) (after fuel n st e).0 (advance-Same n)
            (drain-Same fuel (advance n) (apply_entry step st (n.applied_index + 1) e).0))
  ]

  applicable-get :
      (n : Node) (e : Entry)
      → applicable n ≡ some e
      → (is_committed n (n.applied_index + 1) ≡ true) × (get n.log (n.applied_index + 1) ≡ some e)
  applicable-get n e h = ground arith

  execute_next :
      (s₀ : S) (l : Log) (k : ℕ) (e : Entry)
      → get l (k + 1) ≡ some e
      → execute s₀ l (k + 1) ≡ (apply_entry step (execute s₀ l k) (k + 1) e).0
  execute_next s₀ l k e =
      subst (λ s. get l s ≡ some e → execute s₀ l s ≡ (apply_entry step (execute s₀ l k) s e).0)
        (suc_eq k) (λ h. found h)
    where
      suc_eq : (k : ℕ) → suc k ≡ k + 1
      suc_eq k = omega arith

      found :
          get l (suc k) ≡ some e
          → execute s₀ l (suc k) ≡ (apply_entry step (execute s₀ l k) (suc k) e).0
      found h = ground (arith)

  -- A replica's state is its log executed up to the slot that it has applied.
  abbrev pub Reflects : S → Node → S → Type 0
  Reflects s₀ n st = st ≡ execute s₀ n.log n.applied_index

  advance-Reflects :
      (s₀ : S) (n : Node) (st : S) (e : Entry)
      → applicable n ≡ some e
      → Reflects s₀ n st
      → Reflects s₀ (advance n) (apply_entry step st (n.applied_index + 1) e).0
  unfolding advance
  advance-Reflects s₀ n st e h r =
      ap (λ x. (apply_entry step x (n.applied_index + 1) e).0) r
      ∙ sym (execute_next s₀ n.log n.applied_index e (applicable-get n e h).1)

  -- If the state of the machine is the log executed up to the applied slot, then it is after any
  -- number of turns of the apply loop, too.
  pub drain-Reflects :
      (s₀ : S) (fuel : ℕ) (n : Node) (st : S)
      → Reflects s₀ n st
      → Reflects s₀ (drain step fuel n st).0 (drain step fuel n st).1
  unfolding drain
  drain-Reflects s₀ zero n st h = h
  drain-Reflects s₀ (suc fuel) n st h = elim (Option-cases (applicable n)) [
    | inl stop ↦ subst (λ r. Reflects s₀ r.0 r.1) (sym (drain_stop fuel n st stop)) h
    | inr (e, go) ↦
        subst (λ r. Reflects s₀ r.0 r.1) (sym (drain_next fuel n st e go))
          (drain-Reflects s₀ fuel (advance n) (apply_entry step st (n.applied_index + 1) e).0
            (advance-Reflects s₀ n st e go h))
  ]

  -- Every slot that the loop passes is committed and stored.
  drain-committed :
      (fuel : ℕ) (n : Node) (st : S) (s : ℕ)
      → n.applied_index < s
      → s ≤ (drain step fuel n st).0.applied_index
      → (is_committed n s ≡ true) × ((e : Entry) × (get n.log s ≡ some e))
  unfolding drain advance
  drain-committed zero n st s h k = absurd (omega arith)
  drain-committed (suc fuel) n st s h k = elim (Option-cases (applicable n)) [
    | inl stop ↦ absurd (omega (arith, ap (λ r. r.0.applied_index) (drain_stop fuel n st stop)))
    | inr (e, go) ↦ elim (decide s (n.applied_index + 1)) [
      | inl same ↦
          let here = applicable-get n e go in
          subst (λ x. (is_committed n x ≡ true) × ((y : Entry) × (get n.log x ≡ some y))) (sym same)
            (here.0, (e, here.1))
      | inr other ↦
          drain-committed fuel (advance n) (apply_entry step st (n.applied_index + 1) e).0 s
            (omega arith) (subst (λ r. s ≤ r.0.applied_index) (drain_next fuel n st e go) k)
    ]
  ]

  past_max : (n : Node) → IsValid n.log → n.log.max_slot < n.applied_index → applicable n ≡ none
  unfolding get
  past_max n v h = elim (Option-cases (applicable n)) [
    | inl stop ↦ stop
    | inr (e, go) ↦
        absurd (omega (arith, v.below_max (n.applied_index + 1) e (applicable-get n e go).1))
  ]

  -- With fuel for every slot of a valid log, the loop runs until the next slot is not applicable.
  pub drain_complete :
      (fuel : ℕ) (n : Node) (st : S)
      → IsValid n.log
      → n.log.max_slot < n.applied_index + fuel
      → applicable (drain step fuel n st).0 ≡ none
  unfolding drain advance
  drain_complete zero n st v h = past_max n v (omega arith)
  drain_complete (suc fuel) n st v h = elim (Option-cases (applicable n)) [
    | inl stop ↦ subst (λ r. applicable r.0 ≡ none) (sym (drain_stop fuel n st stop)) stop
    | inr (e, go) ↦
        subst (λ r. applicable r.0 ≡ none) (sym (drain_next fuel n st e go))
          (drain_complete fuel (advance n) (apply_entry step st (n.applied_index + 1) e).0 v
            (omega arith))
  ]

  -- Two logs hold the same entries in the slots up to `k`.
  abbrev pub Agree : Log → Log → ℕ → Type 0
  Agree l l' zero = Unit
  Agree l l' (suc k) = (get l (suc k) ≡ get l' (suc k)) × Agree l l' k

  execute-Agree : (s₀ : S) (l l' : Log) (k : ℕ) → Agree l l' k → execute s₀ l k ≡ execute s₀ l' k
  execute-Agree s₀ l l' zero h = refl
  execute-Agree s₀ l l' (suc k) h =
      ap₂ (λ before o. execute_entry before (suc k) o) (execute-Agree s₀ l l' k h.1) h.0

  -- Replicas do not diverge: two replicas whose states are their logs executed so far, and whose
  -- loops reach the same slot, have the same state then, if their logs agree up to that slot.
  pub drain-Agree :
      (s₀ : S) (f f' : ℕ) (n n' : Node) (st st' : S)
      → Reflects s₀ n st
      → Reflects s₀ n' st'
      → (drain step f n st).0.applied_index ≡ (drain step f' n' st').0.applied_index
      → Agree n.log n'.log (drain step f n st).0.applied_index
      → (drain step f n st).1 ≡ (drain step f' n' st').1
  drain-Agree s₀ f f' n n' st st' h h' same agree =
      drain-Reflects s₀ f n st h
      ∙ ap₂ (λ l k. execute s₀ l k) (drain-Same f n st).0 same
      ∙ execute-Agree s₀ n.log n'.log (drain step f' n' st').0.applied_index
          (subst (λ k. Agree n.log n'.log k) same agree)
      ∙ sym (
          drain-Reflects s₀ f' n' st' h'
          ∙ ap (λ l. execute s₀ l (drain step f' n' st').0.applied_index) (drain-Same f' n' st').0)
