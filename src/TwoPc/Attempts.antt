-- ===== src/TwoPc/Attempts.antt =====
-- internal/twopc/twopc.go: one attempt of `retryInBackground` keeps what is pending bound, and loses
-- no commit.
use paxos_2pc_payments.Base.{
  ℕ, ◌≡◌, ◌⊎◌, inl, inr, refl, Option, none, some, List, [], ◌∷◌, ◌++◌, sym, Option-cases, subst,
  In, ◌==◌, Bool-cases, ==→eq,
}
use paxos_2pc_payments.Ledger.{Machine, apply_locked, commit_command}
use paxos_2pc_payments.TwoPc.{World, Turn, Failure, retry, call}
use paxos_2pc_payments.TwoPc.Calls.{Quiet, call-P, call-Accepted, call-Quiet}
use paxos_2pc_payments.TwoPc.Facts.{Done, Bound, Bound-foreign, Bound-commit, Done-kept}
use paxos_2pc_payments.TwoPc.Loops

pub Bound-any :
    (t : ℕ) (m : Machine) (u : ℕ) → Bound t m → Bound t (apply_locked m (commit_command u)).0
Bound-any t m u b = elim (Bool-cases (u == t)) [
  | inl e ↦
      subst (λ x. Bound t (apply_locked m (commit_command x)).0) (sym (==→eq u t e))
        (Loops.Bound-kept t m b)
  | inr e ↦ Bound-foreign t m (commit_command u) e b
]

pub Done-any :
    (t : ℕ) (m : Machine) (u : ℕ) → Done t m → Done t (apply_locked m (commit_command u)).0
Done-any t m u d = Done-kept t m (commit_command u) d

-- Every pending commit is of a bound transaction that no other client's command is about.
abbrev pub Held : World → Type 0
Held w = (p : ℕ × ℕ) → In p w.pending → Bound p.0 (w.shards p.1) × Quiet p.0 w.turns

-- A commit has landed, or is still to be retried.
abbrev pub Tracked : ℕ × ℕ → World → Type 0
Tracked q w = (Done q.0 (w.shards q.1) × Quiet q.0 w.turns) ⊎ In q w.pending

-- The list after an attempt that ended with `e`.
abbrev left_over : Option Failure → ℕ × ℕ → List (ℕ × ℕ) → List (ℕ × ℕ)
left_over e p rest = elim e [ none ↦ rest | some x ↦ rest ++ p ∷ [] ]

abbrev world_of : (ℕ → Machine) → List Turn → ℕ → List (ℕ × ℕ) → World
world_of f ts seq ps = record { shards = f; turns = ts; seq = seq; pending = ps }

In-rotate : (q p : ℕ × ℕ) (rest : List (ℕ × ℕ)) → In q (p ∷ rest) → In q (rest ++ p ∷ [])
In-rotate q p [] h = h
In-rotate q p (x ∷ rest) (inl same) = inr (In-rotate q p rest (inl same))
In-rotate q p (x ∷ rest) (inr (inl here)) = inl here
In-rotate q p (x ∷ rest) (inr (inr later)) = inr (In-rotate q p rest (inr later))

In-unrotate : (q p : ℕ × ℕ) (rest : List (ℕ × ℕ)) → In q (rest ++ p ∷ []) → In q (p ∷ rest)
In-unrotate q p [] h = h
In-unrotate q p (x ∷ rest) (inl here) = inr (inl here)
In-unrotate q p (x ∷ rest) (inr later) = elim (In-unrotate q p rest later) [
  | inl same ↦ inl same
  | inr there ↦ inr (inr there)
]

left_over-In :
    (e : Option Failure) (q p : ℕ × ℕ) (rest : List (ℕ × ℕ))
    → In q (left_over e p rest)
    → In q (p ∷ rest)
left_over-In none q p rest h = inr h
left_over-In (some x) q p rest h = In-unrotate q p rest h

-- An attempt keeps the pending commits bound.
pub retry-Held : (w : World) → Held w → Held (retry w)
unfolding retry
retry-Held w h = by_pending w.shards w.turns w.seq w.pending h
  where
    by_pending :
        (f : ℕ → Machine) (ts : List Turn) (seq : ℕ) (ps : List (ℕ × ℕ))
        → Held (world_of f ts seq ps)
        → Held (retry (world_of f ts seq ps))
    by_pending f ts seq [] h' = h'
    by_pending f ts seq ((t, s) ∷ rest) h' = λ p there.
        let w₁ = world_of f ts seq ((t, s) ∷ rest) in
        let (bound, quiet) =
          h' p (left_over-In (call w₁ s (commit_command t)).1 p (t, s) rest there) in
        (
          call-P p.0 (Bound p.0) (Bound-foreign p.0) w₁ s p.1 (commit_command t) quiet
              (λ m. Bound-any p.0 m t) bound,
          call-Quiet p.0 w₁ s (commit_command t) quiet,
        )

-- An attempt that reports success has committed the transaction.
landed :
    (w : World) (t s : ℕ)
    → Bound t (w.shards s) × Quiet t w.turns
    → (call w s (commit_command t)).1 ≡ none
    → Done t ((call w s (commit_command t)).0.shards s)
landed w t s (bound, quiet) e =
    let a = call-Accepted t (Bound t) (Bound-foreign t) w s (commit_command t) quiet bound e in
    subst (Done t) (sym a.after) (Bound-commit t a.before a.good)

-- An attempt loses no commit: it lands, or it is tried again.
pub retry-Tracked : (q : ℕ × ℕ) (w : World) → Held w → Tracked q w → Tracked q (retry w)
unfolding retry
retry-Tracked q w h k = by_pending w.shards w.turns w.seq w.pending h k
  where
    by_pending :
        (f : ℕ → Machine) (ts : List Turn) (seq : ℕ) (ps : List (ℕ × ℕ))
        → Held (world_of f ts seq ps)
        → Tracked q (world_of f ts seq ps)
        → Tracked q (retry (world_of f ts seq ps))
    by_pending f ts seq [] h' k' = k'
    by_pending f ts seq ((t, s) ∷ rest) h' (inl (done, quiet)) =
        let w₁ = world_of f ts seq ((t, s) ∷ rest) in
        inl (
          call-P q.0 (Done q.0) (λ m c other. Done-kept q.0 m c) w₁ s q.1 (commit_command t) quiet
              (λ m. Done-any q.0 m t) done,
          call-Quiet q.0 w₁ s (commit_command t) quiet,
        )
    by_pending f ts seq ((t, s) ∷ rest) h' (inr there) =
        let w₁ = world_of f ts seq ((t, s) ∷ rest) in
        elim (Option-cases (call w₁ s (commit_command t)).1) [
          | inr (x, e) ↦
              inr (
                subst (λ o. In q (left_over o (t, s) rest)) (sym e) (In-rotate q (t, s) rest there))
          | inl e ↦ elim there [
            | inr later ↦ inr (subst (λ o. In q (left_over o (t, s) rest)) (sym e) later)
            | inl same ↦ inl (
              subst (λ z. Done z.0 ((call w₁ s (commit_command t)).0.shards z.1)) (sym same)
                  (landed w₁ t s (h' (t, s) (inl refl)) e),
              subst (λ z. Quiet z.0 (call w₁ s (commit_command t)).0.turns) (sym same)
                  (call-Quiet t w₁ s (commit_command t) (h' (t, s) (inl refl)).1),
            )
          ]
        ]
