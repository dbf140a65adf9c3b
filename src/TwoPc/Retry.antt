-- ===== src/TwoPc/Retry.antt =====
-- internal/twopc/twopc.go: `retryInBackground` keeps delivering every decided commit until
-- it lands.
use paxos_2pc_payments.Base.{
  ℕ, zero, suc, ◌≡◌, inl, inr, refl, lookup, none, List, [], ◌∷◌, ap, sym, Option-cases, subst, All,
  In, length, ◌==◌, Bool-cases, ==→eq, ==_refl,
}
use paxos_2pc_payments.Ledger.{Machine, apply_locked, commit_command}
use paxos_2pc_payments.Ledger.Guarantee.{commit_prepared}
use paxos_2pc_payments.Ledger.Decision.{apply_commit_committed}
use paxos_2pc_payments.TwoPc.{World, retry, update, answer}
use paxos_2pc_payments.TwoPc.Calls.{Quiet}
use paxos_2pc_payments.TwoPc.Facts.{Done, Bound, Bound-commit}
use paxos_2pc_payments.TwoPc.Attempts.{
  Bound-any, Done-any, Held, Tracked, retry-Held, retry-Tracked,
}

-- Every commit that is to be retried is of a transaction that is bound on its shard.
abbrev pub Pending : (ℕ → Machine) → List (ℕ × ℕ) → Type 0
Pending f ps = All (λ p. Bound p.0 (f p.1)) ps

-- Each of these transactions is committed on its shard.
abbrev pub Settled : (ℕ → Machine) → List (ℕ × ℕ) → Type 0
Settled f ps = All (λ p. Done p.0 (f p.1)) ps

unfoldable pub retries : ℕ → World → World
retries zero w = w
retries (suc n) w = retries n (retry w)

-- A commit of a bound transaction is accepted.
commit_accepted :
    (t : ℕ) (m : Machine) → Bound t m → answer (apply_locked m (commit_command t)).1 ≡ none
unfolding apply_locked
commit_accepted t m (inv, inr d) = rw (apply_commit_committed m (commit_command t) d) refl
commit_accepted t m (inv, inl p) = elim (Option-cases (lookup t m.prepared)) [
  | inl gone ↦ absurd (p gone)
  | inr (q, e) ↦ rw (commit_prepared m q (commit_command t) inv refl e) refl
]

module _ (P : ℕ → Machine → Type 0)
    (keeps : (t : ℕ) (m : Machine) (u : ℕ)
      → P t m
      → P t (apply_locked m (commit_command u)).0) where
  update-All :
      (f : ℕ → Machine) (s u : ℕ) (ps : List (ℕ × ℕ))
      → All (λ p. P p.0 (f p.1)) ps
      → All (λ p. P p.0 (update f s (apply_locked (f s) (commit_command u)).0 p.1)) ps
  update-All f s u [] h = tt
  update-All f s u ((t, j) ∷ ps) h = (one, update-All f s u ps h.1)
    where
      one : P t (update f s (apply_locked (f s) (commit_command u)).0 j)
      one = elim (Bool-cases (s == j)) [
        | inl e ↦ rw e (keeps t (f s) u (subst (λ k. P t (f k)) (sym (==→eq s j e)) h.0))
        | inr e ↦ rw e h.0
      ]

abbrev quiet_world : (ℕ → Machine) → ℕ → List (ℕ × ℕ) → World
quiet_world f seq ps = record { shards = f; turns = []; seq = seq; pending = ps }

-- A retry with nothing in its way.
retry_lands :
    (f : ℕ → Machine) (seq t s : ℕ) (ps : List (ℕ × ℕ))
    → Bound t (f s)
    → retry (quiet_world f seq ((t, s) ∷ ps))
      ≡ quiet_world (update f s (apply_locked (f s) (commit_command t)).0) seq ps
unfolding retry
retry_lands f seq t s ps b = rw (commit_accepted t (f s) b) refl

retries_settle :
    (f : ℕ → Machine) (seq : ℕ) (ps done : List (ℕ × ℕ))
    → Pending f ps
    → Settled f done
    → let w' = retries (length ps) (quiet_world f seq ps) in
      (w'.pending ≡ []) × Settled w'.shards ps × Settled w'.shards done
unfolding retries
retries_settle f seq [] done h d = (refl, tt, d)
retries_settle f seq ((t, s) ∷ ps) done h d =
    let f' = update f s (apply_locked (f s) (commit_command t)).0 in
    let landed : Done t (f' s) = rw (==_refl s) (Bound-commit t (f s) h.0) in
    let r =
      retries_settle f' seq ps ((t, s) ∷ done) (update-All Bound Bound-any f s t ps h.1)
        (landed, update-All Done Done-any f s t done d) in
    subst (λ (w : World). (w.pending ≡ []) × Settled w.shards ((t, s) ∷ ps) × Settled w.shards done)
      (sym (ap (retries (length ps)) (retry_lands f seq t s ps h.0))) (r.0, (r.2.0, r.1), r.2.1)

retries-Held : (k : ℕ) (w : World) → Held w → Held (retries k w)
unfolding retries
retries-Held zero w h = h
retries-Held (suc k) w h = retries-Held k (retry w) (retry-Held w h)

retries-Tracked : (k : ℕ) (q : ℕ × ℕ) (w : World) → Held w → Tracked q w → Tracked q (retries k w)
unfolding retries
retries-Tracked zero q w h t = t
retries-Tracked (suc k) q w h t =
    retries-Tracked k q (retry w) (retry-Held w h) (retry-Tracked q w h t)

All-of : (P : ℕ × ℕ → Type 0) (ps : List (ℕ × ℕ)) → ((p : ℕ × ℕ) → In p ps → P p) → All P ps
All-of P [] h = tt
All-of P (p ∷ ps) h = (h p (inl refl), All-of P ps (λ q there. h q (inr there)))

All-In : (P : ℕ × ℕ → Type 0) (ps : List (ℕ × ℕ)) (q : ℕ × ℕ) → All P ps → In q ps → P q
All-In P [] q h there = absurd there
All-In P (p ∷ ps) q h (inl same) = subst P (sym same) h.0
All-In P (p ∷ ps) q h (inr later) = All-In P ps q h.1 later

-- Let every pending commit be of a transaction that is prepared or committed on its shard and that
-- no command of another client is about. Then, however the calls of the first attempts end, once
-- calls go through again one more attempt for each commit that is left empties the list, and every
-- transaction that was on it at the start is committed on its shard.
pub retries-Settled :
    (w : World) (k : ℕ)
    → Pending w.shards w.pending
    → All (λ p. Quiet p.0 w.turns) w.pending
    → let w₁ = retries k w in
      let w' = retries (length w₁.pending) (record w₁ { turns = [] }) in
      (w'.pending ≡ []) × Settled w'.shards w.pending
retries-Settled w k bound quiet =
    let w₁ = retries k w in
    let held : Held w = λ p there. (
      All-In (λ q. Bound q.0 (w.shards q.1)) w.pending p bound there,
      All-In (λ q. Quiet q.0 w.turns) w.pending p quiet there,
    ) in
    let bound₁ : Pending w₁.shards w₁.pending =
      All-of (λ q. Bound q.0 (w₁.shards q.1)) w₁.pending
        (λ p there. (retries-Held k w held p there).0) in
    let last = retries_settle w₁.shards w₁.seq w₁.pending in
    let w' = retries (length w₁.pending) (quiet_world w₁.shards w₁.seq w₁.pending) in
    (
      (last [] bound₁ tt).0,
      All-of (λ q. Done q.0 (w'.shards q.1)) w.pending
          (λ q there. elim (retries-Tracked k q w held (inr there)) [
            | inl (done, calm) ↦ (last (q ∷ []) bound₁ (done, tt)).2.0
            | inr still ↦
                All-In (λ p. Done p.0 (w'.shards p.1)) w₁.pending q (last [] bound₁ tt).1 still
          ]),
    )
