-- ===== src/TwoPc/Loops.antt =====
-- internal/twopc/twopc.go: what the loops over the participants leave on each shard.
use paxos_2pc_payments.Base.{
  ℕ, ℤ, ◌≡◌, ◌⊎◌, inl, inr, refl, false, none, some, List, [], ◌∷◌, ◌==◌, Option, subst,
}
use paxos_2pc_payments.Ledger.{
  Command, Machine, prepare_command, commit_command, abort_command, apply_locked,
}
use paxos_2pc_payments.Ledger.Invariant.{Inv}
use paxos_2pc_payments.Ledger.Steps.{apply_locked-Inv}
use paxos_2pc_payments.TwoPc.{Failure, World, Leg, call, votes, aborts, commits, keep_undelivered}
use paxos_2pc_payments.TwoPc.Calls.{Quiet, call-P, call-Quiet, call-Accepted}
use paxos_2pc_payments.TwoPc.Facts.{
  Waiting, Done, Bound, Clear, Waiting-kept, Waiting-foreign, Done-kept, Bound-foreign,
  Bound-commit, prepare-Waiting, Clear-kept, Clear-foreign,
}

-- A shard takes part.
abbrev pub OnLegs : ℕ → List Leg → Type 0
OnLegs j [] = ⊥
OnLegs j (l ∷ ls) = (l.shard ≡ j) ⊎ OnLegs j ls

abbrev pub Listed : ℕ → List ℕ → Type 0
Listed j [] = ⊥
Listed j (u ∷ us) = (u ≡ j) ⊎ Listed j us

module _ (tx : ℕ) where
  pub Inv-foreign :
      (m : Machine) (c : Command) → (c.tx == tx) ≡ false → Inv m → Inv (apply_locked m c).0
  Inv-foreign m c h inv = apply_locked-Inv m c inv

  -- The vote of the shard that is asked.
  prepare_call :
      (w : World) (l : Leg)
      → Quiet tx w.turns
      → Inv (w.shards l.shard)
      → (call w l.shard (prepare_command tx l.key l.delta)).1 ≡ none
      → Waiting tx ((call w l.shard (prepare_command tx l.key l.delta)).0.shards l.shard)
  prepare_call w l q inv e =
      let a =
        call-Accepted tx Inv Inv-foreign w l.shard (prepare_command tx l.key l.delta) q inv e in
      rw a.after (prepare-Waiting tx l.key l.delta a.before a.good a.accepted)

  pub votes-Quiet :
      (w : World) (ls : List Leg) (r : Option Failure)
      → Quiet tx w.turns
      → Quiet tx (votes w tx ls r).0.turns
  unfolding votes
  votes-Quiet w [] r q = q
  votes-Quiet w (l ∷ ls) (some e) q = votes-Quiet w ls (some e) q
  votes-Quiet w (l ∷ ls) none q =
      let c = prepare_command tx l.key l.delta in
      votes-Quiet (call w l.shard c).0 ls (call w l.shard c).1 (call-Quiet tx w l.shard c q)

  -- What prepares and other clients keep, phase 1 keeps.
  pub votes-P :
      (P : Machine → Type 0)
      → ((m : Machine) (c : Command) → (c.tx == tx) ≡ false → P m → P (apply_locked m c).0)
      → ((m : Machine) (k : ℕ) (d : ℤ) → P m → P (apply_locked m (prepare_command tx k d)).0)
      → (w : World) (ls : List Leg) (r : Option Failure) (j : ℕ) → Quiet tx w.turns
      → P (w.shards j)
      → P ((votes w tx ls r).0.shards j)
  unfolding votes
  votes-P P st kp w [] r j q h = h
  votes-P P st kp w (l ∷ ls) (some e) j q h = votes-P P st kp w ls (some e) j q h
  votes-P P st kp w (l ∷ ls) none j q h =
      let c = prepare_command tx l.key l.delta in
      votes-P P st kp (call w l.shard c).0 ls (call w l.shard c).1 j (call-Quiet tx w l.shard c q)
        (call-P tx P st w l.shard j c q (λ m. kp m l.key l.delta) h)

  -- A refusal is never lost.
  votes_refused : (w : World) (ls : List Leg) (e : Failure) → (votes w tx ls (some e)).1 ≡ some e
  unfolding votes
  votes_refused w [] e = refl
  votes_refused w (l ∷ ls) e = votes_refused w ls e

  votes_none :
      (w : World) (ls : List Leg) (r : Option Failure) → (votes w tx ls r).1 ≡ none → r ≡ none
  votes_none w ls none e = refl
  votes_none w ls (some x) e = cc (votes_refused w ls x)

  -- If no participant refuses, each has prepared.
  pub votes-Waiting :
      (w : World) (ls : List Leg) (r : Option Failure) (j : ℕ)
      → Quiet tx w.turns
      → ((s : ℕ) → Inv (w.shards s))
      → (votes w tx ls r).1 ≡ none
      → OnLegs j ls ⊎ Waiting tx (w.shards j)
      → Waiting tx ((votes w tx ls r).0.shards j)
  unfolding votes
  votes-Waiting w [] r j q inv e (inl on) = absurd on
  votes-Waiting w [] r j q inv e (inr h) = h
  votes-Waiting w (l ∷ ls) (some x) j q inv e h = cc (votes_refused w ls x)
  votes-Waiting w (l ∷ ls) none j q inv e h =
      let c = prepare_command tx l.key l.delta in
      let w' = (call w l.shard c).0 in
      votes-Waiting w' ls (call w l.shard c).1 j (call-Quiet tx w l.shard c q)
        (λ s. call-P tx Inv Inv-foreign w l.shard s c q (λ m i. apply_locked-Inv m c i) (inv s)) e
        (asked h)
    where
      asked :
          OnLegs j (l ∷ ls) ⊎ Waiting tx (w.shards j)
          → OnLegs j ls
            ⊎ Waiting tx ((call w l.shard (prepare_command tx l.key l.delta)).0.shards j)
      asked (inl (inl here)) = inr (
          subst (λ s. Waiting tx ((call w l.shard (prepare_command tx l.key l.delta)).0.shards s))
            here (prepare_call w l q (inv l.shard) (votes_none _ ls _ e)))
      asked (inl (inr on)) = inl on
      asked (inr p) = inr (
          call-P tx (Waiting tx) (Waiting-foreign tx) w l.shard j (prepare_command tx l.key l.delta)
            q (λ m. Waiting-kept tx m (prepare_command tx l.key l.delta) refl) p)

  -- What aborts and other clients keep, the aborts keep.
  pub aborts-Clear :
      (w : World) (ls : List Leg) (j : ℕ)
      → Quiet tx w.turns
      → Clear tx (w.shards j)
      → Clear tx ((aborts w tx ls).shards j)
  unfolding aborts
  aborts-Clear w [] j q h = h
  aborts-Clear w (l ∷ ls) j q h =
      let c = abort_command tx in
      aborts-Clear (call w l.shard c).0 ls j (call-Quiet tx w l.shard c q)
        (call-P tx (Clear tx) (Clear-foreign tx) w l.shard j c q (λ m. Clear-kept tx m c refl) h)

  pub commits-Done :
      (w : World) (ls : List Leg) (j : ℕ)
      → Quiet tx w.turns
      → Done tx (w.shards j)
      → Done tx ((commits w tx ls).0.shards j)
  unfolding commits
  commits-Done w [] j q h = h
  commits-Done w (l ∷ ls) j q h =
      let c = commit_command tx in
      commits-Done (call w l.shard c).0 ls j (call-Quiet tx w l.shard c q)
        (call-P tx (Done tx) (λ m x _. Done-kept tx m x) w l.shard j c q (λ m. Done-kept tx m c) h)

  pub Bound-kept : (m : Machine) → Bound tx m → Bound tx (apply_locked m (commit_command tx)).0
  Bound-kept m b = let (inv, d) = Bound-commit tx m b in (inv, inr d)

  pub commits-Bound :
      (w : World) (ls : List Leg) (j : ℕ)
      → Quiet tx w.turns
      → Bound tx (w.shards j)
      → Bound tx ((commits w tx ls).0.shards j)
  unfolding commits
  commits-Bound w [] j q h = h
  commits-Bound w (l ∷ ls) j q h =
      let c = commit_command tx in
      commits-Bound (call w l.shard c).0 ls j (call-Quiet tx w l.shard c q)
        (call-P tx (Bound tx) (Bound-foreign tx) w l.shard j c q Bound-kept h)

  pub commit_call :
      (w : World) (s : ℕ)
      → Quiet tx w.turns
      → Bound tx (w.shards s)
      → (call w s (commit_command tx)).1 ≡ none
      → Done tx ((call w s (commit_command tx)).0.shards s)
  commit_call w s q b e =
      let a = call-Accepted tx (Bound tx) (Bound-foreign tx) w s (commit_command tx) q b e in
      rw a.after (Bound-commit tx a.before a.good)

  told-keep :
      (e : Option Failure) {D : Type 0} (j : ℕ) (us : List ℕ)
      → (e ≡ none → D)
      → D ⊎ Listed j (keep_undelivered e j us)
  told-keep none j us h = inl (h refl)
  told-keep (some x) j us h = inr (inl refl)

  Listed-keep :
      (e : Option Failure) (s j : ℕ) (us : List ℕ)
      → Listed j us
      → Listed j (keep_undelivered e s us)
  Listed-keep none s j us h = h
  Listed-keep (some x) s j us h = inr h

  -- After phase 2 a participant has committed, or is listed as one to be told again.
  pub commits_told :
      (w : World) (ls : List Leg) (j : ℕ)
      → Quiet tx w.turns
      → ((s : ℕ) → OnLegs s ls → Bound tx (w.shards s))
      → OnLegs j ls
      → Done tx ((commits w tx ls).0.shards j) ⊎ Listed j (commits w tx ls).1
  unfolding commits
  commits_told w [] j q b on = absurd on
  commits_told w (l ∷ ls) j q b (inl here) = rw (← here) (
      told-keep (call w l.shard (commit_command tx)).1 l.shard
        (commits (call w l.shard (commit_command tx)).0 tx ls).1
        (λ e.
          commits-Done (call w l.shard (commit_command tx)).0 ls l.shard
            (call-Quiet tx w l.shard (commit_command tx) q)
            (commit_call w l.shard q (b l.shard (inl refl)) e)))
  commits_told w (l ∷ ls) j q b (inr on) =
      let c = commit_command tx in
      later (
        commits_told (call w l.shard c).0 ls j (call-Quiet tx w l.shard c q)
          (λ s o. call-P tx (Bound tx) (Bound-foreign tx) w l.shard s c q Bound-kept (b s (inr o)))
          on)
    where
      later :
          Done tx ((commits (call w l.shard (commit_command tx)).0 tx ls).0.shards j)
            ⊎ Listed j (commits (call w l.shard (commit_command tx)).0 tx ls).1
          → Done tx ((commits w tx (l ∷ ls)).0.shards j) ⊎ Listed j (commits w tx (l ∷ ls)).1
      later (inl d) = inl d
      later (inr u) = inr (Listed-keep (call w l.shard (commit_command tx)).1 l.shard j _ u)

  pub votes-pending :
      (w : World) (ls : List Leg) (r : Option Failure) → (votes w tx ls r).0.pending ≡ w.pending
  unfolding votes call
  votes-pending w [] r = refl
  votes-pending w (l ∷ ls) (some e) = votes-pending w ls (some e)
  votes-pending w (l ∷ ls) none =
      let (w', e) = call w l.shard (prepare_command tx l.key l.delta) in votes-pending w' ls e

  pub commits-pending : (w : World) (ls : List Leg) → (commits w tx ls).0.pending ≡ w.pending
  unfolding commits call
  commits-pending w [] = refl
  commits-pending w (l ∷ ls) = commits-pending (call w l.shard (commit_command tx)).0 ls
