-- ===== src/TwoPc/Atomic.antt =====
-- internal/twopc/twopc.go: a transfer is atomic, whatever the network loses and whatever other
-- clients do meanwhile.
use paxos_2pc_payments.Base.{
  ℕ, ℤ, All, ◌≡◌, ◌≢◌, ◌⊎◌, inl, inr, refl, none, some, List, [], ◌∷◌, ◌++◌, lookup, ap, ◌∙◌,
  Option,
}
use paxos_2pc_payments.Ledger.{commit, prepare_command}
use paxos_2pc_payments.Ledger.Decision.{IsCommitted}
use paxos_2pc_payments.TwoPc.{
  Failure, World, Leg, Outcome, committed, aborted, in_doubt, votes, commits, transfer, legs_of,
  next_tx, decide, pair_with, outcome_of,
}
use paxos_2pc_payments.TwoPc.Calls.{Quiet}
use paxos_2pc_payments.TwoPc.Facts.{Waiting, Done, Bound, Clear, Clear-kept, Clear-foreign}
use paxos_2pc_payments.TwoPc.Loops

-- What an outcome says of the participants, in the state that `Transfer` leaves.
abbrev pub Agreed : ℕ → List Leg → World → World → Outcome → Type 0
Agreed tx ls w w' committed = All (λ l. IsCommitted (w'.shards l.shard) tx) ls
Agreed tx ls w w' (aborted e) = (j : ℕ) → lookup tx (w'.shards j).decided ≢ some commit
Agreed tx ls w w' (in_doubt us) =
    All
      (λ l.
        IsCommitted (w'.shards l.shard) tx
        ⊎ (Bound tx (w'.shards l.shard) × Loops.Listed l.shard us))
      ls
    × (w'.pending ≡ pair_with tx us ++ w.pending)

each_leg :
    (P : ℕ → Type 0) (ls : List Leg) → ((j : ℕ) → Loops.OnLegs j ls → P j) → All (λ l. P l.shard) ls
each_leg P [] h = tt
each_leg P (l ∷ ls) h = (h l.shard (inl refl), each_leg P ls (λ j on. h j (inr on)))

told :
    (tx : ℕ) (ls : List Leg) (w w' : World) (us : List ℕ)
    → ((j : ℕ)
        → Loops.OnLegs j ls
        → (Done tx (w'.shards j) ⊎ Loops.Listed j us) × Bound tx (w'.shards j))
    → (w'.pending ≡ pair_with tx us ++ w.pending)
    → Agreed tx ls w w' (outcome_of us)
told tx ls w w' [] h p =
    each_leg (λ j. IsCommitted (w'.shards j) tx) ls (λ j on. settled j (h j on).0)
  where
    settled : (j : ℕ) → Done tx (w'.shards j) ⊎ ⊥ → IsCommitted (w'.shards j) tx
    settled j (inl d) = d.1
    settled j (inr x) = absurd x
told tx ls w w' (u ∷ us) h p = (
  each_leg (λ j. IsCommitted (w'.shards j) tx ⊎ (Bound tx (w'.shards j) × Loops.Listed j (u ∷ us)))
      ls (λ j on. doubtful j (h j on).1 (h j on).0),
  p,
)
  where
    doubtful :
        (j : ℕ)
        → Bound tx (w'.shards j)
        → Done tx (w'.shards j) ⊎ Loops.Listed j (u ∷ us)
        → IsCommitted (w'.shards j) tx ⊎ (Bound tx (w'.shards j) × Loops.Listed j (u ∷ us))
    doubtful j b (inl d) = inl d.1
    doubtful j b (inr x) = inr (b, x)

decide-Agreed :
    (tx : ℕ) (ls : List Leg) (w v : World) (r : Option Failure)
    → Quiet tx v.turns
    → v.pending ≡ w.pending
    → ((j : ℕ) → Clear tx (v.shards j))
    → (r ≡ none → (j : ℕ) → Loops.OnLegs j ls → Waiting tx (v.shards j))
    → Agreed tx ls w (decide tx ls (v, r)).0 (decide tx ls (v, r)).1
decide-Agreed tx ls w v (some e) q p clear wait = λ j. (Loops.aborts-Clear tx v ls j q (clear j)).1
decide-Agreed tx ls w v none q p clear wait =
    told tx ls w (decide tx ls (v, none)).0 (commits v tx ls).1
      (λ j on. (
        Loops.commits_told tx v ls j q (λ s o. bound s o) on,
        Loops.commits-Bound tx v ls j q (bound j on),
      ))
      (ap (λ x. pair_with tx (commits v tx ls).1 ++ x) (Loops.commits-pending tx v ls ∙ p))
  where
    bound : (s : ℕ) → Loops.OnLegs s ls → Bound tx (v.shards s)
    bound s o = let (inv, h) = wait refl s o in (inv, inl h)

-- Atomicity of a transfer under a transaction number that is new to every shard, while any call
-- may fail and other clients' commands, none about that transaction, come in between: if it is
-- reported committed, every participant has committed; if it is reported aborted, no shard has
-- committed it; if it is in doubt, every participant has committed or is bound to (it is prepared
-- still, and the commit waits in the list of retries).
pub transfer-Agreed :
    (w : World) (from from_key to to_key : ℕ) (amount : ℤ)
    → Quiet (next_tx w) w.turns
    → ((j : ℕ) → Clear (next_tx w) (w.shards j))
    → let (w', o) = transfer w from from_key to to_key amount in
      Agreed (next_tx w) (legs_of from from_key to to_key amount) w w' o
unfolding transfer
transfer-Agreed w from from_key to to_key amount q clear =
    decide-Agreed tx ls w (votes w₁ tx ls none).0 (votes w₁ tx ls none).1
      (Loops.votes-Quiet tx w₁ ls none q) (Loops.votes-pending tx w₁ ls none)
      (λ j.
        Loops.votes-P tx (Clear tx) (Clear-foreign tx)
          (λ m k d. Clear-kept tx m (prepare_command tx k d) refl) w₁ ls none j q (clear j))
      (λ e j on. Loops.votes-Waiting tx w₁ ls none j q (λ s. (clear s).0) e (inl on))
  where
    tx : ℕ
    tx = next_tx w

    ls : List Leg
    ls = legs_of from from_key to to_key amount

    w₁ : World
    w₁ = record w { seq = next_tx w }
