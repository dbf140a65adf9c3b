-- ===== src/TwoPc/Calls.antt =====
-- internal/twopc/twopc.go: what a call of a participant does to the shards.
use paxos_2pc_payments.Base.{
  ℕ, ◌≡◌, inl, inr, refl, false, none, List, [], ◌∷◌, arith, ◌==◌, All, Bool-cases, sym, ==→eq,
  ==_refl, subst,
}
use paxos_2pc_payments.Ledger.{Command, Machine, ok, apply_locked}
use paxos_2pc_payments.TwoPc.{
  Fate, delivered, reply_lost, dropped, Turn, World, update, interfere, call, deliver, next_turn,
}

-- No command of another client is about transaction `tx`.
abbrev pub IsForeign : ℕ → ℕ × Command → Type 0
IsForeign tx (s, c) = (c.tx == tx) ≡ false

abbrev pub Quiet : ℕ → List Turn → Type 0
Quiet tx ts = All (λ t. All (IsForeign tx) t.others) ts

-- A property of a shard's machine that other clients' commands keep.
abbrev pub Stable : ℕ → (Machine → Type 0) → Type 0
Stable tx P = (m : Machine) (c : Command) → (c.tx == tx) ≡ false → P m → P (apply_locked m c).0

-- A property that command `c` keeps.
abbrev pub Kept : Command → (Machine → Type 0) → Type 0
Kept c P = (m : Machine) → P m → P (apply_locked m c).0

module _ (tx : ℕ) (P : Machine → Type 0) (stable : Stable tx P) where
  update-P :
      (f : ℕ → Machine) (s j : ℕ) (c : Command)
      → (P (f s) → P (apply_locked (f s) c).0)
      → P (f j)
      → P (update f s (apply_locked (f s) c).0 j)
  update-P f s j c step h = elim (Bool-cases (s == j)) [
    | inl e ↦ rw e (step (subst (λ k. P (f k)) (sym (==→eq s j e)) h))
    | inr e ↦ rw e h
  ]

  interfere-P :
      (f : ℕ → Machine) (cs : List (ℕ × Command)) (j : ℕ)
      → All (IsForeign tx) cs
      → P (f j)
      → P (interfere f cs j)
  unfolding interfere
  interfere-P f [] j q h = h
  interfere-P f ((s, c) ∷ cs) j q h =
      interfere-P (update f s (apply_locked (f s) c).0) cs j q.1
        (update-P f s j c (stable (f s) c q.0) h)

  deliver-P :
      (x : Fate) (f : ℕ → Machine) (s j : ℕ) (c : Command)
      → Kept c P
      → P (f j)
      → P ((deliver x f s c).0 j)
  deliver-P delivered f s j c k h = update-P f s j c (k (f s)) h
  deliver-P reply_lost f s j c k h = update-P f s j c (k (f s)) h
  deliver-P dropped f s j c k h = h

  -- A call keeps what its own command and the others keep.
  pub call-P :
      (w : World) (s j : ℕ) (c : Command)
      → Quiet tx w.turns
      → Kept c P
      → P (w.shards j)
      → P ((call w s c).0.shards j)
  unfolding call
  call-P w s j c q k h = by_turns w.turns q
    where
      by_turns :
          (ts : List Turn)
          → Quiet tx ts
          → P ((deliver (next_turn ts).0.fate (interfere w.shards (next_turn ts).0.others) s c).0 j)
      by_turns [] q' = update-P w.shards s j c (k (w.shards s)) h
      by_turns (t ∷ ts) q' =
          deliver-P t.fate (interfere w.shards t.others) s j c k
            (interfere-P w.shards t.others j q'.0 h)

  -- Where a call's reply arrives and is no error, the shard has applied the command and
  -- accepted it.
  pub record Accepted (f : ℕ → Machine) (s : ℕ) (c : Command) : Type 0 where
    pub before : Machine
    pub good : P before
    pub accepted : (apply_locked before c).1.code ≡ ok
    pub after : f s ≡ (apply_locked before c).0

  deliver-Accepted :
      (x : Fate) (f : ℕ → Machine) (s : ℕ) (c : Command)
      → P (f s)
      → (deliver x f s c).1 ≡ none
      → Accepted (deliver x f s c).0 s c
  deliver-Accepted delivered f s c h e = record {
    before = f s;
    good = h;
    accepted = ground arith;
    after = rw (==_refl s) refl;
  }
  deliver-Accepted reply_lost f s c h e = absurd (ground arith)
  deliver-Accepted dropped f s c h e = absurd (ground arith)

  pub call-Accepted :
      (w : World) (s : ℕ) (c : Command)
      → Quiet tx w.turns
      → P (w.shards s)
      → (call w s c).1 ≡ none
      → Accepted (call w s c).0.shards s c
  unfolding call
  call-Accepted w s c q h e = by_turns w.turns q e
    where
      by_turns :
          (ts : List Turn)
          → Quiet tx ts
          → (deliver (next_turn ts).0.fate (interfere w.shards (next_turn ts).0.others) s c).1
            ≡ none
          → Accepted
              (deliver (next_turn ts).0.fate (interfere w.shards (next_turn ts).0.others) s c).0
              s
              c
      by_turns [] q' e' = deliver-Accepted delivered (interfere w.shards []) s c h e'
      by_turns (t ∷ ts) q' e' =
          deliver-Accepted t.fate (interfere w.shards t.others) s c
            (interfere-P w.shards t.others s q'.0 h) e'

pub call-Quiet :
    (tx : ℕ) (w : World) (s : ℕ) (c : Command) → Quiet tx w.turns → Quiet tx (call w s c).0.turns
unfolding call
call-Quiet tx w s c q = by_turns w.turns q
  where
    by_turns : (ts : List Turn) → Quiet tx ts → Quiet tx (next_turn ts).1
    by_turns [] q' = tt
    by_turns (t ∷ ts) q' = q'.1
