-- ===== src/Paxos/Spec.antt =====
-- What internal/paxos promises, without its messages: acceptors that promise, vote and report,
-- proposals under ballots, and replicas that learn. Cluster.antt has the replicas of the code.
pub mod Safe
pub mod Kept
use paxos_2pc_payments.Base.{
  ℕ, ◌≤◌, ◌≡◌, ◌⊎◌, Option, some, List, ◌∷◌, true, ◌==◌, if◌then◌else◌, In, Distinct, length,
}
use paxos_2pc_payments.Paxos.Ballot.{Ballot, less, majority, ◌≼◌}
use paxos_2pc_payments.Paxos.Log.{Entry}

-- What an acceptor reports with its promise: its entries from a slot on.
pub record Report : Type 0 where
  pub acceptor : ℕ
  pub ballot : Ballot
  pub first : ℕ
  pub entries : List Entry

-- The promises and the entries of the acceptors, and all that was ever proposed, voted and
-- reported.
pub record Spec : Type 0 where
  pub promised : ℕ → Ballot
  pub held : ℕ → ℕ → Option Entry
  pub proposals : List Entry
  pub votes : List (ℕ × Entry)
  pub reports : List Report

-- Two entries are for the same slot under the same ballot.
abbrev pub SameRound : Entry → Entry → Type 0
SameRound e f = (e.slot ≡ f.slot) × (e.ballot ≡ f.ballot)

abbrev pub IsQuorum : List ℕ → List ℕ → Type 0
IsQuorum group q =
    Distinct q × ((a : ℕ) → In a q → In a group) × (majority (length group) ≤ length q)

-- A quorum voted for the entry.
abbrev pub Elected : List ℕ → Spec → Entry → Type 0
Elected group σ e = (q : List ℕ) × IsQuorum group q × ((a : ℕ) → In a q → In (a, e) σ.votes)

-- The entry has the command that is chosen for its slot: one that was elected under its ballot or
-- an earlier one.
abbrev pub Settled : List ℕ → Spec → Entry → Type 0
Settled group σ x =
    (e : Entry) × Elected group σ e
    × (e.slot ≡ x.slot)
    × (e.ballot ≼ x.ballot)
    × (e.command ≡ x.command)
    × In x σ.proposals

-- Under ballot `b`, the acceptor voted for the command in the slot, or it never will vote there.
abbrev pub Done : Spec → ℕ → Ballot → ℕ → List ℕ → Type 0
Done σ s b a v =
    ((e : Entry) × In (a, e) σ.votes × (e.slot ≡ s) × (e.ballot ≡ b) × (e.command ≡ v))
    ⊎ ((less b (σ.promised a) ≡ true)
        × ((e : Entry) → In (a, e) σ.votes → e.slot ≡ s → e.ballot ≡ b → ⊥))

-- No other command than `v` can be elected for the slot under a ballot below `b`.
abbrev pub IsSafe : List ℕ → Spec → Ballot → ℕ → List ℕ → Type 0
IsSafe group σ b s v =
    (b' : Ballot)
    → less b' b ≡ true
    → (q : List ℕ) × IsQuorum group q × ((a : ℕ) → In a q → Done σ s b' a v)

-- What was held is at least as new as the entry, or is settled.
abbrev pub Covers : List ℕ → Spec → Entry → Entry → Type 0
Covers group σ e x = (e.ballot ≼ x.ballot) ⊎ Settled group σ x

pub record Inv (group : List ℕ) (σ : Spec) : Type 0 where
  pub vote_proposed : (a : ℕ) (e : Entry) → In (a, e) σ.votes → In e σ.proposals
  pub one_command :
      (e f : Entry) → In e σ.proposals → In f σ.proposals → SameRound e f → e.command ≡ f.command
  pub safe : (e : Entry) → In e σ.proposals → IsSafe group σ e.ballot e.slot e.command
  pub vote_promised : (a : ℕ) (e : Entry) → In (a, e) σ.votes → e.ballot ≼ σ.promised a
  pub held_proposed : (a s : ℕ) (e : Entry) → σ.held a s ≡ some e → (e.slot ≡ s) × In e σ.proposals
  pub vote_held :
      (a : ℕ) (e : Entry)
      → In (a, e) σ.votes
      → (x : Entry) × (σ.held a e.slot ≡ some x) × Covers group σ e x
  pub report_promised : (r : Report) → In r σ.reports → r.ballot ≼ σ.promised r.acceptor
  pub report_proposed :
      (r : Report) → In r σ.reports → (e : Entry) → In e r.entries → In e σ.proposals
  pub report_covers :
      (r : Report)
      → In r σ.reports
      → (e : Entry) → In (r.acceptor, e) σ.votes
      → less e.ballot r.ballot ≡ true
      → r.first ≤ e.slot
      → (x : Entry) × In x r.entries × (x.slot ≡ e.slot) × Covers group σ e x

abbrev pub at {ℓ} : {A : Type ℓ} → ℕ → ℕ → A → A → A
at a j new old = if a == j then new else old

-- The steps. What a step leaves alone is the same before and after.
pub data Step (group : List ℕ) (σ : Spec) (τ : Spec) : Type 0 where
  promise :
      (a : ℕ) (b : Ballot)
      → σ.promised a ≼ b
      → ((j : ℕ) → τ.promised j ≡ at a j b (σ.promised j))
      → ((j s : ℕ) → τ.held j s ≡ σ.held j s)
      → τ.proposals ≡ σ.proposals
      → τ.votes ≡ σ.votes
      → τ.reports ≡ σ.reports
      → Step group σ τ
  propose :
      (e : Entry)
      → IsSafe group σ e.ballot e.slot e.command
      → ((f : Entry) → In f σ.proposals → SameRound e f → e.command ≡ f.command)
      → ((j : ℕ) → τ.promised j ≡ σ.promised j)
      → ((j s : ℕ) → τ.held j s ≡ σ.held j s)
      → τ.proposals ≡ e ∷ σ.proposals
      → τ.votes ≡ σ.votes
      → τ.reports ≡ σ.reports
      → Step group σ τ
  vote :
      (a : ℕ) (e : Entry)
      → In e σ.proposals
      → σ.promised a ≼ e.ballot
      → ((j : ℕ) → τ.promised j ≡ at a j e.ballot (σ.promised j))
      → ((j s : ℕ) → τ.held j s ≡ at a j (at e.slot s (some e) (σ.held j s)) (σ.held j s))
      → τ.proposals ≡ σ.proposals
      → τ.votes ≡ (a, e) ∷ σ.votes
      → τ.reports ≡ σ.reports
      → Step group σ τ
  report :
      (r : Report)
      → r.ballot ≼ σ.promised r.acceptor
      → ((s : ℕ) (e : Entry) → r.first ≤ s → σ.held r.acceptor s ≡ some e → In e r.entries)
      → ((e : Entry) → In e r.entries → In e σ.proposals)
      → ((j : ℕ) → τ.promised j ≡ σ.promised j)
      → ((j s : ℕ) → τ.held j s ≡ σ.held j s)
      → τ.proposals ≡ σ.proposals
      → τ.votes ≡ σ.votes
      → τ.reports ≡ r ∷ σ.reports
      → Step group σ τ
  learn :
      (a : ℕ) (x : Entry)
      → Settled group σ x
      → ((j : ℕ) → τ.promised j ≡ σ.promised j)
      → ((j s : ℕ) → τ.held j s ≡ at a j (at x.slot s (some x) (σ.held j s)) (σ.held j s))
      → τ.proposals ≡ σ.proposals
      → τ.votes ≡ σ.votes
      → τ.reports ≡ σ.reports
      → Step group σ τ

pub data Run (group : List ℕ) (σ : Spec) : Spec → Type 0 where
  here : Run group σ σ
  next : {τ υ : Spec} → Run group σ τ → Step group τ υ → Run group σ υ

pub Run_trans : (group : List ℕ) (σ τ υ : Spec) → Run group σ τ → Run group τ υ → Run group σ υ
Run_trans group σ τ υ r here = r
Run_trans group σ τ υ r (next {τ = x} t st) = next (Run_trans group σ τ x r t) st
