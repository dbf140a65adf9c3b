-- ===== src/TwoPc.antt =====
-- internal/twopc/twopc.go: the coordinator of a transfer across two shards, over the machines of
-- Ledger.antt as participants (internal/cluster/engine.go wraps a shard as one). A call of a
-- participant may be lost on the way there or on the way back, and other clients' commands may
-- reach the shards before it: a list of turns says what happens at each call.
pub mod Calls
pub mod Facts
pub mod Loops
pub mod Atomic
pub mod Attempts
pub mod Retry
use paxos_2pc_payments.Base.{
  ℕ, ◌+◌, Option, none, some, List, [], ◌∷◌, ◌++◌, ◌==◌, if◌then◌else◌, ℤ, pos, sub64,
}
use paxos_2pc_payments.Ledger.{
  Command, Machine, Result, Sentinel, err, apply_locked, prepare_command, commit_command,
  abort_command,
}

-- What the network does with a call: it and its reply arrive, the reply is lost, or the call is.
pub data Fate : Type 0 where
  delivered reply_lost dropped : Fate

-- The commands of other clients that reach the shards before a call, and its fate.
pub record Turn : Type 0 where
  pub others : List (ℕ × Command)
  pub fate : Fate

-- `Participant`s by number, the coordinator's counter `seq`, the commits that are retried in the
-- background (a transaction and a shard each), and what is to happen at the next calls.
pub record World : Type 0 where
  pub shards : ℕ → Machine
  pub turns : List Turn
  pub seq : ℕ
  pub pending : List (ℕ × ℕ)

-- Why a call failed: no answer came, or the shard refused.
pub data Failure : Type 0 where
  unreachable : Failure
  refused : Sentinel → Failure

abbrev pub update : (ℕ → Machine) → ℕ → Machine → ℕ → Machine
update f s m j = if s == j then m else f j

-- Commands of other clients, one after another.
unfoldable pub interfere : (ℕ → Machine) → List (ℕ × Command) → ℕ → Machine
interfere f [] = f
interfere f ((s, c) ∷ cs) = interfere (update f s (apply_locked (f s) c).0) cs

abbrev pub answer : Result → Option Failure
answer r = elim (err r) [ none ↦ none | some e ↦ some (refused e) ]

-- A call whose fate is known.
abbrev pub deliver : Fate → (ℕ → Machine) → ℕ → Command → (ℕ → Machine) × Option Failure
deliver delivered f s c = let (m, r) = apply_locked (f s) c in (update f s m, answer r)
deliver reply_lost f s c = (update f s (apply_locked (f s) c).0, some unreachable)
deliver dropped f s c = (f, some unreachable)

-- What the next call meets; nothing goes wrong at the calls beyond the list.
abbrev pub next_turn : List Turn → Turn × List Turn
next_turn [] = (record { others = []; fate = delivered }, [])
next_turn (t ∷ ts) = (t, ts)

-- `participant.run` of internal/cluster/engine.go
unfoldable pub call : World → ℕ → Command → World × Option Failure
unfolding interfere
call w s c =
    let (t, ts) = next_turn w.turns in
    let (f, e) = deliver t.fate (interfere w.shards t.others) s c in
    (record w { shards = f; turns = ts }, e)

-- `leg`
pub record Leg : Type 0 where
  pub shard : ℕ
  pub key : ℕ
  pub delta : ℤ

-- Phase 1: after a refusal the remaining prepares are skipped.
unfoldable pub votes : World → ℕ → List Leg → Option Failure → World × Option Failure
votes w tx [] refusal = (w, refusal)
votes w tx (l ∷ ls) (some e) = votes w tx ls (some e)
votes w tx (l ∷ ls) none =
    let (w', e) = call w l.shard (prepare_command tx l.key l.delta) in votes w' tx ls e

-- An abort to every participant, whether or not it voted; a failure is only logged.
unfoldable pub aborts : World → ℕ → List Leg → World
aborts w tx [] = w
aborts w tx (l ∷ ls) = aborts (call w l.shard (abort_command tx)).0 tx ls

abbrev pub keep_undelivered : Option Failure → ℕ → List ℕ → List ℕ
keep_undelivered none s us = us
keep_undelivered (some e) s us = s ∷ us

-- Phase 2: the participants that could not be told.
unfoldable pub commits : World → ℕ → List Leg → World × List ℕ
commits w tx [] = (w, [])
commits w tx (l ∷ ls) =
    let (w', e) = call w l.shard (commit_command tx) in
    let (w'', us) = commits w' tx ls in (w'', keep_undelivered e l.shard us)

pub data Outcome : Type 0 where
  committed : Outcome
  aborted : Failure → Outcome
  in_doubt : List ℕ → Outcome

abbrev pub pair_with : ℕ → List ℕ → List (ℕ × ℕ)
pair_with tx [] = []
pair_with tx (s ∷ us) = (tx, s) ∷ pair_with tx us

abbrev pub outcome_of : List ℕ → Outcome
outcome_of [] = committed
outcome_of (u ∷ us) = in_doubt (u ∷ us)

-- The decision: `retryInBackground` for each participant that could not be told to commit.
abbrev pub decide : ℕ → List Leg → World × Option Failure → World × Outcome
decide tx ls (w, some e) = (aborts w tx ls, aborted e)
decide tx ls (w, none) =
    let (w', us) = commits w tx ls in
    (record w' { pending = pair_with tx us ++ w'.pending }, outcome_of us)

-- `-amount` of an int64
abbrev pub negate : ℤ → ℤ
negate a = sub64 (pos 0) a

abbrev pub legs_of : ℕ → ℕ → ℕ → ℕ → ℤ → List Leg
legs_of from from_key to to_key amount =
    record { shard = from; key = from_key; delta = negate amount }
    ∷ record { shard = to; key = to_key; delta = amount }
    ∷ []

-- The number of the next transaction.
abbrev pub next_tx : World → ℕ
next_tx w = w.seq + 1

-- `Transfer`
unfoldable pub transfer : World → ℕ → ℕ → ℕ → ℕ → ℤ → World × Outcome
unfolding votes commits aborts call
transfer w from from_key to to_key amount =
    let tx = next_tx w in
    let ls = legs_of from from_key to to_key amount in
    decide tx ls (votes (record w { seq = tx }) tx ls none)

-- One attempt of `retryInBackground`: the commit is dropped from the list once it lands.
unfoldable pub retry : World → World
unfolding call
retry w = elim w.pending [
  | [] ↦ w
  | (tx, s) ∷ rest ↦
      let (w', e) = call w s (commit_command tx) in
      record w' { pending = elim e [ none ↦ rest | some _ ↦ rest ++ (tx, s) ∷ [] ] }
]
