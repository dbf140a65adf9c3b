-- ===== src/Gateway/Unheard.antt =====
-- gateway/transfer.go: `transfer` when the answers to all commits of the debit are lost.
use paxos_2pc_payments.Base.{
  ℕ, zero, suc, ◌+◌, ◌≡◌, ◌≢◌, inl, inr, refl, true, false, Option, none, some, [], arith, lookup,
  lookup-insert, lookup-insert_ne, Option-cases, ◌∙◌,
}
use paxos_2pc_payments.Status.{Status, retriable}
use paxos_2pc_payments.Bank.{
  Participant, Command, cmd_abort, cmd_commit, refused, apply_command, transaction_key, debit,
  credit, abort, release,
}
use paxos_2pc_payments.Gateway.{
  World, unheard, Call, apply_at, interfere, rpc, commit_loop, commit, Env, Request, debit_command,
  credit_command, phase_two,
}
use paxos_2pc_payments.Gateway as Gateway
use paxos_2pc_payments.Gateway.Calls.{booked, rpc-booked, after_attempt-elim, commit_loop-booked}

-- A call that nobody comes before, and whose answer is lost with a status.
abbrev pub IsUnheard : Status → Call → Type 0
IsUnheard s call = (call.delivery ≡ unheard s) × (call.others ≡ [])

rpc-elsewhere :
    (call : Call) (w : World) (name b : ℕ) (c : Command)
    → call.others ≡ []
    → name ≢ b
    → lookup b (rpc call w name c).0 ≡ lookup b w
unfolding rpc interfere apply_at
rpc-elsewhere call w name b c alone other = elim (Option-cases (lookup name w)) [
  | inl gone ↦ ground arith
  | inr (p, there) ↦
      ground (arith, lookup-insert_ne b name (apply_command call.io call.append p c).0 w)
]

-- Aborts leave the ledgers alone.
abort-booked :
    (call : Call) (w : World) (name b k : ℕ) (c : Command)
    → call.others ≡ []
    → c.kind ≡ cmd_abort
    → booked (rpc call w name c).0 b k ≡ booked w b k
unfolding rpc interfere apply_at apply_command abort release
abort-booked call w name b k c alone kind = elim (Option-cases (lookup name w)) [
  | inl gone ↦ ground arith
  | inr (p, there) ↦
      ground (arith, lookup-insert b name (apply_command call.io call.append p c).0 w)
]

commit_loop-elsewhere :
    (calls : ℕ → Call) (left attempt : ℕ) (last : Option Status) (w : World) (name b : ℕ)
    (c : Command)
    → ((k : ℕ) → (calls k).others ≡ [])
    → name ≢ b
    → lookup b (commit_loop calls left attempt last w name c).0 ≡ lookup b w
unfolding commit_loop
commit_loop-elsewhere calls zero attempt last w name b c alone other = refl
commit_loop-elsewhere calls (suc left) attempt last w name b c alone other =
    let (w', a) = rpc (calls attempt) w name c in
    let same = rpc-elsewhere (calls attempt) w name b c (alone attempt) other in
    after_attempt-elim (λ out. lookup b out.0 ≡ lookup b w) w (lookup name w)
      (rpc (calls attempt) w name c) (λ s. commit_loop calls left (attempt + 1) (some s) w' name c)
      refl (λ x e. same) (λ s. same)
      (λ s. commit_loop-elsewhere calls left (attempt + 1) (some s) w' name b c alone other ∙ same)

rpc-unheard :
    (call : Call) (w : World) (name : ℕ) (c : Command) (s : Status)
    → IsUnheard s call
    → (rpc call w name c).1 ≡ refused s
unfolding rpc
rpc-unheard call w name c s (deaf, alone) = ground arith

-- The attempts that are left change nothing about the answer.
commit_loop-unheard :
    (calls : ℕ → Call) (left attempt : ℕ) (w : World) (name k : ℕ) (c : Command) (s : Status)
    → retriable s ≡ true
    → ((i : ℕ) → IsUnheard s (calls i))
    → booked w name k ≡ true
    → (commit_loop calls left attempt (some s) w name c).1 ≡ some s
unfolding commit_loop
commit_loop-unheard calls zero attempt w name k c s again deaf b = refl
commit_loop-unheard calls (suc left) attempt w name k c s again deaf b =
    elim (Option-cases (lookup name w)) [
      | inl gone ↦ absurd (ground arith)
      | inr (p, there) ↦ ground (
        arith,
        rpc-unheard (calls attempt) w name c s (deaf attempt),
        commit_loop-unheard calls left (attempt + 1) (rpc (calls attempt) w name c).0 name k c s
            again deaf (rpc-booked (calls attempt) w name c name k b),
      )
    ]

commit-unheard :
    (calls : ℕ → Call) (w : World) (name : ℕ) (c : Command) (s : Status) (p : Participant)
    → retriable s ≡ true
    → ((i : ℕ) → IsUnheard s (calls i))
    → lookup name w ≡ some p
    → booked (rpc (calls 1) w name c).0 name c.key ≡ true
    → ((commit calls w name c).1 ≡ some s) × (booked (commit calls w name c).0 name c.key ≡ true)
unfolding commit commit_loop
commit-unheard calls w name c s p again deaf there landed = (
  ground (
    arith,
    rpc-unheard (calls 1) w name c s (deaf 1),
    commit_loop-unheard calls 2 2 (rpc (calls 1) w name c).0 name c.key c s again deaf landed,
  ),
  ground (
    arith,
    rpc-unheard (calls 1) w name c s (deaf 1),
    commit_loop-booked calls 2 2 (some s) (rpc (calls 1) w name c).0 name c name c.key landed,
  ),
)

-- A debit that landed can be taken for one that did not. Take phase 2 of a transfer between two
-- different banks, the sender's one registered. Let the first commit of the debit book it, let the
-- answers to all its commits be lost with one status that is worth a retry, and let no other
-- command come before these commits and the aborts. If the credit is not in the ledger of the
-- receiver's bank before, phase 2 fails with that status, the debit is in the ledger of the
-- sender's bank, and the credit is still not in that of the receiver's bank.
pub unheard_debit_stays :
    (env : Env) (w : World) (r : Request) (s : Status) (p : Participant)
    → r.from_bank ≢ r.to_bank
    → retriable s ≡ true
    → ((i : ℕ) → IsUnheard s (env.debit_commit i))
    → env.debit_abort.others ≡ []
    → env.credit_abort.others ≡ []
    → lookup r.from_bank w ≡ some p
    → booked
        (rpc (env.debit_commit 1) w r.from_bank (debit_command r cmd_commit)).0
        r.from_bank
        (transaction_key r.transaction debit)
      ≡ true
    → booked w r.to_bank (transaction_key r.transaction credit) ≡ false
    → ((phase_two env w r).1 ≡ some s)
      × (booked (phase_two env w r).0 r.from_bank (transaction_key r.transaction debit) ≡ true)
      × (booked (phase_two env w r).0 r.to_bank (transaction_key r.transaction credit) ≡ false)
unfolding phase_two commit Gateway.abort
unheard_debit_stays env w r s p apart again deaf alone₁ alone₂ there landed fresh = (
  ground (arith, debited.0),
  ground (arith, debited.0, debited.1, aborted r.from_bank (transaction_key r.transaction debit)),
  ground (
    arith,
    debited.0,
    aborted r.to_bank (transaction_key r.transaction credit),
    commit_loop-elsewhere env.debit_commit 3 1 none w r.from_bank r.to_bank
        (debit_command r cmd_commit) (λ k. (deaf k).1) apart,
  ),
)
  where
    out : World × Option Status
    out = commit env.debit_commit w r.from_bank (debit_command r cmd_commit)

    debited :
        (out.1 ≡ some s) × (booked out.0 r.from_bank (transaction_key r.transaction debit) ≡ true)
    debited =
        commit-unheard env.debit_commit w r.from_bank (debit_command r cmd_commit) s p again deaf
          there landed

    w₁ : World
    w₁ = (rpc env.debit_abort out.0 r.from_bank (debit_command r cmd_abort)).0

    aborted :
        (b k : ℕ)
        → booked (rpc env.credit_abort w₁ r.to_bank (credit_command r cmd_abort)).0 b k
          ≡ booked out.0 b k
    aborted b k =
        abort-booked env.credit_abort w₁ r.to_bank b k (credit_command r cmd_abort) alone₂ refl
        ∙ abort-booked env.debit_abort out.0 r.from_bank b k (debit_command r cmd_abort) alone₁ refl
