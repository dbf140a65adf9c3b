-- ===== src/Gateway/Atomic.antt =====
-- gateway/transfer.go: what the answer of a transfer says of the two banks.
use paxos_2pc_payments.Base.{◌≡◌, refl, true, Option, none, some, arith, lookup}
use paxos_2pc_payments.Status.{Status}
use paxos_2pc_payments.Bank.{
  Participant, cmd_commit, cmd_prepare, Answer, done, refused, transaction_key, debit, credit,
}
use paxos_2pc_payments.Gateway.{
  World, rpc, Request, debit_command, credit_command, commit, Env, phase_two, after_credit,
  after_debit, after_credit_vote, after_debit_vote, transfer,
}
use paxos_2pc_payments.Gateway.Calls.{
  booked, Sound, rpc-Sound, commit_loop-Sound, commit_loop-booked, commit_loop-settles,
}

-- Both legs are in the ledgers of their banks.
abbrev pub BothBooked : Request → World → Type 0
BothBooked r w =
    (booked w r.from_bank (transaction_key r.transaction debit) ≡ true)
    × (booked w r.to_bank (transaction_key r.transaction credit) ≡ true)

after_credit-books :
    (r : Request) (w : World) (out : World × Option Status)
    → (out.1 ≡ none → BothBooked r out.0)
    → (after_credit out).1 ≡ none
    → BothBooked r (after_credit out).0
after_credit-books r w (w', none) h e = h refl
after_credit-books r w (w', some s) h e = absurd (ground arith)

after_debit-books :
    (env : Env) (r : Request) (out : World × Option Status)
    → Sound out.0
    → (out.1 ≡ none → booked out.0 r.from_bank (transaction_key r.transaction debit) ≡ true)
    → (after_debit env r out).1 ≡ none
    → BothBooked r (after_debit env r out).0
unfolding commit
after_debit-books env r (w, some s) sound h e = absurd (ground arith)
after_debit-books env r (w, none) sound h e =
    after_credit-books r w (commit env.credit_commit w r.to_bank (credit_command r cmd_commit))
      (λ ok. (
        commit_loop-booked env.credit_commit 3 1 none w r.to_bank (credit_command r cmd_commit)
            r.from_bank (transaction_key r.transaction debit) (h refl),
        commit_loop-settles env.credit_commit 3 1 none w r.to_bank (credit_command r cmd_commit)
            refl sound tt ok,
      ))
      e

phase_two-books :
    (env : Env) (w : World) (r : Request)
    → Sound w
    → (phase_two env w r).1 ≡ none
    → BothBooked r (phase_two env w r).0
unfolding phase_two commit
phase_two-books env w r sound e =
    after_debit-books env r (commit env.debit_commit w r.from_bank (debit_command r cmd_commit))
      (commit_loop-Sound env.debit_commit 3 1 none w r.from_bank (debit_command r cmd_commit) sound)
      (λ ok.
        commit_loop-settles env.debit_commit 3 1 none w r.from_bank (debit_command r cmd_commit)
          refl sound tt ok)
      e

after_votes-books :
    (env : Env) (r : Request) (out : World × Answer)
    → Sound out.0
    → (after_debit_vote env r out).1 ≡ none
    → BothBooked r (after_debit_vote env r out).0
after_votes-books env r (w, refused s) sound e = absurd (ground arith)
after_votes-books env r (w, done b) sound e =
    second (rpc env.credit_vote w r.to_bank (credit_command r cmd_prepare))
      (rpc-Sound env.credit_vote w r.to_bank (credit_command r cmd_prepare) sound) e
  where
    second :
        (out : World × Answer)
        → Sound out.0
        → (after_credit_vote env r out).1 ≡ none
        → BothBooked r (after_credit_vote env r out).0
    second (w', refused s) sound e = absurd (ground arith)
    second (w', done b) sound e = phase_two-books env w' r sound e

-- A transfer that is answered with success is in the ledgers of both banks, whatever becomes of
-- its calls, and whatever else the banks do meanwhile.
pub transfer-books :
    (env : Env) (w : World) (r : Request)
    → Sound w
    → (transfer env w r).1 ≡ none
    → BothBooked r (transfer env w r).0
unfolding transfer
transfer-books env w r sound e = by_banks (lookup r.from_bank w) (lookup r.to_bank w) refl refl
  where
    by_banks :
        (a b : Option Participant)
        → lookup r.from_bank w ≡ a
        → lookup r.to_bank w ≡ b
        → BothBooked r (transfer env w r).0
    by_banks none b h k = absurd (ground arith)
    by_banks (some p) none h k = absurd (ground arith)
    by_banks (some p) (some q) h k =
        let books : (after_debit_vote env r
                (rpc env.debit_vote w r.from_bank (debit_command r cmd_prepare))).1
              ≡ none
            → BothBooked r
                (after_debit_vote env r
                  (rpc env.debit_vote w r.from_bank (debit_command r cmd_prepare))).0 =
          after_votes-books env r (rpc env.debit_vote w r.from_bank (debit_command r cmd_prepare))
            (rpc-Sound env.debit_vote w r.from_bank (debit_command r cmd_prepare) sound) in
        grind (arith, books)
