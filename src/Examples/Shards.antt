-- ===== src/Examples/Shards.antt =====
-- internal/ledger: a shard with two accounts and a debit of 30 in preparation.
use paxos_2pc_payments.Base.{
  ℕ, ◌≡◌, ◌≢◌, ◌⊎◌, ◌≤ℤ◌, refl, false, none, some, [], ◌∷◌, pos, negsuc, ltb_ℤ, add64, arith,
  lookup, contains, insert, erase, wrap64, sub64, ◌-ℤ◌, List, sym, ◌∙◌, ◌+ℤ◌,
}
use paxos_2pc_payments.Ledger.{
  put, transfer, Command, Machine, new, run, apply_locked, apply_put, apply_get, apply_prepare,
  apply_commit, apply_abort, settle, release, is_committed, vote, check_locked, overdraws, balance,
  move_funds, apply_transfer, command_eq, prepare_command, commit_command, abort_command, ok,
  insufficient, unknown_tx, fail,
}
use paxos_2pc_payments.Ledger.Invariant.{Inv, new-Inv}
use paxos_2pc_payments.Ledger.Steps.{apply_locked-Inv, run-Inv, apply_locked_refused}
use paxos_2pc_payments.Ledger.Guarantee.{vote_guarantees_commit}
use paxos_2pc_payments.Ledger.Decision.{committed_is_final, aborted_is_final}
use paxos_2pc_payments.Ledger.Totals.{NoOverflow, total, booked, apply_locked-total}

abbrev pub put_of : ℕ → ℕ → Command
put_of key amount = record { op = put; key = key; to = 0; amount = pos amount; tx = 0 }

abbrev two_accounts : List Command
two_accounts = put_of 1 100 ∷ put_of 2 50 ∷ []

abbrev pub shard : Machine
shard = run (new 4) two_accounts

pub shard-Inv : Inv shard
shard-Inv = run-Inv (new 4) two_accounts (new-Inv 4)

-- A debit of 30 from account 1 in transaction 7.
abbrev pub debit : Command
debit = prepare_command 7 1 (negsuc 29)

apply_locked-Inv_example : Inv (apply_locked shard debit).0
apply_locked-Inv_example = apply_locked-Inv shard debit shard-Inv

abbrev too_much : Command
too_much = prepare_command 8 2 (negsuc 50)

too_much_refused : (apply_locked shard too_much).1.code ≡ insufficient
unfolding run apply_locked apply_put apply_get apply_prepare apply_commit apply_abort settle release
    is_committed vote check_locked overdraws balance new move_funds apply_transfer lookup contains
    insert erase wrap64 add64 sub64 ◌+ℤ◌ ◌-ℤ◌ command_eq
too_much_refused = refl

apply_locked_refused_example : (apply_locked shard too_much).0 ≡ shard
apply_locked_refused_example =
    apply_locked_refused shard too_much (λ e. insufficient_ne_ok (sym too_much_refused ∙ e))
  where
    insufficient_ne_ok : insufficient ≢ ok
    insufficient_ne_ok e = ground arith

vote_guarantees_commit_example :
    let (m', r) =
      apply_locked (run (apply_locked shard debit).0 (put_of 2 75 ∷ [])) (commit_command 7) in
    (r.code ≡ ok)
    × (lookup 1 m'.balances ≡ some (pos 70))
    × (lookup 1 m'.locks ≡ none)
    × ((ltb_ℤ (negsuc 29) (pos 0) ≡ false) ⊎ (pos 0 ≤ℤ pos 70))
unfolding run apply_locked apply_put apply_get apply_prepare apply_commit apply_abort settle release
    is_committed vote check_locked overdraws balance new move_funds apply_transfer lookup contains
    insert erase wrap64 add64 sub64 ◌+ℤ◌ ◌-ℤ◌ command_eq
vote_guarantees_commit_example =
    vote_guarantees_commit shard debit (put_of 2 75 ∷ []) shard-Inv refl refl (refl, tt)

-- The shard after the debit of transaction 7 is committed, and after it is aborted.
abbrev after_commit : Machine
after_commit = run shard (debit ∷ commit_command 7 ∷ [])

after_commit-Inv : Inv after_commit
after_commit-Inv = run-Inv shard (debit ∷ commit_command 7 ∷ []) shard-Inv

committed_is_final_example :
    let m' = run after_commit (put_of 1 5 ∷ []) in
    (apply_locked m' (commit_command 7) ≡ (m', fail ok))
    × (apply_locked m' (abort_command 7) ≡ (m', fail ok))
    × (apply_locked m' (prepare_command 7 1 (pos 5)) ≡ (m', fail unknown_tx))
unfolding run apply_locked apply_put apply_get apply_prepare apply_commit apply_abort settle release
    is_committed vote check_locked overdraws balance new move_funds apply_transfer lookup contains
    insert erase wrap64 add64 sub64 ◌+ℤ◌ ◌-ℤ◌ command_eq
committed_is_final_example =
    committed_is_final after_commit (put_of 1 5 ∷ []) 7 1 (pos 5) after_commit-Inv refl

abbrev after_abort : Machine
after_abort = run shard (debit ∷ abort_command 7 ∷ [])

after_abort-Inv : Inv after_abort
after_abort-Inv = run-Inv shard (debit ∷ abort_command 7 ∷ []) shard-Inv

aborted_is_final_example :
    let m' = run after_abort (put_of 1 5 ∷ []) in
    (apply_locked m' (commit_command 7) ≡ (m', fail unknown_tx))
    × (apply_locked m' (prepare_command 7 1 (pos 5)) ≡ (m', fail unknown_tx))
unfolding run apply_locked apply_put apply_get apply_prepare apply_commit apply_abort settle release
    is_committed vote check_locked overdraws balance new move_funds apply_transfer lookup contains
    insert erase wrap64 add64 sub64 ◌+ℤ◌ ◌-ℤ◌ command_eq
aborted_is_final_example =
    aborted_is_final after_abort (put_of 1 5 ∷ []) 7 1 (pos 5) after_abort-Inv refl

-- A transfer of 40 from account 1 to account 2.
abbrev move_40 : Command
move_40 = record { op = transfer; key = 1; to = 2; amount = pos 40; tx = 0 }

move_40-NoOverflow : NoOverflow shard move_40
unfolding run apply_locked apply_put apply_get apply_prepare apply_commit apply_abort settle release
    is_committed vote check_locked overdraws balance new move_funds apply_transfer lookup contains
    insert erase wrap64 add64 sub64 ◌+ℤ◌ ◌-ℤ◌ command_eq
move_40-NoOverflow = record {
  current = (omega arith, omega arith);
  debit = (omega arith, omega arith);
  credit = (omega arith, omega arith);
  settlement = λ p e. absurd (none_prepared p e);
}
  where
    none_prepared : (p : Command) → lookup 0 shard.prepared ≡ some p → ⊥
    none_prepared p e = ground arith

transfer_ne_put : transfer ≢ put
transfer_ne_put e = ground arith

apply_locked-total_example :
    total (apply_locked shard move_40).0 ≡ total shard +ℤ booked shard move_40
apply_locked-total_example =
    apply_locked-total shard move_40 shard-Inv move_40-NoOverflow transfer_ne_put

abbrev pub prepared_shard : Machine
prepared_shard = run shard (debit ∷ [])

pub prepared_shard-Inv : Inv prepared_shard
prepared_shard-Inv = run-Inv shard (debit ∷ []) shard-Inv

-- Transaction 7 is undecided before its commit, and prepared after its vote.
pub shard_undecided : lookup 7 shard.decided ≡ none
unfolding run apply_locked apply_put apply_get apply_prepare apply_commit apply_abort settle release
    is_committed vote check_locked overdraws balance new move_funds apply_transfer lookup contains
    insert erase wrap64 add64 sub64 ◌+ℤ◌ ◌-ℤ◌ command_eq
shard_undecided = refl

pub shard_prepared : lookup 7 prepared_shard.prepared ≡ some debit
unfolding run apply_locked apply_put apply_get apply_prepare apply_commit apply_abort settle release
    is_committed vote check_locked overdraws balance new move_funds apply_transfer lookup contains
    insert erase wrap64 add64 sub64 ◌+ℤ◌ ◌-ℤ◌ command_eq
shard_prepared = refl
