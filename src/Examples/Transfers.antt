-- ===== src/Examples/Transfers.antt =====
-- internal/twopc: a transfer between two shards, where the reply to the first commit is lost.
use paxos_2pc_payments.Base.{
  ℕ, Option, ◌≡◌, ◌≢◌, refl, inl, none, some, [], ◌∷◌, pos, arith, length, lookup,
}
use paxos_2pc_payments.Ledger.{Op, Command, commit}
use paxos_2pc_payments.TwoPc.{
  Fate, delivered, reply_lost, dropped, Turn, World, legs_of, next_tx, transfer,
}
use paxos_2pc_payments.TwoPc.Facts.{Clear, Bound}
use paxos_2pc_payments.TwoPc.Atomic.{Agreed, transfer-Agreed}
use paxos_2pc_payments.TwoPc.Retry.{Settled, retries, retries-Settled}
use paxos_2pc_payments.Examples.Shards.{
  put_of, shard, shard-Inv, debit, prepared_shard, prepared_shard-Inv, shard_undecided,
  shard_prepared,
}

abbrev turn_of : Fate → Turn
turn_of fate = record { others = []; fate = fate }

abbrev world : World
world = record {
  shards = λ j. shard;
  turns =
      turn_of delivered
      ∷ record { others = (0, put_of 2 9) ∷ []; fate = delivered }
      ∷ turn_of reply_lost
      ∷ turn_of dropped
      ∷ [];
  seq = 6;
  pending = [];
}

none_ne_commit : (o : Option Op) → o ≡ none → o ≢ some commit
none_ne_commit o h e = ground arith

some_ne_none : (o : Option Command) → o ≡ some debit → o ≢ none
some_ne_none o h e = ground arith

shard-Clear : (j : ℕ) → Clear 7 (world.shards j)
shard-Clear j = (shard-Inv, none_ne_commit (lookup 7 shard.decided) shard_undecided)

transfer-Agreed_example :
    let (w', o) = transfer world 0 1 1 2 (pos 30) in
    Agreed (next_tx world) (legs_of 0 1 1 2 (pos 30)) world w' o
transfer-Agreed_example =
    transfer-Agreed world 0 1 1 2 (pos 30) (tt, ((refl, tt), (tt, (tt, tt)))) shard-Clear

-- A world whose shard has transaction 7 prepared, and its commit is still to be delivered; the
-- first attempt is lost, and the reply to the second.
abbrev waiting : World
waiting = record {
  shards = λ j. prepared_shard;
  turns = turn_of dropped ∷ turn_of reply_lost ∷ [];
  seq = 7;
  pending = (7, 0) ∷ [];
}

waiting-Bound : Bound 7 prepared_shard
waiting-Bound =
    (prepared_shard-Inv, inl (some_ne_none (lookup 7 prepared_shard.prepared) shard_prepared))

retries-Settled_example :
    let w₁ = retries 2 waiting in
    let w' = retries (length w₁.pending) (record w₁ { turns = [] }) in
    (w'.pending ≡ []) × Settled w'.shards waiting.pending
retries-Settled_example = retries-Settled waiting 2 (waiting-Bound, tt) ((tt, (tt, tt)), tt)
