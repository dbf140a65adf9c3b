-- ===== src/Ledger/Invariant.antt =====
-- internal/ledger/ledger.go: what holds of a machine between two commands.
use paxos_2pc_payments.Base.{
  ℕ, ◌≡◌, ◌≢◌, ◌≤◌, ◌<◌, ℤ, true, false, none, some, arith, length, lookup, insert, erase, contains,
  lookup-insert, lookup-erase, NodupKeys, insert-NodupKeys,
}
use paxos_2pc_payments.Ledger.{Op, Command, Machine, new, balance, overdraws}

pub record Inv (m : Machine) : Type 0 where
  -- A lock is held by a prepared transaction on that account.
  pub owned : (k t : ℕ) → lookup k m.locks ≡ some t → lookup t m.prepared ≢ none
  pub owner :
      (k t : ℕ) (c : Command) → lookup k m.locks ≡ some t → lookup t m.prepared ≡ some c → c.key ≡ k
  -- A prepared transaction holds the lock of its account, which exists.
  pub held : (t : ℕ) (c : Command) → lookup t m.prepared ≡ some c → lookup c.key m.locks ≡ some t
  pub known :
      (t : ℕ) (c : Command) → lookup t m.prepared ≡ some c → contains c.key m.balances ≡ true
  -- A prepared transaction is not decided yet.
  pub undecided : (t : ℕ) (c : Command) → lookup t m.prepared ≡ some c → lookup t m.decided ≡ none
  -- The balance covers what a prepared transaction debits.
  pub covered :
      (t : ℕ) (c : Command)
      → lookup t m.prepared ≡ some c
      → overdraws (balance m c.key) c.amount ≡ false
  -- The bound on the number of accounts.
  pub few : 0 < m.max_keys → length m.balances ≤ m.max_keys
  pub nodup : NodupKeys m.balances

-- An empty machine satisfies the invariant.
pub new-Inv : (n : ℕ) → Inv (new n)
unfolding new lookup
new-Inv n = record {
  owned = λ k t h. absurd (ground arith);
  owner = λ k t c h. ground arith;
  held = λ t c h. ground arith;
  known = λ t c h. ground arith;
  undecided = λ t c h. ground arith;
  covered = λ t c h. ground arith;
  few = λ h. omega arith;
  nodup = tt;
}

module _ {m : Machine} (inv : Inv m) where
  open inv use {owned, owner, held, known, undecided, covered, few, nodup}

  -- A write to an account that is not locked.
  pub write-Inv :
      (k : ℕ) (v : ℤ)
      → lookup k m.locks ≡ none
      → (0 < m.max_keys → length (insert k v m.balances) ≤ m.max_keys)
      → Inv (record m { balances = insert k v m.balances })
  unfolding contains balance
  write-Inv k v free small = record {
    owned = owned;
    owner = owner;
    held = held;
    known = λ t p h. ground (arith, held t p, known t p, lookup-insert p.key k v m.balances);
    undecided = undecided;
    covered = λ t p h. ground (arith, held t p, covered t p, lookup-insert p.key k v m.balances);
    few = small;
    nodup = insert-NodupKeys k v m.balances nodup;
  }

  -- The lock and the record of a new vote.
  pub hold-Inv :
      (c : Command)
      → lookup c.key m.locks ≡ none
      → lookup c.tx m.prepared ≡ none
      → lookup c.tx m.decided ≡ none
      → contains c.key m.balances ≡ true
      → overdraws (balance m c.key) c.amount ≡ false
      → Inv (record m { locks = insert c.key c.tx m.locks; prepared = insert c.tx c m.prepared })
  unfolding balance
  hold-Inv c free fresh open_tx there cover = record {
    owned = λ k t h.
        ground
          (arith, owned k t, lookup-insert k c.key c.tx m.locks, lookup-insert t c.tx c m.prepared);
    owner = λ k t p h q. ground (
      arith,
      owned k t,
      owner k t p,
      held t p,
      lookup-insert k c.key c.tx m.locks,
      lookup-insert t c.tx c m.prepared,
    );
    held = λ t p h. ground (
      arith,
      held t p,
      lookup-insert p.key c.key c.tx m.locks,
      lookup-insert t c.tx c m.prepared,
    );
    known = λ t p h. ground (arith, known t p, lookup-insert t c.tx c m.prepared);
    undecided = λ t p h. ground (arith, undecided t p, lookup-insert t c.tx c m.prepared);
    covered = λ t p h. ground (arith, covered t p, lookup-insert t c.tx c m.prepared);
    few = few;
    nodup = nodup;
  }

  -- The end of a prepared transaction: its lock and its record go.
  pub drop-Inv :
      (t : ℕ) (p : Command)
      → lookup t m.prepared ≡ some p
      → Inv (record m { locks = erase p.key m.locks; prepared = erase t m.prepared })
  unfolding balance
  drop-Inv t p e = record {
    owned = λ k s h. ground (
      arith,
      owned k s,
      owner k s p,
      held t p,
      lookup-erase k p.key m.locks,
      lookup-erase s t m.prepared,
    );
    owner = λ k s q h g.
        ground (arith, owner k s q, lookup-erase k p.key m.locks, lookup-erase s t m.prepared);
    held = λ s q h.
        ground (
          arith,
          held s q,
          held t p,
          lookup-erase q.key p.key m.locks,
          lookup-erase s t m.prepared,
        );
    known = λ s q h. ground (arith, known s q, lookup-erase s t m.prepared);
    undecided = λ s q h. ground (arith, undecided s q, lookup-erase s t m.prepared);
    covered = λ s q h. ground (arith, covered s q, lookup-erase s t m.prepared);
    few = few;
    nodup = nodup;
  }

  -- A decision on a transaction that is not prepared.
  pub decide-Inv :
      (t : ℕ) (op : Op)
      → lookup t m.prepared ≡ none
      → Inv (record m { decided = insert t op m.decided })
  unfolding balance
  decide-Inv t op gone = record {
    owned = owned;
    owner = owner;
    held = held;
    known = known;
    undecided = λ s q h. ground (arith, undecided s q, lookup-insert s t op m.decided);
    covered = covered;
    few = few;
    nodup = nodup;
  }
