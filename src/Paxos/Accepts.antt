-- ===== src/Paxos/Accepts.antt =====
-- internal/paxos/node.go: what the acceptor's answers to `prepare` and `accept` commit it to.
use paxos_2pc_payments.Base.{
  ℕ, ◌≡◌, ◌⊎◌, inl, inr, Bool, true, false, some, arith, if◌then◌else◌, insert, lookup-insert,
  Bool-cases, ◌==◌,
}
use paxos_2pc_payments.Paxos.Ballot.{Ballot, less, ◌≼◌, ≼_antisym}
use paxos_2pc_payments.Paxos.Log.{
  Entry, Log, promise, get, accept, remember, store, Disk, synced, cut_short, sync_failed,
}
use paxos_2pc_payments.Paxos.Node.{Node, Env, Message, reset_election}
use paxos_2pc_payments.Paxos.Node.Handlers.{
  handle_prepare, handle_accept, store_accepted, entry_of, follow,
}

-- The log after `Promise` succeeded.
promise-done :
    (l : Log) (w : Bool) (b : Ballot)
    → (promise l w b).1 ≡ true
    → ((promise l w b).0.promised ≡ b) × ((promise l w b).0.entries ≡ l.entries)
unfolding promise
promise-done l w b h = ground arith

promise-failed :
    (l : Log) (w : Bool) (b : Ballot) → (promise l w b).1 ≡ false → (promise l w b).0 ≡ l
unfolding promise
promise-failed l w b h = ground arith

-- Only a promise file that cannot be written stops `Promise`.
promise-refused :
    (l : Log) (w : Bool) (b : Ballot) → (promise l w b).1 ≡ false → (l.durable ≡ true) × (w ≡ false)
unfolding promise
promise-refused l w b h = ground arith

-- A prepare is answered with OK only if its ballot is not below the promise, and that ballot is then
-- the promise. It is refused only if its ballot is below the promise, or if the log is on disk and
-- the file of the promise could not be written; the promise then stays. No answer changes an
-- accepted entry.
pub handle_prepare_lem :
    (env : Env) (n : Node) (msg : Message)
    → ((handle_prepare env n msg).0.log.entries ≡ n.log.entries)
      × ((((handle_prepare env n msg).1.ok ≡ true)
            × (n.log.promised ≼ msg.ballot)
            × ((handle_prepare env n msg).0.log.promised ≡ msg.ballot))
          ⊎ (((handle_prepare env n msg).1.ok ≡ false)
              × ((less msg.ballot n.log.promised ≡ true)
                  ⊎ ((n.log.durable ≡ true) × (env.promise_written ≡ false)))
              × ((handle_prepare env n msg).0.log.promised ≡ n.log.promised)))
unfolding handle_prepare follow reset_election
handle_prepare_lem env n msg = elim (Bool-cases (less msg.ballot n.log.promised)) [
  | inl below ↦ (ground arith, inr (ground arith, inl below, ground arith))
  | inr above ↦ elim (Bool-cases (promise n.log env.promise_written msg.ballot).1) [
    | inl done ↦
        let p = promise-done n.log env.promise_written msg.ballot done in
        (ground arith, inl (ground arith, above, ground arith))
    | inr failed ↦
        let p = promise-failed n.log env.promise_written msg.ballot failed in
        let why = promise-refused n.log env.promise_written msg.ballot failed in
        (grind arith, inr (ground arith, inr why, grind arith))
  ]
]

pub accept-done :
    (l : Log) (disk : Disk) (e : Entry)
    → (accept l disk e).1 ≡ true
    → ((accept l disk e).0.entries ≡ insert e.slot e l.entries)
      × ((accept l disk e).0.promised ≡ l.promised)
unfolding accept remember store
accept-done l synced e h = ground arith
accept-done l (cut_short w) e h = ground arith
accept-done l sync_failed e h = ground arith

pub accept-failed :
    (l : Log) (disk : Disk) (e : Entry)
    → (accept l disk e).1 ≡ false
    → ((accept l disk e).0.entries ≡ l.entries) × ((accept l disk e).0.promised ≡ l.promised)
unfolding accept remember store
accept-failed l synced e h = ground arith
accept-failed l (cut_short w) e h = ground arith
accept-failed l sync_failed e h = ground arith

-- The entries and the promise after an accept that is acknowledged, and after one that is not.
abbrev Stored : Log → Message → Node × Message → Type 0
Stored l msg (n, r) =
    ((r.ok ≡ true)
      × (n.log.promised ≡ l.promised)
      × (n.log.entries ≡ insert msg.slot (entry_of msg) l.entries))
    ⊎ ((r.ok ≡ false) × (n.log.entries ≡ l.entries))

store_accepted-Stored :
    (env : Env) (n : Node) (msg : Message) → Stored n.log msg (store_accepted env n msg)
unfolding store_accepted follow reset_election
store_accepted-Stored env n msg = elim (Bool-cases (accept n.log env.disk (entry_of msg)).1) [
  | inl done ↦
      let p = accept-done n.log env.disk (entry_of msg) done in
      inl (ground arith, ground arith, ground arith)
  | inr failed ↦
      let p = accept-failed n.log env.disk (entry_of msg) failed in inr (ground arith, ground arith)
]

-- An accept is acknowledged only if its ballot is not below the promise; the ballot is then the
-- promise, and the slot holds the entry of the message and no other slot is changed. An accept
-- that is refused changes no entry.
pub handle_accept_lem :
    (env : Env) (n : Node) (msg : Message) (s : ℕ)
    → (((handle_accept env n msg).1.ok ≡ true)
        × (n.log.promised ≼ msg.ballot)
        × ((handle_accept env n msg).0.log.promised ≡ msg.ballot)
        × (get (handle_accept env n msg).0.log s
            ≡ (if msg.slot == s then some (entry_of msg) else get n.log s)))
      ⊎ (((handle_accept env n msg).1.ok ≡ false)
          × (get (handle_accept env n msg).0.log s ≡ get n.log s))
unfolding handle_accept get
handle_accept_lem env n msg s = elim (Bool-cases (less msg.ballot n.log.promised)) [
  | inl below ↦ inr (ground arith, ground arith)
  | inr above ↦ elim (Bool-cases (less n.log.promised msg.ballot)) [
    | inr same ↦ elim (store_accepted-Stored env n msg) [
      | inl (ok, p, e) ↦ inl (
        ground arith,
        above,
        grind (arith, ≼_antisym n.log.promised msg.ballot),
        grind (arith, lookup-insert),
      )
      | inr (ok, e) ↦ inr (ground arith, grind arith)
    ]
    | inl newer ↦ elim (Bool-cases (promise n.log env.promise_written msg.ballot).1) [
      | inr failed ↦
          let p = promise-failed n.log env.promise_written msg.ballot failed in
          inr (ground arith, grind arith)
      | inl done ↦
          let p = promise-done n.log env.promise_written msg.ballot done in
          elim (store_accepted-Stored env
            (record n { log = (promise n.log env.promise_written msg.ballot).0 }) msg) [
              | inl (ok, q, e) ↦
                  inl (ground arith, above, grind arith, grind (arith, lookup-insert))
              | inr (ok, e) ↦ inr (ground arith, grind arith)
            ]
    ]
  ]
]
