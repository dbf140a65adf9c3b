-- ===== src/Paxos/Promises/Delayed.antt =====
-- internal/paxos/node.go: `handleCommit` follows a leader whose ballot it does not record, and what
-- an accept of an older leader does after that.
use paxos_2pc_payments.Base.{
  ℕ, zero, suc, ◌+◌, ◌-◌, ◌≡◌, refl, true, false, Option, none, some, List, [], ◌∷◌, ◌++◌, arith,
  Dict, lookup, Option-cases, lookup-insert, inl, inr,
}
use paxos_2pc_payments.Paxos.Ballot.{Ballot, less, ◌≼◌, less→≼}
use paxos_2pc_payments.Paxos.Log.{
  Log, Entry, Disk, synced, cut_short, sync_failed, accept, get, promise, remember, store,
}
use paxos_2pc_payments.Paxos.Node.{Node, Env, Message, reset_election}
use paxos_2pc_payments.Paxos.Node.Handlers.{
  handle_commit, handle_accept, store_accepted, entry_of, follow,
}
use paxos_2pc_payments.Paxos.Node.Replication.{catch_up, adopt_all, adopt, chosen}
use paxos_2pc_payments.Paxos.Promises.Replicated.{catch_up-promised, mark_committed-log}

accept-durable : (l : Log) (disk : Disk) (e : Entry) → (accept l disk e).0.durable ≡ l.durable
unfolding accept remember store
accept-durable l synced e = ground arith
accept-durable l (cut_short w) e = ground arith
accept-durable l sync_failed e = ground arith

adopt_all-durable :
    (disk : Disk) (d : Dict Entry) (k slot : ℕ) (l : Log) (slots : List ℕ)
    → (adopt_all disk d k slot l slots).0.durable ≡ l.durable
unfolding adopt_all
adopt_all-durable disk d zero slot l slots = refl
adopt_all-durable disk d (suc k) slot l slots = elim (Option-cases (lookup slot d)) [
  | inl gone ↦ ground arith
  | inr (e, there) ↦ ground (
    arith,
    accept-durable l disk e,
    adopt_all-durable disk d k (slot + 1) (adopt disk l slot e).0 (slots ++ slot ∷ []),
  )
]

catch_up-durable :
    (env : Env) (n : Node) (first last : ℕ) (r : Option Message)
    → (catch_up env n first last r).log.durable ≡ n.log.durable
unfolding catch_up
catch_up-durable env n first last none = refl
catch_up-durable env n first last (some r) = ground (
  arith,
  adopt_all-durable env.disk (chosen [] r.entries) (last + 1 - first) first n.log [],
  mark_committed-log (record n { log = adopted.0; catching_up = false }) adopted.1,
)
  where
    adopted : Log × List ℕ
    adopted = adopt_all env.disk (chosen [] r.entries) (last + 1 - first) first n.log []

handle_commit-log : (env : Env) (n : Node) (c : Message) → (handle_commit env n c).0.log ≡ n.log
unfolding handle_commit follow reset_election
handle_commit-log env n c = ground arith

handle_commit-ok :
    (env : Env) (n : Node) (c : Message)
    → less c.ballot n.log.promised ≡ false
    → (handle_commit env n c).1.ok ≡ true
unfolding handle_commit
handle_commit-ok env n c h = ground arith

≼_less_trans : (a b c : Ballot) → a ≼ b → less b c ≡ true → less a c ≡ true
unfolding less
≼_less_trans a b c h k = ground arith

-- In memory, an accept that is not below the promise is acknowledged, and its slot holds its entry.
accept_in_memory :
    (env : Env) (n : Node) (a : Message)
    → n.log.durable ≡ false
    → n.log.promised ≼ a.ballot
    → ((handle_accept env n a).1.ok ≡ true)
      × (get (handle_accept env n a).0.log a.slot ≡ some (entry_of a))
unfolding handle_accept store_accepted follow reset_election promise accept remember store get
accept_in_memory env n a mem above =
    (ground arith, ground (arith, lookup-insert a.slot a.slot (entry_of a) n.log.entries))

-- Following a leader does not shut out an older one. A replica in memory acknowledges a commit of
-- ballot `c`, then catches up any slots from any reply. An accept whose ballot is below `c`, and
-- not below the promise that the replica had at first, is acknowledged after that, and its entry
-- replaces what the slot holds, an entry that was caught up as chosen included.
pub delayed_accept_overwrites :
    (env : Env) (n : Node) (c a : Message) (first last : ℕ) (r : Option Message)
    → n.log.durable ≡ false
    → n.log.promised ≼ a.ballot
    → less a.ballot c.ballot ≡ true
    → let n' = catch_up env (handle_commit env n c).0 first last r in
      ((handle_commit env n c).1.ok ≡ true)
      × ((handle_accept env n' a).1.ok ≡ true)
      × (get (handle_accept env n' a).0.log a.slot ≡ some (entry_of a))
delayed_accept_overwrites env n c a first last r mem above older =
    let accepted = accept_in_memory env n' a mem' above' in
    (handle_commit-ok env n c newer, accepted.0, accepted.1)
  where
    below : less n.log.promised c.ballot ≡ true
    below = ≼_less_trans n.log.promised a.ballot c.ballot above older

    newer : less c.ballot n.log.promised ≡ false
    newer = less→≼ n.log.promised c.ballot below

    n' : Node
    n' = catch_up env (handle_commit env n c).0 first last r

    mem' : n'.log.durable ≡ false
    mem' = grind (
      arith,
      catch_up-durable env (handle_commit env n c).0 first last r,
      handle_commit-log env n c,
    )

    above' : n'.log.promised ≼ a.ballot
    above' = grind (
      arith,
      catch_up-promised env (handle_commit env n c).0 first last r,
      handle_commit-log env n c,
    )
