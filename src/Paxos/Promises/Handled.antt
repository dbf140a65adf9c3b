-- ===== src/Paxos/Promises/Handled.antt =====
-- internal/paxos/node.go: no message handler lowers the promise.
use paxos_2pc_payments.Base.{◌≡◌, Bool, arith}
use paxos_2pc_payments.Paxos.Ballot.{Ballot, ◌≼◌, less_irrefl, less→≼}
use paxos_2pc_payments.Paxos.Log.{
  Log, Entry, Disk, synced, cut_short, sync_failed, promise, accept, remember,
}
use paxos_2pc_payments.Paxos.Node.{Node, Env, Message, Kind, reset_election}
use paxos_2pc_payments.Paxos.Node.Handlers.{
  handle, handle_prepare, handle_accept, handle_commit, handle_ping, store_accepted, dispatch,
}

pub accept-promised :
    (l : Log) (disk : Disk) (e : Entry) → (accept l disk e).0.promised ≡ l.promised
unfolding accept remember
accept-promised l synced e = ground arith
accept-promised l (cut_short w) e = ground arith
accept-promised l sync_failed e = ground arith

-- A promise of a ballot that is not lower.
pub promise-≼ :
    (l : Log) (w : Bool) (b : Ballot) → l.promised ≼ b → l.promised ≼ (promise l w b).0.promised
unfolding promise
promise-≼ l w b h = ground (arith, less_irrefl l.promised)

pub prepare-≼ :
    (env : Env) (n : Node) (msg : Message)
    → n.log.promised ≼ (handle_prepare env n msg).0.log.promised
unfolding handle_prepare
prepare-≼ env n msg =
    ground (arith, less_irrefl n.log.promised, promise-≼ n.log env.promise_written msg.ballot)

pub store_accepted-promised :
    (env : Env) (n : Node) (msg : Message)
    → (store_accepted env n msg).0.log.promised ≡ n.log.promised
unfolding store_accepted
store_accepted-promised env n msg = ground (
  arith,
  accept-promised n.log env.disk
      (record { slot = msg.slot; ballot = msg.ballot; command = msg.command }),
)

pub accept-≼ :
    (env : Env) (n : Node) (msg : Message)
    → n.log.promised ≼ (handle_accept env n msg).0.log.promised
unfolding handle_accept
accept-≼ env n msg = ground (
  arith,
  less_irrefl n.log.promised,
  promise-≼ n.log env.promise_written msg.ballot,
  store_accepted-promised env n msg,
  less→≼ n.log.promised msg.ballot,
  store_accepted-promised env (record n { log = (promise n.log env.promise_written msg.ballot).0 })
      msg,
)

pub commit-promised :
    (env : Env) (n : Node) (msg : Message)
    → (handle_commit env n msg).0.log.promised ≡ n.log.promised
unfolding handle_commit
commit-promised env n msg = ground arith

pub handle-≼ :
    (env : Env) (n : Node) (msg : Message) → n.log.promised ≼ (handle env n msg).0.log.promised
unfolding handle handle_ping reset_election
handle-≼ env n msg = by_kind msg.kind
  where
    by_kind : (k : Kind) → n.log.promised ≼ (dispatch k env n msg).0.log.promised
    by_kind Kind.prepare = prepare-≼ env n msg
    by_kind Kind.accept = accept-≼ env n msg
    by_kind Kind.commit = rw (commit-promised env n msg) (less_irrefl n.log.promised)
    by_kind Kind.ping = ground (arith, less_irrefl n.log.promised)
    by_kind _ = less_irrefl n.log.promised
