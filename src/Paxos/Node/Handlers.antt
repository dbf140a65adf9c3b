-- ===== src/Paxos/Node/Handlers.antt =====
-- internal/paxos/node.go: `Handle` and the handlers of the protocol messages.
use paxos_2pc_payments.Base.{ℕ, ◌+◌, true, false, not, Option, none, some, ltb, if◌then◌else◌, ◌&&◌}
use paxos_2pc_payments.Paxos.Ballot.{Ballot, less}
use paxos_2pc_payments.Paxos.Log.{Log, Entry, promise, entries_from}
use paxos_2pc_payments.Paxos.Log as Log
use paxos_2pc_payments.Paxos.Node.{
  follower, is_leader, Kind, Message, blank, Node, Env, reset_election,
}

-- A refusal with the promised ballot.
abbrev pub refuse : Message → Ballot → Message
refuse reply b = record reply { ok = false; ballot = b }

-- The sender is taken for the leader.
unfoldable pub follow : Env → Node → ℕ → Node
unfolding reset_election
follow env n sender = reset_election env (record n { role = follower; leader_hint = sender })

-- `handlePrepare`
unfoldable pub handle_prepare : Env → Node → Message → Node × Message
unfolding follow
handle_prepare env n msg =
    let reply = blank Kind.promise_reply n.id in
    let promised = n.log.promised in
    if less msg.ballot promised
    then (n, refuse reply promised)
    else (let (l, done) = promise n.log env.promise_written msg.ballot in
        if not done then (record n { log = l }, refuse reply promised) else (
          follow env (record n { log = l }) msg.sender,
          record reply { ok = true; ballot = msg.ballot; entries = entries_from l msg.slot },
        ))

abbrev pub entry_of : Message → Entry
entry_of msg = record { slot = msg.slot; ballot = msg.ballot; command = msg.command }

-- The end of `handleAccept`, once the ballot is promised.
unfoldable pub store_accepted : Env → Node → Message → Node × Message
unfolding follow
store_accepted env n msg =
    let reply = record (blank Kind.accepted n.id) { slot = msg.slot } in
    let (l, done) = Log.accept n.log env.disk (entry_of msg) in
    if not done then (record n { log = l }, refuse reply msg.ballot) else (
      follow env (record n { log = l }) msg.sender,
      record reply { ok = true; ballot = msg.ballot },
    )

-- `handleAccept`
unfoldable pub handle_accept : Env → Node → Message → Node × Message
unfolding store_accepted
handle_accept env n msg =
    let reply = record (blank Kind.accepted n.id) { slot = msg.slot } in
    let promised = n.log.promised in
    if less msg.ballot promised
    then (n, refuse reply promised)
    else (if less promised msg.ballot
        then (let (l, done) = promise n.log env.promise_written msg.ballot in
            if not done
            then (record n { log = l }, refuse reply promised)
            else store_accepted env (record n { log = l }) msg)
        else store_accepted env n msg)

-- A fetch that `handleCommit` starts in the background: from whom, and the slots.
pub record Fetch : Type 0 where
  pub source : ℕ
  pub first : ℕ
  pub last : ℕ

-- `handleCommit`
unfoldable pub handle_commit : Env → Node → Message → Node × Message × Option Fetch
unfolding follow
handle_commit env n msg =
    let reply = blank Kind.commit n.id in
    let promised = n.log.promised in
    if less msg.ballot promised
    then (n, refuse reply promised, none)
    else (let fetch = ltb n.applied_index msg.commit_index && not n.catching_up in
        let n₁ = follow env n msg.sender in
        let answer = record reply { ok = true; ballot = msg.ballot } in
        if fetch
        then (
          record n₁ { catching_up = true },
          answer,
          some (record {
            source = msg.sender;
            first = n.applied_index + 1;
            last = msg.commit_index;
          }),
        )
        else (n₁, answer, none))

-- `handlePing`
unfoldable pub handle_ping : Env → Node → Node × Message
handle_ping env n = (
  if is_leader n.role then n else reset_election env n,
  record (blank Kind.ping n.id) { ok = true; ballot = n.log.promised },
)

-- `handleCatchUp`
unfoldable pub handle_catch_up : Node → Message → Message
handle_catch_up n msg = record (blank Kind.catch_up_kind n.id) {
  ok = true;
  entries = entries_from n.log msg.slot;
}

abbrev pub no_fetch : Node × Message → Node × Message × Option Fetch
no_fetch (n, m) = (n, m, none)

abbrev pub dispatch : Kind → Env → Node → Message → Node × Message × Option Fetch
dispatch Kind.prepare env n msg = no_fetch (handle_prepare env n msg)
dispatch Kind.accept env n msg = no_fetch (handle_accept env n msg)
dispatch Kind.commit env n msg = handle_commit env n msg
dispatch Kind.catch_up_kind env n msg = (n, handle_catch_up n msg, none)
dispatch Kind.ping env n msg = no_fetch (handle_ping env n)
dispatch k env n msg = (n, blank k n.id, none)

-- `Handle`
unfoldable pub handle : Env → Node → Message → Node × Message × Option Fetch
handle env n msg = dispatch msg.kind env n msg
