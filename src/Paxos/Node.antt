-- ===== src/Paxos/Node.antt =====
-- internal/paxos/node.go and the messages of paxos.go: one replica. Each function is a step that
-- the code makes without waiting for another replica; what the clock, the random draw and the
-- disk give it is an argument. A blocking call is split where it waits: its second half takes the
-- replies. Times are numbers, in the unit of the configuration.
pub mod Handlers
pub mod Election
pub mod Replication
pub mod Apply
use paxos_2pc_payments.Base.{
  ℕ, ◌+◌, ◌%◌, Bool, true, false, not, none, some, List, [], ◌∷◌, ltb, ◌==◌, if◌then◌else◌, Dict,
  lookup, insert, length, ◌&&◌,
}
use paxos_2pc_payments.Paxos.Ballot.{Ballot, zero_ballot, less, is_zero, majority}
use paxos_2pc_payments.Paxos.Log.{Log, Entry, Disk, promise}

-- `Role`
pub data Role : Type 0 where
  follower candidate leader : Role

abbrev pub is_leader : Role → Bool
is_leader leader = true
is_leader _ = false

abbrev pub is_candidate : Role → Bool
is_candidate candidate = true
is_candidate _ = false

-- `Config`; a duration that is not positive is 0.
pub record Config : Type 0 where
  pub heartbeat_interval : ℕ
  pub election_timeout : ℕ
  pub round_timeout : ℕ

-- `withDefaults`, in milliseconds.
unfoldable pub with_defaults : Config → Config
with_defaults c = record {
  heartbeat_interval = if c.heartbeat_interval == 0 then 150 else c.heartbeat_interval;
  election_timeout = if c.election_timeout == 0 then 1000 else c.election_timeout;
  round_timeout = if c.round_timeout == 0 then 500 else c.round_timeout;
}

-- `MessageKind`; a message may carry any other string.
pub data Kind : Type 0 where
  prepare promise_reply accept accepted commit catch_up_kind ping : Kind
  unknown_kind : ℕ → Kind

-- `Message`
pub record Message : Type 0 where
  pub kind : Kind
  pub sender : ℕ
  pub ballot : Ballot
  pub ok : Bool
  pub slot : ℕ
  pub command : List ℕ
  pub entries : List Entry
  pub commit_index : ℕ

-- A message with the fields that a struct literal leaves out.
abbrev pub blank : Kind → ℕ → Message
blank k sender = record {
  kind = k;
  sender = sender;
  ballot = zero_ballot;
  ok = false;
  slot = 0;
  command = [];
  entries = [];
  commit_index = 0;
}

-- `Node`, without its channels. `results` holds a number for each waiting caller.
pub record Node : Type 0 where
  pub id : ℕ
  pub peers : List ℕ
  pub cfg : Config
  pub log : Log
  pub role : Role
  pub ballot : Ballot
  pub leader_hint : ℕ
  pub election_at : ℕ
  pub next_slot : ℕ
  pub last_quorum : ℕ
  pub catching_up : Bool
  pub committed : Dict Bool
  pub applied_index : ℕ
  pub results : Dict ℕ

-- What a step meets: the time, a random number, and the disk.
pub record Env : Type 0 where
  pub now : ℕ
  pub draw : ℕ
  pub promise_written : Bool
  pub disk : Disk

-- `resetElectionLocked`
unfoldable pub reset_election : Env → Node → Node
reset_election env n =
    let base = n.cfg.election_timeout in
    record n { election_at = env.now + (base + env.draw % base) }

-- `NewNode`
unfoldable pub new_node : Env → ℕ → List ℕ → Log → Config → Node
unfolding reset_election with_defaults
new_node env id peers log cfg = reset_election env (record {
  id = id;
  peers = peers;
  cfg = with_defaults cfg;
  log = log;
  role = follower;
  ballot = zero_ballot;
  leader_hint = 0;
  election_at = 0;
  next_slot = 0;
  last_quorum = 0;
  catching_up = false;
  committed = [];
  applied_index = 0;
  results = [];
})

-- `quorum`
unfoldable pub quorum : Node → ℕ
quorum n = majority (length n.peers)

-- `n.committed[s]`
abbrev pub is_committed : Node → ℕ → Bool
is_committed n s = elim (lookup s n.committed) [ none ↦ false | some b ↦ b ]

-- `markCommitted`
unfoldable pub mark_committed : Node → List ℕ → Node
mark_committed n [] = n
mark_committed n (s ∷ ss) = mark_committed (record n { committed = insert s true n.committed }) ss

-- A promise whose failure is ignored.
abbrev pub try_promise : Env → Node → Ballot → Node
try_promise env n b = record n { log = (promise n.log env.promise_written b).0 }

-- `stepDown`
unfoldable pub step_down : Env → Ballot → Node → Node
unfolding reset_election
step_down env seen n =
    let n₁ = reset_election env (record n { role = follower }) in
    if not (is_zero seen) && less n₁.log.promised seen then try_promise env n₁ seen else n₁

-- What a tick of `runTimers` does.
pub data Tick : Type 0 where
  heartbeat campaigning idle : Tick

unfoldable pub tick : Env → Node → Tick
tick env n =
    if is_leader n.role
    then heartbeat
    else (if ltb n.election_at env.now then campaigning else idle)
