-- ===== src/Paxos/Node/Replication.antt =====
-- internal/paxos/node.go: phase 2, heartbeats and catching up. `Propose`, `replicate`,
-- `broadcastCommit` and `catchUp` wait for replies, so each is split there.
use paxos_2pc_payments.Base.{
  ℕ, zero, suc, ◌+◌, ◌-◌, Bool, true, false, not, Option, none, some, List, [], ◌∷◌, ◌++◌, ltb, leb,
  ◌&&◌, if◌then◌else◌, Dict, lookup, insert, erase,
}
use paxos_2pc_payments.Paxos.Ballot.{Ballot, zero_ballot, less, ballot_eq}
use paxos_2pc_payments.Paxos.Log.{Log, Entry, Disk, accept, get, bytes_equal}
use paxos_2pc_payments.Paxos.Node.{
  is_leader, Kind, Message, blank, Node, Env, quorum, step_down, mark_committed,
}

-- The errors of the package.
pub data Error : Type 0 where
  err_not_leader err_no_quorum err_persist : Error

-- The start of `Propose`: a slot is handed out, and the caller waits for its result.
unfoldable pub propose_begin : Node → ℕ → Option (Node × ℕ)
propose_begin n waiter =
    if is_leader n.role
    then some (
      record n { next_slot = n.next_slot + 1; results = insert n.next_slot waiter n.results },
      n.next_slot,
    )
    else none

-- `Propose` after its slot was not chosen.
unfoldable pub propose_failed : Env → Node → ℕ → Node
propose_failed env n slot = step_down env zero_ballot (record n { results = erase slot n.results })

abbrev pub accept_request : Node → Ballot → ℕ → List ℕ → Message
accept_request n b slot command = record (blank Kind.accept n.id) {
  ballot = b;
  slot = slot;
  command = command;
}

-- The first half of `replicate`: the leader accepts its own entry.
unfoldable pub replicate_begin : Env → Node → ℕ → List ℕ → Node × Option Message
replicate_begin env n slot command =
    if is_leader n.role
    then (let e : Entry = record { slot = slot; ballot = n.ballot; command = command } in
        let (l, done) = accept n.log env.disk e in
        let n₁ = record n { log = l } in
        (n₁, if done then some (accept_request n₁ n.ballot slot command) else none))
    else (n, none)

-- The loop over the replies: the votes, or the ballot that superseded this leader.
pub data Count : Type 0 where
  votes : ℕ → Count
  superseded : Ballot → Count

unfoldable pub count : Ballot → ℕ → List Message → Count
count b v [] = votes v
count b v (r ∷ rs) =
    let rest = count b (if r.ok then v + 1 else v) rs in
    if not r.ok && less b r.ballot then superseded r.ballot else rest

-- The second half of `replicate`, for ballot `b`.
unfoldable pub replicate_end : Env → Node → Ballot → ℕ → List Message → Node × Option Error
replicate_end env n b slot replies = elim (count b 1 replies) [
  | superseded seen ↦ (step_down env seen n, some err_not_leader)
  | votes v ↦
      if ltb v (quorum n) then (n, some err_no_quorum) else (mark_committed n (slot ∷ []), none)
]

-- The heartbeat of `broadcastCommit`.
unfoldable pub heartbeat_request : Node → Message
heartbeat_request n = record (blank Kind.commit n.id) {
  ballot = n.ballot;
  commit_index = n.applied_index;
}

-- Check-quorum: what `broadcastCommit` does with the number of acknowledgements.
unfoldable pub check_quorum : Env → Node → ℕ → Node
check_quorum env n acks =
    if leb (quorum n) acks
    then record n { last_quorum = env.now }
    else (if is_leader n.role && ltb n.cfg.election_timeout (env.now - n.last_quorum)
        then step_down env zero_ballot n
        else n)

-- `broadcastCommit`, on the replies to a heartbeat under ballot `b`.
unfoldable pub heartbeat_end : Env → Node → Ballot → List Message → Node
heartbeat_end env n b replies = elim (count b 1 replies) [
  | superseded seen ↦ step_down env seen n
  | votes acks ↦ check_quorum env n acks
]

-- The map `chosen` of `catchUp`: a later entry for a slot replaces an earlier one.
unfoldable pub chosen : Dict Entry → List Entry → Dict Entry
chosen d [] = d
chosen d (e ∷ es) = chosen (insert e.slot e d) es

-- The local entry is missing or is another one.
abbrev pub differs : Option Entry → Entry → Bool
differs none e = true
differs (some have) e =
    if ballot_eq have.ballot e.ballot then not (bytes_equal have.command e.command) else true

-- Storing the leader's entry; `none` where the disk fails.
abbrev pub adopt : Disk → Log → ℕ → Entry → Log × Bool
adopt disk l slot e = if differs (get l slot) e then accept l disk e else (l, true)

-- The loop of `catchUp` over the slots that are left: the log, and the slots adopted.
unfoldable pub adopt_all : Disk → Dict Entry → ℕ → ℕ → Log → List ℕ → Log × List ℕ
adopt_all disk d zero slot l slots = (l, slots)
adopt_all disk d (suc k) slot l slots = elim (lookup slot d) [
  | none ↦ (l, slots)
  | some e ↦
      let next = adopt_all disk d k (slot + 1) (adopt disk l slot e).0 (slots ++ slot ∷ []) in
      if (adopt disk l slot e).1 then next else ((adopt disk l slot e).0, slots)
]

-- `catchUp` of slots `first` to `last`, on the reply, or without one.
unfoldable pub catch_up : Env → Node → ℕ → ℕ → Option Message → Node
catch_up env n first last reply =
    let n₁ = record n { catching_up = false } in
    elim reply [
      | none ↦ n₁
      | some r ↦
          if not r.ok
          then n₁
          else (let (l, slots) =
                adopt_all env.disk (chosen [] r.entries) (last + 1 - first) first n.log [] in
              mark_committed (record n₁ { log = l }) slots)
    ]
