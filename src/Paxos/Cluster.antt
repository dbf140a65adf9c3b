-- ===== src/Paxos/Cluster.antt =====
-- internal/paxos/node.go: a group of replicas. The state of the group has every replica and all
-- that is under way: the requests and heartbeats sent, the answers given, the fetches begun and
-- served, the running campaigns, and the slots that a leader has still to replicate. A transition is a step of one replica by the code of Node.
pub mod Roles
pub mod Logs
pub mod Views
pub mod Stores
pub mod Adopts
pub mod Marks
pub mod Kept
pub mod Answers
pub mod Elections
pub mod Moved
pub mod Acceptors
pub mod Learners
pub mod Proposers
pub mod Replicates
pub mod Winners
pub mod Applied
pub mod Announced
pub mod Agreement
use paxos_2pc_payments.Base.{
  ℕ, ◌+◌, ◌<◌, ◌≡◌, ◌≢◌, true, Option, none, some, List, [], ◌∷◌, map, ◌==◌, if◌then◌else◌, In,
  Distinct, int64_mod,
}
use paxos_2pc_payments.Paxos.Ballot.{Ballot, ◌≼◌}
use paxos_2pc_payments.Paxos.Log.{Entry, get}
use paxos_2pc_payments.Paxos.Node.{Kind, blank, Node, Env, Message, is_committed}
use paxos_2pc_payments.Paxos.Node.Handlers.{
  Fetch, handle_prepare, handle_accept, handle_commit, handle_ping, handle_catch_up, entry_of,
}
use paxos_2pc_payments.Paxos.Node.Election.{campaign_begin, campaign_prepare, campaign_end}
use paxos_2pc_payments.Paxos.Node.Replication.{
  propose_begin, propose_failed, replicate_begin, replicate_end, heartbeat_request, heartbeat_end,
  catch_up,
}
use paxos_2pc_payments.Paxos.Node.Apply.{applicable, advance}
use paxos_2pc_payments.Paxos.Spec.{Spec, Report, at}

-- A fetch that was answered, and who asked.
pub record Served : Type 0 where
  pub requester : ℕ
  pub fetch : Fetch
  pub reply : Message

pub record Cluster : Type 0 where
  pub nodes : ℕ → Node
  pub proposals : List Entry
  pub votes : List (ℕ × Entry)
  pub reports : List Report
  pub announced : List Message
  pub fetches : List (ℕ × Fetch)
  pub served : List Served
  pub campaigns : ℕ → Option (Ballot × ℕ)
  pub todo : ℕ → List (ℕ × List ℕ)

-- What the proofs see of the group.
abbrev pub spec_of : Cluster → Spec
spec_of c = record {
  promised = λ a. (c.nodes a).log.promised;
  held = λ a s. get (c.nodes a).log s;
  proposals = c.proposals;
  votes = c.votes;
  reports = c.reports;
}

abbrev pub with_node : ℕ → Node → Cluster → Cluster
with_node a n c = record c { nodes = λ j. at a j n (c.nodes j) }

abbrev pub report_of : ℕ → Message → Message → Report
report_of a msg reply = record {
  acceptor = a;
  ballot = msg.ballot;
  first = msg.slot;
  entries = reply.entries;
}

-- A replica handles a prepare.
unfoldable pub on_prepare : Env → ℕ → Message → Cluster → Cluster
on_prepare env a msg c =
    let (n, reply) = handle_prepare env (c.nodes a) msg in
    record (with_node a n c) {
      reports = if reply.ok then report_of a msg reply ∷ c.reports else c.reports;
    }

-- A replica handles an accept.
unfoldable pub on_accept : Env → ℕ → Message → Cluster → Cluster
on_accept env a msg c =
    let (n, reply) = handle_accept env (c.nodes a) msg in
    record (with_node a n c) { votes = if reply.ok then (a, entry_of msg) ∷ c.votes else c.votes }

abbrev pub campaign_of : Option Message → Option (Ballot × ℕ)
campaign_of none = none
campaign_of (some m) = some (m.ballot, m.slot)

-- A candidate promises itself a fresh ballot, and sends its prepares.
unfoldable pub on_campaign : Env → ℕ → List Message → Cluster → Cluster
on_campaign env a replies c =
    let (n, request) = campaign_prepare env (c.nodes a) replies in
    record (with_node a n c) { campaigns = λ j. at a j (campaign_of request) (c.campaigns j) }

-- A campaign ends; the winner's plan replaces what it had still to replicate.
unfoldable pub on_election : Env → ℕ → Ballot → ℕ → List Message → Cluster → Cluster
on_election env a b first replies c =
    let (n, plan) = campaign_end env (c.nodes a) b first replies in
    record (with_node a n c) {
      campaigns = λ j. at a j none (c.campaigns j);
      todo = λ j. at a j plan (c.todo j);
    }

-- A caller proposes a command to a leader.
unfoldable pub on_propose : ℕ → ℕ → List ℕ → Cluster → Cluster
on_propose a waiter command c = elim (propose_begin (c.nodes a) waiter) [
  | none ↦ c
  | some (n, slot) ↦ record (with_node a n c) {
    todo = λ j. at a j ((slot, command) ∷ c.todo j) (c.todo j);
  }
]

-- What is left to replicate, without a slot.
unfoldable pub drop_slot : ℕ → List (ℕ × List ℕ) → List (ℕ × List ℕ)
drop_slot s [] = []
drop_slot s ((s', v) ∷ rest) =
    let kept = drop_slot s rest in if s' == s then kept else (s', v) ∷ kept

abbrev pub send_accept : ℕ → Option Message → Cluster → Cluster
send_accept a none c = c
send_accept a (some m) c = record c {
  proposals = entry_of m ∷ c.proposals;
  votes = (a, entry_of m) ∷ c.votes;
}

-- A leader stores its own entry and sends its accepts.
unfoldable pub on_replicate : Env → ℕ → ℕ → List ℕ → Cluster → Cluster
unfolding drop_slot
on_replicate env a slot command c =
    let (n, request) = replicate_begin env (c.nodes a) slot command in
    send_accept a request
      (record (with_node a n c) { todo = λ j. at a j (drop_slot slot (c.todo j)) (c.todo j) })

-- A leader counts the answers to its accepts.
unfoldable pub on_conclude : Env → ℕ → Ballot → ℕ → List Message → Cluster → Cluster
on_conclude env a b slot replies c = with_node a (replicate_end env (c.nodes a) b slot replies).0 c

-- A heartbeat goes out, with the slots that its sender has applied.
unfoldable pub on_heartbeat : ℕ → Cluster → Cluster
on_heartbeat a c = record c { announced = heartbeat_request (c.nodes a) ∷ c.announced }

abbrev pub add_fetch : ℕ → Option Fetch → List (ℕ × Fetch) → List (ℕ × Fetch)
add_fetch a none fs = fs
add_fetch a (some f) fs = (a, f) ∷ fs

-- A replica handles a heartbeat, and may begin to fetch.
unfoldable pub on_commit : Env → ℕ → Message → Cluster → Cluster
on_commit env a msg c =
    let (n, reply, fetch) = handle_commit env (c.nodes a) msg in
    record (with_node a n c) { fetches = add_fetch a fetch c.fetches }

-- The request of `catchUp`.
abbrev pub catch_up_request : ℕ → ℕ → Message
catch_up_request a first = record (blank Kind.catch_up_kind a) { slot = first }

-- The replica that sent the heartbeat answers a fetch of `a`, with all it holds.
unfoldable pub on_serve : ℕ → Fetch → Cluster → Cluster
on_serve a f c = record c {
  served =
      record {
        requester = a;
        fetch = f;
        reply = handle_catch_up (c.nodes f.source) (catch_up_request a f.first);
      }
      ∷ c.served;
}

-- A fetch ends, with an answer or without one.
unfoldable pub on_catch_up : Env → ℕ → Fetch → Option Message → Cluster → Cluster
on_catch_up env a f reply c = with_node a (catch_up env (c.nodes a) f.first f.last reply) c

-- The steps that store no entry and start no campaign.
pub data Quiet (env : Env) (n : Node) : Node → Type 0 where
  pinged : Quiet env n (handle_ping env n).0
  campaign_begun : (n' : Node) → campaign_begin n ≡ some n' → Quiet env n n'
  proposal_failed : (slot : ℕ) → Quiet env n (propose_failed env n slot)
  heartbeat_sent : (b : Ballot) (rs : List Message) → Quiet env n (heartbeat_end env n b rs)
  applied : (e : Entry) → applicable n ≡ some e → Quiet env n (advance n)

-- An answer that counts was given: a promise of ballot `b` from slot `first` on.
abbrev pub Promised : Cluster → Ballot → ℕ → Message → Type 0
Promised c b first r =
    r.ok ≡ true
    → In (record { acceptor = r.sender; ballot = b; first = first; entries = r.entries }) c.reports

-- An answer that counts was given: the vote of its sender for an entry of this round.
abbrev pub Accepted : Cluster → Ballot → ℕ → Message → Type 0
Accepted c b slot r =
    r.ok ≡ true → (e : Entry) × In (r.sender, e) c.votes × (e.slot ≡ slot) × (e.ballot ≡ b)

-- The senders of the answers are other members of the group, each once.
abbrev pub FromOthers : List ℕ → ℕ → List Message → Type 0
FromOthers group a rs =
    Distinct (map (λ r. r.sender) rs)
    × ((r : Message) → In r rs → In r.sender group × (r.sender ≢ a))

-- The transitions, under the schedules in which the code is safe: ballot numbers do not wrap, a
-- campaign ends and a leader stores its own entry only while its ballot is still the promise of
-- the replica, only slots of the running leadership are replicated, and no entry of an older ballot
-- is stored in a slot that the replica knows to be committed.
pub data Move (group : List ℕ) (env : Env) (c : Cluster) : Cluster → Type 0 where
  prepare : (a : ℕ) (msg : Message) → In a group → Move group env c (on_prepare env a msg c)
  accept :
      (a : ℕ) (msg : Message)
      → In a group
      → In (entry_of msg) c.proposals
      → ((x : Entry)
          → is_committed (c.nodes a) msg.slot ≡ true
          → get (c.nodes a).log msg.slot ≡ some x
          → x.ballot ≼ msg.ballot)
      → Move group env c (on_accept env a msg c)
  campaign :
      (a : ℕ) (replies : List Message)
      → In a group
      → (c.nodes a).log.promised.num + 1 < int64_mod
      → Move group env c (on_campaign env a replies c)
  election :
      (a : ℕ) (b : Ballot) (first : ℕ) (replies : List Message)
      → In a group
      → c.campaigns a ≡ some (b, first)
      → (c.nodes a).log.promised ≡ b
      → FromOthers group a replies
      → ((r : Message) → In r replies → Promised c b first r)
      → Move group env c (on_election env a b first replies c)
  propose :
      (a waiter : ℕ) (command : List ℕ)
      → In a group
      → Move group env c (on_propose a waiter command c)
  replicate :
      (a slot : ℕ) (command : List ℕ)
      → In a group
      → In (slot, command) (c.todo a)
      → (c.nodes a).log.promised ≼ (c.nodes a).ballot
      → ((x : Entry)
          → is_committed (c.nodes a) slot ≡ true
          → get (c.nodes a).log slot ≡ some x
          → x.ballot ≼ (c.nodes a).ballot)
      → Move group env c (on_replicate env a slot command c)
  conclude :
      (a : ℕ) (e : Entry) (replies : List Message)
      → In a group
      → In (a, e) c.votes
      → FromOthers group a replies
      → ((r : Message) → In r replies → Accepted c e.ballot e.slot r)
      → Move group env c (on_conclude env a e.ballot e.slot replies c)
  heartbeat : (a : ℕ) → In a group → Move group env c (on_heartbeat a c)
  commit :
      (a : ℕ) (msg : Message)
      → In a group
      → In msg c.announced
      → Move group env c (on_commit env a msg c)
  serve : (a : ℕ) (f : Fetch) → In (a, f) c.fetches → Move group env c (on_serve a f c)
  catching_up :
      (a : ℕ) (f : Fetch) (reply : Option Message)
      → In a group
      → In (a, f) c.fetches
      → ((r : Message)
          → reply ≡ some r
          → In (record { requester = a; fetch = f; reply = r }) c.served)
      → Move group env c (on_catch_up env a f reply c)
  quiet :
      (a : ℕ) (n : Node) → In a group → Quiet env (c.nodes a) n → Move group env c (with_node a n c)

-- What a run of the group reaches.
pub data Reach (group : List ℕ) (c : Cluster) : Cluster → Type 0 where
  here : Reach group c c
  next : {d e : Cluster} (env : Env) → Reach group c d → Move group env d e → Reach group c e
