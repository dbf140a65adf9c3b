-- ===== src/Engine/Status.antt =====
-- internal/cluster/engine.go: the snapshot behind the status command. Names of accounts are
-- numbers.
use paxos_2pc_payments.Base.{
  ℕ, ◌+◌, Bool, true, false, Option, none, some, List, [], ◌∷◌, ◌++◌, map, ◌==◌, ltb, if◌then◌else◌,
  ℤ,
}
use paxos_2pc_payments.Paxos.Node.{Role}
use paxos_2pc_payments.Faults.{Faults}
use paxos_2pc_payments.Engine.{Engine, View, NodeInfo, Account, alive, infos, leader_of, quorum}

-- `NodeStatus`
pub record NodeStatus : Type 0 where
  pub id : ℕ
  pub up : Bool
  pub role : Option Role
  pub applied : ℕ

-- `ShardStatus`; `none` stands for a shard without a leader.
pub record ShardStatus : Type 0 where
  pub shard : ℕ
  pub leader : Option ℕ
  pub term : ℕ
  pub up : ℕ
  pub total : ℕ
  pub quorum : ℕ
  pub nodes : List NodeStatus

-- `AccountStatus`
pub record AccountStatus : Type 0 where
  pub key : ℕ
  pub shard : ℕ
  pub balance : ℤ
  pub locked_by : ℕ
  pub stale : Bool

-- `Status`
pub record Status : Type 0 where
  pub shards : List ShardStatus
  pub accounts : List AccountStatus
  pub partitions : List (List ℕ)

-- What the loop over the replicas of a shard has found: how many are up, the highest ballot number,
-- and the most advanced replica.
pub record Seen : Type 0 where
  pub up : ℕ
  pub term : ℕ
  pub source : Option NodeInfo

abbrev pub more_advanced : Option NodeInfo → NodeInfo → Option NodeInfo
more_advanced none i = some i
more_advanced (some j) i = if ltb j.applied i.applied then some i else some j

abbrev pub note : Faults → Seen → NodeInfo → Seen
note f t i =
    if alive f i.id
    then record {
      up = t.up + 1;
      term = if ltb t.term i.ballot.num then i.ballot.num else t.term;
      source = more_advanced t.source i;
    }
    else t

unfoldable pub survey : Faults → Seen → List NodeInfo → Seen
survey f t [] = t
survey f t (i ∷ is) = survey f (note f t i) is

-- The last answer under the name of the leader, or else the given one.
unfoldable pub source_of : ℕ → Option NodeInfo → List NodeInfo → Option NodeInfo
source_of l source [] = source
source_of l source (i ∷ is) = source_of l (if i.id == l then some i else source) is

abbrev pub node_status : Faults → NodeInfo → NodeStatus
node_status f i = record { id = i.id; up = alive f i.id; role = i.role; applied = i.applied }

abbrev pub account_status : ℕ → Bool → Account → AccountStatus
account_status s stale a = record {
  key = a.key;
  shard = s;
  balance = a.balance;
  locked_by = a.locked_by;
  stale = stale;
}

abbrev pub accounts_of : ℕ → Bool → Option NodeInfo → List AccountStatus
accounts_of s stale none = []
accounts_of s stale (some i) = map (account_status s stale) i.accounts

abbrev pub with_leader :
    ℕ → Seen → List NodeInfo → Option (ℕ × NodeInfo) → Option ℕ × ℕ × List AccountStatus
with_leader s t is none = (none, t.term, accounts_of s true t.source)
with_leader s t is (some (l, i)) =
    (some l, i.ballot.num, accounts_of s false (source_of l t.source is))

-- The body of the loop over the shards.
unfoldable pub shard_status : Engine → View → ℕ → ShardStatus × List AccountStatus
unfolding survey source_of
shard_status e v s =
    let is = infos e v s in
    let t = survey e.faults (record { up = 0; term = 0; source = none }) is in
    let (l, term, accounts) = with_leader s t is (leader_of e v s) in
    (
      record {
        shard = s;
        leader = l;
        term = term;
        up = t.up;
        total = e.cfg.nodes_per_shard;
        quorum = quorum e.cfg;
        nodes = map (node_status e.faults) is;
      },
      accounts,
    )

-- The order of the accounts: by shard, then by name.
abbrev pub before : AccountStatus → AccountStatus → Bool
before a b = if a.shard == b.shard then ltb a.key b.key else ltb a.shard b.shard

-- `sort.SliceStable`
unfoldable pub insert_account : AccountStatus → List AccountStatus → List AccountStatus
insert_account a [] = a ∷ []
insert_account a (b ∷ bs) =
    let rest = insert_account a bs in if before b a then b ∷ rest else a ∷ b ∷ bs

unfoldable pub sort_accounts : List AccountStatus → List AccountStatus
unfolding insert_account
sort_accounts [] = []
sort_accounts (a ∷ rest) = insert_account a (sort_accounts rest)

unfoldable pub survey_shards :
    Engine → View → ℕ → List (List ℕ) → List ShardStatus × List AccountStatus
unfolding shard_status
survey_shards e v s [] = ([], [])
survey_shards e v s (rs ∷ shards) =
    let (first, accounts) = shard_status e v s in
    let (others, more) = survey_shards e v (s + 1) shards in (first ∷ others, accounts ++ more)

-- `Engine.Status`
unfoldable pub status : Engine → View → Status
unfolding survey_shards sort_accounts
status e v =
    let (shards, accounts) = survey_shards e v 0 e.shards in
    record { shards = shards; accounts = sort_accounts accounts; partitions = e.faults.groups }
