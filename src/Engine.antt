-- ===== src/Engine.antt =====
-- internal/cluster/replica.go and engine.go: the topology of the sharded ledger, and what the
-- engine reads of it: the reachable majority of a shard, its leader, and whether it is settled.
-- What the replicas answer about themselves is an argument, a `View`.
pub mod Commands
pub mod Operator
pub mod Status
pub mod Sides
pub mod Majority
pub mod Reach
pub mod Leaders
pub mod Faulty
pub mod Waits
pub mod Settled
use paxos_2pc_payments.Base.{
  ℕ, zero, suc, ◌+◌, ◌*◌, ◌/◌, ◌%◌, Bool, true, false, Option, none, some, List, [], ◌∷◌, ◌++◌, map,
  not, ◌&&◌, ◌==◌, ltb, leb, if◌then◌else◌, length, ℤ, eqb_ℤ,
}
use paxos_2pc_payments.Paxos.Ballot.{Ballot, zero_ballot, less}
use paxos_2pc_payments.Paxos.Node.{Role, leader}
use paxos_2pc_payments.Faults.{Faults, is_dead, group_of}

-- `Config`
pub record Config : Type 0 where
  pub shards : ℕ
  pub nodes_per_shard : ℕ

pub data Invalid : Type 0 where
  shards_out_of_range nodes_out_of_range : Invalid

-- `Validate`
unfoldable pub validate : Config → Option Invalid
validate c =
    if (leb 1 c.shards && leb c.shards 16)
    then (if (leb 1 c.nodes_per_shard && leb c.nodes_per_shard 9)
        then none
        else some nodes_out_of_range)
    else some shards_out_of_range

-- `Quorum`
abbrev pub quorum : Config → ℕ
quorum c = c.nodes_per_shard / 2 + 1

-- The exclusive or of two numbers of `bits` bits, for the hash.
unfoldable pub xor : ℕ → ℕ → ℕ → ℕ
xor zero a b = 0
xor (suc bits) a b = (a % 2 + b % 2) % 2 + 2 * xor bits (a / 2) (b / 2)

-- FNV-1a on 32 bits: `fnv.New32a`, `Write`.
unfoldable pub fnv : ℕ → List ℕ → ℕ
unfolding xor
fnv h [] = h
fnv h (b ∷ bytes) = fnv (xor 32 h b * 16777619 % 4294967296) bytes

-- `ShardFor`
unfoldable pub shard_for : List ℕ → ℕ → ℕ
unfolding fnv
shard_for key shards = if leb shards 1 then 0 else fnv 2166136261 key % shards

-- An account as a replica reports it; a lock by transaction 0 is none.
pub record Account : Type 0 where
  pub key : ℕ
  pub balance : ℤ
  pub locked_by : ℕ

-- What a replica answers about itself. An unreachable replica has no role.
pub record NodeInfo : Type 0 where
  pub id : ℕ
  pub role : Option Role
  pub ballot : Ballot
  pub applied : ℕ
  pub accounts : List Account

-- The answers of the replicas at one time; `none` is an error.
abbrev pub View : Type 0
View = ℕ → Option NodeInfo

-- `Engine`: the replicas of each shard, and the fault table.
pub record Engine : Type 0 where
  pub cfg : Config
  pub shards : List (List ℕ)
  pub faults : Faults

abbrev pub get_elem? {ℓ} : {A : Type ℓ} → List A → ℕ → Option A
get_elem? [] i = none
get_elem? (x ∷ xs) zero = some x
get_elem? (x ∷ xs) (suc i) = get_elem? xs i

-- The replicas of a shard; an engine has no other shards than those it was built with.
abbrev pub replicas : Engine → ℕ → List ℕ
replicas e s = elim (get_elem? e.shards s) [ some rs ↦ rs | none ↦ [] ]

-- `replica`, on a name that `ParseNode` has split into shard and index.
unfoldable pub replica : Engine → Option (ℕ × ℕ) → Option (ℕ × ℕ)
replica e none = none
replica e (some (s, i)) =
    if (leb e.cfg.shards s)
    then none
    else (if (leb e.cfg.nodes_per_shard i)
        then none
        else elim (get_elem? (replicas e s) i) [ some r ↦ some (r, s) | none ↦ none ])

-- `alive`
abbrev pub alive : Faults → ℕ → Bool
alive f r = not (is_dead f r)

-- `groups[g] = append(groups[g], r)`
unfoldable pub add_member : ℤ → ℕ → List (ℤ × List ℕ) → List (ℤ × List ℕ)
add_member g r [] = (g, r ∷ []) ∷ []
add_member g r ((g', rs) ∷ rest) =
    let added = add_member g r rest in
    if eqb_ℤ g g' then (g', rs ++ (r ∷ [])) ∷ rest else (g', rs) ∷ added

-- The live replicas by the group of the network that they are in.
unfoldable pub gather : Faults → List ℕ → List (ℤ × List ℕ) → List (ℤ × List ℕ)
unfolding add_member
gather f [] groups = groups
gather f (r ∷ rs) groups =
    gather f rs (if alive f r then add_member (group_of f r) r groups else groups)

-- A group with its first replica before the first one of another.
abbrev pub first_less : List ℕ → List ℕ → Bool
first_less [] best = false
first_less (a ∷ g) [] = false
first_less (a ∷ g) (b ∷ best) = ltb a b

abbrev pub beats : List ℕ → List ℕ → Bool
beats g best =
    if ltb (length best) (length g)
    then true
    else (if length g == length best then first_less g best else false)

-- The largest group; of two that are equally large, the one whose first replica comes first.
unfoldable pub largest : List ℕ → List (ℤ × List ℕ) → List ℕ
largest best [] = best
largest best ((k, g) ∷ groups) = largest (if beats g best then g else best) groups

-- `majorityGroup`
unfoldable pub majority_group : Engine → ℕ → List ℕ × Bool
unfolding gather largest
majority_group e s =
    let best = largest [] (gather e.faults (replicas e s) []) in
    (best, leb (quorum e.cfg) (length best))

-- `infos`
abbrev pub info_or_unreachable : ℕ → Option NodeInfo → NodeInfo
info_or_unreachable r (some i) = i
info_or_unreachable r none = record {
  id = r;
  role = none;
  ballot = zero_ballot;
  applied = 0;
  accounts = [];
}

unfoldable pub infos : Engine → View → ℕ → List NodeInfo
infos e v s = map (λ r. info_or_unreachable r (v r)) (replicas e s)

abbrev pub leads : NodeInfo → Bool
leads i = elim i.role [ some leader ↦ true | _ ↦ false ]

-- The answer of a replica that says that it leads.
abbrev pub claim : View → ℕ → Option NodeInfo
claim v r = elim (v r) [ none ↦ none | some i ↦ if leads i then some i else none ]

abbrev pub stronger : Option (ℕ × NodeInfo) → ℕ → Option NodeInfo → Option (ℕ × NodeInfo)
stronger best r none = best
stronger none r (some i) = some (r, i)
stronger (some (b, info)) r (some i) =
    if less info.ballot i.ballot then some (r, i) else some (b, info)

-- The replica of highest ballot among those of a list that claim to lead.
unfoldable pub strongest : View → Option (ℕ × NodeInfo) → List ℕ → Option (ℕ × NodeInfo)
strongest v best [] = best
strongest v best (r ∷ rs) = strongest v (stronger best r (claim v r)) rs

-- `leaderOf`
unfoldable pub leader_of : Engine → View → ℕ → Option (ℕ × NodeInfo)
unfolding majority_group strongest
leader_of e v s =
    let (group, ok) = majority_group e s in if ok then strongest v none group else none

unfoldable pub keep_alive : Faults → List ℕ → List ℕ
keep_alive f [] = []
keep_alive f (r ∷ rs) = if alive f r then r ∷ keep_alive f rs else keep_alive f rs

-- `leaderOfAny`
unfoldable pub leader_of_any : Engine → View → ℕ → Option (ℕ × NodeInfo)
unfolding keep_alive strongest
leader_of_any e v s = strongest v none (keep_alive e.faults (replicas e s))

-- `inGroup`
unfoldable pub in_group : List ℕ → ℕ → Bool
in_group [] id = false
in_group (r ∷ group) id = if r == id then true else in_group group id

-- The leaders that a shard counts; `none` where one of them is cut off from the quorum.
unfoldable pub count_leaders : Faults → List ℕ → Bool → ℕ → List NodeInfo → Option ℕ
unfolding in_group
count_leaders f group ok n [] = some n
count_leaders f group ok n (i ∷ is) =
    if leads i && alive f i.id
    then (if ok && in_group group i.id then count_leaders f group ok (n + 1) is else none)
    else count_leaders f group ok n is

-- The last line of `settled`.
abbrev pub verdict : Bool → Option ℕ → Bool
verdict ok none = false
verdict ok (some leaders) = if ok then leb 1 leaders else true

-- `settled`
unfoldable pub settled : Engine → View → ℕ → Bool
unfolding majority_group infos count_leaders
settled e v s =
    let (group, ok) = majority_group e s in
    verdict ok (count_leaders e.faults group ok 0 (infos e v s))
