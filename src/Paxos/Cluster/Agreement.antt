-- ===== src/Paxos/Cluster/Agreement.antt =====
-- internal/paxos: agreement of the replicas of a group on the commands of the slots.
use paxos_2pc_payments.Base.{ℕ, ◌≡◌, refl, sym, ◌∙◌, none, some, List, [], true, arith, lookup}
use paxos_2pc_payments.Paxos.Log.{Log, Entry, get}
use paxos_2pc_payments.Paxos.Node.{Config, Env, new_node, is_committed, reset_election}
use paxos_2pc_payments.Paxos.Spec.{Elected}
use paxos_2pc_payments.Paxos.Spec.Safe.{Settled-unique, Elected-Settled}
use paxos_2pc_payments.Paxos.Cluster.{
  Cluster, spec_of, Move, prepare, accept, campaign, election, propose, replicate, conclude,
  heartbeat, commit, serve, catching_up, quiet, Reach, here, next,
}
use paxos_2pc_payments.Paxos.Cluster.Kept.{ClusterInv}
use paxos_2pc_payments.Paxos.Cluster.Announced.{Known, Move-Known}
use paxos_2pc_payments.Paxos.Cluster.Acceptors.{
  Quiet-ClusterInv, prepare-ClusterInv, accept-ClusterInv, commit-ClusterInv, heartbeat-ClusterInv,
  serve-ClusterInv,
}
use paxos_2pc_payments.Paxos.Cluster.Learners.{catching_up-ClusterInv, conclude-ClusterInv}
use paxos_2pc_payments.Paxos.Cluster.Proposers.{campaign-ClusterInv, propose-ClusterInv}
use paxos_2pc_payments.Paxos.Cluster.Replicates.{replicate-ClusterInv}
use paxos_2pc_payments.Paxos.Cluster.Winners.{election-ClusterInv}

-- A group that starts with empty logs.
abbrev pub start : Env → List ℕ → (ℕ → Log) → Config → Cluster
start env group logs cfg = record {
  nodes = λ a. new_node env a group (logs a) cfg;
  proposals = [];
  votes = [];
  reports = [];
  announced = [];
  fetches = [];
  served = [];
  campaigns = λ a. none;
  todo = λ a. [];
}

module _ (env : Env) (group : List ℕ) (logs : ℕ → Log) (cfg : Config)
    (empty : (a : ℕ) → (logs a).entries ≡ []) where
  nothing_held : (a s : ℕ) (e : Entry) → lookup s (logs a).entries ≡ some e → ⊥
  unfolding lookup
  nothing_held a s e h = ground (arith, empty a)

  start-ClusterInv : ClusterInv group (start env group logs cfg)
  unfolding new_node reset_election get lookup
  start-ClusterInv = record {
    spec = record {
      vote_proposed = λ a e h. absurd h;
      one_command = λ e f h k same. absurd h;
      safe = λ e h. absurd h;
      vote_promised = λ a e h. absurd h;
      held_proposed = λ a s e h. absurd (nothing_held a s e h);
      vote_held = λ a e h. absurd h;
      report_promised = λ r h. absurd h;
      report_proposed = λ r h. absurd h;
      report_covers = λ r h. absurd h;
    };
    valid = λ a. record {
      own_slot = λ s e h. absurd (nothing_held a s e h);
      below_max = λ s e h. absurd (nothing_held a s e h);
    };
    wired = λ a. (refl, refl);
    proposer = λ e h. absurd h;
    lead = λ a. record {
      campaign = λ b first h. absurd (ground arith);
      own = λ h. absurd (ground arith);
      planned = λ h. absurd (ground arith);
      fresh = λ h. absurd (ground arith);
    };
    committed = λ a s h. absurd (ground arith);
    served = λ x h. absurd h;
  }

  start-Known : Known (start env group logs cfg)
  unfolding new_node reset_election
  start-Known = record {
    applied = λ j s low high. absurd (omega arith);
    announced = λ m h. absurd h;
    fetched = λ x h. absurd h;
  }

pub Move-ClusterInv :
    (group : List ℕ) (env : Env) (c d : Cluster)
    → ClusterInv group c
    → Known c
    → Move group env c d
    → ClusterInv group d
Move-ClusterInv group env c d inv known (prepare a msg member) =
    prepare-ClusterInv group env c inv a msg
Move-ClusterInv group env c d inv known (accept a msg member proposed newer) =
    accept-ClusterInv group env c inv a msg proposed newer
Move-ClusterInv group env c d inv known (campaign a rs member room) =
    campaign-ClusterInv group env c inv a rs room
Move-ClusterInv group env c d inv known
      (election a b first rs member running promised others answered) =
    election-ClusterInv group env c inv a b first rs member running promised others answered
Move-ClusterInv group env c d inv known (propose a waiter command member) =
    propose-ClusterInv group env c inv a waiter command
Move-ClusterInv group env c d inv known (replicate a slot command member planned up newer) =
    replicate-ClusterInv group env c inv a slot command planned up newer
Move-ClusterInv group env c d inv known (conclude a e rs member voted others answered) =
    conclude-ClusterInv group env c inv a e rs member voted others answered
Move-ClusterInv group env c d inv known (heartbeat a member) = heartbeat-ClusterInv group c inv a
Move-ClusterInv group env c d inv known (commit a msg member sent) =
    commit-ClusterInv group env c inv a msg
Move-ClusterInv group env c d inv known (serve a f asked) =
    serve-ClusterInv group c inv known a f asked
Move-ClusterInv group env c d inv known (catching_up a f reply member asked served) =
    catching_up-ClusterInv group env c inv a f reply served
Move-ClusterInv group env c d inv known (quiet a n member q) =
    Quiet-ClusterInv group env c inv a n q

Reach-inv :
    (group : List ℕ) (c : Cluster) {d : Cluster}
    → ClusterInv group c × Known c
    → Reach group c d
    → ClusterInv group d × Known d
Reach-inv group c inv here = inv
Reach-inv group c inv (next {d} {e} env r m) =
    let (before, known) = Reach-inv group c inv r in
    (
      Move-ClusterInv group env d e before known m,
      Move-Known group env d e (λ a. (before.wired a).0) known m,
    )

-- The invariant of the groups that a run reaches.
run-ClusterInv :
    (env : Env) (group : List ℕ) (logs : ℕ → Log) (cfg : Config) (d : Cluster)
    → ((a : ℕ) → (logs a).entries ≡ [])
    → Reach group (start env group logs cfg) d
    → ClusterInv group d
run-ClusterInv env group logs cfg d empty run =
    (Reach-inv group (start env group logs cfg)
      (start-ClusterInv env group logs cfg empty, start-Known env group logs cfg empty) run).0

-- Consensus. In a run of a group that starts with empty logs, if two entries of one slot have each
-- been accepted by a majority, under the same ballot or different ones, they carry the same
-- command. The run takes steps of the code in any order, with messages lost, repeated or late, under
-- the conditions of `Move`: ballot numbers do not wrap; a campaign ends and a leader stores its own
-- entry only while its ballot is the promise of the replica; only slots of the running leadership
-- are replicated; no entry of an older ballot is stored in a slot known to be committed; accepts,
-- counted answers and heartbeats are ones that were sent, and the entries that a replica adopts are
-- those that the sender of a heartbeat answered its fetch with; no replica restarts.
pub Elected-agree :
    (env : Env) (group : List ℕ) (logs : ℕ → Log) (cfg : Config) (d : Cluster) (e f : Entry)
    → ((a : ℕ) → (logs a).entries ≡ [])
    → Reach group (start env group logs cfg) d
    → Elected group (spec_of d) e
    → Elected group (spec_of d) f
    → e.slot ≡ f.slot
    → e.command ≡ f.command
Elected-agree env group logs cfg d e f empty run chosen chosen' same =
    let inv = run-ClusterInv env group logs cfg d empty run in
    Settled-unique group (spec_of d) inv.spec e f
      (Elected-Settled group (spec_of d) inv.spec e chosen)
      (Elected-Settled group (spec_of d) inv.spec f chosen') same

-- State machine safety. In a run of a group that starts with empty logs, two replicas that both
-- know a slot to be committed hold an entry in it, and the two entries carry the same command. The
-- run takes steps of the code in any order, with messages lost, repeated or late, under the
-- conditions of `Move`: ballot numbers do not wrap; a campaign ends and a leader stores its own
-- entry only while its ballot is the promise of the replica; only slots of the running leadership
-- are replicated; no entry of an older ballot is stored in a slot known to be committed; accepts,
-- counted answers and heartbeats are ones that were sent, and the entries that a replica adopts are
-- those that the sender of a heartbeat answered its fetch with; no replica restarts.
pub committed_agree :
    (env : Env) (group : List ℕ) (logs : ℕ → Log) (cfg : Config) (d : Cluster) (a j s : ℕ)
    → ((i : ℕ) → (logs i).entries ≡ [])
    → Reach group (start env group logs cfg) d
    → is_committed (d.nodes a) s ≡ true
    → is_committed (d.nodes j) s ≡ true
    → (x : Entry) × (y : Entry) × (get (d.nodes a).log s ≡ some x)
      × (get (d.nodes j).log s ≡ some y)
      × (x.command ≡ y.command)
committed_agree env group logs cfg d a j s empty run here_known there_known =
    let inv = run-ClusterInv env group logs cfg d empty run in
    let (x, held, settled) = inv.committed a s here_known in
    let (y, held', settled') = inv.committed j s there_known in
    (
      x,
      y,
      held,
      held',
      Settled-unique group (spec_of d) inv.spec x y settled settled'
          ((inv.spec.held_proposed a s x held).0 ∙ sym (inv.spec.held_proposed j s y held').0),
    )
