-- ===== src/Examples/Groups.antt =====
-- internal/paxos: a run of a group of three replicas, through two leaders.
use paxos_2pc_payments.Base.{ℕ, true, List, [], ◌∷◌}
use paxos_2pc_payments.Paxos.Ballot.{Ballot}
use paxos_2pc_payments.Paxos.Log.{Log, new_mem_log, synced}
use paxos_2pc_payments.Paxos.Node.{Node, candidate, Env, Config, Message, Kind, blank}
use paxos_2pc_payments.Paxos.Node.Handlers.{handle_prepare, handle_accept}
use paxos_2pc_payments.Paxos.Cluster.{
  Cluster, with_node, on_campaign, on_prepare, on_election, on_propose, on_replicate, on_accept,
  on_conclude,
}
use paxos_2pc_payments.Paxos.Cluster.Agreement.{start}

abbrev pub env : Env
env = record { now = 50; draw = 3; promise_written = true; disk = synced }

abbrev pub group : List ℕ
group = 1 ∷ 2 ∷ 3 ∷ []

abbrev pub cfg : Config
cfg = record { heartbeat_interval = 100; election_timeout = 700; round_timeout = 350 }

abbrev pub logs : ℕ → Log
logs a = new_mem_log

abbrev pub pongs : List Message
pongs = record (blank Kind.ping 2) { ok = true } ∷ record (blank Kind.ping 3) { ok = true } ∷ []

abbrev pub ballot : ℕ → ℕ → Ballot
ballot num node = record { num = num; node = node }

-- Replica 1 campaigns, 2 promises, and 1 leads.
abbrev pub c₀ : Cluster
c₀ = start env group logs cfg

abbrev pub candidate₁ : Node
candidate₁ = record (c₀.nodes 1) { role = candidate }

abbrev pub begun₁ : Cluster
begun₁ = with_node 1 candidate₁ c₀

abbrev pub c₁ : Cluster
c₁ = on_campaign env 1 pongs begun₁

abbrev pub prepare₁ : Message
prepare₁ = record (blank Kind.prepare 1) { ballot = ballot 1 1; slot = 1 }

abbrev pub c₂ : Cluster
c₂ = on_prepare env 2 prepare₁ c₁

abbrev pub promise₂ : Message
promise₂ = (handle_prepare env (c₁.nodes 2) prepare₁).1

abbrev pub c₃ : Cluster
c₃ = on_election env 1 (ballot 1 1) 1 (promise₂ ∷ []) c₂

-- It proposes a command, which 2 accepts.
abbrev pub c₄ : Cluster
c₄ = on_propose 1 90 (65 ∷ []) c₃

abbrev pub c₅ : Cluster
c₅ = on_replicate env 1 1 (65 ∷ []) c₄

abbrev pub accept₁ : Message
accept₁ = record (blank Kind.accept 1) { ballot = ballot 1 1; slot = 1; command = 65 ∷ [] }

abbrev pub c₆ : Cluster
c₆ = on_accept env 2 accept₁ c₅

abbrev pub accepted₂ : Message
accepted₂ = (handle_accept env (c₅.nodes 2) accept₁).1

abbrev pub c₇ : Cluster
c₇ = on_conclude env 1 (ballot 1 1) 1 (accepted₂ ∷ []) c₆

-- Replica 2 campaigns, 3 promises, and 2 proposes the slot again, which 3 accepts.
abbrev pub candidate₂ : Node
candidate₂ = record (c₇.nodes 2) { role = candidate }

abbrev pub begun₂ : Cluster
begun₂ = with_node 2 candidate₂ c₇

abbrev pub c₈ : Cluster
c₈ = on_campaign env 2 pongs begun₂

abbrev pub prepare₂ : Message
prepare₂ = record (blank Kind.prepare 2) { ballot = ballot 2 2; slot = 1 }

abbrev pub c₉ : Cluster
c₉ = on_prepare env 3 prepare₂ c₈

abbrev pub promise₃ : Message
promise₃ = (handle_prepare env (c₈.nodes 3) prepare₂).1

abbrev pub c₁₀ : Cluster
c₁₀ = on_election env 2 (ballot 2 2) 1 (promise₃ ∷ []) c₉

abbrev pub c₁₁ : Cluster
c₁₁ = on_replicate env 2 1 (65 ∷ []) c₁₀

abbrev pub accept₂ : Message
accept₂ = record (blank Kind.accept 2) { ballot = ballot 2 2; slot = 1; command = 65 ∷ [] }

abbrev pub c₁₂ : Cluster
c₁₂ = on_accept env 3 accept₂ c₁₁

abbrev pub accepted₃ : Message
accepted₃ = (handle_accept env (c₁₁.nodes 3) accept₂).1

abbrev pub c₁₃ : Cluster
c₁₃ = on_conclude env 2 (ballot 2 2) 1 (accepted₃ ∷ []) c₁₂
