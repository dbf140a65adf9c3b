-- ===== src/Examples/Catching.antt =====
-- internal/paxos: replica 3 of the run of Groups.antt learns from a heartbeat that slot 1 is chosen.
use mathlib.Core.Option.{some-injective}
use paxos_2pc_payments.Base.{◌≡◌, ap, sym, refl, inl, some, lookup}
use paxos_2pc_payments.Paxos.Log.{Entry, get, new_mem_log}
use paxos_2pc_payments.Paxos.Node.{Message, Node}
use paxos_2pc_payments.Paxos.Node.Handlers.{
  Fetch, handle_prepare, handle_accept, handle_catch_up, entry_of,
}
use paxos_2pc_payments.Paxos.Node.Replication.{heartbeat_request}
use paxos_2pc_payments.Paxos.Node.Apply.{advance}
use paxos_2pc_payments.Paxos.Cluster.{
  Cluster, applied, with_node, Move, Reach, next, on_campaign, on_prepare, on_election, on_propose,
  on_replicate, on_accept, on_conclude, on_heartbeat, on_commit, on_serve, on_catch_up,
  catch_up_request,
}
use paxos_2pc_payments.Paxos.Cluster
use paxos_2pc_payments.Paxos.Cluster.Agreement.{committed_agree}
use paxos_2pc_payments.Examples.Groups.{env, group, cfg, logs, c₀, accept₂, c₁₃}
use paxos_2pc_payments.Examples.Runs.{member₂, member₃, both_reigns}

-- Replica 2 applies the slot and sends a heartbeat.
abbrev leader₂ : Node
leader₂ = advance (c₁₃.nodes 2)

abbrev c₁₄ : Cluster
c₁₄ = with_node 2 leader₂ c₁₃

abbrev beat : Message
beat = heartbeat_request (c₁₄.nodes 2)

abbrev c₁₅ : Cluster
c₁₅ = on_heartbeat 2 c₁₄

-- Replica 3 fetches the slot from it, and adopts the answer.
abbrev fetch : Fetch
fetch = record { source = 2; first = 1; last = 1 }

abbrev c₁₆ : Cluster
c₁₆ = on_commit env 3 beat c₁₅

abbrev answer : Message
answer = handle_catch_up (c₁₆.nodes fetch.source) (catch_up_request 3 fetch.first)

abbrev c₁₇ : Cluster
c₁₇ = on_serve 3 fetch c₁₆

abbrev c₁₈ : Cluster
c₁₈ = on_catch_up env 3 fetch (some answer) c₁₇

applies₂ : Move group env c₁₃ c₁₄
unfolding new_mem_log lookup on_conclude on_accept on_replicate
    paxos_2pc_payments.Paxos.Node.Replication.replicate_begin on_election
    paxos_2pc_payments.Paxos.Node.Election.campaign_end paxos_2pc_payments.Paxos.Node.Election.tally
    handle_prepare paxos_2pc_payments.Paxos.Ballot.less on_campaign on_propose
    paxos_2pc_payments.Paxos.Node.Replication.propose_begin paxos_2pc_payments.Paxos.Node.new_node
    paxos_2pc_payments.Paxos.Log.promise paxos_2pc_payments.Paxos.Node.quorum
    paxos_2pc_payments.Paxos.Ballot.majority on_prepare
    paxos_2pc_payments.Paxos.Node.Election.campaign_prepare
    paxos_2pc_payments.Paxos.Node.Election.can_reach_quorum
    paxos_2pc_payments.Paxos.Node.Election.become_leader paxos_2pc_payments.Paxos.Log.accept
    handle_accept paxos_2pc_payments.Paxos.Node.Replication.replicate_end
    paxos_2pc_payments.Paxos.Node.Replication.count paxos_2pc_payments.Paxos.Node.mark_committed
    paxos_2pc_payments.Base.insert get
applies₂ = Cluster.quiet 2 leader₂ member₂ (applied (entry_of accept₂) refl)

announces₂ : Move group env c₁₄ c₁₅
announces₂ = Cluster.heartbeat 2 member₂

hears₃ : Move group env c₁₅ c₁₆
unfolding on_heartbeat
hears₃ = Cluster.commit 3 beat member₃ (inl refl)

serves₂ : Move group env c₁₆ c₁₇
unfolding new_mem_log lookup on_conclude on_accept on_replicate
    paxos_2pc_payments.Paxos.Node.Replication.replicate_begin on_election
    paxos_2pc_payments.Paxos.Node.Election.campaign_end paxos_2pc_payments.Paxos.Node.Election.tally
    handle_prepare paxos_2pc_payments.Paxos.Ballot.less on_campaign on_propose
    paxos_2pc_payments.Paxos.Node.Replication.propose_begin paxos_2pc_payments.Paxos.Node.new_node
    paxos_2pc_payments.Paxos.Log.promise paxos_2pc_payments.Paxos.Node.quorum
    paxos_2pc_payments.Paxos.Ballot.majority on_prepare
    paxos_2pc_payments.Paxos.Node.Election.campaign_prepare
    paxos_2pc_payments.Paxos.Node.Election.can_reach_quorum
    paxos_2pc_payments.Paxos.Node.Election.become_leader paxos_2pc_payments.Paxos.Log.accept
    handle_accept paxos_2pc_payments.Paxos.Node.Replication.replicate_end
    paxos_2pc_payments.Paxos.Node.Replication.count paxos_2pc_payments.Paxos.Node.mark_committed
    paxos_2pc_payments.Base.insert on_commit paxos_2pc_payments.Paxos.Node.Handlers.handle_commit
    heartbeat_request advance on_heartbeat
serves₂ = Cluster.serve 3 fetch (inl refl)

adopts₃ : Move group env c₁₇ c₁₈
unfolding new_mem_log lookup on_conclude on_accept on_replicate
    paxos_2pc_payments.Paxos.Node.Replication.replicate_begin on_election
    paxos_2pc_payments.Paxos.Node.Election.campaign_end paxos_2pc_payments.Paxos.Node.Election.tally
    handle_prepare paxos_2pc_payments.Paxos.Ballot.less on_campaign on_propose
    paxos_2pc_payments.Paxos.Node.Replication.propose_begin paxos_2pc_payments.Paxos.Node.new_node
    paxos_2pc_payments.Paxos.Log.promise paxos_2pc_payments.Paxos.Node.quorum
    paxos_2pc_payments.Paxos.Ballot.majority on_prepare
    paxos_2pc_payments.Paxos.Node.Election.campaign_prepare
    paxos_2pc_payments.Paxos.Node.Election.can_reach_quorum
    paxos_2pc_payments.Paxos.Node.Election.become_leader paxos_2pc_payments.Paxos.Log.accept
    handle_accept paxos_2pc_payments.Paxos.Node.Replication.replicate_end
    paxos_2pc_payments.Paxos.Node.Replication.count paxos_2pc_payments.Paxos.Node.mark_committed
    paxos_2pc_payments.Base.insert on_serve on_commit
    paxos_2pc_payments.Paxos.Node.Handlers.handle_commit heartbeat_request advance on_heartbeat
adopts₃ = Cluster.catching_up 3 fetch (some answer) member₃ (inl refl) (λ r e. inl (
    ap (λ m. record { requester = 3; fetch = fetch; reply = m }) (sym (some-injective answer r e))))

caught_up : Reach group c₀ c₁₈
caught_up =
    next env
      (next env (next env (next env (next env both_reigns applies₂) announces₂) hears₃) serves₂)
      adopts₃

committed_agree_example :
    (x : Entry) × (y : Entry) × (get (c₁₈.nodes 1).log 1 ≡ some x)
    × (get (c₁₈.nodes 3).log 1 ≡ some y)
    × (x.command ≡ y.command)
unfolding new_mem_log lookup on_conclude on_accept on_replicate
    paxos_2pc_payments.Paxos.Node.Replication.replicate_begin on_election
    paxos_2pc_payments.Paxos.Node.Election.campaign_end paxos_2pc_payments.Paxos.Node.Election.tally
    handle_prepare paxos_2pc_payments.Paxos.Ballot.less on_campaign on_propose
    paxos_2pc_payments.Paxos.Node.Replication.propose_begin paxos_2pc_payments.Paxos.Node.new_node
    paxos_2pc_payments.Paxos.Log.promise paxos_2pc_payments.Paxos.Node.quorum
    paxos_2pc_payments.Paxos.Ballot.majority on_prepare
    paxos_2pc_payments.Paxos.Node.Election.campaign_prepare
    paxos_2pc_payments.Paxos.Node.Election.can_reach_quorum
    paxos_2pc_payments.Paxos.Node.Election.become_leader paxos_2pc_payments.Paxos.Log.accept
    handle_accept paxos_2pc_payments.Paxos.Node.Replication.replicate_end
    paxos_2pc_payments.Paxos.Node.Replication.count paxos_2pc_payments.Paxos.Node.mark_committed
    paxos_2pc_payments.Base.insert on_catch_up on_serve on_commit on_heartbeat
    paxos_2pc_payments.Paxos.Node.Replication.catch_up handle_catch_up
    paxos_2pc_payments.Paxos.Node.Replication.adopt_all
    paxos_2pc_payments.Paxos.Node.Replication.chosen paxos_2pc_payments.Paxos.Log.entries_from
    advance get paxos_2pc_payments.Paxos.Node.Handlers.handle_commit heartbeat_request
    paxos_2pc_payments.Paxos.Log.bytes_equal
committed_agree_example =
    committed_agree env group logs cfg c₁₈ 1 3 1 (λ a. refl) caught_up refl refl
