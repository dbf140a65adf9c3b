-- ===== src/Examples/Elections.antt =====
-- internal/paxos/node.go: replica 1 of three campaigns, and handles an accept.
use paxos_2pc_payments.Base.{
  ◌+◌, ◌≡◌, ◌≤◌, ◌<◌, ◌⊎◌, refl, true, false, some, List, [], ◌∷◌, if◌then◌else◌, ◌==◌,
}
use paxos_2pc_payments.Paxos.Ballot.{Ballot, less, ◌≼◌}
use paxos_2pc_payments.Paxos.Log.{Entry, get}
use paxos_2pc_payments.Paxos.Node.{Node, Message, Kind, blank, quorum, follower}
use paxos_2pc_payments.Paxos.Node.Handlers.{handle_prepare, handle_accept, entry_of}
use paxos_2pc_payments.Paxos.Node.Election.{campaign_end}
use paxos_2pc_payments.Paxos.Accepts.{handle_prepare_lem, handle_accept_lem}
use paxos_2pc_payments.Paxos.Node.Handlers.{handle_commit}
use paxos_2pc_payments.Paxos.Node.Replication.{catch_up}
use paxos_2pc_payments.Paxos.Promises.Delayed.{delayed_accept_overwrites}
use paxos_2pc_payments.Paxos.Elected.{oks, known, Leads, campaign_end-Leads}
use paxos_2pc_payments.Examples.Logs.{entry, env, replica, request}

handle_prepare_lem_example :
    ((handle_prepare env replica request).0.log.entries ≡ replica.log.entries)
    × ((((handle_prepare env replica request).1.ok ≡ true)
          × (replica.log.promised ≼ request.ballot)
          × ((handle_prepare env replica request).0.log.promised ≡ request.ballot))
        ⊎ (((handle_prepare env replica request).1.ok ≡ false)
            × ((less request.ballot replica.log.promised ≡ true)
                ⊎ ((replica.log.durable ≡ true) × (env.promise_written ≡ false)))
            × ((handle_prepare env replica request).0.log.promised ≡ replica.log.promised)))
handle_prepare_lem_example = handle_prepare_lem env replica request

abbrev accept_request : Message
accept_request = record (blank Kind.accept 2) {
  ballot = record { num = 12; node = 2 };
  slot = 2;
  command = 70 ∷ [];
}

handle_accept_lem_example :
    (((handle_accept env replica accept_request).1.ok ≡ true)
      × (replica.log.promised ≼ accept_request.ballot)
      × ((handle_accept env replica accept_request).0.log.promised ≡ accept_request.ballot)
      × (get (handle_accept env replica accept_request).0.log 2
          ≡ (if 2 == 2 then some (entry_of accept_request) else get replica.log 2)))
    ⊎ (((handle_accept env replica accept_request).1.ok ≡ false)
        × (get (handle_accept env replica accept_request).0.log 2 ≡ get replica.log 2))
handle_accept_lem_example = handle_accept_lem env replica accept_request 2

-- Two replicas report slot 2 under ballots 1 and 4, and slot 5.
abbrev gathered : List Entry
gathered = entry 2 1 66 ∷ entry 2 4 80 ∷ entry 5 4 81 ∷ []

abbrev ballot_12 : Ballot
ballot_12 = record { num = 12; node = 1 }

-- One of the two others promises, with its entry of slot 2.
abbrev promise_of_2 : Message
promise_of_2 = record (blank Kind.promise_reply 2) {
  ok = true;
  ballot = ballot_12;
  entries = entry 2 4 80 ∷ [];
}

campaign_end-Leads_example :
    ((quorum replica ≤ oks (promise_of_2 ∷ []) + 1)
      × Leads ballot_12 2
          (known replica 2 (promise_of_2 ∷ []))
          (campaign_end env replica ballot_12 2 (promise_of_2 ∷ [])))
    ⊎ ((oks (promise_of_2 ∷ []) + 1 < quorum replica)
        × ((campaign_end env replica ballot_12 2 (promise_of_2 ∷ [])).0.role ≡ follower)
        × ((campaign_end env replica ballot_12 2 (promise_of_2 ∷ [])).1 ≡ []))
campaign_end-Leads_example = campaign_end-Leads env replica ballot_12 2 (promise_of_2 ∷ [])

-- Replica 3 leads under ballot 12 and has slot 2 chosen; replica 2 led under ballot 10.
abbrev heartbeat_of_3 : Message
heartbeat_of_3 = record (blank Kind.commit 3) {
  ballot = record { num = 12; node = 3 };
  commit_index = 2;
}

abbrev fetched : Message
fetched = record (blank Kind.catch_up_kind 3) { ok = true; entries = entry 2 12 90 ∷ [] }

abbrev delayed_accept : Message
delayed_accept = record (blank Kind.accept 2) {
  ballot = record { num = 10; node = 2 };
  slot = 2;
  command = 71 ∷ [];
}

delayed_accept_overwrites_example :
    let n' = catch_up env (handle_commit env replica heartbeat_of_3).0 2 2 (some fetched) in
    ((handle_commit env replica heartbeat_of_3).1.ok ≡ true)
    × ((handle_accept env n' delayed_accept).1.ok ≡ true)
    × (get (handle_accept env n' delayed_accept).0.log 2 ≡ some (entry_of delayed_accept))
unfolding paxos_2pc_payments.Paxos.Node.new_node paxos_2pc_payments.Paxos.Log.accept
    paxos_2pc_payments.Paxos.Log.new_mem_log paxos_2pc_payments.Paxos.Ballot.less
delayed_accept_overwrites_example =
    delayed_accept_overwrites env replica heartbeat_of_3 delayed_accept 2 2 (some fetched) refl refl
      refl
