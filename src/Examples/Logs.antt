-- ===== src/Examples/Logs.antt =====
-- internal/paxos/log.go and the handlers: a log on disk with entries in slots 1 and 2.
use paxos_2pc_payments.Base.{ℕ, ◌≡◌, refl, true, none, some, List, [], ◌∷◌, arith}
use paxos_2pc_payments.Paxos.Ballot.{Ballot, ◌≼◌, less}
use paxos_2pc_payments.Paxos.Log.{Entry, Log, open_log, synced, accept, new_mem_log}
use paxos_2pc_payments.Paxos.Log.Entries.{IsValid, new_mem_log-IsValid, accept-IsValid}
use paxos_2pc_payments.Paxos.Log.Recovery.{
  LogOp, accepting, promising, do_ops, Mirrors, open_log-Mirrors, reopen, torn, Recovers,
  reopen-do_ops, torn_line_swallows,
}
use paxos_2pc_payments.Paxos.Node.{Node, Env, Config, Message, Kind, blank, new_node, quorum}
use paxos_2pc_payments.Paxos.Node.Handlers.{handle}
use paxos_2pc_payments.Paxos.Node.Election.{campaign_end}
use paxos_2pc_payments.Paxos.Steps
use paxos_2pc_payments.Paxos.Promises.{NodeStep-promised, campaign_end_lowers}

abbrev pub entry : ℕ → ℕ → ℕ → Entry
entry slot num byte = record {
  slot = slot;
  ballot = record { num = num; node = 1 };
  command = byte ∷ [];
}

abbrev pub memory : Log
memory = (accept (accept new_mem_log synced (entry 1 1 65)).0 synced (entry 2 1 66)).0

pub memory-IsValid : IsValid memory
memory-IsValid =
    accept-IsValid (accept new_mem_log synced (entry 1 1 65)).0 synced (entry 2 1 66)
      (accept-IsValid new_mem_log synced (entry 1 1 65) new_mem_log-IsValid)

abbrev on_disk : Log
on_disk = open_log (record { lines = some (entry 1 1 65) ∷ []; fragment = none }) none

on_disk-Mirrors : Mirrors on_disk
on_disk-Mirrors = open_log-Mirrors (some (entry 1 1 65) ∷ []) none

abbrev ops : List LogOp
ops =
    accepting synced (entry 2 1 66)
    ∷ promising true (record { num = 5; node = 2 })
    ∷ accepting synced (entry 2 5 67)
    ∷ []

reopen-do_ops_example : Recovers true (entry 3 5 68) (do_ops on_disk ops)
reopen-do_ops_example =
    reopen-do_ops (some (entry 1 1 65) ∷ []) none ops true (entry 3 5 68) (refl, (tt, (refl, tt)))

torn_line_swallows_example :
    let l' = reopen (torn on_disk (entry 2 1 66)) in
    ((accept l' synced (entry 2 1 66)).1 ≡ true)
    × ((reopen (accept l' synced (entry 2 1 66)).0).entries ≡ on_disk.entries)
torn_line_swallows_example =
    torn_line_swallows on_disk (entry 2 1 66) (entry 2 1 66) on_disk-Mirrors

abbrev pub env : Env
env = record { now = 50; draw = 3; promise_written = true; disk = synced }

abbrev pub defaults : Config
defaults = record { heartbeat_interval = 0; election_timeout = 0; round_timeout = 0 }

-- Replica 1 of three, which has promised ballot 9 of replica 3.
abbrev pub replica : Node
replica =
    new_node env 1 (1 ∷ 2 ∷ 3 ∷ []) (record memory { promised = record { num = 9; node = 3 } })
      defaults

-- A campaign of replica 2 under ballot 12.
abbrev pub request : Message
request = record (blank Kind.prepare 2) { ballot = record { num = 12; node = 2 }; slot = 1 }

NodeStep-promised_example : replica.log.promised ≼ (handle env replica request).0.log.promised
NodeStep-promised_example =
    NodeStep-promised env replica (handle env replica request).0 (Steps.handled request) tt

-- A refusal with ballot 8, which replica 1 gets in its campaign under ballot 7.
abbrev refusal : Message
refusal = record (blank Kind.promise_reply 2) { ballot = record { num = 8; node = 2 } }

campaign_end_lowers_example :
    let n' = (campaign_end env replica (record { num = 7; node = 1 }) 1 (refusal ∷ [])).0 in
    (n'.log.promised ≡ refusal.ballot) × (less n'.log.promised replica.log.promised ≡ true)
unfolding new_node accept new_mem_log quorum paxos_2pc_payments.Paxos.Ballot.majority less
campaign_end_lowers_example =
    campaign_end_lowers env replica (record { num = 7; node = 1 }) 1 refusal refl (omega arith) refl
      refl refl
