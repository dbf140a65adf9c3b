-- ===== src/Paxos/Node/Election.antt =====
-- internal/paxos/node.go: phase 1. `campaign` waits twice, for the answers to its probe and for
-- the promises, so it is three steps.
use paxos_2pc_payments.Base.{
  ℕ, zero, suc, ◌+◌, ◌-◌, Bool, true, Option, none, some, List, [], ◌∷◌, ◌++◌, ltb, leb,
  if◌then◌else◌, Dict, lookup, insert, length,
}
use paxos_2pc_payments.Paxos.Ballot.{Ballot, zero_ballot, less, next_ballot}
use paxos_2pc_payments.Paxos.Log.{Entry, promise, entries_from}
use paxos_2pc_payments.Paxos.Node.{
  candidate, leader, is_leader, is_candidate, Kind, Message, blank, Node, Env, reset_election,
  quorum, step_down, try_promise,
}

-- The start of `campaign`; `none` where the replica leads already. Then it pings the group.
unfoldable pub campaign_begin : Node → Option Node
campaign_begin n = if is_leader n.role then none else some (record n { role = candidate })

-- `canReachQuorum`, on the answers to the pings.
unfoldable pub can_reach_quorum : Node → List Message → Bool
can_reach_quorum n replies = if leb (quorum n) 1 then true else leb (quorum n) (length replies + 1)

-- The request that phase 1 sends.
abbrev pub prepare_request : Node → Ballot → ℕ → Message
prepare_request n b first = record (blank Kind.prepare n.id) { ballot = b; slot = first }

-- From the probe to the broadcast of the prepare; `none` where the campaign ends here.
unfoldable pub campaign_prepare : Env → Node → List Message → Node × Option Message
campaign_prepare env n replies =
    if can_reach_quorum n replies
    then (if is_candidate n.role
        then (let next = next_ballot n.log.promised n.id in
            let (l, done) = promise n.log env.promise_written next in
            let n₁ = record n { log = l } in
            if done
            then (n₁, some (prepare_request n₁ next (n₁.applied_index + 1)))
            else (step_down env zero_ballot n₁, none))
        else (n, none))
    else (step_down env zero_ballot n, none)

-- What the loop over the promises has collected.
pub record Tally : Type 0 where
  pub votes : ℕ
  pub gathered : List Entry
  pub highest : Ballot

unfoldable pub tally : Tally → List Message → Tally
tally t [] = t
tally t (r ∷ rs) =
    tally
      (if r.ok
        then record t { votes = t.votes + 1; gathered = t.gathered ++ r.entries }
        else (if less t.highest r.ballot then record t { highest = r.ballot } else t))
      rs

-- `best` and `maxSlot` of `becomeLeader`.
abbrev pub better : Option Entry → Entry → Bool
better none e = true
better (some cur) e = less cur.ballot e.ballot

unfoldable pub pick : ℕ → Dict Entry × ℕ → List Entry → Dict Entry × ℕ
pick first acc [] = acc
pick first (best, mx) (e ∷ es) =
    pick first
      (if ltb e.slot first then (best, mx) else (
        if better (lookup e.slot best) e then insert e.slot e best else best,
        if ltb mx e.slot then e.slot else mx,
      ))
      es

-- The command that a slot is proposed again with: a no-op where nothing was reported.
abbrev pub recovered : Option Entry → List ℕ
recovered none = []
recovered (some e) = e.command

-- The recovered range, slot by slot: what the goroutine of `becomeLeader` replicates.
unfoldable pub recovery : Dict Entry → ℕ → ℕ → List (ℕ × List ℕ)
recovery best zero slot = []
recovery best (suc k) slot = (slot, recovered (lookup slot best)) ∷ recovery best k (slot + 1)

-- `becomeLeader`: the new leader and what it proposes again.
unfoldable pub become_leader : Env → Node → Ballot → List Entry → ℕ → Node × List (ℕ × List ℕ)
become_leader env n b gathered first =
    let (best, mx) = pick first ([], 0) gathered in
    (
      reset_election env (record n {
        role = leader;
        leader_hint = n.id;
        ballot = b;
        last_quorum = env.now;
        next_slot = if ltb (mx + 1) first then first else mx + 1;
      }),
      recovery best (mx + 1 - first) first,
    )

-- The end of `campaign`, on the promises and refusals that came back for ballot `next`.
unfoldable pub campaign_end : Env → Node → Ballot → ℕ → List Message → Node × List (ℕ × List ℕ)
campaign_end env n next first replies =
    let t =
      tally (record { votes = 1; gathered = entries_from n.log first; highest = next }) replies in
    if ltb t.votes (quorum n)
    then (
      step_down env zero_ballot (if less next t.highest then try_promise env n t.highest else n),
      [],
    )
    else become_leader env n next t.gathered first
