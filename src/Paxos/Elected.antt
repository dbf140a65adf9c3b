-- ===== src/Paxos/Elected.antt =====
-- internal/paxos/node.go: how `campaign` ends, for the promises and refusals that came back.
use paxos_2pc_payments.Base.{
  ℕ, ◌+◌, ◌≤◌, ◌<◌, ◌≡◌, ◌⊎◌, inl, inr, refl, List, [], ◌∷◌, ◌++◌, map, ◌-◌, arith, if◌then◌else◌,
  ◌∙◌, ap, sym, subst,
}
use mathlib.Core.List.{append-nil, append_assoc}
use paxos_2pc_payments.Paxos.Ballot.{Ballot, less}
use paxos_2pc_payments.Paxos.Log.{Entry, entries_from}
use paxos_2pc_payments.Paxos.Node.{
  follower, leader, Message, Node, Env, quorum, step_down, reset_election,
}
use paxos_2pc_payments.Paxos.Node.Election.{Tally, tally, campaign_end, become_leader}
use paxos_2pc_payments.Paxos.Choice.{
  Among, Chosen, range, become_leader_plan, become_leader-bound, become_leader-Chosen,
}

-- The number of promises among the replies.
abbrev pub oks : List Message → ℕ
oks [] = 0
oks (r ∷ rs) = (if r.ok then 1 else 0) + oks rs

-- The entries that the promises report.
abbrev pub reported : List Message → List Entry
reported [] = []
reported (r ∷ rs) = let rest = reported rs in if r.ok then r.entries ++ rest else rest

tally_step : Tally → Message → Tally
tally_step t r =
    if r.ok
    then record t { votes = t.votes + 1; gathered = t.gathered ++ r.entries }
    else (if less t.highest r.ballot then record t { highest = r.ballot } else t)

tally_cons :
    (t : Tally) (r : Message) (rs : List Message) → tally t (r ∷ rs) ≡ tally (tally_step t r) rs
unfolding tally tally_step
tally_cons t r rs = refl

step-votes : (t : Tally) (r : Message) → (tally_step t r).votes ≡ t.votes + (if r.ok then 1 else 0)
unfolding tally_step
step-votes t r = ground arith

step-gathered :
    (t : Tally) (r : Message)
    → (tally_step t r).gathered ≡ t.gathered ++ (if r.ok then r.entries else [])
unfolding tally_step
step-gathered t r = grind (arith, append-nil t.gathered)

tally-votes : (t : Tally) (rs : List Message) → (tally t rs).votes ≡ t.votes + oks rs
unfolding tally
tally-votes t [] = omega arith
tally-votes t (r ∷ rs) =
    omega (
      arith,
      ap (λ x. x.votes) (tally_cons t r rs),
      step-votes t r,
      tally-votes (tally_step t r) rs,
    )

oks_reported :
    (r : Message) (rs : List Message)
    → reported (r ∷ rs) ≡ (if r.ok then r.entries else []) ++ reported rs
oks_reported r rs = ground arith

tally-gathered : (t : Tally) (rs : List Message) → (tally t rs).gathered ≡ t.gathered ++ reported rs
unfolding tally
tally-gathered t [] = sym (append-nil t.gathered)
tally-gathered t (r ∷ rs) =
    ap (λ x. x.gathered) (tally_cons t r rs)
    ∙ tally-gathered (tally_step t r) rs
    ∙ ap (λ x. x ++ reported rs) (step-gathered t r)
    ∙ append_assoc t.gathered (if r.ok then r.entries else []) (reported rs)
    ∙ ap (λ x. t.gathered ++ x) (sym (oks_reported r rs))

-- What a replica knows of the slots from `first` when its campaign ends.
abbrev pub known : Node → ℕ → List Message → List Entry
known n first replies = entries_from n.log first ++ reported replies

-- Leading under the ballot, with a plan for the slots from `first` on, in order and without a gap,
-- that ends where the fresh slots begin and not behind the last known entry (slots are counted from
-- 1), and that proposes, for each slot with a known entry, an entry with the highest known ballot
-- again.
abbrev pub Leads : Ballot → ℕ → List Entry → Node × List (ℕ × List ℕ) → Type 0
Leads b first gathered (n, plan) =
    (n.role ≡ leader)
    × (n.ballot ≡ b)
    × (first ≤ n.next_slot)
    × (map (λ p. p.0) plan ≡ range first (n.next_slot - first))
    × ((s : ℕ)
        → 0 < s
        → first ≤ s
        → s < n.next_slot
        → (x : Entry) × Among x gathered × (s ≤ x.slot))
    × ((e : Entry)
        → Among e gathered
        → first ≤ e.slot
        → (e.slot < n.next_slot) × Chosen e gathered plan)

step_down-role : (env : Env) (b : Ballot) (n : Node) → (step_down env b n).role ≡ follower
unfolding step_down reset_election
step_down-role env b n = ground arith

-- The tally at the start of the loop.
abbrev own_vote : Node → Ballot → ℕ → Tally
own_vote n next first = record { votes = 1; gathered = entries_from n.log first; highest = next }

pub campaign_end_won :
    (env : Env) (n : Node) (next : Ballot) (first : ℕ) (replies : List Message)
    → quorum n ≤ oks replies + 1
    → campaign_end env n next first replies ≡ become_leader env n next (known n first replies) first
unfolding campaign_end
campaign_end_won env n next first replies h = grind (
  arith,
  tally-votes (own_vote n next first) replies,
  tally-gathered (own_vote n next first) replies,
)

pub campaign_end_lost :
    (env : Env) (n : Node) (next : Ballot) (first : ℕ) (replies : List Message)
    → oks replies + 1 < quorum n
    → ((campaign_end env n next first replies).0.role ≡ follower)
      × ((campaign_end env n next first replies).1 ≡ [])
unfolding campaign_end
campaign_end_lost env n next first replies h =
    grind (arith, tally-votes (own_vote n next first) replies, step_down-role)

become_leader-role :
    (env : Env) (n : Node) (b : Ballot) (gathered : List Entry) (first : ℕ)
    → ((become_leader env n b gathered first).0.role ≡ leader)
      × ((become_leader env n b gathered first).0.ballot ≡ b)
unfolding become_leader reset_election
become_leader-role env n b gathered first = (refl, refl)

≤-or-< : (a b : ℕ) → (a ≤ b) ⊎ (b < a)
≤-or-< a b = ground arith

-- How a campaign ends. With promises from a majority, its own included, the replica leads under its
-- ballot. It then proposes the slots from `first` to the last one that it or a promise reports, in
-- order and without a gap, a slot with a report with an entry whose ballot is as high as any that
-- is reported for it, and it hands out fresh slots behind them. With fewer promises it follows, and
-- proposes nothing.
pub campaign_end-Leads :
    (env : Env) (n : Node) (next : Ballot) (first : ℕ) (replies : List Message)
    → ((quorum n ≤ oks replies + 1)
        × Leads next first (known n first replies) (campaign_end env n next first replies))
      ⊎ ((oks replies + 1 < quorum n)
          × ((campaign_end env n next first replies).0.role ≡ follower)
          × ((campaign_end env n next first replies).1 ≡ []))
campaign_end-Leads env n next first replies = elim (≤-or-< (quorum n) (oks replies + 1)) [
  | inr few ↦ let lost = campaign_end_lost env n next first replies few in inr (few, lost.0, lost.1)
  | inl enough ↦ inl (
    enough,
    subst (λ r. Leads next first (known n first replies) r)
        (sym (campaign_end_won env n next first replies enough)) leads,
  )
]
  where
    leads :
        Leads next first
          (known n first replies)
          (become_leader env n next (known n first replies) first)
    leads =
        let role = become_leader-role env n next (known n first replies) first in
        let plan = become_leader_plan env n next (known n first replies) first in
        (
          role.0,
          role.1,
          plan.0,
          plan.1,
          become_leader-bound env n next (known n first replies) first,
          λ e there h.
              let c = become_leader-Chosen env n next (known n first replies) first e there h in
              (c.1, c.0),
        )
