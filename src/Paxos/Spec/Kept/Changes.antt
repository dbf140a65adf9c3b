-- ===== src/Paxos/Spec/Kept/Changes.antt =====
-- internal/paxos: what a step may change, and the invariant across such a change.
use paxos_2pc_payments.Base.{ℕ, ◌≤◌, ◌≡◌, ◌⊎◌, inl, inr, some, List, true, In}
use paxos_2pc_payments.Paxos.Ballot.{Ballot, less, ◌≼◌, less_irrefl, ≼_trans}
use paxos_2pc_payments.Paxos.Log.{Entry}
use paxos_2pc_payments.Paxos.Spec.{
  Spec, Report, SameRound, Elected, Settled, Done, IsSafe, Covers, Inv,
}
use paxos_2pc_payments.Paxos.Spec.Safe.{less_≼, not_both}

-- What `τ` may have that `σ` has not.
pub record Change (group : List ℕ) (σ τ : Spec) : Type 0 where
  pub raised : (a : ℕ) → σ.promised a ≼ τ.promised a
  pub votes_kept : (a : ℕ) (e : Entry) → In (a, e) σ.votes → In (a, e) τ.votes
  pub proposals_kept : (e : Entry) → In e σ.proposals → In e τ.proposals
  pub new_vote :
      (a : ℕ) (e : Entry)
      → In (a, e) τ.votes
      → In (a, e) σ.votes
        ⊎ ((σ.promised a ≼ e.ballot)
            × (e.ballot ≼ τ.promised a)
            × In e τ.proposals
            × (τ.held a e.slot ≡ some e))
  pub new_proposal :
      (e : Entry) → In e τ.proposals → In e σ.proposals ⊎ IsSafe group σ e.ballot e.slot e.command
  pub one_command :
      (e f : Entry) → In e τ.proposals → In f τ.proposals → SameRound e f → e.command ≡ f.command
  pub new_held :
      (a s : ℕ) (e : Entry)
      → τ.held a s ≡ some e
      → (σ.held a s ≡ some e) ⊎ ((e.slot ≡ s) × In e τ.proposals)
  pub kept_held :
      (a s : ℕ) (x : Entry)
      → σ.held a s ≡ some x
      → (τ.held a s ≡ some x)
        ⊎ ((y : Entry) × (τ.held a s ≡ some y) × (Settled group σ y ⊎ (σ.promised a ≼ y.ballot)))
  pub new_report :
      (r : Report)
      → In r τ.reports
      → In r σ.reports
        ⊎ ((r.ballot ≼ σ.promised r.acceptor)
            × ((s : ℕ) (e : Entry) → r.first ≤ s → σ.held r.acceptor s ≡ some e → In e r.entries)
            × ((e : Entry) → In e r.entries → In e σ.proposals))

module _ (group : List ℕ) (σ τ : Spec) (c : Change group σ τ) where
  Done-kept : (s : ℕ) (b : Ballot) (a : ℕ) (v : List ℕ) → Done σ s b a v → Done τ s b a v
  Done-kept s b a v (inl (e, voted, es, eb, ec)) = inl (e, c.votes_kept a e voted, es, eb, ec)
  Done-kept s b a v (inr (never, no_vote)) = inr (
    less_≼ b (σ.promised a) (τ.promised a) never (c.raised a),
    λ e voted es eb. elim (c.new_vote a e voted) [
      | inl old ↦ no_vote e old es eb
      | inr (above, _, _, _) ↦ not_both b (σ.promised a) never (rw (← eb) above)
    ],
  )

  pub IsSafe-kept : (b : Ballot) (s : ℕ) (v : List ℕ) → IsSafe group σ b s v → IsSafe group τ b s v
  IsSafe-kept b s v safe b' below =
      let (q, quorum, done) = safe b' below in (q, quorum, λ a h. Done-kept s b' a v (done a h))

  pub Elected-kept : (e : Entry) → Elected group σ e → Elected group τ e
  Elected-kept e (q, quorum, all) = (q, quorum, λ a h. c.votes_kept a e (all a h))

  pub Settled-kept : (x : Entry) → Settled group σ x → Settled group τ x
  Settled-kept x (e, elected, slot, order, command, there) =
      (e, Elected-kept e elected, slot, order, command, c.proposals_kept x there)

  Covers-kept : (e x : Entry) → Covers group σ e x → Covers group τ e x
  Covers-kept e x (inl newer) = inl newer
  Covers-kept e x (inr settled) = inr (Settled-kept x settled)

  module _ (v : Inv group σ) where
    vote_promised : (a : ℕ) (e : Entry) → In (a, e) τ.votes → e.ballot ≼ τ.promised a
    vote_promised a e h = elim (c.new_vote a e h) [
      | inl old ↦
          ≼_trans e.ballot (σ.promised a) (τ.promised a) (v.vote_promised a e old) (c.raised a)
      | inr (_, below, _, _) ↦ below
    ]

    safe : (e : Entry) → In e τ.proposals → IsSafe group τ e.ballot e.slot e.command
    safe e h = elim (c.new_proposal e h) [
      | inl old ↦ IsSafe-kept e.ballot e.slot e.command (v.safe e old)
      | inr new ↦ IsSafe-kept e.ballot e.slot e.command new
    ]

    held_proposed : (a s : ℕ) (e : Entry) → τ.held a s ≡ some e → (e.slot ≡ s) × In e τ.proposals
    held_proposed a s e h = elim (c.new_held a s e h) [
      | inl old ↦ let (slot, there) = v.held_proposed a s e old in (slot, c.proposals_kept e there)
      | inr new ↦ new
    ]

    vote_held :
        (a : ℕ) (e : Entry)
        → In (a, e) τ.votes
        → (x : Entry) × (τ.held a e.slot ≡ some x) × Covers group τ e x
    vote_held a e h = elim (c.new_vote a e h) [
      | inr (_, _, _, there) ↦ (e, there, inl (less_irrefl e.ballot))
      | inl old ↦
          let (x, there, covers) = v.vote_held a e old in
          elim (c.kept_held a e.slot x there) [
            | inl same ↦ (x, same, Covers-kept e x covers)
            | inr (y, now, inl settled) ↦ (y, now, inr (Settled-kept y settled))
            | inr (y, now, inr above) ↦ (
              y,
              now,
              inl (≼_trans e.ballot (σ.promised a) y.ballot (v.vote_promised a e old) above),
            )
          ]
    ]

    report_promised : (r : Report) → In r τ.reports → r.ballot ≼ τ.promised r.acceptor
    report_promised r h =
        ≼_trans r.ballot (σ.promised r.acceptor) (τ.promised r.acceptor)
          (elim (c.new_report r h) [
            | inl old ↦ v.report_promised r old
            | inr (below, _, _) ↦ below
          ])
          (c.raised r.acceptor)

    report_proposed :
        (r : Report) → In r τ.reports → (e : Entry) → In e r.entries → In e τ.proposals
    report_proposed r h e there = elim (c.new_report r h) [
      | inl old ↦ c.proposals_kept e (v.report_proposed r old e there)
      | inr (_, _, proposed) ↦ c.proposals_kept e (proposed e there)
    ]

    -- The votes that a report covers are older than the report.
    old_vote :
        (r : Report)
        → (r.ballot ≼ σ.promised r.acceptor)
        → (e : Entry) → In (r.acceptor, e) τ.votes
        → less e.ballot r.ballot ≡ true
        → In (r.acceptor, e) σ.votes
    old_vote r below e h under = elim (c.new_vote r.acceptor e h) [
      | inl old ↦ old
      | inr (above, _, _, _) ↦ absurd (
          not_both e.ballot (σ.promised r.acceptor)
            (less_≼ e.ballot r.ballot (σ.promised r.acceptor) under below) above)
    ]

    report-Covers :
        (r : Report)
        → In r τ.reports
        → (e : Entry) → In (r.acceptor, e) τ.votes
        → less e.ballot r.ballot ≡ true
        → r.first ≤ e.slot
        → (x : Entry) × In x r.entries × (x.slot ≡ e.slot) × Covers group τ e x
    report-Covers r h e voted under from = elim (c.new_report r h) [
      | inl old ↦
          let (x, there, slot, covers) =
            v.report_covers r old e (old_vote r (v.report_promised r old) e voted under) under
              from in
          (x, there, slot, Covers-kept e x covers)
      | inr (below, complete, _) ↦
          let (x, there, covers) = v.vote_held r.acceptor e (old_vote r below e voted under) in
          (
            x,
            complete e.slot x from there,
            (v.held_proposed r.acceptor e.slot x there).0,
            Covers-kept e x covers,
          )
    ]

    vote_proposed : (a : ℕ) (e : Entry) → In (a, e) τ.votes → In e τ.proposals
    vote_proposed a e h = elim (c.new_vote a e h) [
      | inl old ↦ c.proposals_kept e (v.vote_proposed a e old)
      | inr (_, _, there, _) ↦ there
    ]

    pub Change-Inv : Inv group τ
    Change-Inv = record {
      vote_proposed = vote_proposed;
      one_command = c.one_command;
      safe = safe;
      vote_promised = vote_promised;
      held_proposed = held_proposed;
      vote_held = vote_held;
      report_promised = report_promised;
      report_proposed = report_proposed;
      report_covers = report-Covers;
    }
