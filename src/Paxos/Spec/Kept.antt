-- ===== src/Paxos/Spec/Kept.antt =====
-- internal/paxos: the invariant across the steps of the acceptors, the leaders and the learners.
mod Changes
use paxos_2pc_payments.Base.{
  ℕ, ◌≤◌, ◌≡◌, ◌⊎◌, inl, inr, sym, ◌∙◌, ap, subst, Option, some, List, ◌∷◌, arith, In,
}
use paxos_2pc_payments.Paxos.Ballot.{Ballot, ◌≼◌, less_irrefl, ≼_trans}
use paxos_2pc_payments.Paxos.Log.{Entry}
use paxos_2pc_payments.Paxos.Spec.{
  Spec, Report, SameRound, IsSafe, Settled, Inv, Step, promise, propose, vote, report, learn, at,
  Run, here, next, Elected,
}
use Changes.{Change, Change-Inv, IsSafe-kept, Elected-kept, Settled-kept}

carry : {A : Type 0} (a : A) {xs ys : List A} → xs ≡ ys → In a xs → In a ys
carry a p h = subst (λ zs. In a zs) p h

-- A slot of an acceptor is written, or it is another one.
at_cases :
    (a : ℕ) (x : Entry) (j s : ℕ) (old : Option Entry)
    → (at a j (at x.slot s (some x) old) old ≡ old)
      ⊎ ((a ≡ j) × (x.slot ≡ s) × (at a j (at x.slot s (some x) old) old ≡ some x))
at_cases a x j s old = ground arith

module _ (group : List ℕ) (σ τ : Spec) (v : Inv group σ) where
  -- Where no promise changes.
  same_raised : ((j : ℕ) → τ.promised j ≡ σ.promised j) → (a : ℕ) → σ.promised a ≼ τ.promised a
  same_raised p a = rw (p a) (less_irrefl (σ.promised a))

  -- Where no entry changes.
  same_held :
      ((j s : ℕ) → τ.held j s ≡ σ.held j s)
      → (a s : ℕ) (x : Entry) → σ.held a s ≡ some x
      → (τ.held a s ≡ some x)
        ⊎ ((y : Entry) × (τ.held a s ≡ some y) × (Settled group σ y ⊎ (σ.promised a ≼ y.ballot)))
  same_held p a s x h = inl (p a s ∙ h)

  same_new_held :
      ((j s : ℕ) → τ.held j s ≡ σ.held j s)
      → (a s : ℕ) (e : Entry) → τ.held a s ≡ some e
      → (σ.held a s ≡ some e) ⊎ ((e.slot ≡ s) × In e τ.proposals)
  same_new_held p a s e h = inl (sym (p a s) ∙ h)

  -- Where no proposal is made.
  same_command :
      τ.proposals ≡ σ.proposals
      → (e f : Entry) → In e τ.proposals
      → In f τ.proposals
      → SameRound e f
      → e.command ≡ f.command
  same_command p e f h k = v.one_command e f (carry _ p h) (carry _ p k)

  module _ (p : τ.proposals ≡ σ.proposals) (w : τ.votes ≡ σ.votes) (r : τ.reports ≡ σ.reports) where
    -- Where only promises and entries change.
    quiet-Change :
        ((a : ℕ) → σ.promised a ≼ τ.promised a)
        → ((a s : ℕ) (e : Entry)
            → τ.held a s ≡ some e
            → (σ.held a s ≡ some e) ⊎ ((e.slot ≡ s) × In e τ.proposals))
        → ((a s : ℕ) (x : Entry)
            → σ.held a s ≡ some x
            → (τ.held a s ≡ some x)
              ⊎ ((y : Entry) × (τ.held a s ≡ some y)
                  × (Settled group σ y ⊎ (σ.promised a ≼ y.ballot))))
        → Change group σ τ
    quiet-Change raised new kept = record {
      raised = raised;
      votes_kept = λ a e h. carry _ (sym w) h;
      proposals_kept = λ e h. carry _ (sym p) h;
      new_vote = λ a e h. inl (carry _ w h);
      new_proposal = λ e h. inl (carry _ p h);
      one_command = same_command p;
      new_held = new;
      kept_held = kept;
      new_report = λ x h. inl (carry _ r h);
    }

  promise-Change :
      (a : ℕ) (b : Ballot)
      → σ.promised a ≼ b
      → ((j : ℕ) → τ.promised j ≡ at a j b (σ.promised j))
      → (j : ℕ) → σ.promised j ≼ τ.promised j
  promise-Change a b up p j = rw (p j) (ground (arith, less_irrefl (σ.promised j)))

  -- What is put into a slot of an acceptor, and what was there.
  put-held :
      (a : ℕ) (x : Entry)
      → In x τ.proposals
      → ((j s : ℕ) → τ.held j s ≡ at a j (at x.slot s (some x) (σ.held j s)) (σ.held j s))
      → (j s : ℕ) (e : Entry) → τ.held j s ≡ some e
      → (σ.held j s ≡ some e) ⊎ ((e.slot ≡ s) × In e τ.proposals)
  put-held a x there p j s e h = elim (at_cases a x j s (σ.held j s)) [
    | inl old ↦ inl (sym old ∙ sym (p j s) ∙ h)
    | inr (_, slot, new) ↦
        let same : e ≡ x = cc (sym h ∙ p j s ∙ new) in
        inr (ap (λ y. y.slot) same ∙ slot, subst (λ y. In y τ.proposals) (sym same) there)
  ]

  put_kept :
      (a : ℕ) (x : Entry)
      → Settled group σ x ⊎ (σ.promised a ≼ x.ballot)
      → ((j s : ℕ) → τ.held j s ≡ at a j (at x.slot s (some x) (σ.held j s)) (σ.held j s))
      → (j s : ℕ) (y : Entry) → σ.held j s ≡ some y
      → (τ.held j s ≡ some y)
        ⊎ ((z : Entry) × (τ.held j s ≡ some z) × (Settled group σ z ⊎ (σ.promised j ≼ z.ballot)))
  put_kept a x good p j s y h = elim (at_cases a x j s (σ.held j s)) [
    | inl old ↦ inl (p j s ∙ old ∙ h)
    | inr (who, slot, new) ↦
        inr (x, p j s ∙ new, subst (λ i. Settled group σ x ⊎ (σ.promised i ≼ x.ballot)) who good)
  ]

  -- Every step is such a change.
  Step-Change : Step group σ τ → Change group σ τ
  Step-Change (promise a b up promised held p w r) =
      quiet-Change p w r (promise-Change a b up promised) (same_new_held held) (same_held held)
  Step-Change (learn a x settled promised held p w r) =
      quiet-Change p w r (same_raised promised)
        (put-held a x (carry _ (sym p) (Settled-proposed settled)) held)
        (put_kept a x (inl settled) held)
    where
      Settled-proposed : Settled group σ x → In x σ.proposals
      Settled-proposed (e, elected, slot, order, command, there) = there
  Step-Change (report r below complete proposed promised held p w rs) = record {
    raised = same_raised promised;
    votes_kept = λ a e h. carry _ (sym w) h;
    proposals_kept = λ e h. carry _ (sym p) h;
    new_vote = λ a e h. inl (carry _ w h);
    new_proposal = λ e h. inl (carry _ p h);
    one_command = same_command p;
    new_held = same_new_held held;
    kept_held = same_held held;
    new_report = λ x h. elim (carry _ rs h) [
      | inr old ↦ inl old
      | inl new ↦ inr (subst New (sym new) (below, complete, proposed))
    ];
  }
    where
      New : Report → Type 0
      New x =
          (x.ballot ≼ σ.promised x.acceptor)
          × ((s : ℕ) (e : Entry) → x.first ≤ s → σ.held x.acceptor s ≡ some e → In e x.entries)
          × ((e : Entry) → In e x.entries → In e σ.proposals)
  Step-Change (propose e safe one promised held p w r) = record {
    raised = same_raised promised;
    votes_kept = λ a f h. carry _ (sym w) h;
    proposals_kept = λ f h. carry _ (sym p) (inr h);
    new_vote = λ a f h. inl (carry _ w h);
    new_proposal = λ f h. elim (carry _ p h) [
      | inr old ↦ inl old
      | inl new ↦ inr (subst (λ x. IsSafe group σ x.ballot x.slot x.command) (sym new) safe)
    ];
    one_command = λ f g h k same. commands f g (carry _ p h) (carry _ p k) same;
    new_held = same_new_held held;
    kept_held = same_held held;
    new_report = λ x h. inl (carry _ r h);
  }
    where
      commands :
          (f g : Entry)
          → In f (e ∷ σ.proposals)
          → In g (e ∷ σ.proposals)
          → SameRound f g
          → f.command ≡ g.command
      commands f g (inl new) (inl new') same = ap (λ x. x.command) (new ∙ sym new')
      commands f g (inl new) (inr old) same =
          ap (λ x. x.command) new ∙ one g old (subst (λ x. SameRound x g) new same)
      commands f g (inr old) (inl new) same =
          sym (one f old (subst (λ x. SameRound x f) new (sym same.0, sym same.1)))
          ∙ ap (λ x. x.command) (sym new)
      commands f g (inr old) (inr old') same = v.one_command f g old old' same
  Step-Change (vote a e proposed up promised held p w r) = record {
    raised = promise-Change a e.ballot up promised;
    votes_kept = λ j f h. carry _ (sym w) (inr h);
    proposals_kept = λ f h. carry _ (sym p) h;
    new_vote = λ j f h. elim (carry _ w h) [
      | inr old ↦ inl old
      | inl new ↦ inr (subst Cast (sym new) (up, cast.0, cast.1, cast.2))
    ];
    new_proposal = λ f h. inl (carry _ p h);
    one_command = same_command p;
    new_held = put-held a e (carry _ (sym p) proposed) held;
    kept_held = put_kept a e (inr up) held;
    new_report = λ x h. inl (carry _ r h);
  }
    where
      Cast : ℕ × Entry → Type 0
      Cast (j, f) =
          (σ.promised j ≼ f.ballot)
          × (f.ballot ≼ τ.promised j)
          × In f τ.proposals
          × (τ.held j f.slot ≡ some f)

      cast : (e.ballot ≼ τ.promised a) × In e τ.proposals × (τ.held a e.slot ≡ some e)
      cast = (
        rw (promised a) (ground (arith, less_irrefl e.ballot)),
        carry _ (sym p) proposed,
        held a e.slot ∙ ground arith,
      )

  -- Every step keeps the invariant.
  pub Step-Inv : Step group σ τ → Inv group τ
  Step-Inv st = Change-Inv group σ τ (Step-Change st) v

  pub Step-Settled : Step group σ τ → (x : Entry) → Settled group σ x → Settled group τ x
  Step-Settled st x h = Settled-kept group σ τ (Step-Change st) x h

-- What stays true of a run.
pub record Later (group : List ℕ) (σ τ : Spec) : Type 0 where
  pub raised : (a : ℕ) → σ.promised a ≼ τ.promised a
  pub votes_kept : (a : ℕ) (e : Entry) → In (a, e) σ.votes → In (a, e) τ.votes
  pub proposals_kept : (e : Entry) → In e σ.proposals → In e τ.proposals
  pub safe_kept : (b : Ballot) (s : ℕ) (v : List ℕ) → IsSafe group σ b s v → IsSafe group τ b s v
  pub elected_kept : (e : Entry) → Elected group σ e → Elected group τ e
  pub settled_kept : (e : Entry) → Settled group σ e → Settled group τ e

module _ (group : List ℕ) (σ : Spec) (v : Inv group σ) where
  Later_step : (τ υ : Spec) → Inv group τ → Later group σ τ → Step group τ υ → Later group σ υ
  Later_step τ υ w l st = record {
    raised = λ a. ≼_trans (σ.promised a) (τ.promised a) (υ.promised a) (l.raised a) (c.raised a);
    votes_kept = λ a e h. c.votes_kept a e (l.votes_kept a e h);
    proposals_kept = λ e h. c.proposals_kept e (l.proposals_kept e h);
    safe_kept = λ b s x h. IsSafe-kept group τ υ c b s x (l.safe_kept b s x h);
    elected_kept = λ e h. Elected-kept group τ υ c e (l.elected_kept e h);
    settled_kept = λ e h. Settled-kept group τ υ c e (l.settled_kept e h);
  }
    where
      c : Change group τ υ
      c = Step-Change group τ υ w st

  -- A run keeps the invariant, and all that was safe, elected and settled.
  pub Run-Inv : {τ : Spec} → Run group σ τ → Inv group τ × Later group σ τ
  Run-Inv here = (
    v,
    record {
      raised = λ a. less_irrefl (σ.promised a);
      votes_kept = λ a e h. h;
      proposals_kept = λ e h. h;
      safe_kept = λ b s x h. h;
      elected_kept = λ e h. h;
      settled_kept = λ e h. h;
    },
  )
  Run-Inv (next {τ} {υ} r st) =
      let (w, l) = Run-Inv r in (Step-Inv group τ υ w st, Later_step τ υ w l st)
