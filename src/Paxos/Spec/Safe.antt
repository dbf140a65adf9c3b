-- ===== src/Paxos/Spec/Safe.antt =====
-- internal/paxos: majorities that share an acceptor, and what a new leader may propose.
use paxos_2pc_payments.Base.{
  ℕ, ◌≡◌, ◌≢◌, ◌⊎◌, inl, inr, refl, sym, ◌∙◌, ap, subst, List, [], ◌∷◌, true, Bool-cases, arith, In,
  overlap,
}
use paxos_2pc_payments.Paxos.Ballot.{
  Ballot, less, ◌≼◌, ≼_trans, ≼_antisym, less→≼, less_irrefl, majority,
}
use paxos_2pc_payments.Paxos.Log.{Entry}
use paxos_2pc_payments.Paxos.Spec.{Spec, IsQuorum, Elected, Settled, Done, IsSafe, Covers, Inv}

pub ≼_less : (a b c : Ballot) → a ≼ b → less b c ≡ true → less a c ≡ true
unfolding less
≼_less a b c h k = ground arith

pub less_≼ : (a b c : Ballot) → less a b ≡ true → b ≼ c → less a c ≡ true
unfolding less
less_≼ a b c h k = ground arith

pub not_both : (a b : Ballot) → less a b ≡ true → b ≼ a → ⊥
unfolding less
not_both a b h k = ground arith

pub ≼_split : (a b : Ballot) → a ≼ b → (less a b ≡ true) ⊎ (a ≡ b)
unfolding less
≼_split a b h = ground arith

same_ballot : (a b : Ballot) → (a ≡ b) ⊎ (a ≢ b)
same_ballot a b = ground arith

-- A vote of the acceptor in this round, or there is none.
pub find_vote :
    (votes : List (ℕ × Entry)) (a s : ℕ) (b : Ballot)
    → ((e : Entry) × In (a, e) votes × (e.slot ≡ s) × (e.ballot ≡ b))
      ⊎ ((e : Entry) → In (a, e) votes → e.slot ≡ s → e.ballot ≡ b → ⊥)
find_vote [] a s b = inr (λ e h i j. h)
find_vote ((a', x) ∷ votes) a s b = elim (find_vote votes a s b) [
  | inl (e, h, i, j) ↦ inl (e, inr h, i, j)
  | inr gone ↦ elim (matches a' x) [
    | inl (p, i, j) ↦ inl (x, inl (ap (λ z. (z, x)) (sym p)), i, j)
    | inr other ↦ inr (λ e h i j. elim h [ inl p ↦ other (cc, cc, cc) | inr k ↦ gone e k i j ])
  ]
]
  where
    matches :
        (a' : ℕ) (x : Entry)
        → ((a' ≡ a) × (x.slot ≡ s) × (x.ballot ≡ b))
          ⊎ ((a' ≡ a) × (x.slot ≡ s) × (x.ballot ≡ b) → ⊥)
    matches a' x = elim (same_ballot x.ballot b) [ inl p ↦ ground arith | inr p ↦ inr (λ q. p q.2) ]

module _ (group : List ℕ) (σ : Spec) where
  -- Two quorums share a member.
  pub quorums-overlap :
      (p q : List ℕ) → IsQuorum group p → IsQuorum group q → (a : ℕ) × In a p × In a q
  unfolding majority
  quorums-overlap p q hp hq = overlap group p q hp.0 hq.0 hp.1 hq.1 (omega (arith, hp.2, hq.2))

  Elected-proposed : Inv group σ → (e : Entry) → Elected group σ e → In e σ.proposals
  Elected-proposed v e (q, quorum, all) =
      let (a, h, k) = quorums-overlap q q quorum quorum in v.vote_proposed a e (all a h)

  -- A proposal under the ballot of an elected entry of the slot, or a later one, has its command.
  pub proposal-agrees :
      Inv group σ
      → (e p : Entry) → Elected group σ e
      → In p σ.proposals
      → e.slot ≡ p.slot
      → e.ballot ≼ p.ballot
      → e.command ≡ p.command
  proposal-agrees v e p elected proposed slot order = elim (≼_split e.ballot p.ballot order) [
    | inr same ↦ v.one_command e p (Elected-proposed v e elected) proposed (slot, same)
    | inl below ↦
        let (q, quorum, done) = v.safe p proposed e.ballot below in
        let (a, h, k) = quorums-overlap elected.0 q elected.1 quorum in
        elim (done a k) [
          | inl (f, voted, fs, fb, fc) ↦
              v.one_command e f (Elected-proposed v e elected) (v.vote_proposed a f voted)
                (slot ∙ sym fs, sym fb)
              ∙ fc
          | inr (never, no_vote) ↦ absurd (no_vote e (elected.2 a h) slot refl)
        ]
  ]

  pub Settled-agrees :
      Inv group σ
      → (x p : Entry) → Settled group σ x
      → In p σ.proposals
      → x.slot ≡ p.slot
      → x.ballot ≼ p.ballot
      → x.command ≡ p.command
  Settled-agrees v x p (e, elected, slot, order, command, there) proposed same later =
      sym command
      ∙ proposal-agrees v e p elected proposed (slot ∙ same)
          (≼_trans e.ballot x.ballot p.ballot order later)

  pub Elected-Settled : Inv group σ → (e : Entry) → Elected group σ e → Settled group σ e
  Elected-Settled v e elected =
      (e, elected, refl, less_irrefl e.ballot, refl, Elected-proposed v e elected)

  -- Settled entries of one slot have one command.
  pub Settled-unique :
      Inv group σ
      → (x y : Entry) → Settled group σ x
      → Settled group σ y
      → x.slot ≡ y.slot
      → x.command ≡ y.command
  Settled-unique v x y (e, ee, es, eb, ec, ex) (f, fe, fs, fb, fc, fy) same =
      elim (Bool-cases (less f.ballot e.ballot)) [
        | inr up ↦
            sym ec ∙ proposal-agrees v e f ee (Elected-proposed v f fe) (es ∙ same ∙ sym fs) up ∙ fc
        | inl down ↦
            sym ec
            ∙ sym (
                proposal-agrees v f e fe (Elected-proposed v e ee) (fs ∙ sym same ∙ sym es)
                  (less→≼ f.ballot e.ballot down))
            ∙ fc
      ]

  -- A quorum has reached ballot `b`, and reports `known` of a slot.
  abbrev pub Reached : Ballot → ℕ → List Entry → ℕ → Type 0
  Reached b s known a =
      (b ≼ σ.promised a)
      × ((e : Entry)
          → In (a, e) σ.votes
          → e.slot ≡ s
          → less e.ballot b ≡ true
          → (x : Entry) × In x known × (x.slot ≡ s) × Covers group σ e x)

  module _ (v : Inv group σ) (b : Ballot) (s : ℕ) (q : List ℕ) (quorum : IsQuorum group q)
      (known : List Entry) (reached : (a : ℕ) → In a q → Reached b s known a) where
    never : (b' : Ballot) (a : ℕ) → less b' b ≡ true → In a q → less b' (σ.promised a) ≡ true
    never b' a below h = less_≼ b' b (σ.promised a) below (reached a h).0

    -- Where nothing is reported of the slot, every command may be proposed.
    pub fresh-IsSafe :
        ((x : Entry) → In x known → x.slot ≡ s → ⊥) → (w : List ℕ) → IsSafe group σ b s w
    fresh-IsSafe nothing w b' below = (
      q,
      quorum,
      λ a h. inr (
        never b' a below h,
        λ e voted es eb.
            let (x, there, slot, covers) = (reached a h).1 e voted es (rw eb below) in
            nothing x there slot,
      ),
    )

    -- Else the command of a highest reported entry.
    pub adopted-IsSafe :
        (x : Entry)
        → In x σ.proposals
        → x.slot ≡ s
        → ((y : Entry) → In y known → y.slot ≡ s → y.ballot ≼ x.ballot)
        → IsSafe group σ b s x.command
    adopted-IsSafe x proposed slot highest b' below = elim (Bool-cases (less b' x.ballot)) [
      | inl under ↦
          let (p, pq, done) = v.safe x proposed b' under in
          (p, pq, λ a h. subst (λ k. Done σ k b' a x.command) slot (done a h))
      | inr over ↦ (
        q,
        quorum,
        λ a h. elim (find_vote σ.votes a s b') [
          | inr no_vote ↦ inr (never b' a below h, no_vote)
          | inl (e, voted, es, eb) ↦ inl (e, voted, es, eb, agrees a h e voted es eb over)
        ],
      )
    ]
      where
        agrees :
            (a : ℕ)
            → In a q
            → (e : Entry) → In (a, e) σ.votes
            → e.slot ≡ s
            → e.ballot ≡ b'
            → x.ballot ≼ b'
            → e.command ≡ x.command
        agrees a h e voted es eb over =
            let (y, there, ys, covers) = (reached a h).1 e voted es (rw eb below) in
            let up = highest y there ys in
            let over' : x.ballot ≼ e.ballot = rw eb over in
            elim covers [
              | inl newer ↦ v.one_command e x (v.vote_proposed a e voted) proposed (
                es ∙ sym slot,
                ≼_antisym e.ballot x.ballot (≼_trans e.ballot y.ballot x.ballot newer up) over',
              )
              | inr settled ↦
                  sym (
                    Settled-agrees v y e settled (v.vote_proposed a e voted) (ys ∙ sym es)
                      (≼_trans y.ballot x.ballot e.ballot up over'))
                  ∙ Settled-agrees v y x settled proposed (ys ∙ sym slot) up
            ]
