-- ===== src/Paxos/Cluster/Answers.antt =====
-- internal/paxos/node.go: the answers that a campaign or a round counts.
use paxos_2pc_payments.Base.{
  ℕ, ◌+◌, ◌≤◌, ◌≡◌, ◌⊎◌, inl, inr, refl, sym, ap, subst, List, [], ◌∷◌, ◌++◌, map, Bool, true,
  false, Bool-cases, arith, In, In-append, In-append_left, In-append_right, Distinct, length,
  if◌then◌else◌,
}
use paxos_2pc_payments.Paxos.Ballot.{majority}
use paxos_2pc_payments.Paxos.Log.{Entry}
use paxos_2pc_payments.Paxos.Node.{Message}
use paxos_2pc_payments.Paxos.Elected.{oks, reported}
use paxos_2pc_payments.Paxos.Spec.{IsQuorum}
use paxos_2pc_payments.Paxos.Cluster.{FromOthers}

-- Who answered with OK.
abbrev pub ok_senders : List Message → List ℕ
ok_senders [] = []
ok_senders (r ∷ rs) = let rest = ok_senders rs in if r.ok then r.sender ∷ rest else rest

pub ok_senders-In :
    (s : ℕ) (rs : List Message)
    → In s (ok_senders rs)
    → (r : Message) × In r rs × (r.ok ≡ true) × (s ≡ r.sender)
ok_senders-In s [] h = elim h [ ]
ok_senders-In s (r ∷ rs) h = elim (Bool-cases r.ok) [
  | inr refused ↦
      let (x, there, ok, eq) = ok_senders-In s rs (rest refused) in (x, inr there, ok, eq)
  | inl ok ↦ elim (first ok) [
    | inl eq ↦ (r, inl refl, ok, eq)
    | inr later ↦ let (x, there, ok', eq) = ok_senders-In s rs later in (x, inr there, ok', eq)
  ]
]
  where
    rest : r.ok ≡ false → In s (ok_senders rs)
    rest e = subst (λ x. In s (if x then r.sender ∷ ok_senders rs else ok_senders rs)) e h

    first : r.ok ≡ true → (s ≡ r.sender) ⊎ In s (ok_senders rs)
    first e = subst (λ x. In s (if x then r.sender ∷ ok_senders rs else ok_senders rs)) e h

pub length-ok_senders : (rs : List Message) → length (ok_senders rs) ≡ oks rs
length-ok_senders [] = refl
length-ok_senders (r ∷ rs) = ground (arith, length-ok_senders rs)

In-map_sender : (r : Message) (rs : List Message) → In r rs → In r.sender (map (λ x. x.sender) rs)
In-map_sender r [] h = elim h [ ]
In-map_sender r (x ∷ rs) (inl e) = inl (ap (λ y. y.sender) e)
In-map_sender r (x ∷ rs) (inr h) = inr (In-map_sender r rs h)

ok_senders-Distinct :
    (rs : List Message) → Distinct (map (λ r. r.sender) rs) → Distinct (ok_senders rs)
ok_senders-Distinct [] d = tt
ok_senders-Distinct (r ∷ rs) (new, d) = by_answer r.ok (ok_senders-Distinct rs d) (λ h.
    let (x, there, ok, eq) = ok_senders-In r.sender rs h in new (rw eq (In-map_sender x rs there)))
  where
    by_answer :
        (x : Bool)
        → Distinct (ok_senders rs)
        → (In r.sender (ok_senders rs) → ⊥)
        → Distinct (if x then r.sender ∷ ok_senders rs else ok_senders rs)
    by_answer true d new = (new, d)
    by_answer false d new = d

pub reported-In :
    (r : Message) (rs : List Message) (e : Entry)
    → In r rs
    → r.ok ≡ true
    → In e r.entries
    → In e (reported rs)
reported-In r [] e h ok there = elim h [ ]
reported-In r (x ∷ rs) e h ok there = by_answer x.ok refl h (λ k. reported-In r rs e k ok there)
  where
    by_answer :
        (y : Bool)
        → x.ok ≡ y
        → (r ≡ x) ⊎ In r rs
        → (In r rs → In e (reported rs))
        → In e (if y then x.entries ++ reported rs else reported rs)
    by_answer true eq (inl same) rest =
        In-append_left e x.entries (reported rs) (subst (λ m. In e m.entries) same there)
    by_answer true eq (inr later) rest = In-append_right e x.entries (reported rs) (rest later)
    by_answer false eq (inl same) rest = cc (ap (λ m. m.ok) same, ok, eq)
    by_answer false eq (inr later) rest = rest later

pub In-reported :
    (rs : List Message) (e : Entry)
    → In e (reported rs)
    → (r : Message) × In r rs × (r.ok ≡ true) × In e r.entries
In-reported [] e h = elim h [ ]
In-reported (x ∷ rs) e h = by_answer x.ok refl h (λ k. In-reported rs e k)
  where
    by_answer :
        (y : Bool)
        → x.ok ≡ y
        → In e (if y then x.entries ++ reported rs else reported rs)
        → (In e (reported rs) → (r : Message) × In r rs × (r.ok ≡ true) × In e r.entries)
        → (r : Message) × In r (x ∷ rs) × (r.ok ≡ true) × In e r.entries
    by_answer false eq k rest = let (r, there, ok, own) = rest k in (r, inr there, ok, own)
    by_answer true eq k rest = elim (In-append e x.entries (reported rs) k) [
      | inl own ↦ (x, inl refl, eq, own)
      | inr later ↦ let (r, there, ok, own) = rest later in (r, inr there, ok, own)
    ]

-- The replica and those that answered with OK are a quorum.
pub voters-IsQuorum :
    (group : List ℕ) (a : ℕ) (rs : List Message)
    → In a group
    → FromOthers group a rs
    → majority (length group) ≤ oks rs + 1
    → IsQuorum group (a ∷ ok_senders rs)
voters-IsQuorum group a rs member (distinct, others) enough = (
  (
    λ h. let (r, there, ok, eq) = ok_senders-In a rs h in (others r there).1 (sym eq),
    ok_senders-Distinct rs distinct,
  ),
  λ j h. elim h [
    | inl same ↦ rw same member
    | inr later ↦ let (r, there, ok, eq) = ok_senders-In j rs later in rw eq (others r there).0
  ],
  omega (arith, length-ok_senders rs),
)
