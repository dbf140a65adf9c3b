-- ===== src/Paxos/Cluster/Marks.antt =====
-- internal/paxos/node.go: the entries that `catchUp` chooses, and the slots that it marks.
use paxos_2pc_payments.Base.{
  ℕ, ◌+◌, ◌-◌, ◌≡◌, ◌≢◌, ◌⊎◌, inl, inr, refl, Option, none, some, List, [], ◌∷◌, Bool, true, false,
  not, Bool-cases, arith, if◌then◌else◌, ◌==◌, In, Dict, lookup, insert, lookup-insert,
}
use paxos_2pc_payments.Paxos.Log.{Entry, bytes_equal}
use paxos_2pc_payments.Paxos.Node.{Node, Env, Message, mark_committed, is_committed}
use paxos_2pc_payments.Paxos.Node.Replication.{adopt_all, differs, catch_up, chosen}

bytes_equal→eq : (xs ys : List ℕ) → bytes_equal xs ys ≡ true → xs ≡ ys
unfolding bytes_equal
bytes_equal→eq [] [] h = refl
bytes_equal→eq [] (y ∷ ys) h = absurd (ground arith)
bytes_equal→eq (x ∷ xs) [] h = absurd (ground arith)
bytes_equal→eq (x ∷ xs) (y ∷ ys) h = ground (arith, bytes_equal→eq xs ys)

-- An entry that does not differ is the same.
pub not_differs : (have e : Entry) → differs (some have) e ≡ false → have.slot ≡ e.slot → have ≡ e
not_differs have e h slot = ground (arith, bytes_equal→eq have.command e.command)

pub In-chosen :
    (d : Dict Entry) (es : List Entry) (s : ℕ) (e : Entry)
    → lookup s (chosen d es) ≡ some e
    → (lookup s d ≡ some e) ⊎ ((e.slot ≡ s) × In e es)
unfolding chosen
In-chosen d [] s e h = inl h
In-chosen d (x ∷ es) s e h = elim (In-chosen (insert x.slot x d) es s e h) [
  | inr (slot, there) ↦ inr (slot, inr there)
  | inl held ↦ elim (Bool-cases (x.slot == s)) [
    | inl same ↦ inr (
      ground (arith, lookup-insert s x.slot x d),
      inl (ground (arith, lookup-insert s x.slot x d)),
    )
    | inr other ↦ inl (ground (arith, lookup-insert s x.slot x d))
  ]
]

pub slot_cases : (s t : ℕ) → (s ≡ t) ⊎ (s ≢ t)
slot_cases s t = ground arith

pub no_entry : (s : ℕ) (e : Entry) → lookup s [] ≡ some e → ⊥
unfolding lookup
no_entry s e h = ground arith

-- A slot that is marked was marked before, or is among those named.
pub mark_committed-In :
    (n : Node) (ss : List ℕ) (s : ℕ)
    → is_committed (mark_committed n ss) s ≡ true
    → (is_committed n s ≡ true) ⊎ In s ss
unfolding mark_committed
mark_committed-In n [] s h = inl h
mark_committed-In n (t ∷ ss) s h =
    elim (mark_committed-In (record n { committed = insert t true n.committed }) ss s h) [
      | inr named ↦ inr (inr named)
      | inl marked ↦ elim (Bool-cases (t == s)) [
        | inl same ↦ inr (inl (ground arith))
        | inr other ↦ inl (ground (arith, lookup-insert s t true n.committed))
      ]
    ]

-- The ends of `catchUp`.
pub catch_up-elim :
    (P : Node → Type 0) (env : Env) (n : Node) (first last : ℕ) (reply : Option Message)
    → P (record n { catching_up = false })
    → ((r : Message)
        → reply ≡ some r
        → (let (l, slots) =
              adopt_all env.disk (chosen [] r.entries) (last + 1 - first) first n.log [] in
            P (mark_committed (record n { catching_up = false; log = l }) slots)))
    → P (catch_up env n first last reply)
unfolding catch_up
catch_up-elim P env n first last none gone served = gone
catch_up-elim P env n first last (some r) gone served = by_answer r.ok
  where
    by_answer :
        (x : Bool)
        → P (
            if not x
            then record n { catching_up = false }
            else (let (l, slots) =
                  adopt_all env.disk (chosen [] r.entries) (last + 1 - first) first n.log [] in
                mark_committed (record n { catching_up = false; log = l }) slots))
    by_answer false = gone
    by_answer true = served r refl
