-- ===== src/Gateway/Calls.antt =====
-- gateway/transfer.go: what a call leaves of the ledgers of the banks.
use paxos_2pc_payments.Base.{
  ℕ, zero, suc, ◌+◌, ◌≡◌, inl, inr, refl, Bool, true, false, Option, none, some, List, [], ◌∷◌,
  ◌==◌, arith, if◌then◌else◌, lookup, insert, lookup-insert, subst, sym, Option-cases,
}
use paxos_2pc_payments.Status.{not_found, unavailable, Status, retriable}
use paxos_2pc_payments.Accounts.{Io}
use paxos_2pc_payments.Bank.{
  Participant, Append, cmd_commit, Command, Answer, done, refused, apply_command, has,
}
use paxos_2pc_payments.Bank.Once.{apply_command-Has}
use paxos_2pc_payments.Bank.Settled.{SettledIn, apply_command-SettledIn, apply_command-settles}
use paxos_2pc_payments.Gateway.{
  World, Delivery, lost, unheard, heard, Call, apply_at, interfere, deliver, rpc, after_attempt,
  commit_loop,
}

-- The ledger of a bank has a key.
abbrev pub booked : World → ℕ → ℕ → Bool
booked w name k = elim (lookup name w) [ none ↦ false | some p ↦ has p.ledger k ]

abbrev pub SettledOf : Option Participant → Type 0
SettledOf none = Unit
SettledOf (some p) = SettledIn p

-- At every bank, settled reservations are of settled keys.
abbrev pub Sound : World → Type 0
Sound w = (name : ℕ) → SettledOf (lookup name w)

apply_at-booked :
    (io : Io) (append : Append) (w : World) (name : ℕ) (c : Command) (b k : ℕ)
    → booked w b k ≡ true
    → booked (apply_at io append w name c).0 b k ≡ true
unfolding apply_at
apply_at-booked io append w name c b k h = elim (Option-cases (lookup name w)) [
  | inl gone ↦ ground arith
  | inr (p, there) ↦ ground (
    arith,
    lookup-insert b name (apply_command io append p c).0 w,
    apply_command-Has io append p c k,
  )
]

interfere-booked :
    (w : World) (cs : List (ℕ × Io × Append × Command)) (b k : ℕ)
    → booked w b k ≡ true
    → booked (interfere w cs) b k ≡ true
unfolding interfere
interfere-booked w [] b k h = h
interfere-booked w ((name, io, append, c) ∷ cs) b k h =
    interfere-booked (apply_at io append w name c).0 cs b k
      (apply_at-booked io append w name c b k h)

deliver-booked :
    (d : Delivery) (io : Io) (append : Append) (w : World) (name : ℕ) (c : Command) (b k : ℕ)
    → booked w b k ≡ true
    → booked (deliver d io append w name c).0 b k ≡ true
deliver-booked (lost s) io append w name c b k h = h
deliver-booked (unheard s) io append w name c b k h = apply_at-booked io append w name c b k h
deliver-booked heard io append w name c b k h = apply_at-booked io append w name c b k h

-- A key of a ledger survives every call.
pub rpc-booked :
    (call : Call) (w : World) (name : ℕ) (c : Command) (b k : ℕ)
    → booked w b k ≡ true
    → booked (rpc call w name c).0 b k ≡ true
unfolding rpc
rpc-booked call w name c b k h =
    deliver-booked call.delivery call.io call.append (interfere w call.others) name c b k
      (interfere-booked w call.others b k h)

-- What holds however an attempt ends, and of the rest of the loop, holds of the loop.
pub after_attempt-elim :
    (P : World × Option Status → Type 0) (w : World) (o : Option Participant) (out : World × Answer)
    (next : Status → World × Option Status)
    → P (w, some not_found)
    → ((x : Bool) → out.1 ≡ done x → P (out.0, none))
    → ((s : Status) → P (out.0, some s))
    → ((s : Status) → P (next s))
    → P (after_attempt w o out next)
after_attempt-elim P w none out next gone finished stopped again = gone
after_attempt-elim P w (some _) (w', done x) next gone finished stopped again = finished x refl
after_attempt-elim P w (some _) (w', refused s) next gone finished stopped again =
    by_retry (retriable s)
  where
    by_retry : (x : Bool) → P (if x then next s else (w', some s))
    by_retry true = again s
    by_retry false = stopped s

pub commit_loop-booked :
    (calls : ℕ → Call) (left attempt : ℕ) (last : Option Status) (w : World) (name : ℕ)
    (c : Command) (b k : ℕ)
    → booked w b k ≡ true
    → booked (commit_loop calls left attempt last w name c).0 b k ≡ true
unfolding commit_loop
commit_loop-booked calls zero attempt last w name c b k h = h
commit_loop-booked calls (suc left) attempt last w name c b k h =
    let (w', a) = rpc (calls attempt) w name c in
    let h' = rpc-booked (calls attempt) w name c b k h in
    after_attempt-elim (λ out. booked out.0 b k ≡ true) w (lookup name w)
      (rpc (calls attempt) w name c) (λ s. commit_loop calls left (attempt + 1) (some s) w' name c)
      h (λ x e. h') (λ s. h')
      (λ s. commit_loop-booked calls left (attempt + 1) (some s) w' name c b k h')

pub insert-Sound :
    (w : World) (name : ℕ) (p : Participant) → Sound w → SettledIn p → Sound (insert name p w)
insert-Sound w name p h k b =
    subst (λ o. SettledOf o) (sym (lookup-insert b name p w)) (by_name (name == b))
  where
    by_name : (x : Bool) → SettledOf (if x then some p else lookup b w)
    by_name true = k
    by_name false = h b

pub apply_at-Sound :
    (io : Io) (append : Append) (w : World) (name : ℕ) (c : Command)
    → Sound w
    → Sound (apply_at io append w name c).0
unfolding apply_at
apply_at-Sound io append w name c h = by_bank (lookup name w) (h name)
  where
    by_bank :
        (o : Option Participant)
        → SettledOf o
        → Sound
            (elim o as (λ x. World × Answer) [
              | none ↦ (w, refused unavailable)
              | some p ↦
                  (insert name (apply_command io append p c).0 w, (apply_command io append p c).1)
            ]).0
    by_bank none s = h
    by_bank (some p) s =
        insert-Sound w name (apply_command io append p c).0 h
          (apply_command-SettledIn io append p c s)

pub interfere-Sound :
    (w : World) (cs : List (ℕ × Io × Append × Command)) → Sound w → Sound (interfere w cs)
unfolding interfere
interfere-Sound w [] h = h
interfere-Sound w ((name, io, append, c) ∷ cs) h =
    interfere-Sound (apply_at io append w name c).0 cs (apply_at-Sound io append w name c h)

pub rpc-Sound :
    (call : Call) (w : World) (name : ℕ) (c : Command) → Sound w → Sound (rpc call w name c).0
unfolding rpc
rpc-Sound call w name c h = by_delivery call.delivery
  where
    w₁ : World
    w₁ = interfere w call.others

    by_delivery : (d : Delivery) → Sound (deliver d call.io call.append w₁ name c).0
    by_delivery (lost s) = interfere-Sound w call.others h
    by_delivery (unheard s) =
        apply_at-Sound call.io call.append w₁ name c (interfere-Sound w call.others h)
    by_delivery heard =
        apply_at-Sound call.io call.append w₁ name c (interfere-Sound w call.others h)

-- A commit that is heard to succeed is in the ledger.
apply_at-settles :
    (io : Io) (append : Append) (w : World) (name : ℕ) (c : Command) (x : Bool)
    → c.kind ≡ cmd_commit
    → Sound w
    → (apply_at io append w name c).1 ≡ done x
    → booked (apply_at io append w name c).0 name c.key ≡ true
unfolding apply_at
apply_at-settles io append w name c x kind h e = elim (Option-cases (lookup name w)) [
  | inl gone ↦ absurd (ground arith)
  | inr (p, there) ↦ ground (
    arith,
    lookup-insert name name (apply_command io append p c).0 w,
    apply_command-settles io append p c x kind (subst (λ o. SettledOf o) there (h name)),
  )
]

rpc-settles :
    (call : Call) (w : World) (name : ℕ) (c : Command) (x : Bool)
    → c.kind ≡ cmd_commit
    → Sound w
    → (rpc call w name c).1 ≡ done x
    → booked (rpc call w name c).0 name c.key ≡ true
unfolding rpc
rpc-settles call w name c x kind h = by_delivery call.delivery
  where
    by_delivery :
        (d : Delivery)
        → (deliver d call.io call.append (interfere w call.others) name c).1 ≡ done x
        → booked (deliver d call.io call.append (interfere w call.others) name c).0 name c.key
          ≡ true
    by_delivery (lost s) e = absurd (ground arith)
    by_delivery (unheard s) e = absurd (ground arith)
    by_delivery heard e =
        apply_at-settles call.io call.append (interfere w call.others) name c x kind
          (interfere-Sound w call.others h) e

pub commit_loop-Sound :
    (calls : ℕ → Call) (left attempt : ℕ) (last : Option Status) (w : World) (name : ℕ)
    (c : Command)
    → Sound w
    → Sound (commit_loop calls left attempt last w name c).0
unfolding commit_loop
commit_loop-Sound calls zero attempt last w name c h = h
commit_loop-Sound calls (suc left) attempt last w name c h =
    let (w', a) = rpc (calls attempt) w name c in
    let h' = rpc-Sound (calls attempt) w name c h in
    after_attempt-elim (λ out. Sound out.0) w (lookup name w) (rpc (calls attempt) w name c)
      (λ s. commit_loop calls left (attempt + 1) (some s) w' name c) h (λ x e. h') (λ s. h')
      (λ s. commit_loop-Sound calls left (attempt + 1) (some s) w' name c h')

-- A loop that has an attempt left, or an error already.
abbrev pub Pending : ℕ → Option Status → Type 0
Pending zero none = ⊥
Pending _ _ = Unit

-- The success of the loop is that of one of the calls.
pub commit_loop-settles :
    (calls : ℕ → Call) (left attempt : ℕ) (last : Option Status) (w : World) (name : ℕ)
    (c : Command)
    → c.kind ≡ cmd_commit
    → Sound w
    → Pending left last
    → (commit_loop calls left attempt last w name c).1 ≡ none
    → booked (commit_loop calls left attempt last w name c).0 name c.key ≡ true
unfolding commit_loop
commit_loop-settles calls zero attempt none w name c kind h go = elim go [ ]
commit_loop-settles calls zero attempt (some s) w name c kind h go = λ e. absurd (ground arith)
commit_loop-settles calls (suc left) attempt last w name c kind h go =
    let (w', a) = rpc (calls attempt) w name c in
    after_attempt-elim (λ out. out.1 ≡ none → booked out.0 name c.key ≡ true) w (lookup name w)
      (rpc (calls attempt) w name c) (λ s. commit_loop calls left (attempt + 1) (some s) w' name c)
      (λ e. absurd (ground arith)) (λ x e f. rpc-settles (calls attempt) w name c x kind h e)
      (λ s e. absurd (ground arith))
      (λ s.
        commit_loop-settles calls left (attempt + 1) (some s) w' name c kind
          (rpc-Sound (calls attempt) w name c h) (pending left s))
  where
    pending : (n : ℕ) (s : Status) → Pending n (some s)
    pending zero s = tt
    pending (suc n) s = tt
