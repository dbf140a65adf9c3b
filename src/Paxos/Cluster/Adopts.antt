-- ===== src/Paxos/Cluster/Adopts.antt =====
-- internal/paxos/node.go: `catchUp` as steps of Spec.antt.
use paxos_2pc_payments.Base.{
  ℕ, zero, suc, ◌+◌, ◌-◌, ◌≤◌, ◌<◌, ◌≡◌, ◌≢◌, ◌⊎◌, inl, inr, refl, sym, ◌∙◌, ap, subst, Option,
  none, some, List, [], ◌∷◌, ◌++◌, Bool, true, false, arith, if◌then◌else◌, In, In-append, Dict,
  lookup, lookup-insert,
}
use paxos_2pc_payments.Paxos.Ballot.{less_irrefl}
use paxos_2pc_payments.Paxos.Log.{Log, Entry, Disk, get, accept}
use paxos_2pc_payments.Paxos.Node.{Node, Env, Message, mark_committed, is_committed}
use paxos_2pc_payments.Paxos.Node.Replication.{adopt, adopt_all, differs, catch_up, chosen}
use paxos_2pc_payments.Paxos.Accepts.{accept-done, accept-failed}
use paxos_2pc_payments.Paxos.Spec.{
  Spec, Settled, Inv, Step, learn, promise, Run, Run_trans, here, next,
}
use paxos_2pc_payments.Paxos.Spec.Kept.{Run-Inv, Later, Step-Settled}
use paxos_2pc_payments.Paxos.Node.Handlers.{Fetch}
use paxos_2pc_payments.Paxos.Cluster.{Cluster, spec_of, with_node, on_catch_up}
use paxos_2pc_payments.Paxos.Cluster.Roles.{mark_committed_lem}
use paxos_2pc_payments.Paxos.Cluster.Views.{raise-Step}
use paxos_2pc_payments.Paxos.Cluster.Stores.{with_log}
use paxos_2pc_payments.Paxos.Cluster.Marks.{
  not_differs, In-chosen, slot_cases, no_entry, mark_committed-In, catch_up-elim,
}

module _ (group : List ℕ) (c : Cluster) (a : ℕ) where
  abbrev view : Log → Spec
  view l = spec_of (with_node a (with_log (c.nodes a) l) c)

  -- The slot holds a settled entry.
  abbrev Learned : Log → ℕ → Type 0
  Learned l s = (x : Entry) × (get l s ≡ some x) × Settled group (view l) x

  abbrev Adopted : Log → ℕ → List ℕ → Log × List ℕ → Type 0
  Adopted l slot slots (l', slots') =
      Run group (view l) (view l')
      × ((s : ℕ) → s < slot → get l' s ≡ get l s)
      × ((s : ℕ) → In s slots' → In s slots ⊎ Learned l' s)
      × ((s : ℕ) → (get l' s ≡ get l s) ⊎ Learned l' s)

  nothing-Adopted : (l : Log) (slot : ℕ) (slots : List ℕ) → Adopted l slot slots (l, slots)
  nothing-Adopted l slot slots = (here, λ s h. refl, λ s h. inl h, λ s. inl refl)

  abbrev Served : Dict Entry → ℕ → ℕ → Spec → Type 0
  Served d k slot σ =
      (s : ℕ) (e : Entry)
      → slot ≤ s
      → s < slot + k
      → lookup s d ≡ some e
      → (e.slot ≡ s) × Settled group σ e

  -- One slot is adopted.
  learn-Step :
      (disk : Disk) (l : Log) (e : Entry)
      → (accept l disk e).1 ≡ true
      → Settled group (view l) e
      → Step group (view l) (view (accept l disk e).0)
  unfolding get
  learn-Step disk l e ok settled =
      learn a e settled (λ j. ground (arith, accept-done l disk e ok))
        (λ j s. ground (arith, accept-done l disk e ok, lookup-insert s e.slot e l.entries)) refl
        refl refl

  same-Step :
      (l l₁ : Log)
      → l₁.entries ≡ l.entries
      → l₁.promised ≡ l.promised
      → Step group (view l) (view l₁)
  unfolding get
  same-Step l l₁ entries promised =
      promise a l₁.promised (ground (arith, less_irrefl l.promised)) (λ j. ground arith)
        (λ j s. ground arith) refl refl refl

  -- The slots behind an adopted one.
  Adopted-rest :
      (l l₁ : Log) (slot : ℕ) (slots : List ℕ) (e : Entry) (out : Log × List ℕ)
      → Inv group (view l)
      → Run group (view l) (view l₁)
      → ((s : ℕ) → s ≢ slot → get l₁ s ≡ get l s)
      → get l₁ slot ≡ some e
      → Settled group (view l) e
      → Adopted l₁ (slot + 1) (slots ++ slot ∷ []) out
      → Adopted l slot slots out
  Adopted-rest l l₁ slot slots e (l', slots') v r same held settled (run, kept, learned, every) = (
    all,
    λ s h. kept s (omega arith) ∙ same s (λ e. omega (arith, e)),
    λ s h. elim (learned s h) [
      | inr new ↦ inr new
      | inl old ↦ elim (In-append s slots (slot ∷ []) old) [
        | inl before ↦ inl before
        | inr (inl now) ↦
            inr (e, rw now (kept slot (omega arith) ∙ held), later.settled_kept e settled)
        | inr (inr none_there) ↦ absurd none_there
      ]
    ],
    λ s. elim (every s) [
      | inr new ↦ inr new
      | inl old ↦ elim (slot_cases s slot) [
        | inl now ↦ inr (e, old ∙ rw now held, later.settled_kept e settled)
        | inr other ↦ inl (old ∙ same s other)
      ]
    ],
  )
    where
      all : Run group (view l) (view l')
      all = Run_trans group (view l) (view l₁) (view l') r run

      later : Later group (view l) (view l')
      later = (Run-Inv group (view l) v all).1

  -- The loop of `catchUp` over slots that were served.
  adopt_all-Adopted :
      (disk : Disk) (d : Dict Entry) (k slot : ℕ) (l : Log) (slots : List ℕ)
      → Inv group (view l)
      → Served d k slot (view l)
      → Adopted l slot slots (adopt_all disk d k slot l slots)
  unfolding adopt_all get
  adopt_all-Adopted disk d zero slot l slots v served = nothing-Adopted l slot slots
  adopt_all-Adopted disk d (suc k) slot l slots v served =
      by_lookup (λ l₁ w sv. adopt_all-Adopted disk d k (slot + 1) l₁ (slots ++ slot ∷ []) w sv)
        (lookup slot d) refl
    where
      Rest : Type 0
      Rest =
          (l₁ : Log)
          → Inv group (view l₁)
          → Served d k (slot + 1) (view l₁)
          → Adopted l₁ (slot + 1) (slots ++ slot ∷ [])
              (adopt_all disk d k (slot + 1) l₁ (slots ++ slot ∷ []))

      later_served : (l₁ : Log) → Run group (view l) (view l₁) → Served d k (slot + 1) (view l₁)
      later_served l₁ r s e h j there =
          let (own, settled) = served s e (omega arith) (omega arith) there in
          (own, (Run-Inv group (view l) v r).1.settled_kept e settled)

      -- The slot is in the log now, and the loop goes on.
      go_on :
          Rest
          → (l₁ : Log) (e : Entry) → Run group (view l) (view l₁)
          → ((s : ℕ) → s ≢ slot → get l₁ s ≡ get l s)
          → get l₁ slot ≡ some e
          → Settled group (view l) e
          → Adopted l slot slots (adopt_all disk d k (slot + 1) l₁ (slots ++ slot ∷ []))
      go_on rest l₁ e r same held settled =
          Adopted-rest l l₁ slot slots e (adopt_all disk d k (slot + 1) l₁ (slots ++ slot ∷ [])) v r
            same held settled (rest l₁ (Run-Inv group (view l) v r).0 (later_served l₁ r))

      by_disk :
          Rest
          → (e : Entry) (out : Log × Bool) → accept l disk e ≡ out
          → e.slot ≡ slot
          → Settled group (view l) e
          → Adopted l slot slots (
              if out.1
              then adopt_all disk d k (slot + 1) out.0 (slots ++ slot ∷ [])
              else (out.0, slots))
      by_disk rest e (l₁, true) eq own settled =
          let ok : (accept l disk e).1 ≡ true = ap (λ x. x.1) eq in
          go_on rest l₁ e
            (next here (
              subst (λ x. Step group (view l) (view x)) (ap (λ x. x.0) eq)
                (learn-Step disk l e ok settled)))
            (λ s h. ground (arith, accept-done l disk e ok, lookup-insert s e.slot e l.entries))
            (ground (arith, accept-done l disk e ok, lookup-insert slot e.slot e l.entries)) settled
      by_disk rest e (l₁, false) eq own settled =
          let f = accept-failed l disk e (ap (λ x. x.1) eq) in
          (
            next here (same-Step l l₁ (ground arith) (ground arith)),
            λ s h. ground arith,
            λ s h. inl h,
            λ s. inl (ground arith),
          )

      by_local :
          Rest
          → (e : Entry) (o : Option Entry) (x : Bool) → get l slot ≡ o
          → differs o e ≡ x
          → e.slot ≡ slot
          → Settled group (view l) e
          → (let out = (if x then accept l disk e else (l, true)) in
              Adopted l slot slots (
                if out.1
                then adopt_all disk d k (slot + 1) out.0 (slots ++ slot ∷ [])
                else (out.0, slots)))
      by_local rest e o true held eq own settled = by_disk rest e (accept l disk e) refl own settled
      by_local rest e none false held eq own settled = absurd (ground arith)
      by_local rest e (some have) false held eq own settled =
          go_on rest l e here (λ s h. refl)
            (held
              ∙ ap some (
                  not_differs have e eq ((v.held_proposed a slot have (ground arith)).0 ∙ sym own)))
            settled

      by_lookup :
          Rest
          → (o : Option Entry) → lookup slot d ≡ o
          → Adopted l slot slots (elim o as (λ x. Log × List ℕ) [
            | none ↦ (l, slots)
            | some e ↦
                let next =
                  adopt_all disk d k (slot + 1) (adopt disk l slot e).0 (slots ++ slot ∷ []) in
                if (adopt disk l slot e).1 then next else ((adopt disk l slot e).0, slots)
          ])
      by_lookup rest none eq = nothing-Adopted l slot slots
      by_lookup rest (some e) eq =
          let (own, settled) = served slot e (omega arith) (omega arith) eq in
          by_local rest e (get l slot) (differs (get l slot) e) refl refl own settled

  end-Step : (l : Log) (n : Node) → n.log ≡ l → Step group (view l) (spec_of (with_node a n c))
  end-Step l n same =
      promise a l.promised (ground (arith, less_irrefl l.promised)) (λ j. ground arith)
        (λ j s. ground arith) refl refl refl

  -- A replica that catches up from entries that are settled learns them, and marks no other slot.
  pub on_catch_up-Run :
      (env : Env) (f : Fetch) (reply : Option Message)
      → Inv group (spec_of c)
      → ((r : Message)
          → reply ≡ some r
          → (e : Entry) → In e r.entries
          → f.first ≤ e.slot
          → e.slot ≤ f.last
          → Settled group (spec_of c) e)
      → Run group (spec_of c) (spec_of (on_catch_up env a f reply c))
        × ((s : ℕ)
            → is_committed (catch_up env (c.nodes a) f.first f.last reply) s ≡ true
            → ((is_committed (c.nodes a) s ≡ true)
                × (get (catch_up env (c.nodes a) f.first f.last reply).log s
                    ≡ get (c.nodes a).log s))
              ⊎ ((x : Entry) × (get (catch_up env (c.nodes a) f.first f.last reply).log s ≡ some x)
                  × Settled group (spec_of (on_catch_up env a f reply c)) x))
  unfolding on_catch_up
  on_catch_up-Run env f reply v served =
      catch_up-elim
        (λ n'.
          Run group (spec_of c) (spec_of (with_node a n' c))
          × ((s : ℕ)
              → is_committed n' s ≡ true
              → ((is_committed (c.nodes a) s ≡ true) × (get n'.log s ≡ get (c.nodes a).log s))
                ⊎ ((x : Entry) × (get n'.log s ≡ some x)
                    × Settled group (spec_of (with_node a n' c)) x)))
        env n f.first f.last reply
        (
          next here (
              raise-Step group c a (record n { catching_up = false }) refl
                (less_irrefl n.log.promised)),
          λ s h. inl (h, refl),
        )
        (λ r e.
          finish (adopt_all env.disk (chosen [] r.entries) (f.last + 1 - f.first) f.first n.log [])
            (adopt_all-Adopted env.disk (chosen [] r.entries) (f.last + 1 - f.first) f.first n.log
              [] (Run-Inv group (spec_of c) v begin).0 (from_reply r e)))
    where
      n : Node
      n = c.nodes a

      begin : Run group (spec_of c) (view n.log)
      begin = next here (raise-Step group c a (with_log n n.log) refl (less_irrefl n.log.promised))

      from_reply :
          (r : Message)
          → reply ≡ some r
          → Served (chosen [] r.entries) (f.last + 1 - f.first) f.first (view n.log)
      from_reply r eq s e h j there = elim (In-chosen [] r.entries s e there) [
        | inl never ↦ absurd (no_entry s e never)
        | inr (slot, among) ↦ (
          slot,
          (Run-Inv group (spec_of c) v begin).1.settled_kept e
              (served r eq e among (rw slot h) (rw slot (omega arith))),
        )
      ]

      settled_there :
          (l : Log) (n' : Node)
          → n'.log ≡ l
          → Run group (view n.log) (view l)
          → (s : ℕ) → Learned l s
          → (x : Entry) × (get n'.log s ≡ some x) × Settled group (spec_of (with_node a n' c)) x
      settled_there l n' same run s (x, held, settled) = (
        x,
        ap (λ m. get m s) same ∙ held,
        Step-Settled group (view l) (spec_of (with_node a n' c))
            (Run-Inv group (spec_of c) v
              (Run_trans group (spec_of c) (view n.log) (view l) begin run)).0
            (end-Step l n' same) x settled,
      )

      finish :
          (out : Log × List ℕ)
          → Adopted n.log f.first [] out
          → (let n' = mark_committed (record n { catching_up = false; log = out.0 }) out.1 in
              Run group (spec_of c) (spec_of (with_node a n' c))
              × ((s : ℕ)
                  → is_committed n' s ≡ true
                  → ((is_committed (c.nodes a) s ≡ true) × (get n'.log s ≡ get (c.nodes a).log s))
                    ⊎ ((x : Entry) × (get n'.log s ≡ some x)
                        × Settled group (spec_of (with_node a n' c)) x)))
      finish (l, slots) (run, kept, learned, every) =
          let same : (mark_committed (record n { catching_up = false; log = l }) slots).log ≡ l =
            ap (λ m. m.log)
              (mark_committed_lem (record n { catching_up = false; log = l }) slots) in
          let n' = mark_committed (record n { catching_up = false; log = l }) slots in
          (
            next (Run_trans group (spec_of c) (view n.log) (view l) begin run) (end-Step l n' same),
            λ s h. elim (mark_committed-In (record n { catching_up = false; log = l }) slots s h) [
              | inl old ↦ elim (every s) [
                | inl kept_there ↦ inl (old, ap (λ m. get m s) same ∙ kept_there)
                | inr new ↦ inr (settled_there l n' same run s new)
              ]
              | inr new ↦ elim (learned s new) [
                | inl never ↦ absurd never
                | inr there ↦ inr (settled_there l n' same run s there)
              ]
            ],
          )
