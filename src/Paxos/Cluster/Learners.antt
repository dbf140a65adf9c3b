-- ===== src/Paxos/Cluster/Learners.antt =====
-- internal/paxos/node.go: the invariant of the group, for `catchUp` and the end of `replicate`.
use paxos_2pc_payments.Base.{
  ℕ, zero, suc, ◌+◌, ◌-◌, ◌≤◌, ◌≡◌, ◌⊎◌, inl, inr, refl, sym, ◌∙◌, ap, subst, Option, none, some,
  List, [], ◌∷◌, ◌++◌, Bool, true, false, arith, In, if◌then◌else◌, Dict, lookup, length,
}
use paxos_2pc_payments.Paxos.Ballot.{Ballot, ◌≼◌, less_irrefl, majority}
use paxos_2pc_payments.Paxos.Log.{Log, Entry, Disk, get, accept}
use paxos_2pc_payments.Paxos.Log.Entries.{IsValid, accept-IsValid}
use paxos_2pc_payments.Paxos.Node.{Node, Env, Message, is_committed, quorum}
use paxos_2pc_payments.Paxos.Node.Handlers.{Fetch}
use paxos_2pc_payments.Paxos.Node.Replication.{
  replicate_end, count, votes, catch_up, adopt_all, adopt, differs, chosen,
}
use paxos_2pc_payments.Paxos.Elected.{oks}
use paxos_2pc_payments.Paxos.Spec.{Elected, Run, here, next}
use paxos_2pc_payments.Paxos.Spec.Safe.{Elected-Settled}
use paxos_2pc_payments.Paxos.Cluster.{
  Cluster, spec_of, on_conclude, on_catch_up, FromOthers, Accepted,
}
use paxos_2pc_payments.Paxos.Cluster.Roles.{
  replicate_end-elim, replicate_end-Follows, step_down-Keeps, catch_up-Follows, mark_committed_lem,
}
use paxos_2pc_payments.Paxos.Cluster.Logs.{IsValid-same}
use paxos_2pc_payments.Paxos.Cluster.Views.{raise-Step}
use paxos_2pc_payments.Paxos.Cluster.Adopts.{on_catch_up-Run}
use paxos_2pc_payments.Paxos.Cluster.Marks.{catch_up-elim, mark_committed-In}
use paxos_2pc_payments.Paxos.Cluster.Answers.{ok_senders, ok_senders-In, voters-IsQuorum}
use paxos_2pc_payments.Paxos.Cluster.Kept.{ClusterInv, Holds, Holds-kept, Settled-newer}
use paxos_2pc_payments.Paxos.Cluster.Moved.{moved, later, node_at_self, all_leads-kept}

-- The votes of a round that was not superseded.
count-oks :
    (b : Ballot) (v : ℕ) (rs : List Message) (k : ℕ) → count b v rs ≡ votes k → k ≡ v + oks rs
unfolding count
count-oks b v [] k e = ground arith
count-oks b v (r ∷ rs) k e = ground (arith, count-oks b (v + 1) rs k, count-oks b v rs k)

adopt_all-IsValid :
    (disk : Disk) (d : Dict Entry) (k slot : ℕ) (l : Log) (slots : List ℕ)
    → IsValid l
    → IsValid (adopt_all disk d k slot l slots).0
unfolding adopt_all
adopt_all-IsValid disk d zero slot l slots v = v
adopt_all-IsValid disk d (suc k) slot l slots v =
    by_lookup (λ l₁ w. adopt_all-IsValid disk d k (slot + 1) l₁ (slots ++ slot ∷ []) w)
      (lookup slot d)
  where
    adopted : (e : Entry) → IsValid (adopt disk l slot e).0
    adopted e = by_local (differs (get l slot) e)
      where
        by_local : (x : Bool) → IsValid (if x then accept l disk e else (l, true)).0
        by_local true = accept-IsValid l disk e v
        by_local false = v

    by_lookup :
        ((l₁ : Log)
          → IsValid l₁
          → IsValid (adopt_all disk d k (slot + 1) l₁ (slots ++ slot ∷ [])).0)
        → (o : Option Entry)
        → IsValid
            (elim o as (λ x. Log × List ℕ) [
              | none ↦ (l, slots)
              | some e ↦
                  let next =
                    adopt_all disk d k (slot + 1) (adopt disk l slot e).0 (slots ++ slot ∷ []) in
                  if (adopt disk l slot e).1 then next else ((adopt disk l slot e).0, slots)
            ]).0
    by_lookup rest none = v
    by_lookup rest (some e) = by_answer (adopt disk l slot e).1
      where
        by_answer :
            (x : Bool)
            → IsValid
                (let next =
                    adopt_all disk d k (slot + 1) (adopt disk l slot e).0 (slots ++ slot ∷ []) in
                  let out : Log × List ℕ = (if x then next else ((adopt disk l slot e).0, slots)) in
                  out).0
        by_answer true = rest (adopt disk l slot e).0 (adopted e)
        by_answer false = adopted e

catch_up-IsValid :
    (env : Env) (n : Node) (first last : ℕ) (reply : Option Message)
    → IsValid n.log
    → IsValid (catch_up env n first last reply).log
catch_up-IsValid env n first last reply v =
    catch_up-elim (λ m. IsValid m.log) env n first last reply v
      (λ r e.
        let (l, slots) =
          adopt_all env.disk (chosen [] r.entries) (last + 1 - first) first n.log [] in
        rw (ap (λ m. m.log) (mark_committed_lem (record n { catching_up = false; log = l }) slots))
          (adopt_all-IsValid env.disk (chosen [] r.entries) (last + 1 - first) first n.log [] v))

module _ (group : List ℕ) (env : Env) (c : Cluster) (inv : ClusterInv group c) (a : ℕ) where
  pub catching_up-ClusterInv :
      (f : Fetch) (reply : Option Message)
      → ((r : Message)
          → reply ≡ some r
          → In (record { requester = a; fetch = f; reply = r }) c.served)
      → ClusterInv group (on_catch_up env a f reply c)
  unfolding on_catch_up
  catching_up-ClusterInv fetch reply served =
      let n = catch_up env (c.nodes a) fetch.first fetch.last reply in
      let d = on_catch_up env a fetch reply c in
      let f = catch_up-Follows env (c.nodes a) fetch.first fetch.last reply in
      let (run, learned) =
        on_catch_up-Run group c a env fetch reply inv.spec
          (λ r e. inv.served (record { requester = a; fetch = fetch; reply = r }) (served r e)) in
      moved group c d a n inv refl run (f.0, f.1)
        (catch_up-IsValid env (c.nodes a) fetch.first fetch.last reply (inv.valid a)) (λ e h. inl h)
        (all_leads-kept group c d a n inv refl run f (λ j b slot h. h) (λ j x h. h) (λ e h. h))
        (λ s h.
          let self = ap (λ m. get m.log s) (node_at_self group c d a n inv refl run) in
          elim (learned s h) [
            | inr (x, held, settled) ↦ (x, self ∙ held, settled)
            | inl (old, same) ↦
                Holds-kept group c d (later group c d a n inv refl run) a s (self ∙ same)
                  (inv.committed a s old)
          ])
        inv.served

  module _ (e : Entry) (rs : List Message) (member : In a group) (voted : In (a, e) c.votes)
      (others : FromOthers group a rs)
      (answered : (r : Message) → In r rs → Accepted c e.ballot e.slot r) where
    -- A quorum of answers elects the entry.
    elected : majority (length group) ≤ oks rs + 1 → Elected group (spec_of c) e
    elected enough = (
      a ∷ ok_senders rs,
      voters-IsQuorum group a rs member others enough,
      λ j h. elim h [
        | inl self ↦ rw self voted
        | inr other ↦
            let (r, there, ok, eq) = ok_senders-In j rs other in
            let (x, vote, slot, ballot) = answered r there ok in
            let command =
              inv.spec.one_command x e (inv.spec.vote_proposed r.sender x vote)
                (inv.spec.vote_proposed a e voted) (slot, ballot) in
            rw eq (subst (λ y. In (r.sender, y) c.votes) (cc (slot, ballot, command)) vote)
      ],
    )

    elected-Holds : Elected group (spec_of c) e → Holds group c a e.slot
    elected-Holds el =
        let (x, held, covers) = inv.spec.vote_held a e voted in
        let (slot, proposed) = inv.spec.held_proposed a e.slot x held in
        elim covers [
          | inr settled ↦ (x, held, settled)
          | inl newer ↦ (
            x,
            held,
            Settled-newer group (spec_of c) e x inv.spec
                (Elected-Settled group (spec_of c) inv.spec e el) proposed (sym slot) newer,
          )
        ]

    abbrev Concluded : Node → Type 0
    Concluded n =
        (n.log.entries ≡ (c.nodes a).log.entries)
        × (n.log.max_slot ≡ (c.nodes a).log.max_slot)
        × ((c.nodes a).log.promised ≼ n.log.promised)
        × ((s : ℕ)
            → is_committed n s ≡ true
            → (is_committed (c.nodes a) s ≡ true) ⊎ ((s ≡ e.slot) × Elected group (spec_of c) e))

    concluded : Concluded (replicate_end env (c.nodes a) e.ballot e.slot rs).0
    unfolding quorum
    concluded =
        replicate_end-elim Concluded env (c.nodes a) e.ballot e.slot rs
          (refl, refl, less_irrefl (c.nodes a).log.promised, λ s h. inl h)
          (λ k eq enough. rw (ap (λ m. m.log) (mark_committed_lem (c.nodes a) (e.slot ∷ []))) (
            refl,
            refl,
            less_irrefl (c.nodes a).log.promised,
            λ s h. elim (mark_committed-In (c.nodes a) (e.slot ∷ []) s h) [
              | inl old ↦ inl old
              | inr (inl now) ↦ inr (now, elected (majority_reached k eq enough))
              | inr (inr none_there) ↦ absurd none_there
            ],
          ))
          (λ seen.
            let (entries, highest, committed, up) = step_down-Keeps env seen (c.nodes a) in
            (entries, highest, up, λ s h. inl (ground arith)))
      where
        majority_reached :
            (k : ℕ)
            → count e.ballot 1 rs ≡ votes k
            → quorum (c.nodes a) ≤ k
            → majority (length group) ≤ oks rs + 1
        majority_reached k eq enough = omega (
          arith,
          count-oks e.ballot 1 rs k eq,
          subst (λ g. majority (length g) ≤ k) (inv.wired a).1 enough,
        )

    pub conclude-ClusterInv : ClusterInv group (on_conclude env a e.ballot e.slot rs c)
    unfolding on_conclude get
    conclude-ClusterInv =
        let n = (replicate_end env (c.nodes a) e.ballot e.slot rs).0 in
        let d = on_conclude env a e.ballot e.slot rs c in
        let f = replicate_end-Follows env (c.nodes a) e.ballot e.slot rs in
        let (entries, highest, up, committed) = concluded in
        let run : Run group (spec_of c) (spec_of d) =
          next here (raise-Step group c a n entries up) in
        moved group c d a n inv refl run (f.0, f.1)
          (IsValid-same (c.nodes a).log n.log (inv.valid a) entries highest) (λ x h. inl h)
          (all_leads-kept group c d a n inv refl run f (λ j b first h. h) (λ j x h. h) (λ x h. h))
          (λ s h.
            Holds-kept group c d (later group c d a n inv refl run) a s
              (ap (λ m. get m.log s) (node_at_self group c d a n inv refl run)
                ∙ ap (λ es. lookup s es) entries)
              (elim (committed s h) [
                | inl old ↦ inv.committed a s old
                | inr (now, el) ↦ rw now (elected-Holds el)
              ]))
          inv.served
