-- ===== src/Paxos/Log/Entries.antt =====
-- internal/paxos/log.go: the accepted entries that a log hands out.
use paxos_2pc_payments.Base.{
  ℕ, zero, suc, ◌+◌, ◌-◌, ◌≤◌, ◌≡◌, refl, Bool, true, false, Option, none, some, List, [], ◌∷◌,
  arith, ltb, leb, ◌==◌, if◌then◌else◌, Dict, lookup, lookup-insert, Option-cases, inl, inr, ◌&&◌,
  not,
}
use paxos_2pc_payments.Paxos.Log.{
  Entry, Log, cons_some, accept_durable, Disk, synced, cut_short, sync_failed, File, get, remember,
  accept, entries_from, scan, new_mem_log, append_line, append_part,
}

-- An entry stands under its own slot, and no slot is above the highest.
pub record IsValid (l : Log) : Type 0 where
  pub own_slot : (s : ℕ) (e : Entry) → lookup s l.entries ≡ some e → e.slot ≡ s
  pub below_max : (s : ℕ) (e : Entry) → lookup s l.entries ≡ some e → s ≤ l.max_slot

pub new_mem_log-IsValid : IsValid new_mem_log
unfolding new_mem_log lookup
new_mem_log-IsValid = record {
  own_slot = λ s e h. absurd (ground arith);
  below_max = λ s e h. absurd (ground arith);
}

remember-IsValid : (l : Log) (e : Entry) → IsValid l → IsValid (remember l e)
unfolding remember
remember-IsValid l e v = record {
  own_slot = λ s x h. ground (arith, v.own_slot s x, lookup-insert s e.slot e l.entries);
  below_max = λ s x h. ground (arith, v.below_max s x, lookup-insert s e.slot e l.entries);
}

same-IsValid : (l : Log) (f : File) → IsValid l → IsValid (record l { file = f })
same-IsValid l f v = record { own_slot = v.own_slot; below_max = v.below_max }

-- Whatever the disk does, `Accept` keeps the log valid.
pub accept-IsValid : (l : Log) (disk : Disk) (e : Entry) → IsValid l → IsValid (accept l disk e).0
unfolding accept
accept-IsValid l disk e v = by_flags l.durable l.closed disk
  where
    by_flags :
        (d c : Bool) (x : Disk)
        → IsValid
            (if not d
              then (remember l e, true)
              else (if c then (l, false) else accept_durable x l e)).0
    by_flags false c x = remember-IsValid l e v
    by_flags true true x = v
    by_flags true false synced =
        remember-IsValid (record l { file = append_line l.file e }) e
          (same-IsValid l (append_line l.file e) v)
    by_flags true false (cut_short whole) = same-IsValid l (append_part l.file whole e) v
    by_flags true false sync_failed = same-IsValid l (append_line l.file e) v

-- The entry of a slot in a list of entries.
abbrev pub find_slot : ℕ → List Entry → Option Entry
find_slot s [] = none
find_slot s (e ∷ es) = if e.slot == s then some e else find_slot s es

-- The slots rise, from `lo` on.
abbrev pub IsAscending : ℕ → List Entry → Type 0
IsAscending lo [] = Unit
IsAscending lo (e ∷ es) = (lo ≤ e.slot) × IsAscending (e.slot + 1) es

module _ (d : Dict Entry) (own : (s : ℕ) (e : Entry) → lookup s d ≡ some e → e.slot ≡ s) where
  scan_found :
      (n first s : ℕ)
      → find_slot s (scan d n first)
        ≡ (if leb first s && ltb s (first + n) then lookup s d else none)
  unfolding scan
  scan_found zero first s = ground arith
  scan_found (suc n) first s = elim (Option-cases (lookup first d)) [
    | inl gone ↦ ground (arith, scan_found n (first + 1) s)
    | inr (e, there) ↦ ground (arith, scan_found n (first + 1) s, own first e there)
  ]

  scan-IsAscending : (n first lo : ℕ) → lo ≤ first → IsAscending lo (scan d n first)
  unfolding scan
  scan-IsAscending zero first lo h = tt
  scan-IsAscending (suc n) first lo h =
      found (lookup first d) (λ e there. own first e there)
        (scan-IsAscending n (first + 1) lo (omega arith))
        (scan-IsAscending n (first + 1) (first + 1) (omega arith))
    where
      found :
          (o : Option Entry)
          → ((e : Entry) → o ≡ some e → e.slot ≡ first)
          → IsAscending lo (scan d n (first + 1))
          → IsAscending (first + 1) (scan d n (first + 1))
          → IsAscending lo (cons_some o (scan d n (first + 1)))
      found none at low high = low
      found (some e) at low high = (omega (arith, at e refl), rw (at e refl) high)

-- `EntriesFrom` hands out exactly the accepted entries at or above a slot, each slot once and in
-- rising order.
pub entries_from_lem :
    (l : Log) (first s : ℕ)
    → IsValid l
    → (find_slot s (entries_from l first) ≡ (if leb first s then get l s else none))
      × IsAscending first (entries_from l first)
unfolding entries_from get
entries_from_lem l first s v = (
  found,
  scan-IsAscending l.entries v.own_slot (l.max_slot + 1 - first) first first (omega arith),
)
  where
    found :
        find_slot s (scan l.entries (l.max_slot + 1 - first) first)
        ≡ (if leb first s then lookup s l.entries else none)
    found = elim (Option-cases (lookup s l.entries)) [
      | inl gone ↦ ground (arith, scan_found l.entries v.own_slot (l.max_slot + 1 - first) first s)
      | inr (e, there) ↦ ground (
        arith,
        scan_found l.entries v.own_slot (l.max_slot + 1 - first) first s,
        v.below_max s e there,
      )
    ]
