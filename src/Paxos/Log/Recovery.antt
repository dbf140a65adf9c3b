-- ===== src/Paxos/Log/Recovery.antt =====
-- internal/paxos/log.go: what `OpenLog` finds after a crash.
use paxos_2pc_payments.Base.{
  ℕ, ◌≡◌, refl, Bool, true, false, Option, none, some, List, [], ◌∷◌, ◌++◌, arith, ap, sym, ◌∙◌,
  subst, Dict, All, insert, if◌then◌else◌, ◌&&◌, ltb,
}
use paxos_2pc_payments.Paxos.Ballot.{Ballot}
use paxos_2pc_payments.Paxos.Log.{
  Entry, Log, Disk, synced, cut_short, sync_failed, store, replay_line, replay_lines, replay,
  open_log, promise, accept, append_line, append_part, remember, restored,
}

pub data LogOp : Type 0 where
  accepting : Disk → Entry → LogOp
  promising : Bool → Ballot → LogOp

-- A log operation with its verdict left out.
unfoldable pub do_op : Log → LogOp → Log
unfolding accept promise
do_op l (accepting disk e) = (accept l disk e).0
do_op l (promising replaced b) = (promise l replaced b).0

unfoldable pub do_ops : Log → List LogOp → Log
do_ops l [] = l
do_ops l (o ∷ os) = do_ops (do_op l o) os

-- The write of an entry went through.
abbrev pub IsWhole : LogOp → Type 0
IsWhole (accepting disk e) = disk ≡ synced
IsWhole (promising replaced b) = Unit

-- Memory and disk agree.
pub record Mirrors (l : Log) : Type 0 where
  pub on_disk : l.durable ≡ true
  pub is_open : l.closed ≡ false
  pub clean : l.file.fragment ≡ none
  pub replayed : replay_lines ([], 0) l.file.lines ≡ (l.entries, l.max_slot)
  pub kept : restored l.state ≡ l.promised

replay_lines-append :
    (acc : Dict Entry × ℕ) (xs ys : List (Option Entry))
    → replay_lines acc (xs ++ ys) ≡ replay_lines (replay_lines acc xs) ys
unfolding replay_lines
replay_lines-append acc [] ys = refl
replay_lines-append acc (x ∷ xs) ys = replay_lines-append (replay_line acc x) xs ys

-- A fresh start, on a file that ends with a line end.
pub open_log-Mirrors :
    (xs : List (Option Entry)) (s : Option Ballot)
    → Mirrors (open_log (record { lines = xs; fragment = none }) s)
unfolding open_log replay
open_log-Mirrors xs none = record {
  on_disk = refl;
  is_open = refl;
  clean = refl;
  replayed = refl;
  kept = refl;
}
open_log-Mirrors xs (some b) = record {
  on_disk = refl;
  is_open = refl;
  clean = refl;
  replayed = refl;
  kept = refl;
}

-- A log with its parts as variables, on disk and open.
abbrev disk_log : Dict Entry → ℕ → Ballot → List (Option Entry) → Option Ballot → Log
disk_log d mx b xs s = record {
  durable = true;
  closed = false;
  entries = d;
  max_slot = mx;
  promised = b;
  file = record { lines = xs; fragment = none };
  state = s;
}

op-Mirrors :
    (d : Dict Entry) (mx : ℕ) (b : Ballot) (xs : List (Option Entry)) (s : Option Ballot)
    (o : LogOp)
    → IsWhole o
    → Mirrors (disk_log d mx b xs s)
    → Mirrors (do_op (disk_log d mx b xs s) o)
unfolding do_op append_line remember
op-Mirrors d mx b xs s (accepting synced e) w m = record {
  on_disk = refl;
  is_open = refl;
  clean = refl;
  replayed = replay_lines-append ([], 0) xs (some e ∷ []) ∙ stored;
  kept = m.kept;
}
  where
    stored : replay_lines (replay_lines ([], 0) xs) (some e ∷ []) ≡ store (d, mx) e
    stored = unfold replay_lines in ap (λ acc. store acc e) m.replayed
op-Mirrors d mx b xs s (accepting (cut_short whole) e) w m = absurd (ground arith)
op-Mirrors d mx b xs s (accepting sync_failed e) w m = absurd (ground arith)
op-Mirrors d mx b xs s (promising true b') w m = record {
  on_disk = refl;
  is_open = refl;
  clean = refl;
  replayed = m.replayed;
  kept = refl;
}
op-Mirrors d mx b xs s (promising false b') w m = m

as_disk_log :
    (l : Log) → Mirrors l → l ≡ disk_log l.entries l.max_slot l.promised l.file.lines l.state
as_disk_log l m = λ i. record {
  durable = m.on_disk i;
  closed = m.is_open i;
  entries = l.entries;
  max_slot = l.max_slot;
  promised = l.promised;
  file = record { lines = l.file.lines; fragment = m.clean i };
  state = l.state;
}

do_op-Mirrors : (l : Log) (o : LogOp) → IsWhole o → Mirrors l → Mirrors (do_op l o)
do_op-Mirrors l o w m =
    subst (λ k. Mirrors (do_op k o)) (sym (as_disk_log l m))
      (op-Mirrors l.entries l.max_slot l.promised l.file.lines l.state o w
        (subst Mirrors (as_disk_log l m) m))

pub do_ops-Mirrors :
    (l : Log) (os : List LogOp) → All IsWhole os → Mirrors l → Mirrors (do_ops l os)
unfolding do_ops
do_ops-Mirrors l [] w m = m
do_ops-Mirrors l (o ∷ os) w m = do_ops-Mirrors (do_op l o) os w.1 (do_op-Mirrors l o w.0 m)

-- The log that the next start opens on a log's files.
abbrev pub reopen : Log → Log
reopen l = open_log l.file l.state

-- A crash in the middle of an append: a part of the entry's text is on disk.
abbrev pub torn : Log → Entry → Log
torn l e = do_op l (accepting (cut_short false) e)

-- A crash in the middle of an append, after a part of the line or after all of it but its line end.
abbrev pub interrupted : Log → Bool → Entry → Log
interrupted l whole e = do_op l (accepting (cut_short whole) e)

-- What the next start has: what was in memory, and the new entry if all of its text is on disk.
abbrev pub Recovers : Bool → Entry → Log → Type 0
Recovers whole e l =
    let r = reopen (interrupted l whole e) in
    (r.entries ≡ (if whole then insert e.slot e l.entries else l.entries))
    × (r.max_slot ≡ (if whole && ltb l.max_slot e.slot then e.slot else l.max_slot))
    × (r.promised ≡ l.promised)

disk_log-Recovers :
    (d : Dict Entry) (mx : ℕ) (b : Ballot) (xs : List (Option Entry)) (s : Option Ballot)
    (whole : Bool) (e : Entry)
    → Mirrors (disk_log d mx b xs s)
    → Recovers whole e (disk_log d mx b xs s)
unfolding do_op open_log replay append_part store
disk_log-Recovers d mx b xs s true e m = (
  ap (λ acc. insert e.slot e acc.0) m.replayed,
  ap (λ acc. if ltb acc.1 e.slot then e.slot else acc.1) m.replayed,
  m.kept,
)
disk_log-Recovers d mx b xs s false e m =
    (ap (λ acc. acc.0) m.replayed, ap (λ acc. acc.1) m.replayed, m.kept)

reopen-interrupted : (l : Log) (whole : Bool) (e : Entry) → Mirrors l → Recovers whole e l
reopen-interrupted l whole e m = subst (Recovers whole e) (sym (as_disk_log l m)) (
    disk_log-Recovers l.entries l.max_slot l.promised l.file.lines l.state whole e
      (subst Mirrors (as_disk_log l m) m))

-- Let a log be opened on a file that ends with a line end, and let the writes of its appends go
-- through until a crash cuts one append short. Then no acknowledged entry and no promise is lost:
-- the next start has the accepted entries, the highest slot and the promise that the replica had in
-- memory, and besides them at most the entry of that append, namely if only its line end is missing.
pub reopen-do_ops :
    (xs : List (Option Entry)) (s : Option Ballot) (os : List LogOp) (whole : Bool) (e : Entry)
    → All IsWhole os
    → Recovers whole e (do_ops (open_log (record { lines = xs; fragment = none }) s) os)
reopen-do_ops xs s os whole e w =
    let l = open_log (record { lines = xs; fragment = none }) s in
    reopen-interrupted (do_ops l os) whole e (do_ops-Mirrors l os w (open_log-Mirrors xs s))

swallowed :
    (d : Dict Entry) (mx : ℕ) (b : Ballot) (xs : List (Option Entry)) (s : Option Ballot)
    (e x : Entry)
    → let l = reopen (torn (disk_log d mx b xs s) e) in
      ((accept l synced x).1 ≡ true)
      × ((reopen (accept l synced x).0).entries ≡ (replay_lines ([], 0) xs).0)
unfolding do_op open_log replay append_part append_line accept remember replay_lines
swallowed d mx b xs s e x = (refl, ap (λ acc. acc.0) (replay_lines-append ([], 0) xs (none ∷ [])))

-- After a crash that cut an append short, the first entry that is accepted is acknowledged and
-- is not there at the start after that: `OpenLog` appends behind the fragment, so the line of the
-- new entry does not parse. Only the entries from before the crash are recovered.
pub torn_line_swallows :
    (l : Log) (e x : Entry)
    → Mirrors l
    → let l' = reopen (torn l e) in
      ((accept l' synced x).1 ≡ true) × ((reopen (accept l' synced x).0).entries ≡ l.entries)
torn_line_swallows l e x m =
    subst
      (λ k.
        let l' = reopen (torn k e) in
        ((accept l' synced x).1 ≡ true) × ((reopen (accept l' synced x).0).entries ≡ k.entries))
      (sym (as_disk_log l m)) (gone.0, gone.1 ∙ ap (λ acc. acc.0) m.replayed)
  where
    gone :
        let l' = reopen (torn (disk_log l.entries l.max_slot l.promised l.file.lines l.state) e) in
        ((accept l' synced x).1 ≡ true)
        × ((reopen (accept l' synced x).0).entries ≡ (replay_lines ([], 0) l.file.lines).0)
    gone = swallowed l.entries l.max_slot l.promised l.file.lines l.state e x
