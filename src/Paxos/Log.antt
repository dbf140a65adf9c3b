-- ===== src/Paxos/Log.antt =====
-- internal/paxos/log.go: a replica's accepted entries and its promise, in memory and on disk. A
-- file is a list of lines, each with the entry that its JSON stands for, or `none` if it does not
-- parse, and what follows the last line end. What the disk does is an argument. Slots are numbers
-- without a bound: 2^64 appends are out of reach.
pub mod Entries
pub mod Recovery
use paxos_2pc_payments.Base.{
  ℕ, zero, suc, ◌+◌, ◌-◌, Bool, true, false, ◌&&◌, not, Option, none, some, List, [], ◌∷◌, ◌++◌,
  ltb, ◌==◌, if◌then◌else◌, Dict, lookup, insert,
}
use paxos_2pc_payments.Paxos.Ballot.{Ballot, zero_ballot}

-- `Entry`
pub record Entry : Type 0 where
  pub slot : ℕ
  pub ballot : Ballot
  pub command : List ℕ

-- `Entry.IsNoop`
unfoldable pub is_noop : Entry → Bool
is_noop e = elim e.command [ [] ↦ true | _ ∷ _ ↦ false ]

-- `bytes.Equal`
unfoldable pub bytes_equal : List ℕ → List ℕ → Bool
bytes_equal [] [] = true
bytes_equal (a ∷ xs) (b ∷ ys) = a == b && bytes_equal xs ys
bytes_equal _ _ = false

-- The entry file: its lines, and the fragment behind the last line end, if there is one.
pub record File : Type 0 where
  pub lines : List (Option Entry)
  pub fragment : Option (Option Entry)

-- `Log`
pub record Log : Type 0 where
  pub durable : Bool
  pub closed : Bool
  pub entries : Dict Entry
  pub max_slot : ℕ
  pub promised : Ballot
  pub file : File
  pub state : Option Ballot

-- `NewMemLog`
unfoldable pub new_mem_log : Log
new_mem_log = record {
  durable = false;
  closed = false;
  entries = [];
  max_slot = 0;
  promised = zero_ballot;
  file = record { lines = []; fragment = none };
  state = none;
}

-- `l.entries[e.Slot] = e` and the update of `maxSlot`, which `replay` and `Accept` share.
unfoldable pub store : Dict Entry × ℕ → Entry → Dict Entry × ℕ
store (d, mx) e = (insert e.slot e d, if ltb mx e.slot then e.slot else mx)

-- One line of `replay`: a line that does not parse is skipped.
abbrev pub replay_line : Dict Entry × ℕ → Option Entry → Dict Entry × ℕ
replay_line acc none = acc
replay_line acc (some e) = store acc e

unfoldable pub replay_lines : Dict Entry × ℕ → List (Option Entry) → Dict Entry × ℕ
replay_lines acc [] = acc
replay_lines acc (x ∷ xs) = replay_lines (replay_line acc x) xs

-- `replay`: the scanner hands over a last line without a line end, too.
unfoldable pub replay : File → Dict Entry × ℕ
unfolding replay_lines store
replay f =
    let acc = replay_lines ([], 0) f.lines in
    elim f.fragment [ none ↦ acc | some x ↦ replay_line acc x ]

-- `loadState`: the zero ballot on the first start.
abbrev pub restored : Option Ballot → Ballot
restored none = zero_ballot
restored (some b) = b

-- `OpenLog`, over the two files that it finds; the entry file is opened for appending.
unfoldable pub open_log : File → Option Ballot → Log
unfolding replay
open_log f s =
    let (d, mx) = replay f in
    record {
      durable = true;
      closed = false;
      entries = d;
      max_slot = mx;
      promised = restored s;
      file = f;
      state = s;
    }

-- `Promise`, with whether the new state file replaced the old one. The flag of the result is
-- false on an error.
unfoldable pub promise : Log → Bool → Ballot → Log × Bool
promise l replaced b =
    if not l.durable
    then (record l { promised = b }, true)
    else (if replaced then (record l { promised = b; state = some b }, true) else (l, false))

-- What the disk does with the line of an accepted entry: it is written and synced; a part of it
-- is written (the whole text but the line end, or less); or the sync fails after the write.
pub data Disk : Type 0 where
  synced : Disk
  cut_short : Bool → Disk
  sync_failed : Disk

-- Writing at the end of the file: behind a fragment, a line is not JSON any more.
unfoldable pub append_line : File → Entry → File
append_line f e = elim f.fragment [
  | none ↦ record { lines = f.lines ++ some e ∷ []; fragment = none }
  | some _ ↦ record { lines = f.lines ++ none ∷ []; fragment = none }
]

unfoldable pub append_part : File → Bool → Entry → File
append_part f whole e = elim f.fragment [
  | none ↦ record f { fragment = some (if whole then some e else none) }
  | some _ ↦ record f { fragment = some none }
]

-- The in-memory half of `Accept`.
unfoldable pub remember : Log → Entry → Log
unfolding store
remember l e =
    let (d, mx) = store (l.entries, l.max_slot) e in record l { entries = d; max_slot = mx }

-- `Accept` on a log whose file is open.
abbrev pub accept_durable : Disk → Log → Entry → Log × Bool
accept_durable synced l e = (remember (record l { file = append_line l.file e }) e, true)
accept_durable (cut_short whole) l e = (record l { file = append_part l.file whole e }, false)
accept_durable sync_failed l e = (record l { file = append_line l.file e }, false)

-- `Accept`
unfoldable pub accept : Log → Disk → Entry → Log × Bool
unfolding remember append_line append_part
accept l disk e =
    if not l.durable
    then (remember l e, true)
    else (if l.closed then (l, false) else accept_durable disk l e)

-- `Get`
unfoldable pub get : Log → ℕ → Option Entry
get l slot = lookup slot l.entries

abbrev pub cons_some : Option Entry → List Entry → List Entry
cons_some none rest = rest
cons_some (some e) rest = e ∷ rest

-- The loop of `EntriesFrom`, over the slots that are left.
unfoldable pub scan : Dict Entry → ℕ → ℕ → List Entry
scan d zero slot = []
scan d (suc n) slot = let rest = scan d n (slot + 1) in cons_some (lookup slot d) rest

-- `EntriesFrom`
unfoldable pub entries_from : Log → ℕ → List Entry
unfolding scan
entries_from l first = scan l.entries (l.max_slot + 1 - first) first

-- `Close`
unfoldable pub close : Log → Log
close l = record l { closed = true }
