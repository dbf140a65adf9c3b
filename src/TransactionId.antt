-- ===== src/TransactionId.antt =====
-- transaction_id_server/main.go: the counter that hands out transaction ids. An id is the number
-- that its text prints, without a bound: 2^63 ids are out of reach.
pub mod Unique
use paxos_2pc_payments.Base.{
  ℕ, zero, suc, ◌+◌, ◌-◌, ◌/◌, ◌^◌, Bool, true, false, Option, none, some, List, [], ◌∷◌,
}

-- The counter file: a number, or a text that is none.
pub data File : Type 0 where
  number : ℕ → File
  garbled : File

-- `counter`, with its file, if there is one.
pub record Counter : Type 0 where
  pub next : ℕ
  pub file : Option File

-- What a write does: it succeeds; it fails before or after it changed the file; or it fails in
-- between, as `os.WriteFile` empties the file first: the file is empty, or the last digits of the
-- number are missing.
pub data Write : Type 0 where
  written kept changed emptied : Write
  cut_to : (missing : ℕ) → Write

-- What `openCounter` makes of the digits that are left.
abbrev pub left_over : ℕ → File
left_over zero = garbled
left_over (suc n) = number (suc n)

-- `persistLocked`; the flag is false on an error.
unfoldable pub persist : Write → Counter → Counter × Bool
persist written c = (record c { file = some (number c.next) }, true)
persist kept c = (c, false)
persist changed c = (record c { file = some (number c.next) }, false)
persist emptied c = (record c { file = some garbled }, false)
persist (cut_to k) c = (record c { file = some (left_over (c.next / 10 ^ k)) }, false)

-- `openCounter`; `none` is an error, which stops the server.
unfoldable pub open_counter : Write → Option File → Option Counter
unfolding persist
open_counter w none =
    let (c, done) = persist w (record { next = 1; file = none }) in
    elim done [ true ↦ some c | false ↦ none ]
open_counter w (some (number n)) = some (record { next = n; file = some (number n) })
open_counter w (some garbled) = none

-- `issue`, after its write.
abbrev pub issued : ℕ → Counter × Bool → Counter × Option ℕ
issued id (c, true) = (c, some id)
issued id (c, false) = (record c { next = c.next - 1 }, none)

-- `issue`
unfoldable pub issue : Write → Counter → Counter × Option ℕ
unfolding persist
issue w c = issued c.next (persist w (record c { next = c.next + 1 }))

-- What happens to a server: a request, or a stop and a new start.
pub data Event : Type 0 where
  request : Write → Event
  restart : Write → Event

abbrev pub cons_id : Option ℕ → List ℕ → List ℕ
cons_id none ids = ids
cons_id (some id) ids = id ∷ ids

-- The ids that a server hands out over a list of events, until a start fails.
unfoldable pub serve : Counter → List Event → List ℕ
serve c [] = []
serve c (request w ∷ es) = let (c', id) = issue w c in cons_id id (serve c' es)
serve c (restart w ∷ es) =
    let reopened = open_counter w c.file in elim reopened [ none ↦ [] | some c' ↦ serve c' es ]
