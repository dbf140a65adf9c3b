-- ===== src/Examples/Clients.antt =====
-- client/, internal/transport/faults.go and transaction_id_server/: small runs.
use paxos_2pc_payments.Base.{
  ℕ, ◌≡◌, refl, true, none, some, List, [], ◌∷◌, if◌then◌else◌, ◌==◌, Option,
}
use paxos_2pc_payments.Status.{Status, unavailable, not_found}
use paxos_2pc_payments.Faults.{new_faults, kill, check, restore, state}
use paxos_2pc_payments.Faults.Reach.{Change, killed, split, revived, changes, check-restore}
use paxos_2pc_payments.Client.{Item, Queue, drain_turn}
use paxos_2pc_payments.Client.Sweeps.{survivors, drain_turn-items}
use paxos_2pc_payments.TransactionId.{
  number, Counter, written, kept, changed, emptied, open_counter, Event, request, restart, serve,
}
use paxos_2pc_payments.TransactionId.Unique.{Ascending, serve-Ascending}

-- Node 3 is dead, and nodes 1 and 2 are apart.
abbrev history : List Change
history = killed 3 ∷ killed 2 ∷ split ((1 ∷ []) ∷ (2 ∷ 3 ∷ []) ∷ []) ∷ revived 2 ∷ []

check-restore_example :
    check (restore (kill new_faults 1) (state (changes new_faults history))) 1 2
    ≡ check (changes new_faults history) 1 2
check-restore_example = check-restore history (kill new_faults 1) 1 2

abbrev item : ℕ → ℕ → Item
item r k = record { request = r; attempts = k }

-- Request 1 is delivered, 2 cannot be delivered, 3 is given up on, and 4 is rejected.
abbrev gateway : ℕ → Option Status
gateway r = if r == 1 then none else (if r == 4 then some not_found else some unavailable)

abbrev queue : Queue
queue = record { items = item 1 0 ∷ item 2 3 ∷ item 3 9 ∷ item 4 0 ∷ []; file = none }

drain_turn-items_example : (drain_turn true gateway queue 2).0.items ≡ survivors gateway queue.items
drain_turn-items_example = drain_turn-items true gateway queue 2

abbrev counter : Counter
counter = record { next = 12; file = some (number 12) }

abbrev events : List Event
events =
    request emptied
    ∷ request written
    ∷ request changed
    ∷ restart written
    ∷ request kept
    ∷ request written
    ∷ []

serve-Ascending_example : Ascending 12 (serve counter events)
unfolding open_counter
serve-Ascending_example =
    serve-Ascending written (some (number 12)) counter events refl
      (tt, (tt, (tt, (tt, (tt, (tt, tt))))))
