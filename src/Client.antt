-- ===== src/Client.antt =====
-- client/queue.go: the transfers that a client could not deliver yet. A request is named by a
-- number; what the file and the gateway answer is an argument.
pub mod Sweeps
use paxos_2pc_payments.Base.{
  ℕ, ◌+◌, ◌*◌, Bool, true, false, Option, none, some, List, [], ◌∷◌, ◌++◌, ltb, leb, if◌then◌else◌,
  length,
}
use paxos_2pc_payments.Status.{Status, retriable}

-- In seconds.
abbrev pub retry_base : ℕ
retry_base = 2

abbrev pub retry_max : ℕ
retry_max = 60

abbrev pub max_attempts : ℕ
max_attempts = 10

-- `queuedTransfer`
pub record Item : Type 0 where
  pub request : ℕ
  pub attempts : ℕ

-- `offlineQueue`: the items in memory, and those of the file, if there is one.
pub record Queue : Type 0 where
  pub items : List Item
  pub file : Option (List Item)

-- `newOfflineQueue`
unfoldable pub new_queue : Option (List Item) → Queue
new_queue none = record { items = []; file = none }
new_queue (some items) = record { items = items; file = some items }

-- `persist`; a failure leaves the file as it was.
unfoldable pub persist : Bool → Queue → Queue
persist replaced q = if replaced then record q { file = some q.items } else q

-- `add`
unfoldable pub add : Bool → Queue → ℕ → Queue
unfolding persist
add replaced q request =
    persist replaced
      (record q { items = q.items ++ record { request = request; attempts = 0 } ∷ [] })

-- `take`
unfoldable pub take : Bool → Queue → Queue × List Item
unfolding persist
take replaced q = elim q.items [
  | [] ↦ (record q { items = [] }, [])
  | x ∷ xs ↦ (persist replaced (record q { items = [] }), x ∷ xs)
]

-- `requeue`
unfoldable pub requeue : Bool → Queue → Item → Queue
unfolding persist
requeue replaced q item =
    let again = record item { attempts = item.attempts + 1 } in
    if leb max_attempts again.attempts
    then q
    else persist replaced (record q { items = q.items ++ again ∷ [] })

-- `depth`
unfoldable pub depth : Queue → ℕ
depth q = length q.items

-- One item of the loop over what was taken; `none` is a delivery. The flag says whether the
-- queue made progress.
unfoldable pub settle : Bool → Queue → Item → Option Status → Queue × Bool
unfolding requeue
settle replaced q item none = (q, true)
settle replaced q item (some s) =
    if retriable s then (requeue replaced q item, false) else (q, true)

-- The loop, with what the gateway answers to each request.
unfoldable pub sweep : Bool → (ℕ → Option Status) → Queue → List Item → Bool → Queue × Bool
unfolding settle
sweep replaced deliver q [] progress = (q, progress)
sweep replaced deliver q (item ∷ items) progress =
    let (q', went) = settle replaced q item (deliver item.request) in
    sweep replaced deliver q' items (if went then true else progress)

-- The delay before the next sweep.
unfoldable pub next_delay : Bool → ℕ → ℕ
next_delay progress delay =
    if progress then retry_base else (if ltb delay retry_max then delay * 2 else delay)

-- A turn of `drain`, on what it took.
abbrev pub retry_taken : Bool → (ℕ → Option Status) → ℕ → Queue × List Item → Queue × ℕ
retry_taken replaced deliver delay (q, []) = (q, retry_base)
retry_taken replaced deliver delay (q, x ∷ xs) =
    let (q', progress) = sweep replaced deliver q (x ∷ xs) false in (q', next_delay progress delay)

-- One turn of `drain`: the queue and the delay after it.
unfoldable pub drain_turn : Bool → (ℕ → Option Status) → Queue → ℕ → Queue × ℕ
unfolding take sweep next_delay
drain_turn replaced deliver q delay = retry_taken replaced deliver delay (take replaced q)
