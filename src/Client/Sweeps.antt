-- ===== src/Client/Sweeps.antt =====
-- client/queue.go: what a sweep makes of each item, and the delays between sweeps.
use paxos_2pc_payments.Base.{
  ℕ, zero, suc, ◌+◌, ◌<◌, ◌≡◌, refl, Bool, true, false, ◌&&◌, Option, none, some, List, [], ◌∷◌,
  ◌++◌, ltb, if◌then◌else◌, arith, ◌∙◌, sym, ap, subst,
}
use paxos_2pc_payments.Status.{Status, retriable}
use paxos_2pc_payments.Client.{
  Item, Queue, max_attempts, persist, take, requeue, settle, sweep, next_delay, drain_turn,
  retry_base, retry_max,
}
use mathlib.Core.List.{append-nil, append_assoc}

-- The item's next attempt, if the gateway's answer is worth one.
abbrev pub retried : Option Status → Item → List Item
retried none item = []
retried (some s) item =
    if retriable s && ltb (item.attempts + 1) max_attempts
    then record item { attempts = item.attempts + 1 } ∷ []
    else []

abbrev pub survivors : (ℕ → Option Status) → List Item → List Item
survivors deliver [] = []
survivors deliver (item ∷ items) = retried (deliver item.request) item ++ survivors deliver items

settle-items :
    (replaced : Bool) (q : Queue) (item : Item) (answer : Option Status)
    → (settle replaced q item answer).0.items ≡ q.items ++ retried answer item
unfolding settle requeue persist
settle-items replaced q item none = sym (append-nil q.items)
settle-items replaced q item (some s) = grind (arith, append-nil q.items)

sweep-items :
    (replaced : Bool) (deliver : ℕ → Option Status) (q : Queue) (items : List Item)
    (progress : Bool)
    → (sweep replaced deliver q items progress).0.items ≡ q.items ++ survivors deliver items
unfolding sweep
sweep-items replaced deliver q [] progress = sym (append-nil q.items)
sweep-items replaced deliver q (item ∷ items) progress =
    sweep-items replaced deliver (settle replaced q item (deliver item.request)).0 items
      (if (settle replaced q item (deliver item.request)).1 then true else progress)
    ∙ ap (λ x. x ++ survivors deliver items) (settle-items replaced q item (deliver item.request))
    ∙ append_assoc q.items (retried (deliver item.request) item) (survivors deliver items)

persist-items : (replaced : Bool) (q : Queue) → (persist replaced q).items ≡ q.items
unfolding persist
persist-items replaced q = ground arith

turn-items :
    (replaced : Bool) (deliver : ℕ → Option Status) (items : List Item) (file : Option (List Item))
    (delay : ℕ)
    → (drain_turn replaced deliver (record { items = items; file = file }) delay).0.items
      ≡ survivors deliver items
unfolding drain_turn take
turn-items replaced deliver [] file delay = refl
turn-items replaced deliver (x ∷ xs) file delay =
    sweep-items replaced deliver (persist replaced (record { items = []; file = file })) (x ∷ xs)
      false
    ∙ ap (λ y. y ++ survivors deliver (x ∷ xs))
        (persist-items replaced (record { items = []; file = file }))

-- A turn of the loop keeps, in order and with one more attempt, exactly the items whose delivery
-- failed in a way that is worth a retry and that have attempts left.
pub drain_turn-items :
    (replaced : Bool) (deliver : ℕ → Option Status) (q : Queue) (delay : ℕ)
    → (drain_turn replaced deliver q delay).0.items ≡ survivors deliver q.items
drain_turn-items replaced deliver q delay = turn-items replaced deliver q.items q.file delay

-- The delay after a list of sweeps, each with whether it made progress.
unfoldable pub delays : ℕ → List Bool → ℕ
delays delay [] = delay
delays delay (progress ∷ ps) = delays (next_delay progress delay) ps

abbrev pub fruitless : ℕ → List Bool
fruitless zero = []
fruitless (suc n) = false ∷ fruitless n

-- The powers of two from 2 to 64.
data Step : ℕ → Type 0 where
  two : Step 2
  four : Step 4
  eight : Step 8
  sixteen : Step 16
  thirty_two : Step 32
  sixty_four : Step 64

next-Step : (progress : Bool) (d : ℕ) → Step d → Step (next_delay progress d)
unfolding next_delay
next-Step true d h = two
next-Step false _ two = four
next-Step false _ four = eight
next-Step false _ eight = sixteen
next-Step false _ sixteen = thirty_two
next-Step false _ thirty_two = sixty_four
next-Step false _ sixty_four = sixty_four

delays-Step : (d : ℕ) (ps : List Bool) → Step d → Step (delays d ps)
unfolding delays
delays-Step d [] h = h
delays-Step d (p ∷ ps) h = delays-Step (next_delay p d) ps (next-Step p d h)

stays : (n : ℕ) → delays 64 (fruitless n) ≡ 64
unfolding delays next_delay
stays zero = refl
stays (suc n) = stays n

climbs : (d n : ℕ) → Step d → delays d (fruitless (suc (suc (suc (suc (suc n)))))) ≡ 64
unfolding delays next_delay
climbs _ n two = stays n
climbs _ n four = stays (suc n)
climbs _ n eight = stays (suc (suc n))
climbs _ n sixteen = stays (suc (suc (suc n)))
climbs _ n thirty_two = stays (suc (suc (suc (suc n))))
climbs _ n sixty_four = stays (suc (suc (suc (suc (suc n)))))

delays-append : (d : ℕ) (ps qs : List Bool) → delays d (ps ++ qs) ≡ delays (delays d ps) qs
unfolding delays
delays-append d [] qs = refl
delays-append d (p ∷ ps) qs = delays-append (next_delay p d) ps qs

-- The cap is not kept: after any sweeps, and then five or more in a row without progress, the
-- delay is above the maximum.
delays_above_max :
    (ps : List Bool) (n : ℕ)
    → retry_max < delays retry_base (ps ++ fruitless (suc (suc (suc (suc (suc n))))))
delays_above_max ps n =
    subst (λ d. retry_max < d)
      (sym (
        delays-append retry_base ps (fruitless (suc (suc (suc (suc (suc n))))))
        ∙ climbs (delays retry_base ps) n (delays-Step retry_base ps two)))
      (omega arith)
