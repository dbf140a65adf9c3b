-- ===== src/TransactionId/Unique.antt =====
-- transaction_id_server/main.go: no id is handed out twice.
use paxos_2pc_payments.Base.{
  ℕ, suc, ◌+◌, ◌-◌, ◌*◌, ◌/◌, ◌≤◌, ◌≡◌, refl, Option, none, some, List, [], ◌∷◌, All, arith, subst,
  sym,
}
use paxos_2pc_payments.TransactionId.{
  File, number, garbled, Counter, Write, written, kept, changed, emptied, persist, open_counter,
  issue, cut_to, Event, request, restart, serve,
}

-- A write that does not leave a part of the digits.
abbrev pub IsClean : Write → Type 0
IsClean (cut_to k) = ⊥
IsClean w = Unit

abbrev pub CleanWrites : Event → Type 0
CleanWrites (request w) = IsClean w
CleanWrites (restart w) = IsClean w

-- The ids rise, from `lo` on.
abbrev pub Ascending : ℕ → List ℕ → Type 0
Ascending lo [] = Unit
Ascending lo (id ∷ ids) = (lo ≤ id) × Ascending (id + 1) ids

-- What a start would go on with is not below the counter.
abbrev Ahead : ℕ → Option File → Type 0
Ahead n none = ⊥
Ahead n (some garbled) = Unit
Ahead n (some (number m)) = n ≤ m

Ascending-weaken : (lo lo' : ℕ) (ids : List ℕ) → lo ≤ lo' → Ascending lo' ids → Ascending lo ids
Ascending-weaken lo lo' [] h a = tt
Ascending-weaken lo lo' (id ∷ ids) h a = (omega arith, a.1)

back : (n : ℕ) → n + 1 - 1 ≡ n
back n = omega arith

restart-Ascending :
    (w : Write) (es : List Event) (n : ℕ) (f : Option File)
    → Ahead n f
    → ((m : ℕ) → Ascending m (serve (record { next = m; file = some (number m) }) es))
    → Ascending n (serve (record { next = n; file = f }) (restart w ∷ es))
unfolding serve open_counter
restart-Ascending w es n none h later = elim h [ ]
restart-Ascending w es n (some garbled) h later = tt
restart-Ascending w es n (some (number m)) h later =
    Ascending-weaken n m (serve (record { next = m; file = some (number m) }) es) h (later m)

rising :
    (n : ℕ) (f : Option File) (es : List Event)
    → All CleanWrites es
    → Ahead n f
    → Ascending n (serve (record { next = n; file = f }) es)
unfolding serve issue
rising n f [] c h = tt
rising n f (request written ∷ es) c h =
    (omega arith, rising (n + 1) (some (number (n + 1))) es c.1 (omega arith))
rising n f (request kept ∷ es) c h =
    subst (λ m. Ascending n (serve (record { next = m; file = f }) es)) (sym (back n))
      (rising n f es c.1 h)
rising n f (request changed ∷ es) c h =
    subst (λ m. Ascending n (serve (record { next = m; file = some (number (n + 1)) }) es))
      (sym (back n)) (rising n (some (number (n + 1))) es c.1 (omega arith))
rising n f (request emptied ∷ es) c h =
    subst (λ m. Ascending n (serve (record { next = m; file = some garbled }) es)) (sym (back n))
      (rising n (some garbled) es c.1 tt)
rising n f (request (cut_to k) ∷ es) c h = absurd c.0
rising n f (restart w ∷ es) c h =
    restart-Ascending w es n f h (λ m. rising m (some (number m)) es c.1 (omega arith))

-- Let no write fail with a part of the digits in the file. Then, whether the writes succeed, fail
-- with the old or the new number in the file, or leave it empty, and however often the server
-- restarts, each id that a server on a new or an old file hands out is above all the ids before it.
pub serve-Ascending :
    (w : Write) (f : Option File) (c : Counter) (es : List Event)
    → open_counter w f ≡ some c
    → All CleanWrites es
    → Ascending c.next (serve c es)
unfolding open_counter persist
serve-Ascending w f c es h clean = by_start w f h
  where
    by_start :
        (w : Write) (f : Option File) → open_counter w f ≡ some c → Ascending c.next (serve c es)
    by_start written none e = rising c.next c.file es clean (ground arith)
    by_start kept none e = absurd (ground arith)
    by_start changed none e = absurd (ground arith)
    by_start emptied none e = absurd (ground arith)
    by_start (cut_to k) none e = absurd (ground arith)
    by_start w (some garbled) e = absurd (ground arith)
    by_start w (some (number n)) e = rising c.next c.file es clean (ground arith)

-- A write that leaves all digits but the last one has the next start hand out ids again: after a
-- counter that ends in 9, the first of them is a tenth of it.
cut_reissues :
    (m : ℕ) (f : Option File) (w : Write)
    → serve
        (record { next = 10 * m + 9; file = f })
        (request (cut_to 1) ∷ restart w ∷ request written ∷ [])
      ≡ suc m ∷ []
unfolding serve issue open_counter persist
cut_reissues m f w = let tenth : (10 * m + 9 + 1) / 10 ≡ suc m = omega arith in rw tenth refl
