-- ===== src/Faults/Reach.antt =====
-- internal/transport/faults.go: who reaches whom.
use paxos_2pc_payments.Base.{
  ℕ, ◌≡◌, ◌↔◌, refl, Bool, true, false, ◌||◌, none, some, List, [], ◌∷◌, map, ◌==◌, arith,
  if◌then◌else◌, Dict, lookup, insert, lookup-insert, lookup-erase,
}
use paxos_2pc_payments.Faults.{
  Faults, new_faults, kill, revive, is_dead, partition, heal, group_of, check, sort, insert_sorted,
  state, mark, restore, assign_groups,
}

-- Reachability is symmetric.
check_sym : (f : Faults) (a b : ℕ) → (check f a b ≡ none) ↔ (check f b a ≡ none)
unfolding check
check_sym f a b = (λ h. ground arith, λ h. ground arith)

-- The table of what its operations build: a dead node is marked true, and the groups are indexed.
pub record IsValid (f : Faults) : Type 0 where
  pub marked : (id : ℕ) → lookup id f.dead ≡ (if is_dead f id then some true else none)
  pub indexed : f.group ≡ assign_groups 0 f.groups []

member : ℕ → List ℕ → Bool
member k [] = false
member k (x ∷ xs) = x == k || member k xs

member-insert_sorted :
    (k x : ℕ) (ys : List ℕ) → member k (insert_sorted x ys) ≡ (x == k || member k ys)
unfolding insert_sorted member
member-insert_sorted k x [] = refl
member-insert_sorted k x (y ∷ ys) = ground (arith, member-insert_sorted k x ys)

member-sort : (k : ℕ) (xs : List ℕ) → member k (sort xs) ≡ member k xs
unfolding sort member
member-sort k [] = refl
member-sort k (x ∷ xs) = ground (arith, member-insert_sorted k x (sort xs), member-sort k xs)

lookup-mark :
    (k : ℕ) (ids : List ℕ) (d : Dict Bool)
    → lookup k (mark ids d) ≡ (if member k ids then some true else lookup k d)
unfolding mark member
lookup-mark k [] d = refl
lookup-mark k (x ∷ ids) d =
    ground (arith, lookup-mark k ids (insert x true d), lookup-insert k x true d)

member-keys :
    (k : ℕ) (d : Dict Bool)
    → member k (map (λ e. e.0) d)
      ≡ elim (lookup k d) as (λ o. Bool) [ none ↦ false | some b ↦ true ]
unfolding member lookup
member-keys k [] = refl
member-keys k ((j, b) ∷ d) = ground (arith, member-keys k d)

kill-IsValid : (f : Faults) (id : ℕ) → IsValid f → IsValid (kill f id)
unfolding kill is_dead
kill-IsValid f id v = record {
  marked = λ k. grind (arith, v.marked k, lookup-insert);
  indexed = v.indexed;
}

revive-IsValid : (f : Faults) (id : ℕ) → IsValid f → IsValid (revive f id)
unfolding revive is_dead
revive-IsValid f id v = record {
  marked = λ k. grind (arith, v.marked k, lookup-erase);
  indexed = v.indexed;
}

partition-IsValid : (f : Faults) (gs : List (List ℕ)) → IsValid f → IsValid (partition f gs)
unfolding partition is_dead
partition-IsValid f gs v = record { marked = v.marked; indexed = refl }

-- The changes of a table.
pub data Change : Type 0 where
  killed revived : ℕ → Change
  split : List (List ℕ) → Change
  healed : Change

unfoldable pub change : Faults → Change → Faults
change f (killed id) = kill f id
change f (revived id) = revive f id
change f (split gs) = partition f gs
change f healed = heal f

unfoldable pub changes : Faults → List Change → Faults
unfolding change
changes f [] = f
changes f (c ∷ cs) = changes (change f c) cs

change-IsValid : (f : Faults) (c : Change) → IsValid f → IsValid (change f c)
unfolding change heal
change-IsValid f (killed id) v = kill-IsValid f id v
change-IsValid f (revived id) v = revive-IsValid f id v
change-IsValid f (split gs) v = partition-IsValid f gs v
change-IsValid f healed v = partition-IsValid f [] v

changes-IsValid : (f : Faults) (cs : List Change) → IsValid f → IsValid (changes f cs)
unfolding changes
changes-IsValid f [] v = v
changes-IsValid f (c ∷ cs) v = changes-IsValid (change f c) cs (change-IsValid f c v)

new_faults-IsValid : IsValid new_faults
unfolding new_faults is_dead lookup assign_groups
new_faults-IsValid = record { marked = λ k. refl; indexed = refl }

restore-is_dead :
    (f g : Faults) (id : ℕ) → IsValid f → is_dead (restore g (state f)) id ≡ is_dead f id
unfolding restore state is_dead partition lookup
restore-is_dead f g id v = grind (
  arith,
  lookup-mark id (sort (map (λ e. e.0) f.dead)) [],
  member-sort id (map (λ e. e.0) f.dead),
  member-keys id f.dead,
  v.marked id,
)

restore-group_of :
    (f g : Faults) (id : ℕ) → IsValid f → group_of (restore g (state f)) id ≡ group_of f id
unfolding restore state group_of partition
restore-group_of f g id v = grind (arith, v.indexed)

-- A node process that restores the copied state of a table, whatever it had before, decides every
-- delivery as that table does.
pub check-restore :
    (cs : List Change) (g : Faults) (a b : ℕ)
    → check (restore g (state (changes new_faults cs))) a b ≡ check (changes new_faults cs) a b
unfolding check
check-restore cs g a b =
    let v = changes-IsValid new_faults cs new_faults-IsValid in
    ground (
      arith,
      restore-is_dead (changes new_faults cs) g a v,
      restore-is_dead (changes new_faults cs) g b v,
      restore-group_of (changes new_faults cs) g a v,
      restore-group_of (changes new_faults cs) g b v,
    )
