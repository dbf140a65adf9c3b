-- ===== src/Faults.antt =====
-- internal/transport/faults.go: the fault table that every delivery consults. Node names are only
-- compared, so they are numbers.
pub mod Reach
use paxos_2pc_payments.Base.{
  ℕ, ◌+◌, Bool, true, false, Option, none, some, List, [], ◌∷◌, map, ℤ, pos, negsuc, eqb_ℤ, leb,
  if◌then◌else◌, Dict, lookup, insert, erase,
}

-- `Faults`
pub record Faults : Type 0 where
  pub dead : Dict Bool
  pub group : Dict ℕ
  pub groups : List (List ℕ)

-- `FaultState`
pub record FaultState : Type 0 where
  pub dead : List ℕ
  pub groups : List (List ℕ)

-- `NewFaults`
unfoldable pub new_faults : Faults
new_faults = record { dead = []; group = []; groups = [] }

-- `Kill`
unfoldable pub kill : Faults → ℕ → Faults
kill f id = record f { dead = insert id true f.dead }

-- `Revive`
unfoldable pub revive : Faults → ℕ → Faults
revive f id = record f { dead = erase id f.dead }

-- `Dead`
unfoldable pub is_dead : Faults → ℕ → Bool
is_dead f id = elim (lookup id f.dead) [ none ↦ false | some b ↦ b ]

-- `f.group[id] = i` for each name of a group.
unfoldable pub assign : ℕ → List ℕ → Dict ℕ → Dict ℕ
assign i [] d = d
assign i (id ∷ ids) d = assign i ids (insert id i d)

-- The loop of `Partition`, from group `i` on.
unfoldable pub assign_groups : ℕ → List (List ℕ) → Dict ℕ → Dict ℕ
assign_groups i [] d = d
assign_groups i (g ∷ gs) d = assign_groups (i + 1) gs (assign i g d)

-- `Partition`
unfoldable pub partition : Faults → List (List ℕ) → Faults
unfolding assign assign_groups
partition f groups = record f { group = assign_groups 0 groups []; groups = groups }

-- `Heal`
unfoldable pub heal : Faults → Faults
unfolding partition
heal f = partition f []

-- `Partitioned`
unfoldable pub partitioned : Faults → Bool
partitioned f = elim f.groups [ [] ↦ false | _ ∷ _ ↦ true ]

-- `GroupOf`
unfoldable pub group_of : Faults → ℕ → ℤ
group_of f id = elim f.groups [
  | [] ↦ pos 0
  | _ ∷ _ ↦ elim (lookup id f.group) [ some g ↦ pos g | none ↦ negsuc 0 ]
]

-- Why a message may not travel.
pub data Unreachable : Type 0 where
  sender_down receiver_down apart : Unreachable

-- `Check`
unfoldable pub check : Faults → ℕ → ℕ → Option Unreachable
unfolding is_dead group_of
check f from to =
    if is_dead f from
    then some sender_down
    else (if is_dead f to
        then some receiver_down
        else (if eqb_ℤ (group_of f from) (group_of f to) then none else some apart))

-- `sort.Strings`
unfoldable pub insert_sorted : ℕ → List ℕ → List ℕ
insert_sorted x [] = x ∷ []
insert_sorted x (y ∷ ys) = let rest = insert_sorted x ys in if leb x y then x ∷ y ∷ ys else y ∷ rest

unfoldable pub sort : List ℕ → List ℕ
unfolding insert_sorted
sort [] = []
sort (x ∷ xs) = insert_sorted x (sort xs)

-- `State`
unfoldable pub state : Faults → FaultState
unfolding sort
state f = record { dead = sort (map (λ e. e.0) f.dead); groups = f.groups }

-- `f.dead[id] = true` for each name of a list.
unfoldable pub mark : List ℕ → Dict Bool → Dict Bool
mark [] d = d
mark (id ∷ ids) d = mark ids (insert id true d)

-- `Restore`
unfoldable pub restore : Faults → FaultState → Faults
unfolding partition mark
restore f s = record (partition f s.groups) { dead = mark s.dead [] }
