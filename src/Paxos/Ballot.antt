-- ===== src/Paxos/Ballot.antt =====
-- internal/paxos/paxos.go: proposal numbers. Go orders node ids as strings, and the empty string is
-- the least; node ids here are numbers in that order, and 0 is the empty id.
use Prim.Native.Nat.{Ordering}
use paxos_2pc_payments.Base.{
  ℕ, ◌+◌, ◌%◌, ◌<◌, ◌≡◌, ◌⊎◌, ◌/◌, ◌↔◌, Bool, true, false, ◌&&◌, ltb, ◌==◌, if◌then◌else◌, arith,
  int64_mod,
}

-- `Ballot`; `num` is a uint64.
pub record Ballot : Type 0 where
  pub num : ℕ
  pub node : ℕ

-- `Ballot.Compare`: -1, 0 and 1 are `lt`, `eq` and `gt`.
unfoldable pub compare_ballot : Ballot → Ballot → Ordering
compare_ballot a b =
    if ltb a.num b.num
    then Ordering.lt
    else (if ltb b.num a.num
        then Ordering.gt
        else (if ltb a.node b.node
            then Ordering.lt
            else (if ltb b.node a.node then Ordering.gt else Ordering.eq)))

-- `Ballot.Less`
unfoldable pub less : Ballot → Ballot → Bool
unfolding compare_ballot
less a b = elim (compare_ballot a b) [ Ordering.lt ↦ true | _ ↦ false ]

-- `Ballot.AtLeast`
unfoldable pub at_least : Ballot → Ballot → Bool
unfolding compare_ballot
at_least a b = elim (compare_ballot a b) [ Ordering.lt ↦ false | _ ↦ true ]

abbrev pub zero_ballot : Ballot
zero_ballot = record { num = 0; node = 0 }

-- `Ballot.IsZero`
unfoldable pub is_zero : Ballot → Bool
is_zero b = b.num == 0 && b.node == 0

-- `==` on two ballots.
abbrev pub ballot_eq : Ballot → Ballot → Bool
ballot_eq a b = a.num == b.num && a.node == b.node

-- The ballot of a campaign, above the promised one: `Num + 1` on a uint64.
unfoldable pub next_ballot : Ballot → ℕ → Ballot
next_ballot promised id = record { num = (promised.num + 1) % int64_mod; node = id }

-- `majority`
unfoldable pub majority : ℕ → ℕ
majority n = n / 2 + 1

infix 50 ◌≼◌ ◌≺◌
-- The order of ballots as a statement: by number, then by node.
abbrev pub ◌≺◌ : Ballot → Ballot → Type 0
a ≺ b = (a.num < b.num) ⊎ ((a.num ≡ b.num) × (a.node < b.node))

abbrev pub ◌≼◌ : Ballot → Ballot → Type 0
a ≼ b = less b a ≡ false

pub less→≺ : (a b : Ballot) → less a b ≡ true → a ≺ b
unfolding less
less→≺ a b h = ground arith

pub ≺→less : (a b : Ballot) → a ≺ b → less a b ≡ true
unfolding less
≺→less a b h = ground arith

pub less_irrefl : (a : Ballot) → less a a ≡ false
unfolding less
less_irrefl a = ground arith

pub less_trans : (a b c : Ballot) → less a b ≡ true → less b c ≡ true → less a c ≡ true
unfolding less
less_trans a b c h k = ground arith

pub ≼_trans : (a b c : Ballot) → a ≼ b → b ≼ c → a ≼ c
unfolding less
≼_trans a b c h k = ground arith

pub ≼_antisym : (a b : Ballot) → a ≼ b → b ≼ a → a ≡ b
unfolding less
≼_antisym a b h k = ground arith

pub ≼_total : (a b : Ballot) → a ≼ b ⊎ b ≼ a
unfolding less
≼_total a b = ground arith

pub less→≼ : (a b : Ballot) → less a b ≡ true → a ≼ b
unfolding less
less→≼ a b h = ground arith

pub less-≼_trans : (a b c : Ballot) → less a b ≡ true → b ≼ c → less a c ≡ true
unfolding less
less-≼_trans a b c h k = ground arith

pub ≼-less_trans : (a b c : Ballot) → a ≼ b → less b c ≡ true → less a c ≡ true
unfolding less
≼-less_trans a b c h k = ground arith

-- `Compare` is a total order that goes by number first and by node second: it answers `lt` for
-- exactly the smaller ballots, `eq` for exactly the same ballot, and swapping the ballots swaps
-- the answer.
compare_ballot_lem :
    (a b : Ballot)
    → ((compare_ballot a b ≡ Ordering.lt) ↔ (a ≺ b))
      × ((compare_ballot a b ≡ Ordering.eq) ↔ (a ≡ b))
      × ((compare_ballot a b ≡ Ordering.gt) ↔ (b ≺ a))
unfolding compare_ballot
compare_ballot_lem a b = (
  (λ h. ground arith, λ h. ground arith),
  (λ h. ground arith, λ h. ground arith),
  (λ h. ground arith, λ h. ground arith),
)

-- Two majorities of a group share a member: their sizes add up to more than the group.
majority-overlap : (n : ℕ) → n < majority n + majority n
unfolding majority
majority-overlap n = omega arith
