-- ===== src/Types/CategorySet.antt =====
-- A set of categories in one machine word, and its iterator
-- (crates/fidelity-types/src/category.rs).
pub mod Laws
pub mod Iteration
use fidelity.Common.{
  ℕ, zero, suc, ◌+◌, ◌-◌, ◌/◌, ◌%◌, ◌^◌, bit_and, bit_or, Bool, not, Option, none, some, List, [],
  ◌∷◌, ◌==◌, if◌then◌else◌, length, get_elem?,
}
use fidelity.Types.Category.{Category, all_categories, index}

pub record CategorySet : Type 0 where
  pub bits : ℕ  -- u32

-- `1_u32 << category.index()`
abbrev pub mask : Category → ℕ
mask c = 2 ^ index c % 2 ^ 32

unfoldable pub empty : CategorySet
empty = record { bits = 0 }

-- The set afterwards, and whether it changed.
unfoldable pub insert : CategorySet → Category → CategorySet × Bool
insert s c = (record { bits = bit_or s.bits (mask c) }, bit_and s.bits (mask c) == 0)

unfoldable pub contains : CategorySet → Category → Bool
contains s c = not (bit_and s.bits (mask c) == 0)

unfoldable pub is_empty : CategorySet → Bool
is_empty s = s.bits == 0

-- `u32::count_ones`, over the digits that are left.
count_ones : ℕ → ℕ → ℕ
count_ones zero n = 0
count_ones (suc digits) n = n % 2 + count_ones digits (n / 2)

pub len : CategorySet → ℕ
unfolding count_ones
len s = count_ones 32 s.bits

unfoldable pub from_bits : ℕ → CategorySet
from_bits bits = record { bits = bits }

pub record CategorySetIter : Type 0 where
  pub set : CategorySet
  pub next : ℕ

pub iter : CategorySet → CategorySetIter
iter s = record { set = s; next = 0 }

-- The loop of `next`: the categories that are left in the table, from position `it.next` on.
-- An index past the table would panic; the loop's test excludes it.
advance : List Category → CategorySetIter → Option Category × CategorySetIter
advance [] it = (none, it)
advance (c ∷ left) it =
    let stepped : CategorySetIter = record it { next = it.next + 1 } in
    let rest = advance left stepped in if contains it.set c then (some c, stepped) else rest

left_from : ℕ → List Category → List Category
left_from zero cs = cs
left_from (suc n) [] = []
left_from (suc n) (c ∷ cs) = left_from n cs

pub next : CategorySetIter → Option Category × CategorySetIter
unfolding advance left_from
next it = advance (left_from it.next all_categories) it

-- `Iterator::collect`, on fuel for the calls of `next`.
pub collect : ℕ → CategorySetIter → List Category
collect zero it = []
collect (suc fuel) it = elim (next it).0 [ none ↦ [] | some c ↦ c ∷ collect fuel (next it).1 ]
