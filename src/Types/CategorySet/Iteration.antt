-- ===== src/Types/CategorySet/Iteration.antt =====
-- The iterator visits the held categories in declaration order, each once, and `len` counts them.
use fidelity.Common.{
  ℕ, zero, suc, ◌+◌, ◌/◌, ◌<◌, ◌≡◌, refl, sym, ap, ◌∙◌, Bool, true, false, Option, none, some, List,
  [], ◌∷◌, arith, length, keep, Bool-cases, inl, inr,
}
use mathlib.Core.List.{foldr}
use fidelity.Common.Bits.{bit_at}
use fidelity.Types.Category.{Category, all_categories, index}
use fidelity.Types.CategorySet.{
  CategorySet, CategorySetIter, contains, iter, next, advance, left_from, collect, len, count_ones,
}
use fidelity.Types.CategorySet.Laws.{IsPlain, contains-bit_at}

left_from-suc :
    (n : ℕ) (table : List Category) {c : Category} {cs : List Category}
    → left_from n table ≡ c ∷ cs
    → left_from (n + 1) table ≡ cs
unfolding left_from
left_from-suc zero [] h = cc
left_from-suc zero (c ∷ table) h = ground arith
left_from-suc (suc n) [] h = cc
left_from-suc (suc n) (c ∷ table) h =
    let e : suc n + 1 ≡ suc (n + 1) = omega arith in rw e (left_from-suc n table h)

abbrev held_from : CategorySetIter → List Category
held_from it = keep (contains it.set) (left_from it.next all_categories)

-- What one call of `next` gives: the first category held, and an iterator for the others.
abbrev Yields : List Category → CategorySetIter → Option Category × CategorySetIter → Type 0
Yields cs it (none, after) = keep (contains it.set) cs ≡ []
Yields cs it (some c, after) =
    (keep (contains it.set) cs ≡ c ∷ held_from after)
    × (length (left_from after.next all_categories) < length cs)
    × (after.set ≡ it.set)

Yields-skip :
    (c : Category) (cs : List Category) (it : CategorySetIter)
    (r : Option Category × CategorySetIter)
    → contains it.set c ≡ false
    → Yields cs (record it { next = it.next + 1 }) r
    → Yields (c ∷ cs) it r
Yields-skip c cs it (none, after) e h = rw e h
Yields-skip c cs it (some d, after) e h = rw e (h.0, omega (arith, h.1), h.2)

Yields-take :
    (c : Category) (cs : List Category) (it : CategorySetIter)
    → contains it.set c ≡ true
    → left_from (it.next + 1) all_categories ≡ cs
    → Yields (c ∷ cs) it (some c, record it { next = it.next + 1 })
Yields-take c cs it e tail = (rw e (rw tail refl), rw tail (omega arith), refl)

advance-Yields :
    (cs : List Category) (it : CategorySetIter)
    → left_from it.next all_categories ≡ cs
    → Yields cs it (advance cs it)
unfolding advance
advance-Yields [] it h = refl
advance-Yields (c ∷ cs) it h =
    let tail : left_from (it.next + 1) all_categories ≡ cs = left_from-suc it.next _ h in
    let after : CategorySetIter = record it { next = it.next + 1 } in
    let rest : Yields cs after (advance cs after) = advance-Yields cs after tail in
    elim (Bool-cases (contains it.set c)) [
      | inl e ↦ rw e (Yields-take c cs it e tail)
      | inr e ↦ rw e (Yields-skip c cs it _ e rest)
    ]

collect_by_result :
    (fuel : ℕ) (it : CategorySetIter) (r : Option Category × CategorySetIter)
    → Yields (left_from it.next all_categories) it r
    → length (left_from it.next all_categories) < suc fuel
    → ((after : CategorySetIter)
        → length (left_from after.next all_categories) < fuel
        → collect fuel after ≡ held_from after)
    → elim r.0 [ none ↦ [] | some c ↦ c ∷ collect fuel r.1 ] ≡ held_from it
collect_by_result fuel it (none, after) y h rest = sym y
collect_by_result fuel it (some c, after) y h rest =
    ap (λ t. c ∷ t) (rest after (omega (arith, y.1))) ∙ sym y.0

-- Enough calls of `next` give all that is held.
collect-keep :
    (fuel : ℕ) (it : CategorySetIter)
    → length (left_from it.next all_categories) < fuel
    → collect fuel it ≡ held_from it
unfolding collect
collect-keep zero it h = absurd (omega arith)
collect-keep (suc fuel) it h =
    collect_by_result fuel it (next it) (unfold next in advance-Yields _ it refl) h
      (collect-keep fuel)

-- Seven calls of the iterator give exactly the categories that the set contains, in declaration
-- order, and reach its end.
pub collect-iter : (s : CategorySet) → collect 7 (iter s) ≡ keep (contains s) all_categories
unfolding iter left_from
collect-iter s = collect-keep 7 (iter s) (omega arith)

count_ones-zero : (n : ℕ) → count_ones n 0 ≡ 0
unfolding count_ones
count_ones-zero zero = refl
count_ones-zero (suc n) = omega (arith, count_ones-zero n)

-- A word below 64 has its digits in the first six places.
count_ones_small :
    (n b : ℕ)
    → b < 64
    → count_ones (suc (suc (suc (suc (suc (suc n)))))) b
      ≡ bit_at b 0 + bit_at b 1 + bit_at b 2 + bit_at b 3 + bit_at b 4 + bit_at b 5
unfolding count_ones
count_ones_small n b h =
    let gone : b / 2 / 2 / 2 / 2 / 2 / 2 ≡ 0 = omega arith in
    rw gone (omega (arith, count_ones-zero n))

abbrev unit_of : Bool → ℕ
unit_of true = 1
unit_of false = 0

length-keep-cons :
    (p : Category → Bool) (c : Category) (cs : List Category)
    → length (keep p (c ∷ cs)) ≡ unit_of (p c) + length (keep p cs)
length-keep-cons p c cs = ground arith

unit-contains : (s : CategorySet) (c : Category) → unit_of (contains s c) ≡ bit_at s.bits (index c)
unit-contains s c = rw contains-bit_at (ground arith)

length-held :
    (s : CategorySet) (cs : List Category)
    → length (keep (contains s) cs) ≡ foldr (λ c n. bit_at s.bits (index c) + n) 0 cs
length-held s [] = refl
length-held s (c ∷ cs) =
    omega (arith, length-keep-cons (contains s) c cs, unit-contains s c, length-held s cs)

-- For a word with no bit past the last category, the number of its bits is the number of
-- categories that its iterator gives.
pub len-collect : (s : CategorySet) → IsPlain s → len s ≡ length (collect 7 (iter s))
unfolding len
len-collect s h =
    rw collect-iter (omega (arith, count_ones_small 26 s.bits h, length-held s all_categories))
