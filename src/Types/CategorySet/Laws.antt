-- ===== src/Types/CategorySet/Laws.antt =====
-- The word behaves as a set of categories, whatever its bits.
use fidelity.Common.{
  ℕ, ◌+◌, ◌-◌, ◌*◌, ◌^◌, ◌<◌, ◌≡◌, refl, sym, ◌∙◌, true, false, not, ◌||◌, arith, ◌==◌,
}
use fidelity.Common.Bits.{bit_at, bit_and_one_bit, bit_or_one_bit}
use fidelity.Types.Category.{
  Category, integrity, debugging, instrumentation, device_compromise, virtualization, ui_abuse,
  index, same_category,
}
use fidelity.Types.CategorySet.{CategorySet, empty, insert, contains, is_empty}

-- A membership test reads one digit of the word.
pub contains-bit_at :
    (s : CategorySet) (c : Category) → contains s c ≡ (bit_at s.bits (index c) == 1)
unfolding contains
contains-bit_at s integrity = ground (arith, bit_and_one_bit 0 s.bits)
contains-bit_at s c = ground (arith, bit_and_one_bit (index c) s.bits)

pub bits-insert :
    (s : CategorySet) (c : Category)
    → (insert s c).0.bits ≡ s.bits + (1 - bit_at s.bits (index c)) * 2 ^ index c
unfolding insert
bits-insert s integrity = ground (arith, bit_or_one_bit 0 s.bits)
bits-insert s c = ground (arith, bit_or_one_bit (index c) s.bits)

-- Setting one digit changes no other.
set_digit :
    (b : ℕ) (c d : Category)
    → (bit_at (b + (1 - bit_at b (index c)) * 2 ^ index c) (index d) == 1)
      ≡ (same_category c d || (bit_at b (index d) == 1))
set_digit b integrity integrity = ground arith
set_digit b c d = ground arith

-- After an insertion a set contains the inserted category and those that it contained before, and
-- no other.
pub contains-insert :
    (s : CategorySet) (c d : Category)
    → contains (insert s c).0 d ≡ (same_category c d || contains s d)
contains-insert s c d =
    rw (contains-bit_at (insert s c).0 d, bits-insert, contains-bit_at s d) (set_digit s.bits c d)

pub contains-empty : (c : Category) → contains empty c ≡ false
unfolding contains empty
contains-empty integrity = refl
contains-empty _ = refl

-- `insert` reports a change exactly when the category was absent.
pub insert_changed : (s : CategorySet) (c : Category) → (insert s c).1 ≡ not (contains s c)
unfolding insert contains
insert_changed s c = ground arith

-- No bit stands past the last category.
abbrev pub IsPlain : CategorySet → Type 0
IsPlain s = s.bits < 64

pub insert-IsPlain : (s : CategorySet) (c : Category) → IsPlain s → IsPlain (insert s c).0
insert-IsPlain s integrity h = omega (arith, bits-insert s integrity)
insert-IsPlain s c h = omega (arith, bits-insert s c)

-- An empty word holds no category, and a plain word that holds none is empty.
pub is_empty-contains :
    (s : CategorySet) → is_empty s ≡ true → (c : Category) → contains s c ≡ false
unfolding is_empty
is_empty-contains s h integrity = rw contains-bit_at (ground arith)
is_empty-contains s h c = rw contains-bit_at (ground arith)

pub is_empty_iff :
    (s : CategorySet) → IsPlain s → ((c : Category) → contains s c ≡ false) → is_empty s ≡ true
unfolding is_empty
is_empty_iff s plain none_held = ground (
  arith,
  digit integrity,
  digit debugging,
  digit instrumentation,
  digit device_compromise,
  digit virtualization,
  digit ui_abuse,
)
  where
    digit : (c : Category) → (bit_at s.bits (index c) == 1) ≡ false
    digit c = sym (contains-bit_at s c) ∙ none_held c
