-- ===== src/Formats/Pe/Slots.antt =====
-- About the slots of one table of imports (pe/mod.rs).
use fidelity.Common.{
  ℕ, zero, suc, ◌+◌, ◌-◌, ◌*◌, ◌≤◌, ◌<◌, ◌≡◌, refl, Bool, true, false, Option, none, some, List, [],
  ◌∷◌, ◌++◌, length, length-append, All, All-append, leb, ◌==◌, if◌then◌else◌, ◌>>=◌, arith,
  bind_some, some-injective, Bool-cases, inl, inr, leb→lt,
}
use fidelity.Formats.Bytes.{checked_add, checked_mul, slice, read_u64, number_at}
use fidelity.Formats.Pe.{
  Thunk, last, slot, thunk_at, Walked, exhausted, refused, full, ended, with_thunk, thunks_from,
}

-- The address of eight bytes of the image that hold the value.
abbrev pub IsSlot : List ℕ → ℕ → ℕ × ℕ → Type 0
IsSlot image base s =
    (at : ℕ) × (s.0 ≡ base + at) × (at + 8 ≤ length image) × (s.1 ≡ number_at 8 image at)

abbrev pub AreSlots : List ℕ → ℕ → ℕ → List (ℕ × ℕ) → Type 0
AreSlots image base most slots = (length slots ≤ most) × All (IsSlot image base) slots

-- The walk did not run out of fuel, and what it has are slots.
abbrev pub Good : List ℕ → ℕ → ℕ → Walked → Type 0
Good image base most exhausted = ⊥
Good image base most refused = Unit
Good image base most (full slots) = AreSlots image base most slots
Good image base most (ended slots) = AreSlots image base most slots

read_u64_inside :
    (bytes : List ℕ) (at v : ℕ)
    → read_u64 bytes at ≡ some v
    → (at + 8 ≤ length bytes) × (v ≡ number_at 8 bytes at)
unfolding read_u64
read_u64_inside bytes at v h =
    let (end, added, h1) = bind_some (checked_add at 8) _ v h in
    let (field, cut, h2) = bind_some (slice bytes at end) _ v h1 in
    let place : end ≡ at + 8 = ground (arith, added) in
    let inside : at + 8 ≤ length bytes = ground (arith, cut, place) in
    let size : at + 8 - at ≡ 8 = omega arith in (inside, ground (arith, cut, place, h2, size))

module _ (image : List ℕ) (base most : ℕ) where
  thunk_at-IsSlot :
      (count_table address_table index : ℕ) (t : Thunk)
      → thunk_at image base count_table address_table index ≡ some t
      → (index * 8 + 8 ≤ length image)
        × ((address value : ℕ) → t ≡ slot address value → IsSlot image base (address, value))
  unfolding thunk_at
  thunk_at-IsSlot count_table address_table index t h =
      let (delta, multiplied, h1) = bind_some (checked_mul index 8) _ t h in
      let (count_offset, added, h2) = bind_some (checked_add count_table delta) _ t h1 in
      let (counted, read, h3) = bind_some (read_u64 image count_offset) _ t h2 in
      let (inside, _) = read_u64_inside image count_offset counted read in
      let product : delta ≡ index * 8 = ground (arith, multiplied) in
      let sum : count_offset ≡ count_table + delta = ground (arith, added) in
      (omega arith, by_count (counted == 0) delta h3)
    where
      by_count :
          (b : Bool) (delta : ℕ)
          → (if b
              then some last
              else checked_add address_table delta >>= λ slot_offset.
                  read_u64 image slot_offset >>= λ value.
                  checked_add base slot_offset >>= λ address. some (slot address value))
            ≡ some t
          → (address value : ℕ) → t ≡ slot address value
          → IsSlot image base (address, value)
      by_count true delta k = λ address value e. absurd (let same = some-injective k in cc)
      by_count false delta k =
          let (slot_offset, _, k1) = bind_some (checked_add address_table delta) _ t k in
          let (v, read, k2) = bind_some (read_u64 image slot_offset) _ t k1 in
          let (a, placed, k3) = bind_some (checked_add base slot_offset) _ t k2 in
          let (inside, holds) = read_u64_inside image slot_offset v read in
          let made : slot a v ≡ t = some-injective k3 in
          λ address value e.
            let address_same : a ≡ address = cc in
            let value_same : v ≡ value = cc in
            (slot_offset, ground (arith, placed, address_same), inside, rw (← value_same) holds)

  pub push-AreSlots :
      (slots : List (ℕ × ℕ)) (s : ℕ × ℕ)
      → AreSlots image base most slots
      → length slots < most
      → IsSlot image base s
      → AreSlots image base most (slots ++ s ∷ [])
  push-AreSlots slots s (few, good) room one = (
    omega (arith, length-append slots (s ∷ [])),
    All-append (IsSlot image base) slots (s ∷ []) good (one, tt),
  )

  pub thunks_from-Good :
      (fuel count_table address_table index : ℕ) (slots : List (ℕ × ℕ))
      → length image < fuel + index
      → index * 8 ≤ length image
      → AreSlots image base most slots
      → Good image base most
          (thunks_from fuel image base most count_table address_table index slots)
  unfolding thunks_from
  thunks_from-Good zero count_table address_table index slots enough within good =
      absurd (omega arith)
  thunks_from-Good (suc fuel) count_table address_table index slots enough within good =
      elim (Bool-cases (leb most (length slots))) [
        | inl e ↦ rw e good
        | inr e ↦ rw e (
            by_thunk (thunk_at image base count_table address_table index) refl
              (leb→lt most (length slots) e)
              λ slots' room.
                thunks_from-Good fuel count_table address_table (suc index) slots' (omega arith)
                  room)
      ]
    where
      next : List (ℕ × ℕ) → Walked
      next slots' = thunks_from fuel image base most count_table address_table (suc index) slots'

      by_thunk :
          (o : Option Thunk)
          → thunk_at image base count_table address_table index ≡ o
          → length slots < most
          → ((slots' : List (ℕ × ℕ))
              → suc index * 8 ≤ length image
              → AreSlots image base most slots'
              → Good image base most (next slots'))
          → Good image base most (with_thunk o slots next)
      by_thunk none e room ih = tt
      by_thunk (some last) e room ih = good
      by_thunk (some (slot address value)) e room ih =
          let (inside, is_slot) =
            thunk_at-IsSlot count_table address_table index (slot address value) e in
          ih (slots ++ (address, value) ∷ []) (omega arith)
            (push-AreSlots slots (address, value) good room (is_slot address value refl))
