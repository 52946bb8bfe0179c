-- ===== src/Formats/Pe/Imports.antt =====
-- About the walk over the imports (`mapped_import_slots` of pe/mod.rs).
use fidelity.Common.{
  ℕ, zero, suc, ◌+◌, ◌<◌, ◌≡◌, ◌≢◌, refl, Option, none, some, List, [], length, is_empty, leb,
  if◌then◌else◌, arith, bind_some, some-injective, Bool-cases, inl, inr, leb→le,
}
use fidelity.Formats.Bytes.{checked_add, slice}
use fidelity.Formats.Pe.{
  import_directory, import_descriptor, optional_header, directory, Walked, exhausted, refused, full,
  ended, thunks_from, Descriptor, malformed, final, tables, descriptor_at, or_refused, after_table,
  with_descriptor, descriptors_from, walk_imports, slots_of, mapped_import_slots,
}
use fidelity.Formats.Pe.Slots.{AreSlots, Good, thunks_from-Good}

module _ (image : List ℕ) (base most : ℕ) where
  after_table-Good :
      (w : Walked) (next : List (ℕ × ℕ) → Walked)
      → Good image base most w
      → ((slots : List (ℕ × ℕ))
          → AreSlots image base most slots
          → Good image base most (next slots))
      → Good image base most (after_table w next)
  unfolding after_table
  after_table-Good exhausted next h k = h
  after_table-Good refused next h k = tt
  after_table-Good (full slots) next h k = h
  after_table-Good (ended slots) next h k = k slots h

  or_refused-Good :
      (slots : List (ℕ × ℕ))
      → AreSlots image base most slots
      → Good image base most (or_refused slots)
  unfolding or_refused
  or_refused-Good slots good = elim (Bool-cases (is_empty slots)) [
    | inl e ↦ rw e tt
    | inr e ↦ rw e good
  ]

  descriptors_from-Good :
      (fuel directory_end descriptor : ℕ) (slots : List (ℕ × ℕ))
      → directory_end < fuel + descriptor
      → 0 < fuel
      → AreSlots image base most slots
      → Good image base most (descriptors_from fuel image base most directory_end descriptor slots)
  unfolding descriptors_from
  descriptors_from-Good zero directory_end descriptor slots enough some_fuel good =
      absurd (omega arith)
  descriptors_from-Good (suc fuel) directory_end descriptor slots enough some_fuel good =
      by_next (checked_add descriptor import_descriptor) refl
        λ next slots' left more. descriptors_from-Good fuel directory_end next slots' left more
    where
      body : ℕ → Walked
      body next =
          with_descriptor (descriptor_at image descriptor)
            (λ count_table address_table.
              thunks_from (suc (length image)) image base most count_table address_table 0 slots)
            slots (λ slots'. descriptors_from fuel image base most directory_end next slots')

      by_descriptor :
          (o : Option Descriptor) (next : List (ℕ × ℕ) → Walked)
          → ((slots' : List (ℕ × ℕ))
              → AreSlots image base most slots'
              → Good image base most (next slots'))
          → Good image base most (
              with_descriptor o
                (λ count_table address_table.
                  thunks_from
                    (suc (length image))
                    image
                    base
                    most
                    count_table
                    address_table
                    0
                    slots)
                slots
                next)
      by_descriptor none next k = tt
      by_descriptor (some malformed) next k = tt
      by_descriptor (some final) next k = or_refused-Good slots good
      by_descriptor (some (tables count_table address_table)) next k =
          after_table-Good _ next
            (thunks_from-Good image base most (suc (length image)) count_table address_table 0 slots
              (omega arith) (omega arith) good)
            k

      by_next :
          (o : Option ℕ)
          → checked_add descriptor import_descriptor ≡ o
          → ((next : ℕ) (slots' : List (ℕ × ℕ))
              → directory_end < fuel + next
              → 0 < fuel
              → AreSlots image base most slots'
              → Good image base most
                  (descriptors_from fuel image base most directory_end next slots'))
          → Good image base most (elim o [
            | none ↦ refused
            | some next ↦ let go = body next in if leb next directory_end then go else refused
          ])
      by_next none e ih = tt
      by_next (some next) e ih = elim (Bool-cases (leb next directory_end)) [
        | inl le ↦
            let place : next ≡ descriptor + import_descriptor = ground (arith, e) in
            let bound = leb→le next directory_end le in
            rw le (
              by_descriptor (descriptor_at image descriptor)
                (λ slots'. descriptors_from fuel image base most directory_end next slots')
                λ slots' good'. ih next slots' (omega arith) (omega arith) good')
        | inr gt ↦ rw gt tt
      ]

walk_imports-Good :
    (image : List ℕ) (base most : ℕ) (w : Walked)
    → walk_imports image base most ≡ some w
    → Good image base most w
unfolding walk_imports
walk_imports-Good image base most w h =
    let (optional, _, h1) = bind_some (optional_header image) _ w h in
    let (entry, _, h2) = bind_some (directory optional import_directory) _ w h1 in
    let (directory_end, _, h3) = bind_some (checked_add entry.0 entry.1) _ w h2 in
    let (body, _, h4) = bind_some (slice image entry.0 directory_end) _ w h3 in
    let same = some-injective h4 in
    rw (← same) (
      descriptors_from-Good image base most (suc directory_end) directory_end entry.0 []
        (omega arith) (omega arith) (omega arith, tt))

-- The walk over the import descriptors and their tables ends: the fuel that it has, by the end of
-- the directory and by the length of the image, is enough for every image, base and limit.
pub walk_imports-ne-exhausted :
    (image : List ℕ) (base most : ℕ) → walk_imports image base most ≢ some exhausted
walk_imports-ne-exhausted image base most h = walk_imports-Good image base most exhausted h

-- The answered import slots are at most as many as were asked for; each is the address of eight
-- bytes that lie inside the image, with their value.
pub mapped_import_slots-AreSlots :
    (image : List ℕ) (base most : ℕ) (slots : List (ℕ × ℕ))
    → mapped_import_slots image base most ≡ some slots
    → AreSlots image base most slots
unfolding mapped_import_slots
mapped_import_slots-AreSlots image base most slots h =
    let (w, walked, found) = bind_some (walk_imports image base most) slots_of slots h in
    by_end w (walk_imports-Good image base most w walked) found
  where
    by_end :
        (w : Walked)
        → Good image base most w
        → slots_of w ≡ some slots
        → AreSlots image base most slots
    by_end exhausted good k = absurd good
    by_end refused good k = absurd cc
    by_end (full s) good k = let same = some-injective k in rw (← same) good
    by_end (ended s) good k = let same = some-injective k in rw (← same) good
