-- ===== src/Formats/Procfs/Maps/Counts.antt =====
-- About the two counts over the executable mappings (procfs/maps.rs).
use mathlib.Core.List.{filter_map}
use fidelity.Common.{
  ◌↔◌, refl, true, false, some, Option-cases, All, is_empty, some-injective, ℕ, ◌+◌, ◌≤◌, ◌≡◌, min,
  Bool, not, ◌&&◌, List, [], ◌∷◌, keep, length, arith, Bool-cases, inl, inr,
}
use fidelity.Common.Chars.{Chars, lines}
use fidelity.Formats.Procfs.Maps.{
  Mapping, size, mapping, executable_mappings, Unaccounted, CatalogGap, has_no_file, had_a_file,
  count_unaccounted, unaccounted_from, unaccounted, count_outside, accounted, outside_from,
  outside_loader, u32_max, u64_max,
}

-- The bytes of mappings, with no bound.
abbrev pub total : List Mapping → ℕ
total [] = 0
total (m ∷ ms) = size m + total ms

-- What the mappings that pass a test add to two counts that stop at their greatest numbers.
abbrev Counted : (Mapping → Bool) → List Mapping → ℕ → ℕ → ℕ → ℕ → Type 0
Counted test ms regions bytes regions' bytes' =
    (regions' ≡ min u32_max (regions + length (keep test ms)))
    × (bytes' ≡ min u64_max (bytes + total (keep test ms)))

one_more :
    (test : Mapping → Bool) (m : Mapping) (ms : List Mapping) (r b r' b' r'' b'' : ℕ)
    → Counted test (m ∷ []) r b r' b'
    → Counted test ms r' b' r'' b''
    → Counted test (m ∷ ms) r b r'' b''
one_more test m ms r b r' b' r'' b'' first rest = elim (Bool-cases (test m)) [
  | inl e ↦ let first' = rw e at first in rw e (omega (arith, first', rest))
  | inr e ↦ let first' = rw e at first in rw e (omega (arith, first', rest))
]

count_unaccounted-Counted :
    (found : Unaccounted) (m : Mapping)
    → found.regions ≤ u32_max
    → found.bytes ≤ u64_max
    → Counted
        (λ m. has_no_file m.origin)
        (m ∷ [])
        found.regions
        found.bytes
        (count_unaccounted found m).regions
        (count_unaccounted found m).bytes
unfolding count_unaccounted
count_unaccounted-Counted found m hr hb = elim (Bool-cases (has_no_file m.origin)) [
  | inl e ↦ rw e (omega arith)
  | inr e ↦ rw e (omega arith)
]

unaccounted_from-Counted :
    (found : Unaccounted) (ms : List Mapping)
    → found.regions ≤ u32_max
    → found.bytes ≤ u64_max
    → Counted
        (λ m. has_no_file m.origin)
        ms
        found.regions
        found.bytes
        (unaccounted_from found ms).regions
        (unaccounted_from found ms).bytes
unfolding unaccounted_from
unaccounted_from-Counted found [] hr hb = omega arith
unaccounted_from-Counted found (m ∷ ms) hr hb =
    let first = count_unaccounted-Counted found m hr hb in
    one_more (λ m. has_no_file m.origin) m ms _ _ _ _ _ _ first
      (unaccounted_from-Counted (count_unaccounted found m) ms (omega (arith, first))
        (omega (arith, first)))

-- The counts are those of the executable mappings that are anonymous or deleted, up to the greatest
-- numbers of 32 and of 64 bits.
pub unaccounted-keep :
    (text : Chars)
    → let counted = keep (λ m. has_no_file m.origin) (executable_mappings text) in
      ((unaccounted text).regions ≡ min u32_max (length counted))
      × ((unaccounted text).bytes ≡ min u64_max (total counted))
unfolding unaccounted
unaccounted-keep text = omega (
  arith,
  unaccounted_from-Counted (record { regions = 0; bytes = 0 }) (executable_mappings text)
      (omega arith) (omega arith),
)

abbrev pub outside : List (ℕ × ℕ) → Mapping → Bool
outside ranges m = had_a_file m.origin && not (accounted ranges m)

count_outside-Counted :
    (ranges : List (ℕ × ℕ)) (found : CatalogGap) (m : Mapping)
    → found.regions ≤ u32_max
    → found.bytes ≤ u64_max
    → Counted
        (outside ranges)
        (m ∷ [])
        found.regions
        found.bytes
        (count_outside ranges found m).regions
        (count_outside ranges found m).bytes
unfolding count_outside
count_outside-Counted ranges found m hr hb = elim (Bool-cases (had_a_file m.origin)) [
  | inr e ↦ rw e (omega arith)
  | inl e ↦ elim (Bool-cases (accounted ranges m)) [
    | inl a ↦ rw (e, a) (omega arith)
    | inr a ↦ rw (e, a) (omega arith)
  ]
]

outside_from-Counted :
    (ranges : List (ℕ × ℕ)) (found : CatalogGap) (ms : List Mapping)
    → found.regions ≤ u32_max
    → found.bytes ≤ u64_max
    → Counted
        (outside ranges)
        ms
        found.regions
        found.bytes
        (outside_from ranges found ms).regions
        (outside_from ranges found ms).bytes
unfolding outside_from
outside_from-Counted ranges found [] hr hb = omega arith
outside_from-Counted ranges found (m ∷ ms) hr hb =
    let first = count_outside-Counted ranges found m hr hb in
    one_more (outside ranges) m ms _ _ _ _ _ _ first (
      outside_from-Counted ranges (count_outside ranges found m) ms (omega (arith, first))
        (omega (arith, first)))

-- The counts are those of the executable mappings of files that lie in no range of the loader, up to the
-- greatest numbers of 32 and of 64 bits.
pub outside_loader-keep :
    (text : Chars) (ranges : List (ℕ × ℕ))
    → let counted = keep (outside ranges) (executable_mappings text) in
      ((outside_loader text ranges).regions ≡ min u32_max (length counted))
      × ((outside_loader text ranges).bytes ≡ min u64_max (total counted))
unfolding outside_loader
outside_loader-keep text ranges = omega (
  arith,
  outside_from-Counted ranges (record { regions = 0; bytes = 0 }) (executable_mappings text)
      (omega arith) (omega arith),
)

-- No mapping that passes a test is left, exactly where every line that is a mapping fails it.
none-filter_map :
    (test : Mapping → Bool) (P : Mapping → Type 0)
    → ((m : Mapping) → (test m ≡ false) ↔ P m)
    → (texts : List Chars)
    → (is_empty (keep test (filter_map mapping texts)) ≡ true)
      ↔ All (λ line. (m : Mapping) → mapping line ≡ some m → P m) texts
unfolding filter_map
none-filter_map test P iff [] = ((λ h. tt), (λ h. refl))
none-filter_map test P iff (line ∷ texts) =
    let more = none-filter_map test P iff texts in
    elim (Option-cases (mapping line)) [
      | inl gone ↦ rw gone ((λ h. ((λ m e. absurd cc), more.0 h)), (λ h. more.1 h.1))
      | inr got ↦ elim (Bool-cases (test got.0)) [
        | inl e ↦
            rw (got.1, e)
              ((λ h. absurd cc), (λ h. absurd (let f = (iff got.0).1 (h.0 got.0 refl) in cc)))
        | inr e ↦
            rw (got.1, e)
              (
                (λ h. (
                  (λ m k. let same : got.0 ≡ m = some-injective k in rw (← same) ((iff got.0).0 e)),
                  more.0 h,
                )),
                (λ h. more.1 h.1),
              )
      ]
    ]

pub none-executable_mappings :
    (test : Mapping → Bool) (P : Mapping → Type 0)
    → ((m : Mapping) → (test m ≡ false) ↔ P m)
    → (text : Chars)
    → (is_empty (keep test (executable_mappings text)) ≡ true)
      ↔ All (λ line. (m : Mapping) → mapping line ≡ some m → P m) (lines text)
unfolding executable_mappings
none-executable_mappings test P iff text = none-filter_map test P iff (lines text)
