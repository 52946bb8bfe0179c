-- ===== src/Probe/Linux/Registered.antt =====
-- What a clean outcome of the detector of unregistered images says of the answers of a Linux
-- system (image_catalog.rs of the Linux probe).
use fidelity.Common.{
  ℕ, ◌<◌, ◌≡◌, ◌↔◌, refl, ap, Bool, true, false, some, List, [], ◌∷◌, length, ◌≤◌, ◌⊎◌, inl, inr,
  sym, ◌∙◌, not, ◌&&◌, leb, Bool-cases, keep, is_empty, if◌then◌else◌, arith,
}
use fidelity.Common.Chars.{Chars}
use fidelity.Types.Evidence.{BoundedText}
use fidelity.Types.Finding.{clean}
use fidelity.Core.Environment.{returned}
use fidelity.Core.Facts
use fidelity.Formats.Procfs.Maps.{
  Mapping, Origin, file, deleted, anonymous, named, accounted, had_a_file, u32_max,
  executable_mappings, outside_loader, no_gap,
}
use fidelity.Formats.Procfs.Maps.Counts.{outside, none-executable_mappings, outside_loader-keep}
use fidelity.Detect.Detectors.{catalog_outcome, image_catalog}
use fidelity.Probe.Linux.System.{Image, System}
use fidelity.Probe.Linux.Loader.{Catalog, ranges, invalid, take_ranges}
use fidelity.Probe.Linux.Listed.{Listed, ranges-injective, take_ranges_iff}
use fidelity.Probe.Linux.Capabilities.{
  environment, image_catalog_state, catalog_of_maps, catalog_of, catalog_state,
}
use fidelity.Probe.Linux.Reports.{no_elements, clean_iff, then_iff, AllMappings}

catalog_by_count :
    (now : ℕ) (b : Bool) (regions : ℕ) (detail : BoundedText)
    → (catalog_outcome
          (if b
            then Facts.fact Facts.catalogued
            else Facts.fact (Facts.unregistered regions detail))
          now
        ≡ clean)
      ↔ (b ≡ true)
unfolding catalog_outcome
catalog_by_count now true regions detail = ((λ h. refl), (λ h. refl))
catalog_by_count now false regions detail = ((λ h. absurd cc), (λ h. absurd cc))

-- A mapping lies in a range.
abbrev pub Within : List (ℕ × ℕ) → Mapping → Type 0
Within [] m = ⊥
Within (range ∷ found) m = ((range.0 ≤ m.start) × (m.end ≤ range.1)) ⊎ Within found m

-- A mapping of a file, deleted or not, lies in a range.
abbrev pub Registered : List (ℕ × ℕ) → Mapping → Origin → Type 0
Registered found m (file path) = Within found m
Registered found m (deleted path) = Within found m
Registered found m anonymous = Unit
Registered found m (named name) = Unit

-- The images of the loader give at least one range and at most 1024, and every executable
-- mapping of a file lies in one of them.
abbrev pub AllRegistered : List Image → Chars → Type 0
AllRegistered images text =
    (found : List (ℕ × ℕ)) × Listed images found
    × (0 < length found)
    × (length found ≤ 1024)
    × AllMappings (λ m. Registered found m m.origin) text

accounted-Within :
    (found : List (ℕ × ℕ)) (m : Mapping) → (accounted found m ≡ true) ↔ Within found m
accounted-Within [] m = ((λ h. absurd cc), (λ h. absurd h))
accounted-Within (range ∷ found) m =
    let rest = accounted-Within found m in
    elim (Bool-cases (leb range.0 m.start && leb m.end range.1)) [
      | inl e ↦ rw e ((λ h. inl (ground arith)), (λ h. refl))
      | inr e ↦ rw e (
        (λ h. inr (rest.0 h)),
        (λ h. elim h [ inl k ↦ absurd (ground arith) | inr k ↦ rest.1 k ]),
      )
    ]

outside-Registered :
    (found : List (ℕ × ℕ)) (m : Mapping) (o : Origin)
    → ((had_a_file o && not (accounted found m)) ≡ false) ↔ Registered found m o
outside-Registered found m (file path) =
    let iff = accounted-Within found m in
    ((λ h. iff.0 (ground arith)), (λ h. let k = iff.1 h in ground arith))
outside-Registered found m (deleted path) =
    let iff = accounted-Within found m in
    ((λ h. iff.0 (ground arith)), (λ h. let k = iff.1 h in ground arith))
outside-Registered found m anonymous = ((λ h. tt), (λ h. refl))
outside-Registered found m (named name) = ((λ h. tt), (λ h. refl))

listed_catalog :
    (now : ℕ) (found : List (ℕ × ℕ)) (text : Chars)
    → (catalog_outcome (catalog_state (outside_loader text found)) now ≡ clean)
      ↔ AllMappings (λ m. Registered found m m.origin) text
unfolding catalog_state no_gap
listed_catalog now found text =
    let left_out = keep (outside found) (executable_mappings text) in
    rw
      (no_elements u32_max left_out (outside_loader text found).regions (omega arith)
        (outside_loader-keep text found).0)
      (then_iff (catalog_by_count now (is_empty left_out) _ _) (
        none-executable_mappings (outside found) (λ m. Registered found m m.origin)
          (λ m. outside-Registered found m m.origin) text))

counted_catalog :
    (now : ℕ) (images : List Image) (text : Chars) (catalog : Catalog)
    → take_ranges images [] ≡ catalog
    → (catalog_outcome (catalog_of text catalog) now ≡ clean) ↔ AllRegistered images text
unfolding catalog_of catalog_outcome
counted_catalog now images text invalid taken = (
  (λ h. absurd cc),
  (λ h.
      let (found, listed, filled, fits, rest) = h in
      absurd (let k = (take_ranges_iff images found).1 (listed, fits) in cc)),
)
counted_catalog now images text (ranges []) taken = (
  (λ h. absurd cc),
  (λ h.
      let (found, listed, filled, fits, rest) = h in
      let same : ranges [] ≡ ranges found =
        sym taken ∙ (take_ranges_iff images found).1 (listed, fits) in
      let same_length : 0 ≡ length found = ap length (ranges-injective same) in
      absurd (omega arith)),
)
counted_catalog now images text (ranges (range ∷ found)) taken =
    let iff = listed_catalog now (range ∷ found) text in
    let known = (take_ranges_iff images (range ∷ found)).0 taken in
    (
      (λ h. (range ∷ found, known.0, omega arith, known.1, iff.0 h)),
      (λ h.
          let (found', listed, filled, fits, rest) = h in
          let same : range ∷ found ≡ found' =
            ranges-injective (sym taken ∙ (take_ranges_iff images found').1 (listed, fits)) in
          iff.1 (rw same rest)),
    )

-- On Linux, the detector of unregistered images is clean exactly where the mapping table opened;
-- every image that the loader lists has headers, and every load header of one has a range
-- (`load_range`); these are at least one and at most 1024 ranges; and every line of the table
-- that is read as an executable mapping of a file, deleted or not, lies from its start to its end
-- inside one of them.
pub image_catalog-clean :
    (system : System) (now : ℕ)
    → (image_catalog (environment system) now ≡ returned clean)
      ↔ ((text : Chars) × (system.maps ≡ some text) × AllRegistered system.images text)
unfolding image_catalog image_catalog_state catalog_of_maps catalog_outcome
image_catalog-clean system now =
    clean_iff (λ text. AllRegistered system.images text)
      (λ o. catalog_outcome (catalog_of_maps o (take_ranges system.images [])) now) system.maps
      (λ h. cc) (λ text. counted_catalog now system.images text (take_ranges system.images []) refl)
