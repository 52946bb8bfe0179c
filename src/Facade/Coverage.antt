-- ===== src/Facade/Coverage.antt =====
-- The coverage that a host requires of the start (crates/fidelity/src/builder.rs).
pub mod Laws
pub mod Missing
use fidelity.Common.{
  ℕ, Bool, true, false, not, ◌||◌, ◌&&◌, Option, none, some, List, [], ◌∷◌, any, find, keep,
  if◌then◌else◌,
}
use fidelity.Types.Category.{Category, same_category}
use fidelity.Types.CategorySet.{CategorySet, empty, insert, iter, collect}
use fidelity.Types.Evidence.{is_detector_health}
use fidelity.Types.Finding.{Detector, same_detector, Outcome, not_run, clean, found, unsupported}
use fidelity.Detect.Inventory.{inventory}

unfoldable pub supplies_coverage : Outcome → Bool
supplies_coverage clean = true
supplies_coverage (found f) = not (is_detector_health f.evidence)
supplies_coverage not_run = false
supplies_coverage (unsupported reason) = false

supplied_by : Option (Detector × Outcome) → Bool
unfolding supplies_coverage
supplied_by none = false
supplied_by (some entry) = supplies_coverage entry.1

unfoldable pub detector_supplied_coverage : Detector → List (Detector × Outcome) → Bool
unfolding supplied_by
detector_supplied_coverage d outcomes =
    supplied_by (find (λ entry. same_detector entry.0 d) outcomes)

-- The test of the loop's body, over the detectors of one category.
unfoldable pub lacks_coverage : List (Detector × Outcome) → List Detector → Bool
unfolding detector_supplied_coverage
lacks_coverage outcomes [] = true
lacks_coverage outcomes (first ∷ detectors) =
    not (detector_supplied_coverage first outcomes)
    || any (λ d. not (detector_supplied_coverage d outcomes)) detectors

unfoldable pub of_category : Category → List Detector
of_category c = keep (λ d. same_category d.category c) inventory

-- The loop over the required categories, from the set that is missing so far.
unfoldable pub add_missing : List (Detector × Outcome) → List Category → CategorySet → CategorySet
unfolding lacks_coverage of_category
add_missing outcomes [] missing = missing
add_missing outcomes (c ∷ required) missing =
    add_missing outcomes required
      (if lacks_coverage outcomes (of_category c) then (insert missing c).0 else missing)

-- The iterator of a set gives at most six categories, and then its end.
unfoldable pub missing_required_coverage : CategorySet → List (Detector × Outcome) → CategorySet
unfolding add_missing
missing_required_coverage required outcomes = add_missing outcomes (collect 7 (iter required)) empty
