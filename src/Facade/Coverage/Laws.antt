-- ===== src/Facade/Coverage/Laws.antt =====
-- Which categories the start finds missing, and the two that it always finds missing.
use fidelity.Common.{
  ℕ, ◌≡◌, refl, ◌∙◌, Bool, true, false, not, ◌&&◌, ◌||◌, List, [], ◌∷◌, any, keep, if◌then◌else◌,
  arith,
}
use fidelity.Types.Category.{
  Category, same_category, all_categories, integrity, debugging, instrumentation, device_compromise,
  virtualization, ui_abuse,
}
use fidelity.Types.CategorySet.{CategorySet, contains, empty, insert, iter, collect}
use fidelity.Types.CategorySet.Laws.{contains-insert, contains-empty}
use fidelity.Types.CategorySet.Iteration.{collect-iter}
use fidelity.Types.Finding.{Detector, Outcome}
use fidelity.Core.Environment.{Environment}
use fidelity.Detect.Inventory.{unaccounted_code_id, dispatch_targets_id, image_catalog_id}
use fidelity.Detect.Scan.{Detectors, scan_cheap, guarded}
use fidelity.Facade.Coverage.{
  detector_supplied_coverage, lacks_coverage, of_category, add_missing, missing_required_coverage,
}

added :
    (c d : Category) (b : Bool) (m : CategorySet)
    → contains (if b then (insert m d).0 else m) c ≡ ((same_category d c && b) || contains m c)
added c d true m = contains-insert m d c ∙ ground arith
added c d false m = ground arith

contains-add_missing :
    (outcomes : List (Detector × Outcome)) (c : Category) (cs : List Category) (m : CategorySet)
    → contains (add_missing outcomes cs m) c
      ≡ (any (λ d. same_category d c && lacks_coverage outcomes (of_category d)) cs || contains m c)
unfolding add_missing
contains-add_missing outcomes c [] m = refl
contains-add_missing outcomes c (d ∷ cs) m =
    let lacks = lacks_coverage outcomes (of_category d) in
    contains-add_missing outcomes c cs (if lacks then (insert m d).0 else m)
    ∙ rw (added c d lacks m) (ground arith)

any-keep :
    (q p : Category → Bool) (cs : List Category) → any q (keep p cs) ≡ any (λ c. p c && q c) cs
any-keep q p [] = refl
any-keep q p (c ∷ cs) = ground (arith, any-keep q p cs)

any-all_categories :
    (p q : Category → Bool) (c : Category)
    → any (λ d. p d && (same_category d c && q d)) all_categories ≡ (p c && q c)
any-all_categories p q integrity = ground arith
any-all_categories p q debugging = ground arith
any-all_categories p q instrumentation = ground arith
any-all_categories p q device_compromise = ground arith
any-all_categories p q virtualization = ground arith
any-all_categories p q ui_abuse = ground arith

-- A required category is missing exactly where the loop's test says so.
pub contains-missing_required_coverage :
    (required : CategorySet) (outcomes : List (Detector × Outcome)) (c : Category)
    → contains (missing_required_coverage required outcomes) c
      ≡ (contains required c && lacks_coverage outcomes (of_category c))
unfolding missing_required_coverage
contains-missing_required_coverage required outcomes c =
    let lacks = λ (d : Category). lacks_coverage outcomes (of_category d) in
    contains-add_missing outcomes c (collect 7 (iter required)) empty
    ∙ rw
        (
          collect-iter required,
          any-keep (λ d. same_category d c && lacks d) (contains required) all_categories,
          any-all_categories (contains required) lacks c,
          contains-empty c,
        )
        (ground arith)

last_true : (a b c : Bool) → (a || (b || (c || true))) ≡ true
last_true true b c = refl
last_true false true c = refl
last_true false false c = ground arith

lacks_instrumentation :
    (ds : Detectors) (env : Environment) (now : ℕ)
    → lacks_coverage (scan_cheap ds env now) (of_category instrumentation) ≡ true
unfolding lacks_coverage of_category scan_cheap guarded detector_supplied_coverage
lacks_instrumentation ds env now =
    let lacks = λ (d : Detector). not (detector_supplied_coverage d (scan_cheap ds env now)) in
    last_true (lacks unaccounted_code_id) (lacks dispatch_targets_id) (lacks image_catalog_id)

lacks_ui_abuse :
    (ds : Detectors) (env : Environment) (now : ℕ)
    → lacks_coverage (scan_cheap ds env now) (of_category ui_abuse) ≡ true
unfolding lacks_coverage of_category scan_cheap guarded detector_supplied_coverage
lacks_ui_abuse ds env now = refl

-- Over the outcomes of any first scan, the missing set holds instrumentation exactly where it is
-- required, and interface abuse exactly where it is required: the first scan completes neither.
pub never_complete :
    (required : CategorySet) (ds : Detectors) (env : Environment) (now : ℕ)
    → let missing = missing_required_coverage required (scan_cheap ds env now) in
      (contains missing instrumentation ≡ contains required instrumentation)
      × (contains missing ui_abuse ≡ contains required ui_abuse)
never_complete required ds env now =
    let outcomes = scan_cheap ds env now in
    (
      contains-missing_required_coverage required outcomes instrumentation
          ∙ rw (lacks_instrumentation ds env now) (ground arith),
      contains-missing_required_coverage required outcomes ui_abuse
          ∙ rw (lacks_ui_abuse ds env now) (ground arith),
    )
