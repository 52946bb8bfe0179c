-- ===== src/Facade/Coverage/Missing.antt =====
-- Which required categories the start finds missing (`missing_required_coverage` in
-- crates/fidelity/src/builder.rs).
use fidelity.Common.{
  ◌≡◌, refl, ◌↔◌, ◌⊎◌, inl, inr, Bool, true, false, not, ◌||◌, List, [], ◌∷◌, any, keep, is_empty,
  All, arith, Bool-cases,
}
use fidelity.Types.Category.{Category, same_category}
use fidelity.Types.CategorySet.{CategorySet, contains}
use fidelity.Types.Evidence.{is_detector_health}
use fidelity.Types.Finding.{Detector, same_detector, Outcome, not_run, clean, found, unsupported}
use fidelity.Detect.Inventory.{inventory}
use fidelity.Facade.Coverage.{
  supplies_coverage, detector_supplied_coverage, lacks_coverage, of_category,
  missing_required_coverage,
}
use fidelity.Facade.Coverage.Laws.{contains-missing_required_coverage}

-- An outcome of a detector that looked and answered about its category.
abbrev pub IsAnswer : Outcome → Type 0
IsAnswer clean = Unit
IsAnswer (found f) = is_detector_health f.evidence ≡ false
IsAnswer not_run = ⊥
IsAnswer (unsupported reason) = ⊥

-- The first outcome of a detector in a list is an answer.
pub data Answered (d : Detector) : List (Detector × Outcome) → Type 0 where
  here :
      (e : Detector) (o : Outcome) (rest : List (Detector × Outcome))
      → same_detector e d ≡ true
      → IsAnswer o
      → Answered d ((e, o) ∷ rest)
  later :
      (e : Detector) (o : Outcome) (rest : List (Detector × Outcome))
      → same_detector e d ≡ false
      → Answered d rest
      → Answered d ((e, o) ∷ rest)

-- The inventory has a detector of the category, and every one of them answered.
abbrev pub Covered : Category → List (Detector × Outcome) → Type 0
Covered c outcomes =
    (any (λ d. same_category d.category c) inventory ≡ true)
    × All (λ d. same_category d.category c ≡ true → Answered d outcomes) inventory

answers : (o : Outcome) → (supplies_coverage o ≡ true) ↔ IsAnswer o
unfolding supplies_coverage
answers clean = ((λ h. tt), (λ h. refl))
answers (found f) = ((λ h. ground arith), (λ h. ground arith))
answers not_run = ((λ h. absurd cc), (λ h. absurd h))
answers (unsupported reason) = ((λ h. absurd cc), (λ h. absurd h))

Answered-nil : (d : Detector) → Answered d [] → ⊥
Answered-nil d a = elim a [ ]

Answered-uncons :
    (d e : Detector) (o : Outcome) (rest : List (Detector × Outcome))
    → Answered d ((e, o) ∷ rest)
    → ((same_detector e d ≡ true) × IsAnswer o) ⊎ ((same_detector e d ≡ false) × Answered d rest)
Answered-uncons d e o rest (here e' o' rest' same answer) = inl (same, answer)
Answered-uncons d e o rest (later e' o' rest' other more) = inr (other, more)

supplied :
    (d : Detector) (outcomes : List (Detector × Outcome))
    → (detector_supplied_coverage d outcomes ≡ true) ↔ Answered d outcomes
unfolding detector_supplied_coverage
supplied d [] = ((λ h. absurd cc), λ a. absurd (Answered-nil d a))
supplied d ((e, o) ∷ rest) = elim (Bool-cases (same_detector e d)) [
  | inl same ↦ rw same (
    (λ h. here e o rest same ((answers o).0 h)),
    (λ a. elim (Answered-uncons d e o rest a) [
      | inl k ↦ (answers o).1 k.1
      | inr k ↦ absurd (let other = k.0 in cc)
    ]),
  )
  | inr other ↦ rw other (
    (λ h. later e o rest other ((supplied d rest).0 h)),
    (λ a. elim (Answered-uncons d e o rest a) [
      | inl k ↦ absurd (let same = k.0 in cc)
      | inr k ↦ (supplied d rest).1 k.1
    ]),
  )
]

-- The loop's test over the detectors that a filter keeps.
lacks-is_empty :
    (outcomes : List (Detector × Outcome)) (ds : List Detector)
    → lacks_coverage outcomes ds
      ≡ (is_empty ds || any (λ d. not (detector_supplied_coverage d outcomes)) ds)
unfolding lacks_coverage
lacks-is_empty outcomes [] = refl
lacks-is_empty outcomes (d ∷ ds) = refl

is_empty-keep : (p : Detector → Bool) (ds : List Detector) → is_empty (keep p ds) ≡ not (any p ds)
is_empty-keep p [] = refl
is_empty-keep p (d ∷ ds) = ground (arith, is_empty-keep p ds)

kept-Answered :
    (outcomes : List (Detector × Outcome)) (p : Detector → Bool) (ds : List Detector)
    → (any (λ d. not (detector_supplied_coverage d outcomes)) (keep p ds) ≡ false)
      ↔ All (λ d. p d ≡ true → Answered d outcomes) ds
kept-Answered outcomes p [] = ((λ h. tt), (λ h. refl))
kept-Answered outcomes p (d ∷ ds) =
    let more = kept-Answered outcomes p ds in
    let this = supplied d outcomes in
    elim (Bool-cases (p d)) [
      | inl e ↦ rw e (
        (λ h. ((λ k. this.0 (ground arith)), more.0 (ground arith))),
        (λ h. let a = this.1 (h.0 refl) in let b = more.1 h.1 in ground arith),
      )
      | inr e ↦ rw e ((λ h. ((λ k. absurd cc), more.0 h)), (λ h. more.1 h.1))
    ]

both_false :
    (whole empty unanswered held : Bool)
    → whole ≡ (empty || unanswered)
    → empty ≡ not held
    → (whole ≡ false) ↔ ((held ≡ true) × (unanswered ≡ false))
both_false whole empty unanswered held e f =
    ((λ h. (ground arith, ground arith)), (λ h. ground arith))

lacks_kept :
    (outcomes : List (Detector × Outcome)) (p : Detector → Bool) (ds : List Detector)
    → (lacks_coverage outcomes (keep p ds) ≡ false)
      ↔ ((any p ds ≡ true) × All (λ d. p d ≡ true → Answered d outcomes) ds)
lacks_kept outcomes p ds =
    let answered = kept-Answered outcomes p ds in
    let test =
      both_false (lacks_coverage outcomes (keep p ds)) (is_empty (keep p ds))
        (any (λ d. not (detector_supplied_coverage d outcomes)) (keep p ds)) (any p ds)
        (lacks-is_empty outcomes (keep p ds)) (is_empty-keep p ds) in
    ((λ h. let k = test.0 h in (k.0, answered.0 k.1)), (λ h. test.1 (h.0, answered.1 h.1)))

lacks-Covered :
    (c : Category) (outcomes : List (Detector × Outcome))
    → (lacks_coverage outcomes (of_category c) ≡ false) ↔ Covered c outcomes
unfolding of_category
lacks-Covered c outcomes = lacks_kept outcomes (λ d. same_category d.category c) inventory

-- A category is not in the missing set exactly where it is not required, or it is covered: the
-- inventory has a detector of it, and for every detector of it the first outcome is clean or a
-- finding that is not of detector health. A detector without an outcome, or with one that did not
-- run or is unsupported, leaves its category uncovered.
pub missing_required_coverage-contains :
    (required : CategorySet) (outcomes : List (Detector × Outcome)) (c : Category)
    → (contains (missing_required_coverage required outcomes) c ≡ false)
      ↔ ((contains required c ≡ false) ⊎ Covered c outcomes)
missing_required_coverage-contains required outcomes c =
    let both = contains-missing_required_coverage required outcomes c in
    let iff = lacks-Covered c outcomes in
    elim (Bool-cases (contains required c)) [
      | inl e ↦ (
        (λ h. inr (iff.0 (ground arith))),
        (λ k. elim k [
          | inl free ↦ absurd cc
          | inr covered ↦ let l = iff.1 covered in ground arith
        ]),
      )
      | inr e ↦ ((λ h. inl e), (λ k. ground arith))
    ]
