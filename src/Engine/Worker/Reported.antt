-- ===== src/Engine/Worker/Reported.antt =====
-- What a scan asks the worker for, read off the table of the policy (crates/fidelity-engine/src/worker.rs
-- and policy.rs).
use fidelity.Common.{
  ◌≤◌, ◌<◌, ◌≡◌, ◌≢◌, ◌⊎◌, inl, inr, refl, true, false, Option, none, some, List, [], ◌∷◌, ◌++◌,
  arith, is_some, Option-cases,
}
use fidelity.Types.Evidence.{is_detector_health}
use fidelity.Types.Finding.{
  Detector, rank, reaches, Action, report, crash, Finding, Outcome, not_run, clean, found,
  unsupported, finding,
}
use fidelity.Engine.Policy.{Policy, action, threshold, qualifying_action}
use fidelity.Engine.State.{Slot, State}
use fidelity.Engine.State.Frame.{slot_of}
use fidelity.Engine.Pending.{Report}
use fidelity.Engine.Worker.{Hooks, record_scans}
use fidelity.Engine.Worker.Reporting.{qualified_one, expected_reports, reports-record_scans}

-- The action of the category; `report` in place of `crash` for a finding of detector health.
abbrev pub Due : Policy → Finding → Action → Type 0
Due policy f a =
    ((a ≡ action policy f.category)
      × ((action policy f.category ≢ crash) ⊎ (is_detector_health f.evidence ≡ false)))
    ⊎ ((a ≡ report) × (action policy f.category ≡ crash) × (is_detector_health f.evidence ≡ true))

abbrev pub IsBelow : Policy → Finding → Type 0
IsBelow policy f = rank f.strength < rank (threshold policy f.category)

-- The reports that are due for the outcomes of a scan, in its order.
pub data Reported (policy : Policy) (slots : List Slot)
    : List (Detector × Outcome) → List Report → Type 0 where
  no_more : Reported policy slots [] []
  no_slot :
      (d : Detector) (o : Outcome) (scans : List (Detector × Outcome)) (rs : List Report)
      → slot_of slots d ≡ none
      → Reported policy slots scans rs
      → Reported policy slots ((d, o) ∷ scans) rs
  no_finding :
      (d : Detector) (o : Outcome) (scans : List (Detector × Outcome)) (rs : List Report)
      → ((f : Finding) → o ≢ found f)
      → Reported policy slots scans rs
      → Reported policy slots ((d, o) ∷ scans) rs
  below :
      (d : Detector) (f : Finding) (scans : List (Detector × Outcome)) (rs : List Report)
      → IsBelow policy f
      → Reported policy slots scans rs
      → Reported policy slots ((d, found f) ∷ scans) rs
  asked :
      (d : Detector) (f : Finding) (a : Action) (slot : Slot) (scans : List (Detector × Outcome))
      (rs : List Report)
      → slot_of slots d ≡ some slot
      → rank (threshold policy f.category) ≤ rank f.strength
      → Due policy f a
      → Reported policy slots scans rs
      → Reported policy slots ((d, found f) ∷ scans) ((f, a) ∷ rs)

refused : (policy : Policy) (f : Finding) → qualifying_action policy f ≡ none → IsBelow policy f
unfolding qualifying_action reaches
refused policy f h = ground arith

due :
    (policy : Policy) (f : Finding) (a : Action)
    → qualifying_action policy f ≡ some a
    → (rank (threshold policy f.category) ≤ rank f.strength) × Due policy f a
unfolding qualifying_action reaches
due policy f a h = ground arith

one_of :
    (policy : Policy) (f : Finding) (o : Option Action)
    → qualifying_action policy f ≡ o
    → qualified_one policy true (some f) ≡ elim o [ none ↦ [] | some a ↦ (f, a) ∷ [] ]
one_of policy f o h = rw (h, qualified_one) refl

module _ (policy : Policy) (slots : List Slot) where
  one_outcome :
      (d : Detector) (o : Outcome) (slot : Option Slot) (scans : List (Detector × Outcome))
      (rs : List Report)
      → slot_of slots d ≡ slot
      → Reported policy slots scans rs
      → Reported policy slots
          ((d, o) ∷ scans)
          (qualified_one policy (is_some slot) (finding o) ++ rs)
  one_outcome d o none scans rs e r = no_slot d o scans rs e r
  one_outcome d (found f) (some slot) scans rs e r =
      elim (Option-cases (qualifying_action policy f)) [
        | inl gone ↦ rw (one_of policy f none gone) (below d f scans rs (refused policy f gone) r)
        | inr got ↦
            let (a, is) = got in
            let (reached, is_due) = due policy f a is in
            rw (one_of policy f (some a) is) (asked d f a slot scans rs e reached is_due r)
      ]
  one_outcome d not_run (some slot) scans rs e r = no_finding d not_run scans rs (λ f h. cc) r
  one_outcome d clean (some slot) scans rs e r = no_finding d clean scans rs (λ f h. cc) r
  one_outcome d (unsupported reason) (some slot) scans rs e r =
      no_finding d (unsupported reason) scans rs (λ f h. cc) r

  expected_reports-Reported :
      (scans : List (Detector × Outcome))
      → Reported policy slots scans (expected_reports policy slots scans)
  unfolding expected_reports
  expected_reports-Reported [] = no_more
  expected_reports-Reported ((d, o) ∷ scans) =
      one_outcome d o (slot_of slots d) scans (expected_reports policy slots scans) refl
        (expected_reports-Reported scans)

-- Recording a scan gives, in the order of the scan, one report for each finding whose detector
-- has a slot and whose strength reaches the threshold of its category, and nothing else. The
-- report carries the action of the category, but `report` where that action is `crash` and the
-- finding is of detector health.
pub record_scans-Reported :
    {P : Type 0} (policy : Policy) (hooks : Hooks P) (scans : List (Detector × Outcome))
    (ps : P × State)
    → Reported policy ps.1.slots scans (record_scans policy hooks scans ps).1
record_scans-Reported policy hooks scans ps =
    rw (reports-record_scans policy hooks scans ps)
      (expected_reports-Reported policy ps.1.slots scans)
