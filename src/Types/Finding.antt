-- ===== src/Types/Finding.antt =====
-- Strengths, actions, detectors, findings and outcomes (crates/fidelity-types/src/strength.rs,
-- action.rs, detector.rs, finding.rs and outcome.rs).
use Prim.Native.String.{String}
use fidelity.Common.{ℕ, Bool, true, false, Option, none, some, ◌==◌, leb, ltb}
use fidelity.Types.Category.{Category}
use fidelity.Types.Evidence.{Evidence}

pub data SignalStrength : Type 0 where
  low medium high : SignalStrength

-- The order that `derive(PartialOrd)` gives: the position of the variant.
abbrev pub rank : SignalStrength → ℕ
rank low = 0
rank medium = 1
rank high = 2

unfoldable pub reaches : SignalStrength → SignalStrength → Bool
reaches s threshold = leb (rank threshold) (rank s)

-- `a > b` on strengths.
abbrev pub stronger : SignalStrength → SignalStrength → Bool
stronger a b = ltb (rank b) (rank a)

pub data Action : Type 0 where
  report deny callback crash : Action

abbrev pub same_action : Action → Action → Bool
same_action report report = true
same_action deny deny = true
same_action callback callback = true
same_action crash crash = true
same_action _ _ = false

pub record Detector : Type 0 where
  pub id : ℕ  -- u16
  pub name : String
  pub category : Category

-- `PartialEq for Detector`: the identity alone.
abbrev pub same_detector : Detector → Detector → Bool
same_detector a b = a.id == b.id

pub record Finding : Type 0 where
  pub detector : Detector
  pub category : Category
  pub strength : SignalStrength
  pub evidence : Evidence
  pub observed_at_unix_ms : ℕ  -- u64

abbrev pub in_category : Detector → Category → SignalStrength → Evidence → ℕ → Finding
in_category d c s e at = record {
  detector = d;
  category = c;
  strength = s;
  evidence = e;
  observed_at_unix_ms = at;
}

-- `Finding::new`: the detector's own category.
abbrev pub new_finding : Detector → SignalStrength → Evidence → ℕ → Finding
new_finding d s e at = in_category d d.category s e at

pub data Outcome : Type 0 where
  not_run clean : Outcome
  found : Finding → Outcome
  unsupported : String → Outcome

abbrev pub finding : Outcome → Option Finding
finding (found f) = some f
finding not_run = none
finding clean = none
finding (unsupported reason) = none

unfoldable pub ran : Outcome → Bool
ran clean = true
ran (found f) = true
ran not_run = false
ran (unsupported reason) = false
