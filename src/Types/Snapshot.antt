-- ===== src/Types/Snapshot.antt =====
-- The public view of the retained state (crates/fidelity-types/src/snapshot.rs).
use fidelity.Common.{ℕ, Option, List, find}
use fidelity.Types.CategorySet.{CategorySet}
use fidelity.Types.Finding.{Detector, Finding, Outcome, same_detector}

pub record DetectorState : Type 0 where
  pub detector : Detector
  pub outcome : Outcome
  pub strongest : Option Finding
  pub first_unix_ms : Option ℕ
  pub latest_unix_ms : Option ℕ
  pub occurrences : ℕ  -- u32

pub record Snapshot : Type 0 where
  pub latched : CategorySet
  pub host_latched : CategorySet
  pub detectors : List DetectorState

unfoldable pub detector_state : Snapshot → Detector → Option DetectorState
detector_state s d = find (λ state. same_detector state.detector d) s.detectors
