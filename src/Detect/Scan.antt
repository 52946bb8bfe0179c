-- ===== src/Detect/Scan.antt =====
-- The scans: every detector under its guard (crates/fidelity-detect/src/lib.rs).
pub mod Proper
pub mod Verdicts
pub mod Calls
pub mod Laws
use fidelity.Common.{ℕ, Option, List, [], ◌∷◌, ◌++◌}
use fidelity.Common.Text.{literal}
use fidelity.Types.Evidence
use fidelity.Types.Finding.{Detector, Outcome}
use fidelity.Types.Identity.{ExpectedIdentity}
use fidelity.Core.Regions.{CodeRegions}
use fidelity.Core.Targets.{DispatchTargets}
use fidelity.Core.Environment.{Call, returned, panicked, Environment}
use fidelity.Detect.Inventory.{
  platform_trust_id, expected_identity_id, tracer_present_id, unaccounted_code_id,
  runtime_baseline_id, system_build_id, machine_host_id, dispatch_targets_id, verified_boot_id,
  local_agent_id, image_catalog_id, health,
}
use fidelity.Detect.Detectors.{
  platform_trust, expected_identity, tracer_present, unaccounted_code, image_catalog, local_agent,
  system_build, verified_boot, machine_host,
}
use fidelity.Detect.Snapshots.{Captured, runtime_baseline, dispatch_targets}

pub record Detectors : Type 0 where
  pub expected : Option ExpectedIdentity
  pub baseline : Captured CodeRegions
  pub dispatch : Captured DispatchTargets

caught : Detector → ℕ → Call Outcome → Outcome
caught d now (returned o) = o
caught d now panicked =
    health d (Evidence.new (literal "the detector panicked, so this scan reports its health")) now

-- `guarded`: one detector, and its own health where it panicked.
unfoldable pub guarded : Detector → ℕ → Call Outcome → Detector × Outcome
unfolding caught
guarded d now scan = (d, caught d now scan)

unfoldable pub scan_cheap : Detectors → Environment → ℕ → List (Detector × Outcome)
unfolding guarded
scan_cheap ds env now =
    guarded platform_trust_id now (platform_trust env now)
    ∷ guarded expected_identity_id now (expected_identity env ds.expected now)
    ∷ guarded tracer_present_id now (tracer_present env now)
    ∷ guarded unaccounted_code_id now (unaccounted_code env now)
    ∷ guarded dispatch_targets_id now (dispatch_targets env ds.dispatch now)
    ∷ guarded image_catalog_id now (image_catalog env now)
    ∷ guarded runtime_baseline_id now (runtime_baseline env ds.baseline now)
    ∷ guarded system_build_id now (system_build env now)
    ∷ guarded verified_boot_id now (verified_boot env now)
    ∷ guarded machine_host_id now (machine_host env now)
    ∷ []

unfoldable pub scan_all : Detectors → Environment → ℕ → List (Detector × Outcome)
scan_all ds env now = scan_cheap ds env now ++ guarded local_agent_id now (local_agent env now) ∷ []
