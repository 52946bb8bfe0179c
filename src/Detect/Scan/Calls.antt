-- ===== src/Detect/Scan/Calls.antt =====
-- The detectors that a full scan runs, and what its guard makes of a panic (`guarded` in
-- crates/fidelity-detect/src/lib.rs).
use fidelity.Common.{ℕ, ◌≡◌, refl, true, List, [], ◌∷◌, map}
use fidelity.Types.Evidence.{is_detector_health}
use fidelity.Types.Finding.{Detector, Finding, Outcome, found}
use fidelity.Core.Environment.{Call, returned, panicked, Environment}
use fidelity.Detect.Inventory.{
  platform_trust_id, expected_identity_id, tracer_present_id, unaccounted_code_id,
  runtime_baseline_id, system_build_id, machine_host_id, dispatch_targets_id, verified_boot_id,
  local_agent_id, image_catalog_id,
}
use fidelity.Detect.Detectors.{
  platform_trust, expected_identity, tracer_present, unaccounted_code, image_catalog, local_agent,
  system_build, verified_boot, machine_host,
}
use fidelity.Detect.Snapshots.{runtime_baseline, dispatch_targets}
use fidelity.Detect.Scan.{Detectors, caught, guarded, scan_cheap, scan_all}

-- Each detector and what it does by itself, in the order of the full scan.
abbrev pub own_calls : Detectors → Environment → ℕ → List (Detector × Call Outcome)
own_calls ds env now =
    (platform_trust_id, platform_trust env now)
    ∷ (expected_identity_id, expected_identity env ds.expected now)
    ∷ (tracer_present_id, tracer_present env now)
    ∷ (unaccounted_code_id, unaccounted_code env now)
    ∷ (dispatch_targets_id, dispatch_targets env ds.dispatch now)
    ∷ (image_catalog_id, image_catalog env now)
    ∷ (runtime_baseline_id, runtime_baseline env ds.baseline now)
    ∷ (system_build_id, system_build env now)
    ∷ (verified_boot_id, verified_boot env now)
    ∷ (machine_host_id, machine_host env now)
    ∷ (local_agent_id, local_agent env now)
    ∷ []

-- The outcome that a call returned, or detector health where it panicked.
abbrev pub Follows : Call Outcome → Outcome → Type 0
Follows (returned own) o = o ≡ own
Follows panicked o = (f : Finding) × (o ≡ found f) × (is_detector_health f.evidence ≡ true)

abbrev pub AllFollow : List (Detector × Call Outcome) → List (Detector × Outcome) → Type 0
AllFollow [] [] = Unit
AllFollow ((d, call) ∷ calls) ((e, o) ∷ entries) =
    (e ≡ d) × Follows call o × AllFollow calls entries
AllFollow [] (entry ∷ entries) = ⊥
AllFollow (call ∷ calls) [] = ⊥

caught-Follows : (d : Detector) (now : ℕ) (call : Call Outcome) → Follows call (caught d now call)
unfolding caught is_detector_health
caught-Follows d now (returned o) = refl
caught-Follows d now panicked = (_, refl, refl)

guarded-AllFollow :
    (now : ℕ) (calls : List (Detector × Call Outcome))
    → AllFollow calls (map (λ (d, call). guarded d now call) calls)
unfolding guarded
guarded-AllFollow now [] = tt
guarded-AllFollow now ((d, call) ∷ calls) =
    (refl, caught-Follows d now call, guarded-AllFollow now calls)

pub scan_all-AllFollow :
    (ds : Detectors) (env : Environment) (now : ℕ)
    → AllFollow (own_calls ds env now) (scan_all ds env now)
unfolding scan_all scan_cheap guarded
scan_all-AllFollow ds env now = guarded-AllFollow now (own_calls ds env now)
