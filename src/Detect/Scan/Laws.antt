-- ===== src/Detect/Scan/Laws.antt =====
-- What every scan keeps to, whatever the environment answers.
use fidelity.Common.{
  ℕ, ◌≡◌, refl, Bool, true, false, Option, none, some, List, [], ◌∷◌, ◌++◌, All, All-append, map,
  arith, keep, not, ◌||◌, is_empty, if◌then◌else◌,
}
use fidelity.Types.Evidence.{is_detector_health}
use fidelity.Types.Finding.{Detector, same_detector, Outcome, unsupported}
use fidelity.Types.Identity.{ExpectedIdentity}
use fidelity.Core.Facts
use fidelity.Core.Facts.{Observation}
use fidelity.Core.Regions.{CodeRegions, added_since, now_writable_since}
use fidelity.Core.Targets.{DispatchTargets, redirected_since}
use fidelity.Core.Environment.{returned, ◌>>=◌, Environment}
use fidelity.Detect.Inventory
use fidelity.Detect.Inventory.{inventory}
use fidelity.Detect.Detectors.{
  platform_trust, platform_trust_outcome, trust_outcome, expected_identity, identity_outcome,
  local_agent,
}
use fidelity.Detect.Snapshots.{
  Captured, snapshot, not_captured, capture_failed, runtime_baseline, baseline_outcome,
  compare_baseline, not_bound, dispatch_targets, dispatch_outcome, compare_dispatch,
}
use fidelity.Detect.Scan.{Detectors, guarded, scan_cheap, scan_all}
use fidelity.Detect.Scan.Calls.{own_calls, AllFollow, scan_all-AllFollow}
use fidelity.Detect.Scan.Proper.{
  IsProper, IsProperEntry, health-IsProper, medium-IsOwn, guarded-IsProper, if-IsProper,
  tracer_present-IsProper, unaccounted_code-IsProper, image_catalog-IsProper, local_agent-IsProper,
  system_build-IsProper, verified_boot-IsProper, machine_host-IsProper,
}

trust-IsProper :
    (now : ℕ) (o : Observation Facts.CodeIdentity)
    → IsProper Inventory.platform_trust_id (platform_trust_outcome o now)
unfolding platform_trust_outcome trust_outcome is_detector_health
trust-IsProper now (Facts.unsupported reason) = tt
trust-IsProper now (Facts.failed detail) = health-IsProper _ detail now
trust-IsProper now (Facts.fact identity) = by_trust identity.trust
  where
    by_trust :
        (t : Facts.PlatformTrust) → IsProper Inventory.platform_trust_id (trust_outcome t now)
    by_trust Facts.accepted = tt
    by_trust (Facts.unavailable reason) = tt
    by_trust (Facts.rejected detail) = medium-IsOwn _ _ now refl

platform_trust-IsProper :
    (env : Environment) (now : ℕ)
    → IsProperEntry (guarded Inventory.platform_trust_id now (platform_trust env now))
unfolding platform_trust
platform_trust-IsProper env now =
    guarded-IsProper _ now env.code_identity (λ o. platform_trust_outcome o now)
      (trust-IsProper now)

match-IsProper :
    (now : ℕ) (o : Observation Facts.IdentityMatch)
    → IsProper Inventory.expected_identity_id (identity_outcome o now)
unfolding identity_outcome is_detector_health
match-IsProper now (Facts.unsupported reason) = tt
match-IsProper now (Facts.failed detail) = health-IsProper _ detail now
match-IsProper now (Facts.fact Facts.same) = tt
match-IsProper now (Facts.fact (Facts.different detail)) = record {
  detector = refl;
  category = refl;
  weak = ((λ is. grind arith), λ is. cc);
}

expected-IsProper :
    (env : Environment) (expected : Option ExpectedIdentity) (now : ℕ)
    → IsProperEntry
        (guarded Inventory.expected_identity_id now (expected_identity env expected now))
unfolding expected_identity guarded
expected-IsProper env none now = tt
expected-IsProper env (some e) now =
    guarded-IsProper _ now (env.identity_match e) (λ o. identity_outcome o now) (match-IsProper now)

compared-IsProper :
    (baseline current : CodeRegions) (now : ℕ)
    → IsProper Inventory.runtime_baseline_id (compare_baseline baseline current now)
unfolding compare_baseline is_detector_health
compared-IsProper baseline current now =
    let d = Inventory.runtime_baseline_id in
    if-IsProper d current.truncated _ _ tt (
      if-IsProper d (is_empty (added_since current baseline)) _ _
        (if-IsProper d (is_empty (now_writable_since current baseline)) _ _ tt
          (medium-IsOwn d _ now refl))
        (medium-IsOwn d _ now refl))

regions-IsProper :
    (baseline : CodeRegions) (now : ℕ) (o : Observation CodeRegions)
    → IsProper Inventory.runtime_baseline_id (baseline_outcome baseline o now)
unfolding baseline_outcome
regions-IsProper baseline now (Facts.unsupported reason) = tt
regions-IsProper baseline now (Facts.failed detail) = health-IsProper _ detail now
regions-IsProper baseline now (Facts.fact current) = compared-IsProper baseline current now

baseline-IsProper :
    (env : Environment) (b : Captured CodeRegions) (now : ℕ)
    → IsProperEntry (guarded Inventory.runtime_baseline_id now (runtime_baseline env b now))
unfolding runtime_baseline guarded
baseline-IsProper env not_captured now = tt
baseline-IsProper env (capture_failed detail) now = health-IsProper _ detail now
baseline-IsProper env (snapshot b) now = by_truncated b.truncated
  where
    by_truncated :
        (t : Bool)
        → IsProperEntry (
            guarded Inventory.runtime_baseline_id now (
              if t
              then returned
                  (unsupported "the process maps more executable regions than a snapshot keeps")
              else (env.code_regions >>= λ o. returned (baseline_outcome b o now))))
    by_truncated true = tt
    by_truncated false =
        guarded-IsProper _ now env.code_regions (λ o. baseline_outcome b o now)
          (regions-IsProper b now)

moved-IsProper :
    (start current : DispatchTargets) (now : ℕ)
    → IsProper Inventory.dispatch_targets_id (compare_dispatch start current now)
unfolding compare_dispatch is_detector_health
moved-IsProper start current now =
    let d = Inventory.dispatch_targets_id in
    if-IsProper d current.truncated _ _ tt
      (if-IsProper d (is_empty (redirected_since current start)) _ _ tt (medium-IsOwn d _ now refl))

targets-IsProper :
    (start : DispatchTargets) (now : ℕ) (o : Observation DispatchTargets)
    → IsProper Inventory.dispatch_targets_id (dispatch_outcome start o now)
unfolding dispatch_outcome
targets-IsProper start now (Facts.unsupported reason) = tt
targets-IsProper start now (Facts.failed detail) = health-IsProper _ detail now
targets-IsProper start now (Facts.fact current) = moved-IsProper start current now

dispatch-IsProper :
    (env : Environment) (t : Captured DispatchTargets) (now : ℕ)
    → IsProperEntry (guarded Inventory.dispatch_targets_id now (dispatch_targets env t now))
unfolding dispatch_targets guarded
dispatch-IsProper env not_captured now = tt
dispatch-IsProper env (capture_failed detail) now = health-IsProper _ detail now
dispatch-IsProper env (snapshot start) now = by_tests start.bound start.truncated
  where
    by_tests :
        (b t : Bool)
        → IsProperEntry (
            guarded Inventory.dispatch_targets_id now (
              if b
              then (if t
                  then returned (
                      unsupported
                        "the image of the host holds more dispatch targets than a snapshot keeps")
                  else (env.dispatch_targets >>= λ o. returned (dispatch_outcome start o now)))
              else returned not_bound))
    by_tests false t = tt
    by_tests true true = tt
    by_tests true false =
        guarded-IsProper _ now env.dispatch_targets (λ o. dispatch_outcome start o now)
          (targets-IsProper start now)

scan_cheap-IsProper :
    (ds : Detectors) (env : Environment) (now : ℕ) → All IsProperEntry (scan_cheap ds env now)
unfolding scan_cheap
scan_cheap-IsProper ds env now = (
  platform_trust-IsProper env now,
  (
    expected-IsProper env ds.expected now,
    (
      tracer_present-IsProper env now,
      (
        unaccounted_code-IsProper env now,
        (
          dispatch-IsProper env ds.dispatch now,
          (
            image_catalog-IsProper env now,
            (
              baseline-IsProper env ds.baseline now,
              (
                system_build-IsProper env now,
                (verified_boot-IsProper env now, (machine_host-IsProper env now, tt)),
              ),
            ),
          ),
        ),
      ),
    ),
  ),
)

-- The detectors of a list, in order.
abbrev pub scanned : List (Detector × Outcome) → List Detector
scanned = map λ (d, o). d

abbrev pub full_scan_detectors : List Detector
full_scan_detectors =
    keep
      (λ d.
        not (same_detector d Inventory.host_report_id || same_detector d Inventory.local_agent_id))
      inventory
    ++ Inventory.local_agent_id ∷ []

-- Whatever the environment answers, and whichever of its calls panic: a full scan gives one
-- outcome, in a fixed order, for every detector of the inventory but the host's own report. It is
-- the outcome that the detector returned, or detector health where the detector panicked. None is
-- left as not run: each is clean, a finding, or unsupported, which counts as not having run. A
-- finding is of its own detector and category, and is of low strength exactly where it is of
-- detector health.
pub scan_all-IsProper :
    (ds : Detectors) (env : Environment) (now : ℕ)
    → (scanned (scan_all ds env now) ≡ full_scan_detectors)
      × All IsProperEntry (scan_all ds env now)
      × AllFollow (own_calls ds env now) (scan_all ds env now)
unfolding scan_all scan_cheap guarded
scan_all-IsProper ds env now = (
  refl,
  All-append IsProperEntry (scan_cheap ds env now)
      (guarded Inventory.local_agent_id now (local_agent env now) ∷ [])
      (scan_cheap-IsProper ds env now) (local_agent-IsProper env now, tt),
  scan_all-AllFollow ds env now,
)
