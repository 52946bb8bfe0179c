-- ===== src/Detect/Snapshots.antt =====
-- The detectors that compare with what the start captured (crates/fidelity-detect/src/lib.rs,
-- integrity/baseline.rs and instrumentation/dispatch.rs).
use mathlib.Core.List.{foldl}
use fidelity.Common.{ℕ, ◌+◌, ◌%◌, ◌^◌, List, [], ◌∷◌, ◌++◌, if◌then◌else◌, length, is_empty}
use fidelity.Common.Text.{literal, decimal, hexadecimal}
use fidelity.Types.Evidence
use fidelity.Types.Evidence.{
  BoundedText, Evidence, code_added_after_start, code_made_writable, dispatch_redirected,
}
use fidelity.Types.Finding.{medium, new_finding, Outcome, clean, found, unsupported}
use fidelity.Core.Facts
use fidelity.Core.Facts.{Observation}
use fidelity.Core.Regions.{Region, CodeRegions, bytes, added_since, now_writable_since}
use fidelity.Core.Targets.{Target, DispatchTargets, redirected_since}
use fidelity.Core.Environment.{Call, returned, ◌>>=◌, Environment}
use fidelity.Detect.Inventory.{runtime_baseline_id, dispatch_targets_id, health}

-- What the start captured.
pub data Captured (T : Type 0) : Type 0 where
  snapshot : T → Captured T
  not_captured : Captured T
  capture_failed : BoundedText → Captured T

-- The sum is a `u64`, which wraps in a release build.
abbrev pub total_bytes : List Region → ℕ
total_bytes = foldl (λ n r. (n + bytes r) % 2 ^ 64) 0

-- The two messages of the baseline, over the regions that it found.
added_detail : List Region → BoundedText
added_detail added = Evidence.new (
    literal "executable memory that start did not map: "
    ++ (decimal (total_bytes added) ++ (literal " bytes, region count " ++ decimal (length added))))

opened_detail : List Region → BoundedText
opened_detail opened = Evidence.new (
    literal "executable memory that start did not map writable: "
    ++ (decimal (total_bytes opened)
        ++ (literal " bytes, region count " ++ decimal (length opened))))

unfoldable pub compare_baseline : CodeRegions → CodeRegions → ℕ → Outcome
unfolding added_detail opened_detail
compare_baseline baseline current now =
    let added = added_since current baseline in
    let opened = now_writable_since current baseline in
    if current.truncated
    then unsupported "the process maps more executable regions than a snapshot keeps"
    else if is_empty added
    then (if is_empty opened
        then clean
        else found (
            new_finding runtime_baseline_id medium (code_made_writable (opened_detail opened)) now))
    else found
        (new_finding runtime_baseline_id medium (code_added_after_start (added_detail added)) now)

unfoldable pub baseline_outcome : CodeRegions → Observation CodeRegions → ℕ → Outcome
unfolding compare_baseline
baseline_outcome baseline (Facts.unsupported reason) now = unsupported reason
baseline_outcome baseline (Facts.failed detail) now = health runtime_baseline_id detail now
baseline_outcome baseline (Facts.fact current) now = compare_baseline baseline current now

unfoldable pub runtime_baseline : Environment → Captured CodeRegions → ℕ → Call Outcome
unfolding baseline_outcome
runtime_baseline env not_captured now =
    returned (unsupported "this build captured no baseline at start")
runtime_baseline env (capture_failed detail) now = returned (health runtime_baseline_id detail now)
runtime_baseline env (snapshot baseline) now =
    if baseline.truncated
    then returned (unsupported "the process maps more executable regions than a snapshot keeps")
    else do observed ← env.code_regions; returned (baseline_outcome baseline observed now)

first_slot : List Target → ℕ
first_slot [] = 0
first_slot (t ∷ ts) = t.slot

redirected_detail : List Target → BoundedText
unfolding first_slot
redirected_detail redirected = Evidence.new (
    literal "dispatch targets that moved after start: "
    ++ (decimal (length redirected)
        ++ (literal ", first at " ++ hexadecimal (first_slot redirected))))

unfoldable pub compare_dispatch : DispatchTargets → DispatchTargets → ℕ → Outcome
unfolding redirected_detail
compare_dispatch start current now =
    let redirected = redirected_since current start in
    if current.truncated
    then unsupported "the image of the host holds more dispatch targets than a snapshot keeps"
    else if is_empty redirected
    then clean
    else found (
        new_finding dispatch_targets_id medium (dispatch_redirected (redirected_detail redirected))
          now)

unfoldable pub dispatch_outcome : DispatchTargets → Observation DispatchTargets → ℕ → Outcome
unfolding compare_dispatch
dispatch_outcome start (Facts.unsupported reason) now = unsupported reason
dispatch_outcome start (Facts.failed detail) now = health dispatch_targets_id detail now
dispatch_outcome start (Facts.fact current) now = compare_dispatch start current now

abbrev pub not_bound : Outcome
not_bound =
    unsupported
      "the image of the host does not bind its dispatch table fully, so a change there is ordinary"

unfoldable pub dispatch_targets : Environment → Captured DispatchTargets → ℕ → Call Outcome
unfolding dispatch_outcome
dispatch_targets env not_captured now =
    returned (unsupported "this build captured no dispatch snapshot at start")
dispatch_targets env (capture_failed detail) now = returned (health dispatch_targets_id detail now)
dispatch_targets env (snapshot start) now =
    if start.bound
    then (if start.truncated
        then returned
            (unsupported "the image of the host holds more dispatch targets than a snapshot keeps")
        else do observed ← env.dispatch_targets; returned (dispatch_outcome start observed now))
    else returned not_bound
