-- ===== src/Tests/Scans.antt =====
-- The snapshots and the scans, at concrete regions and probes.
use fidelity.Common.{◌≡◌, true, false, not, ◌↔◌, All, any, keep}
use fidelity.Types.Finding.{clean}
use fidelity.Core.Regions
use fidelity.Core.Regions.{Region, holds, added_since, now_writable_since}
use fidelity.Core.Regions.Changes.{added_since-keep}
use fidelity.Detect.Snapshots.{compare_baseline}
use fidelity.Detect.Scan.{scan_all}
use fidelity.Detect.Scan.Calls.{own_calls, AllFollow}
use fidelity.Detect.Scan.Proper.{IsProperEntry}
use fidelity.Detect.Scan.Laws.{scanned, full_scan_detectors, scan_all-IsProper}
use fidelity.Detect.Scan.Verdicts.{covered, opened, compare_baseline-clean}
use fidelity.Tests.Data.{probes, detectors, at_start, at_scan}

added_since-keep_example :
    added_since (Regions.new at_scan) (Regions.new at_start)
    ≡ keep
        (λ r. not (any (λ c. holds c r.start) (Regions.new at_start).regions))
        (Regions.new at_scan).regions
added_since-keep_example = added_since-keep at_scan at_start

scan_all-IsProper_example :
    (scanned (scan_all detectors probes 1700) ≡ full_scan_detectors)
    × All IsProperEntry (scan_all detectors probes 1700)
    × AllFollow (own_calls detectors probes 1700) (scan_all detectors probes 1700)
scan_all-IsProper_example = scan_all-IsProper detectors probes 1700

compare_baseline-clean_example :
    (compare_baseline (Regions.new at_start) (Regions.new at_scan) 1700 ≡ clean) ↔ (
      ((Regions.new at_scan).truncated ≡ false)
      × All (λ r. covered (Regions.new at_start).regions r ≡ true) (Regions.new at_scan).regions
      × All
          (λ r. opened (Regions.new at_start).regions r ≡ false)
          (keep (λ (r : Region). r.writable) (Regions.new at_scan).regions))
compare_baseline-clean_example = compare_baseline-clean at_start at_scan 1700
