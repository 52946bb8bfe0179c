-- ===== src/Tests/Data.antt =====
-- The inputs of the examples: detectors, findings, policies, snapshots, a host and its probes.
use fidelity.Common.{ℕ, ◌+◌, true, false, Option, none, some, List, [], ◌∷◌}
use fidelity.Types.Category.{debugging, instrumentation}
use fidelity.Types.CategorySet
use fidelity.Types.CategorySet.{CategorySet}
use fidelity.Types.Evidence.{BoundedText, tracer_present, detector_health, unaccounted_code}
use fidelity.Types.Finding.{
  Detector, Finding, new_finding, low, medium, deny, callback, Outcome, clean, found,
}
use fidelity.Types.Identity.{linux}
use fidelity.Types.Interface.{overlay}
use fidelity.Core.Facts
use fidelity.Core.Environment.{returned, panicked, Environment}
use fidelity.Core.Regions.{Region}
use fidelity.Core.Targets.{Target}
use fidelity.Detect.Inventory.{inventory, tracer_present_id, unaccounted_code_id}
use fidelity.Detect.Snapshots.{not_captured}
use fidelity.Detect.Scan.{Detectors}
use fidelity.Engine.Policy
use fidelity.Engine.Policy.{Policy}
use fidelity.Engine.State
use fidelity.Engine.State.{State}
use fidelity.Engine.Pending
use fidelity.Engine.Worker.{Shared}
use fidelity.Facade.Process.{Process, idle}
use fidelity.Facade.Handle.{call_deny, call_report_ui_abuse}
use fidelity.Facade.Start.{Builder, Surroundings, Prepared, Callback, ok}

abbrev pub detail : BoundedText
detail = record { text = 116 ∷ 114 ∷ []; truncated = false }

abbrev pub traced : Finding
traced = new_finding tracer_present_id medium (tracer_present detail) 1700

abbrev pub unhealthy : Finding
unhealthy = new_finding tracer_present_id low (detector_health detail) 1800

abbrev pub injected : Finding
injected = new_finding unaccounted_code_id medium (unaccounted_code detail) 1900

-- Debugging denies from medium strength on, and instrumentation calls the host.
abbrev pub policy : Policy
policy = Policy.set (Policy.set Policy.new debugging deny medium) instrumentation callback medium

abbrev pub scans : List (Detector × Outcome)
scans =
    (tracer_present_id, found traced)
    ∷ (unaccounted_code_id, found injected)
    ∷ (tracer_present_id, found unhealthy)
    ∷ (tracer_present_id, clean)
    ∷ []

abbrev pub words : Process × State
words = (record idle { running = true }, State.new inventory)

-- The host is a counter, which its clock reads and advances.
abbrev pub clock : ℕ → Option ℕ × ℕ
clock n = (some n, n + 1)

abbrev pub denying : Callback ℕ
denying f w = (call_deny f.category ∷ call_report_ui_abuse overlay ∷ [], true, w.host + 1)

abbrev pub probes : Environment
probes = record {
  code_identity = returned (Facts.fact (record { trust = Facts.accepted; signer = none }));
  identity_match = λ e. returned (Facts.fact Facts.same);
  tracer_state = returned (Facts.fact (Facts.tracer_present detail));
  code_origin = panicked;
  image_catalog_state = returned (Facts.fact Facts.catalogued);
  dispatch_targets = returned (Facts.unsupported "no dispatch table");
  code_regions = returned (Facts.failed detail);
  system_build = returned (Facts.fact Facts.released);
  boot_verification = returned (Facts.fact Facts.verified);
  machine_host = returned (Facts.fact (Facts.virtual_machine detail));
  local_agent_state = returned (Facts.fact Facts.no_agent);
}

abbrev pub builder : Builder ℕ
builder = record {
  policy = policy;
  identity = none;
  callback = some denying;
  deny_until_full_scan = true;
  required_coverage = (CategorySet.insert CategorySet.empty debugging).0;
}

abbrev pub around : Surroundings ℕ
around = record {
  target = some linux;
  binds_identity = false;
  build = ok tt;
  at_capture = probes;
  at_scan = probes;
  later = λ n. (probes, n);
  clock = clock;
  prepare_worker = λ n. n;
  refused = none;
  ready = true;
}

abbrev pub detectors : Detectors
detectors = record { expected = none; baseline = not_captured; dispatch = not_captured }

abbrev pub prepared : Prepared
prepared = record { identity = []; detectors = detectors }

abbrev pub shared : Shared Process ℕ
shared = record { process = words.0; state = words.1; pending = Pending.new; host = 5 }

abbrev pub at_start : List Region
at_start = record { start = 4096; end = 8192; writable = false } ∷ []

abbrev pub at_scan : List Region
at_scan =
    record { start = 12288; end = 16384; writable = false }
    ∷ record { start = 4096; end = 8192; writable = true }
    ∷ []

abbrev pub bound_targets : List Target
bound_targets = record { slot = 64; value = 4096 } ∷ record { slot = 72; value = 5000 } ∷ []

abbrev pub moved_targets : List Target
moved_targets = record { slot = 72; value = 6000 } ∷ record { slot = 64; value = 4096 } ∷ []
