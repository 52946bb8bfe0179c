-- ===== src/Detect/Inventory.antt =====
-- The identities of the detectors (the constants of crates/fidelity-detect/src), and the finding
-- that each makes of its own failure.
use fidelity.Common.{ℕ, List, [], ◌∷◌}
use fidelity.Types.Category.{
  integrity, debugging, instrumentation, device_compromise, virtualization, ui_abuse,
}
use fidelity.Types.Evidence.{BoundedText, detector_health}
use fidelity.Types.Finding.{Detector, low, new_finding, Outcome, found}

abbrev pub platform_trust_id : Detector
platform_trust_id = record { id = 1; name = "integrity.platform_trust"; category = integrity }

abbrev pub expected_identity_id : Detector
expected_identity_id = record { id = 2; name = "integrity.expected_identity"; category = integrity }

abbrev pub tracer_present_id : Detector
tracer_present_id = record { id = 3; name = "debugging.tracer_present"; category = debugging }

abbrev pub unaccounted_code_id : Detector
unaccounted_code_id = record {
  id = 4;
  name = "instrumentation.unaccounted_code";
  category = instrumentation;
}

abbrev pub runtime_baseline_id : Detector
runtime_baseline_id = record { id = 5; name = "integrity.runtime_baseline"; category = integrity }

abbrev pub system_build_id : Detector
system_build_id = record {
  id = 6;
  name = "device_compromise.system_build";
  category = device_compromise;
}

abbrev pub machine_host_id : Detector
machine_host_id = record { id = 7; name = "virtualization.machine_host"; category = virtualization }

abbrev pub host_report_id : Detector
host_report_id = record { id = 8; name = "ui_abuse.host_report"; category = ui_abuse }

abbrev pub dispatch_targets_id : Detector
dispatch_targets_id = record {
  id = 9;
  name = "instrumentation.dispatch_targets";
  category = instrumentation;
}

abbrev pub verified_boot_id : Detector
verified_boot_id = record {
  id = 10;
  name = "device_compromise.verified_boot";
  category = device_compromise;
}

abbrev pub local_agent_id : Detector
local_agent_id = record {
  id = 11;
  name = "instrumentation.local_agent";
  category = instrumentation;
}

abbrev pub image_catalog_id : Detector
image_catalog_id = record {
  id = 12;
  name = "instrumentation.image_catalog";
  category = instrumentation;
}

-- `INVENTORY`
abbrev pub inventory : List Detector
inventory =
    platform_trust_id ∷ expected_identity_id ∷ tracer_present_id ∷ unaccounted_code_id
    ∷ dispatch_targets_id ∷ image_catalog_id ∷ local_agent_id ∷ runtime_baseline_id
    ∷ system_build_id ∷ verified_boot_id ∷ machine_host_id ∷ host_report_id ∷ []

-- The function `health` of each detector.
abbrev pub health : Detector → BoundedText → ℕ → Outcome
health d detail now = found (new_finding d low (detector_health detail) now)
