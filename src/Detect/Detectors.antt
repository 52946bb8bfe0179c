-- ===== src/Detect/Detectors.antt =====
-- The detectors that read one fact (crates/fidelity-detect/src: debugging/tracer.rs,
-- integrity/identity.rs, instrumentation/code.rs, instrumentation/image_catalog.rs,
-- instrumentation/local_agent.rs, device_compromise, virtualization/machine_host.rs and
-- ui_abuse/host_report.rs).
use fidelity.Common.{ℕ, Option, none, some}
use fidelity.Common.Text.{literal}
use fidelity.Types.Evidence
use fidelity.Types.Evidence.{
  BoundedText, image_untrusted, unexpected_identity, local_instrumentation_agent,
  unregistered_image, development_build, unverified_boot, interface_observed, virtual_machine_host,
  simulated_environment,
}
use fidelity.Types.Finding.{
  SignalStrength, low, medium, high, new_finding, Outcome, clean, found, unsupported,
}
use fidelity.Types.Identity.{ExpectedIdentity}
use fidelity.Types.Interface.{UiObservation, overlay, screen_capture, detail}
use fidelity.Core.Facts
use fidelity.Core.Facts.{
  Observation, TracerState, no_tracer, MachineHost, hardware, virtual_machine, simulated,
  SystemBuild, released, development, CodeOrigin, accounted, unaccounted, ImageCatalogState,
  catalogued, unregistered, LocalAgentState, no_agent, agent_present, BootVerification, verified,
  unverified, PlatformTrust, accepted, rejected, unavailable, CodeIdentity, IdentityMatch, same,
  different,
}
use fidelity.Core.Environment.{Call, returned, ◌>>=◌, Environment}
use fidelity.Detect.Inventory.{
  platform_trust_id, expected_identity_id, tracer_present_id, unaccounted_code_id, system_build_id,
  machine_host_id, host_report_id, verified_boot_id, local_agent_id, image_catalog_id, health,
}

unfoldable pub trust_outcome : PlatformTrust → ℕ → Outcome
trust_outcome accepted now = clean
trust_outcome (unavailable reason) now = unsupported reason
trust_outcome (rejected detail) now =
    found (new_finding platform_trust_id medium (image_untrusted detail) now)

unfoldable pub platform_trust_outcome : Observation CodeIdentity → ℕ → Outcome
platform_trust_outcome (Facts.unsupported reason) now = unsupported reason
platform_trust_outcome (Facts.failed detail) now = health platform_trust_id detail now
platform_trust_outcome (Facts.fact identity) now = trust_outcome identity.trust now

unfoldable pub platform_trust : Environment → ℕ → Call Outcome
unfolding platform_trust_outcome trust_outcome
platform_trust env now = do
  observed ← env.code_identity
  returned (platform_trust_outcome observed now)

unfoldable pub identity_outcome : Observation IdentityMatch → ℕ → Outcome
identity_outcome (Facts.unsupported reason) now = unsupported reason
identity_outcome (Facts.failed detail) now = health expected_identity_id detail now
identity_outcome (Facts.fact same) now = clean
identity_outcome (Facts.fact (different detail)) now =
    found (new_finding expected_identity_id high (unexpected_identity detail) now)

unfoldable pub expected_identity : Environment → Option ExpectedIdentity → ℕ → Call Outcome
unfolding identity_outcome
expected_identity env none now = returned (unsupported "the host supplied no expected identity")
expected_identity env (some expected) now = do
  observed ← env.identity_match expected
  returned (identity_outcome observed now)

unfoldable pub tracer_outcome : Observation TracerState → ℕ → Outcome
tracer_outcome (Facts.unsupported reason) now = unsupported reason
tracer_outcome (Facts.failed detail) now = health tracer_present_id detail now
tracer_outcome (Facts.fact no_tracer) now = clean
tracer_outcome (Facts.fact (Facts.tracer_present detail)) now =
    found (new_finding tracer_present_id medium (Evidence.tracer_present detail) now)

unfoldable pub tracer_present : Environment → ℕ → Call Outcome
unfolding tracer_outcome
tracer_present env now = do observed ← env.tracer_state; returned (tracer_outcome observed now)

unfoldable pub code_outcome : Observation CodeOrigin → ℕ → Outcome
code_outcome (Facts.unsupported reason) now = unsupported reason
code_outcome (Facts.failed detail) now = health unaccounted_code_id detail now
code_outcome (Facts.fact accounted) now = clean
code_outcome (Facts.fact (unaccounted regions detail)) now =
    found (new_finding unaccounted_code_id medium (Evidence.unaccounted_code detail) now)

unfoldable pub unaccounted_code : Environment → ℕ → Call Outcome
unfolding code_outcome
unaccounted_code env now = do observed ← env.code_origin; returned (code_outcome observed now)

unfoldable pub catalog_outcome : Observation ImageCatalogState → ℕ → Outcome
catalog_outcome (Facts.unsupported reason) now = unsupported reason
catalog_outcome (Facts.failed detail) now = health image_catalog_id detail now
catalog_outcome (Facts.fact catalogued) now = clean
catalog_outcome (Facts.fact (unregistered regions detail)) now =
    found (new_finding image_catalog_id medium (unregistered_image detail) now)

unfoldable pub image_catalog : Environment → ℕ → Call Outcome
unfolding catalog_outcome
image_catalog env now = do
  observed ← env.image_catalog_state
  returned (catalog_outcome observed now)

unfoldable pub agent_outcome : Observation LocalAgentState → ℕ → Outcome
agent_outcome (Facts.unsupported reason) now = unsupported reason
agent_outcome (Facts.failed detail) now = health local_agent_id detail now
agent_outcome (Facts.fact no_agent) now = clean
agent_outcome (Facts.fact (agent_present detail)) now =
    found (new_finding local_agent_id medium (local_instrumentation_agent detail) now)

unfoldable pub local_agent : Environment → ℕ → Call Outcome
unfolding agent_outcome
local_agent env now = do observed ← env.local_agent_state; returned (agent_outcome observed now)

unfoldable pub build_outcome : Observation SystemBuild → ℕ → Outcome
build_outcome (Facts.unsupported reason) now = unsupported reason
build_outcome (Facts.failed detail) now = health system_build_id detail now
build_outcome (Facts.fact released) now = clean
build_outcome (Facts.fact (development detail)) now =
    found (new_finding system_build_id medium (development_build detail) now)

unfoldable pub system_build : Environment → ℕ → Call Outcome
unfolding build_outcome
system_build env now = do observed ← env.system_build; returned (build_outcome observed now)

unfoldable pub boot_outcome : Observation BootVerification → ℕ → Outcome
boot_outcome (Facts.unsupported reason) now = unsupported reason
boot_outcome (Facts.failed detail) now = health verified_boot_id detail now
boot_outcome (Facts.fact verified) now = clean
boot_outcome (Facts.fact (unverified detail)) now =
    found (new_finding verified_boot_id medium (unverified_boot detail) now)

unfoldable pub verified_boot : Environment → ℕ → Call Outcome
unfolding boot_outcome
verified_boot env now = do observed ← env.boot_verification; returned (boot_outcome observed now)

unfoldable pub host_outcome : Observation MachineHost → ℕ → Outcome
host_outcome (Facts.unsupported reason) now = unsupported reason
host_outcome (Facts.failed detail) now = health machine_host_id detail now
host_outcome (Facts.fact hardware) now = clean
host_outcome (Facts.fact (virtual_machine detail)) now =
    found (new_finding machine_host_id medium (virtual_machine_host detail) now)
host_outcome (Facts.fact (simulated detail)) now =
    found (new_finding machine_host_id medium (simulated_environment detail) now)

unfoldable pub machine_host : Environment → ℕ → Call Outcome
unfolding host_outcome
machine_host env now = do observed ← env.machine_host; returned (host_outcome observed now)

-- A report of the host: an overlay is of medium strength, and anything else of low strength.
abbrev pub report_strength : UiObservation → SignalStrength
report_strength overlay = medium
report_strength screen_capture = low

unfoldable pub host_report : UiObservation → ℕ → Outcome
host_report observation now = found (
    new_finding host_report_id (report_strength observation)
      (interface_observed (Evidence.new (literal (detail observation)))) now)
