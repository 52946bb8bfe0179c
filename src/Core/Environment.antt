-- ===== src/Core/Environment.antt =====
-- The capabilities of one target, as a detector reads them during one scan
-- (crates/fidelity-core/src/environment.rs and crates/fidelity-core/src/capability).
--
-- The probes of the platforms stand behind this record: the operating system answers there, and
-- a call may panic.
use fidelity.Types.Identity.{ExpectedIdentity}
use fidelity.Core.Facts.{
  Observation, TracerState, MachineHost, SystemBuild, CodeOrigin, ImageCatalogState,
  LocalAgentState, BootVerification, CodeIdentity, IdentityMatch,
}
use fidelity.Core.Regions.{CodeRegions}
use fidelity.Core.Targets.{DispatchTargets}

-- A call of code that may unwind.
pub data Call (T : Type 0) : Type 0 where
  returned : T → Call T
  panicked : Call T

infixl 5 ◌>>=◌
abbrev pub ◌>>=◌ : {A B : Type 0} → Call A → (A → Call B) → Call B
returned a >>= f = f a
panicked >>= f = panicked

pub record Environment : Type 0 where
  pub code_identity : Call (Observation CodeIdentity)
  pub identity_match : ExpectedIdentity → Call (Observation IdentityMatch)
  pub tracer_state : Call (Observation TracerState)
  pub code_origin : Call (Observation CodeOrigin)
  pub image_catalog_state : Call (Observation ImageCatalogState)
  pub dispatch_targets : Call (Observation DispatchTargets)
  pub code_regions : Call (Observation CodeRegions)
  pub system_build : Call (Observation SystemBuild)
  pub boot_verification : Call (Observation BootVerification)
  pub machine_host : Call (Observation MachineHost)
  pub local_agent_state : Call (Observation LocalAgentState)
