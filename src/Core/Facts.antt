-- ===== src/Core/Facts.antt =====
-- The facts that a probe reports, each as an observation (crates/fidelity-core/src/observation.rs
-- and crates/fidelity-core/src/fact).
use Prim.Native.String.{String}
use fidelity.Common.{ℕ, Option, List}
use fidelity.Types.Evidence.{BoundedText}

-- What a capability answers.
pub data Observation (T : Type 0) : Type 0 where
  fact : T → Observation T
  unsupported : String → Observation T
  failed : BoundedText → Observation T

pub data TracerState : Type 0 where
  no_tracer : TracerState
  tracer_present : BoundedText → TracerState

pub data MachineHost : Type 0 where
  hardware : MachineHost
  virtual_machine simulated : BoundedText → MachineHost

pub data SystemBuild : Type 0 where
  released : SystemBuild
  development : BoundedText → SystemBuild

pub data CodeOrigin : Type 0 where
  accounted : CodeOrigin
  unaccounted : ℕ → BoundedText → CodeOrigin

pub data ImageCatalogState : Type 0 where
  catalogued : ImageCatalogState
  unregistered : ℕ → BoundedText → ImageCatalogState

pub data LocalAgentState : Type 0 where
  no_agent : LocalAgentState
  agent_present : BoundedText → LocalAgentState

pub data BootVerification : Type 0 where
  verified : BootVerification
  unverified : BoundedText → BootVerification

pub data PlatformTrust : Type 0 where
  accepted : PlatformTrust
  rejected : BoundedText → PlatformTrust
  unavailable : String → PlatformTrust

pub record Signer : Type 0 where
  pub material : List ℕ
  pub label : BoundedText

pub record CodeIdentity : Type 0 where
  pub trust : PlatformTrust
  pub signer : Option Signer

pub data IdentityMatch : Type 0 where
  same : IdentityMatch
  different : BoundedText → IdentityMatch
