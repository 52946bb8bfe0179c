-- ===== src/Detect/Scan/Proper.antt =====
-- What a proper outcome of a detector is, and that every detector of one fact gives one.
use fidelity.Common.{ℕ, ◌≡◌, refl, Bool, true, false, ◌↔◌, arith, if◌then◌else◌}
use fidelity.Types.Evidence.{BoundedText, Evidence, is_detector_health}
use fidelity.Types.Finding.{
  Detector, low, medium, new_finding, Finding, Outcome, not_run, clean, found, unsupported,
}
use fidelity.Core.Facts
use fidelity.Core.Facts.{Observation}
use fidelity.Core.Environment.{Call, returned, panicked, ◌>>=◌, Environment}
use fidelity.Detect.Inventory
use fidelity.Detect.Inventory.{health}
use fidelity.Detect.Detectors.{
  tracer_present, unaccounted_code, image_catalog, local_agent, system_build, verified_boot,
  machine_host, tracer_outcome, code_outcome, catalog_outcome, agent_outcome, build_outcome,
  boot_outcome, host_outcome,
}
use fidelity.Detect.Scan.{guarded}

-- A finding is of its detector and category; it is weak exactly where it is of health.
pub record IsOwn (d : Detector) (f : Finding) : Type 0 where
  pub detector : f.detector ≡ d
  pub category : f.category ≡ d.category
  pub weak : (is_detector_health f.evidence ≡ true) ↔ (f.strength ≡ low)

abbrev pub IsProper : Detector → Outcome → Type 0
IsProper d (found f) = IsOwn d f
IsProper d not_run = ⊥
IsProper d clean = Unit
IsProper d (unsupported reason) = Unit

abbrev pub IsProperEntry : Detector × Outcome → Type 0
IsProperEntry (d, o) = IsProper d o

pub health-IsProper :
    (d : Detector) (detail : BoundedText) (now : ℕ) → IsProper d (health d detail now)
unfolding is_detector_health
health-IsProper d detail now = record {
  detector = refl;
  category = refl;
  weak = ((λ _. refl), λ _. refl);
}

pub medium-IsOwn :
    (d : Detector) (e : Evidence) (now : ℕ)
    → is_detector_health e ≡ false
    → IsOwn d (new_finding d medium e now)
medium-IsOwn d e now other = record {
  detector = refl;
  category = refl;
  weak = ((λ is. grind arith), λ is. cc);
}

-- A test between proper outcomes is proper.
pub if-IsProper :
    (d : Detector) (b : Bool) (x y : Outcome)
    → IsProper d x
    → IsProper d y
    → IsProper d (if b then x else y)
if-IsProper d true x y hx hy = hx
if-IsProper d false x y hx hy = hy

-- The outcome of a read is proper where the outcome of every answer is.
pub guarded-IsProper :
    {T : Type 0}
    → (d : Detector) (now : ℕ) (read : Call (Observation T)) (answer : Observation T → Outcome)
    → ((o : Observation T) → IsProper d (answer o))
    → IsProperEntry (guarded d now (read >>= λ o. returned (answer o)))
unfolding guarded
guarded-IsProper d now (returned o) answer proper = proper o
guarded-IsProper d now panicked answer proper = health-IsProper d _ now

tracer_outcome-IsProper :
    (now : ℕ) (o : Observation Facts.TracerState)
    → IsProper Inventory.tracer_present_id (tracer_outcome o now)
unfolding tracer_outcome is_detector_health
tracer_outcome-IsProper now (Facts.unsupported reason) = tt
tracer_outcome-IsProper now (Facts.failed detail) = health-IsProper _ detail now
tracer_outcome-IsProper now (Facts.fact Facts.no_tracer) = tt
tracer_outcome-IsProper now (Facts.fact (Facts.tracer_present detail)) = medium-IsOwn _ _ now refl

pub tracer_present-IsProper :
    (env : Environment) (now : ℕ)
    → IsProperEntry (guarded Inventory.tracer_present_id now (tracer_present env now))
unfolding tracer_present
tracer_present-IsProper env now =
    guarded-IsProper _ now env.tracer_state (λ o. tracer_outcome o now)
      (tracer_outcome-IsProper now)

code_outcome-IsProper :
    (now : ℕ) (o : Observation Facts.CodeOrigin)
    → IsProper Inventory.unaccounted_code_id (code_outcome o now)
unfolding code_outcome is_detector_health
code_outcome-IsProper now (Facts.unsupported reason) = tt
code_outcome-IsProper now (Facts.failed detail) = health-IsProper _ detail now
code_outcome-IsProper now (Facts.fact Facts.accounted) = tt
code_outcome-IsProper now (Facts.fact (Facts.unaccounted regions detail)) =
    medium-IsOwn _ _ now refl

pub unaccounted_code-IsProper :
    (env : Environment) (now : ℕ)
    → IsProperEntry (guarded Inventory.unaccounted_code_id now (unaccounted_code env now))
unfolding unaccounted_code
unaccounted_code-IsProper env now =
    guarded-IsProper _ now env.code_origin (λ o. code_outcome o now) (code_outcome-IsProper now)

catalog_outcome-IsProper :
    (now : ℕ) (o : Observation Facts.ImageCatalogState)
    → IsProper Inventory.image_catalog_id (catalog_outcome o now)
unfolding catalog_outcome is_detector_health
catalog_outcome-IsProper now (Facts.unsupported reason) = tt
catalog_outcome-IsProper now (Facts.failed detail) = health-IsProper _ detail now
catalog_outcome-IsProper now (Facts.fact Facts.catalogued) = tt
catalog_outcome-IsProper now (Facts.fact (Facts.unregistered regions detail)) =
    medium-IsOwn _ _ now refl

pub image_catalog-IsProper :
    (env : Environment) (now : ℕ)
    → IsProperEntry (guarded Inventory.image_catalog_id now (image_catalog env now))
unfolding image_catalog
image_catalog-IsProper env now =
    guarded-IsProper _ now env.image_catalog_state (λ o. catalog_outcome o now)
      (catalog_outcome-IsProper now)

agent_outcome-IsProper :
    (now : ℕ) (o : Observation Facts.LocalAgentState)
    → IsProper Inventory.local_agent_id (agent_outcome o now)
unfolding agent_outcome is_detector_health
agent_outcome-IsProper now (Facts.unsupported reason) = tt
agent_outcome-IsProper now (Facts.failed detail) = health-IsProper _ detail now
agent_outcome-IsProper now (Facts.fact Facts.no_agent) = tt
agent_outcome-IsProper now (Facts.fact (Facts.agent_present detail)) = medium-IsOwn _ _ now refl

pub local_agent-IsProper :
    (env : Environment) (now : ℕ)
    → IsProperEntry (guarded Inventory.local_agent_id now (local_agent env now))
unfolding local_agent
local_agent-IsProper env now =
    guarded-IsProper _ now env.local_agent_state (λ o. agent_outcome o now)
      (agent_outcome-IsProper now)

build_outcome-IsProper :
    (now : ℕ) (o : Observation Facts.SystemBuild)
    → IsProper Inventory.system_build_id (build_outcome o now)
unfolding build_outcome is_detector_health
build_outcome-IsProper now (Facts.unsupported reason) = tt
build_outcome-IsProper now (Facts.failed detail) = health-IsProper _ detail now
build_outcome-IsProper now (Facts.fact Facts.released) = tt
build_outcome-IsProper now (Facts.fact (Facts.development detail)) = medium-IsOwn _ _ now refl

pub system_build-IsProper :
    (env : Environment) (now : ℕ)
    → IsProperEntry (guarded Inventory.system_build_id now (system_build env now))
unfolding system_build
system_build-IsProper env now =
    guarded-IsProper _ now env.system_build (λ o. build_outcome o now) (build_outcome-IsProper now)

boot_outcome-IsProper :
    (now : ℕ) (o : Observation Facts.BootVerification)
    → IsProper Inventory.verified_boot_id (boot_outcome o now)
unfolding boot_outcome is_detector_health
boot_outcome-IsProper now (Facts.unsupported reason) = tt
boot_outcome-IsProper now (Facts.failed detail) = health-IsProper _ detail now
boot_outcome-IsProper now (Facts.fact Facts.verified) = tt
boot_outcome-IsProper now (Facts.fact (Facts.unverified detail)) = medium-IsOwn _ _ now refl

pub verified_boot-IsProper :
    (env : Environment) (now : ℕ)
    → IsProperEntry (guarded Inventory.verified_boot_id now (verified_boot env now))
unfolding verified_boot
verified_boot-IsProper env now =
    guarded-IsProper _ now env.boot_verification (λ o. boot_outcome o now)
      (boot_outcome-IsProper now)

host_outcome-IsProper :
    (now : ℕ) (o : Observation Facts.MachineHost)
    → IsProper Inventory.machine_host_id (host_outcome o now)
unfolding host_outcome is_detector_health
host_outcome-IsProper now (Facts.unsupported reason) = tt
host_outcome-IsProper now (Facts.failed detail) = health-IsProper _ detail now
host_outcome-IsProper now (Facts.fact Facts.hardware) = tt
host_outcome-IsProper now (Facts.fact (Facts.virtual_machine detail)) = medium-IsOwn _ _ now refl
host_outcome-IsProper now (Facts.fact (Facts.simulated detail)) = medium-IsOwn _ _ now refl

pub machine_host-IsProper :
    (env : Environment) (now : ℕ)
    → IsProperEntry (guarded Inventory.machine_host_id now (machine_host env now))
unfolding machine_host
machine_host-IsProper env now =
    guarded-IsProper _ now env.machine_host (λ o. host_outcome o now) (host_outcome-IsProper now)
