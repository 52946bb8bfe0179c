-- ===== src/Facade/Start.antt =====
-- The builder and the start (crates/fidelity/src/builder.rs and error.rs).
--
-- What the start calls that is not here stands in a record of the surroundings: the target, the
-- probes, the clock, and the threads. A probe that panics unwinds the start.
pub mod Laws
use Prim.Native.String.{String}
use fidelity.Common.{
  ℕ, Bool, true, false, not, ◌&&◌, Option, none, some, List, [], ◌∷◌, is_some, is_empty,
  if◌then◌else◌,
}
use fidelity.Types.Category.{Category}
use fidelity.Types.CategorySet
use fidelity.Types.CategorySet.{CategorySet}
use fidelity.Types.Finding.{Detector, Finding, SignalStrength, Action, Outcome}
use fidelity.Types.Identity.{Platform, ExpectedIdentity, states_choice_for}
use fidelity.Core.Facts
use fidelity.Core.Facts.{Observation, CodeIdentity, Signer}
use fidelity.Core.Environment.{Call, returned, panicked, ◌>>=◌, Environment}
use fidelity.Detect.Inventory.{inventory}
use fidelity.Detect.Snapshots.{Captured, snapshot, not_captured, capture_failed}
use fidelity.Detect.Scan
use fidelity.Detect.Scan.{Detectors, scan_cheap}
use fidelity.Engine.Policy
use fidelity.Engine.Policy.{Policy, needs_callback}
use fidelity.Engine.State
use fidelity.Engine.Pending
use fidelity.Engine.Worker.{
  record_scans, Shared, Outside, Run, running, aborted, now_unix_ms, dispatch,
}
use fidelity.Facade.Process.{
  Process, claim_slot, abandon_start, set_deny_until_full_scan, facade_hooks,
}
use fidelity.Facade.Handle.{HandleCall, perform_all}
use fidelity.Facade.Coverage.{missing_required_coverage}

pub data StartError : Type 0 where
  already_running missing_callback unsupported_target worker_stopped_during_start : StartError
  missing_expected_identity : Platform → StartError
  required_coverage_unavailable : CategorySet → StartError
  identity_binding_unavailable : Platform → String → StartError
  platform_unavailable worker_unavailable : String → StartError

pub data Result (E A : Type 0) : Type 0 where
  ok : A → Result E A
  err : E → Result E A

-- What a callback does: the calls that it makes of its handle, what it does to the host, and
-- whether it panics in the end.
abbrev pub Callback : Type 0 → Type 0
Callback H = Finding → Shared Process H → List HandleCall × Bool × H

pub record Builder (H : Type 0) : Type 0 where
  pub policy : Policy
  pub identity : Option ExpectedIdentity
  pub callback : Option (Callback H)
  pub deny_until_full_scan : Bool
  pub required_coverage : CategorySet

pub record Surroundings (H : Type 0) : Type 0 where
  pub target : Option Platform
  -- Whether the build binds its constants to an identity.
  pub binds_identity : Bool
  pub build : Result String Unit
  -- What the probes answer while the start captures, and while its first scan runs.
  pub at_capture : Environment
  pub at_scan : Environment
  -- What they answer a scan of the worker.
  pub later : H → Environment × H
  pub clock : H → Option ℕ × H
  pub prepare_worker : H → H
  -- Why the system refused the thread, and whether the thread lived to say that it is ready.
  pub refused : Option String
  pub ready : Bool

module _ {H : Type 0} where
  unfoldable pub new_builder : Builder H
  new_builder = record {
    policy = Policy.new;
    identity = none;
    callback = none;
    deny_until_full_scan = false;
    required_coverage = CategorySet.empty;
  }

  -- The six setters that `category_setter!` makes.
  unfoldable pub set_category : Category → Action → SignalStrength → Builder H → Builder H
  set_category c action threshold b = record b { policy = Policy.set b.policy c action threshold }

  unfoldable pub expected_identity : ExpectedIdentity → Builder H → Builder H
  expected_identity identity b = record b { identity = some identity }

  unfoldable pub deny_until_first_full_scan : Builder H → Builder H
  deny_until_first_full_scan b = record b { deny_until_full_scan = true }

  unfoldable pub require_complete_coverage : Category → Builder H → Builder H
  require_complete_coverage c b = record b {
    required_coverage = (CategorySet.insert b.required_coverage c).0;
  }

  unfoldable pub on_finding : Callback H → Builder H → Builder H
  on_finding callback b = record b { callback = some callback }

-- Step 2: the configuration.
lacks_choice : Option ExpectedIdentity → Platform → Bool
lacks_choice none platform = false
lacks_choice (some identity) platform = not (states_choice_for identity platform)

choose : Option ExpectedIdentity → Option Platform → Result StartError Platform
unfolding lacks_choice
choose identity none = err unsupported_target
choose identity (some platform) =
    if lacks_choice identity platform then err (missing_expected_identity platform) else ok platform

unfoldable pub validate : {H : Type 0} → Builder H → Option Platform → Result StartError Platform
unfolding choose
validate b target =
    if needs_callback b.policy && not (is_some b.callback)
    then err missing_callback
    else choose b.identity target

-- Step 4, before the scan: the signer material, and what later scans compare with.
signer_of : Option Signer → Result String (List ℕ)
signer_of none = err "The running image carries no signer, so it is unsigned or signed ad hoc."
signer_of (some signer) =
    if is_empty signer.material
    then err "The running image carries no signer, so it is unsigned or signed ad hoc."
    else ok signer.material

unfoldable pub signer_material : Observation CodeIdentity → Result String (List ℕ)
unfolding signer_of
signer_material (Facts.fact identity) = signer_of identity.signer
signer_material (Facts.unsupported reason) =
    err "The probe reports no code identity on this platform."
signer_material (Facts.failed detail) = err "The code identity read failed."

unfoldable pub resolve_material :
    Bool → Result String (List ℕ) → Platform → Result StartError (List ℕ)
resolve_material binds (ok material) platform = ok material
resolve_material binds (err reason) platform =
    if binds then err (identity_binding_unavailable platform reason) else ok []

unfoldable pub capture : {T : Type 0} → Observation T → Captured T
capture (Facts.fact value) = snapshot value
capture (Facts.unsupported reason) = not_captured
capture (Facts.failed detail) = capture_failed detail

pub record Prepared : Type 0 where
  pub identity : List ℕ
  pub detectors : Detectors

captured :
    Option ExpectedIdentity
    → Environment
    → Result StartError (List ℕ)
    → Call (Result StartError Prepared)
unfolding capture
captured expected env (err e) = returned (err e)
captured expected env (ok identity) = do
  regions ← env.code_regions
  targets ← env.dispatch_targets
  returned (
      ok record {
        identity = identity;
        detectors = record {
          expected = expected;
          baseline = capture regions;
          dispatch = capture targets;
        };
      })

unfoldable pub prepare :
    {H : Type 0} → Builder H → Surroundings H → Platform → Call (Result StartError Prepared)
unfolding captured
prepare b around platform = do
  observed ← around.at_capture.code_identity
  captured b.identity around.at_capture
      (resolve_material around.binds_identity (signer_material observed) platform)

-- How an attempt ends: with a runtime, with an error, with a panic, or with the process.
pub data Attempt (H : Type 0) : Type 0 where
  started : Prepared → Shared Process H → Attempt H
  failed : StartError → Process → H → Attempt H
  unwound : Process → H → Attempt H
  crashed : Shared Process H → Attempt H

module _ {H : Type 0} (b : Builder H) (around : Surroundings H) where
  unfoldable pub bound : Callback H → Finding → Shared Process H → Shared Process H × Bool
  bound callback f w =
      let (calls, panics, host) = callback f w in
      (perform_all b.policy around.clock calls (record w { host = host }), panics)

  -- `bind_callback`
  unfoldable pub bind_callback :
      Option (Callback H) → Option (Finding → Shared Process H → Shared Process H × Bool)
  unfolding bound
  bind_callback none = none
  bind_callback (some callback) = some (bound callback)

  full_scan : Detectors → ℕ → H → List (Detector × Outcome) × H
  full_scan detectors now host =
      let (env, host') = around.later host in (Scan.scan_all detectors env now, host')

  -- The parts of the worker that the start hands over.
  unfoldable pub outside_of : Prepared → Outside Process H
  unfolding bind_callback full_scan
  outside_of prepared = record {
    clock = around.clock;
    prepare_worker = around.prepare_worker;
    scan_all = full_scan prepared.detectors;
    on_finding = bind_callback b.callback;
  }

  -- Step 6: `wait_for_initial_actions`, once the worker applied them or stopped.
  unfoldable pub await : Prepared → Run (Shared Process H) → Attempt H
  await prepared (aborted w) = crashed w
  await prepared (running w) =
      if around.ready
      then started prepared w
      else failed worker_stopped_during_start w.process w.host

  unfoldable pub spawn :
      Prepared → List Pending.Report → Option String → Shared Process H → Attempt H
  unfolding await
  spawn prepared initial (some reason) w = failed (worker_unavailable reason) w.process w.host
  spawn prepared initial none w = await prepared (
      dispatch b.policy facade_hooks (outside_of prepared) initial
        (record w { host = around.prepare_worker w.host }))

  unfoldable pub launch : Prepared → List (Detector × Outcome) → Process → H → Attempt H
  unfolding spawn
  launch prepared outcomes p host =
      let (ps, initial) = record_scans b.policy facade_hooks outcomes (p, State.new inventory) in
      spawn prepared initial around.refused
        (record { process = ps.0; state = ps.1; pending = Pending.new; host = host })

  unfoldable pub first_scan : Prepared → Process → H → Attempt H
  first_scan prepared p host =
      let (reading, host') = around.clock host in
      let outcomes = scan_cheap prepared.detectors around.at_scan (now_unix_ms reading) in
      let missing = missing_required_coverage b.required_coverage outcomes in
      if CategorySet.is_empty missing
      then launch prepared outcomes p host'
      else failed (required_coverage_unavailable missing) p host'

  unfoldable pub scan_prepared : Call (Result StartError Prepared) → Process → H → Attempt H
  scan_prepared panicked p host = unwound p host
  scan_prepared (returned (err e)) p host = failed e p host
  scan_prepared (returned (ok prepared)) p host = first_scan prepared p host

  unfoldable pub with_backend : Result String Unit → Platform → Process → H → Attempt H
  unfolding scan_prepared
  with_backend (err reason) platform p host = failed (platform_unavailable reason) p host
  with_backend (ok _) platform p host = scan_prepared (prepare b around platform) p host

  unfoldable pub with_platform : Result StartError Platform → Process → H → Attempt H
  unfolding with_backend
  with_platform (err e) p host = failed e p host
  with_platform (ok platform) p host =
      with_backend around.build platform (set_deny_until_full_scan b.deny_until_full_scan p) host

  unfoldable pub start_claimed : Process → H → Attempt H
  unfolding with_platform
  start_claimed p host = with_platform (validate b around.target) p host

  -- The claim's `drop`, which a committed claim skips.
  unfoldable pub settle : Attempt H → Attempt H
  settle (started prepared w) = started prepared w
  settle (failed e p host) = failed e (abandon_start p) host
  settle (unwound p host) = unwound (abandon_start p) host
  settle (crashed w) = crashed w

  unfoldable pub start : Process → H → Attempt H
  unfolding settle
  start p host =
      let (claimed, acquired) = claim_slot p in
      if acquired then settle (start_claimed claimed host) else failed already_running claimed host
