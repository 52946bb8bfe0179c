-- ===== src/Engine/Worker.antt =====
-- The worker: recording scans, applying actions, and the schedule
-- (crates/fidelity-engine/src/worker.rs).
--
-- The worker, the handle and the host callback share one store. A lock guards the retained state,
-- so a call that takes it is one step. The host callback is code that is not here: it may change
-- the store in any way, and it says whether it panicked.
pub mod Schedule
pub mod Keeping
pub mod Latching
pub mod Reporting
pub mod Reported
pub mod Dispatch
use fidelity.Common.{
  ℕ, zero, suc, ◌^◌, ◌-◌, min, Bool, true, false, Option, none, some, List, [], ◌∷◌, ◌++◌,
  if◌then◌else◌,
}
use fidelity.Common.Text.{literal}
use fidelity.Types.Category.{Category}
use fidelity.Types.Evidence
use fidelity.Types.Evidence.{detector_health}
use fidelity.Types.Finding.{
  Detector, low, report, deny, callback, crash, same_action, Action, Finding, new_finding, Outcome,
  found,
}
use fidelity.Engine.Policy.{Policy, qualifying_action}
use fidelity.Engine.State.{State, record_outcome, latch}
use fidelity.Engine.Pending
use fidelity.Engine.Pending.{Report, Reports}

-- The process-wide state of the facade is `P`.
pub record Hooks (P : Type 0) : Type 0 where
  pub latch_process : Category → P → P
  pub full_scan_complete : P → P

unfoldable pub detached : (P : Type 0) → Hooks P
detached P = record { latch_process = λ c p. p; full_scan_complete = λ p. p }

-- `now_unix_ms`: a clock before the epoch reads as 0, and one past `u64` as its maximum.
unfoldable pub now_unix_ms : Option ℕ → ℕ
now_unix_ms none = 0
now_unix_ms (some since_epoch_ms) = min since_epoch_ms (2 ^ 64 - 1)

module _ {P : Type 0} (policy : Policy) (hooks : Hooks P) where
  -- What one finding qualifies for, and the latches of a denial: the process first.
  latch_denial : Finding → Action → P × State → P × State
  latch_denial f a (p, s) =
      if same_action a deny then (hooks.latch_process f.category p, latch s f.category) else (p, s)

  qualify : Finding → Option Action → P × State → (P × State) × List Report
  qualify f none ps = (ps, [])
  qualify f (some a) ps = (latch_denial f a ps, (f, a) ∷ [])

  record_found : Option Finding → P × State → (P × State) × List Report
  record_found none ps = (ps, [])
  record_found (some f) ps = qualify f (qualifying_action policy f) ps

  record_one : Detector → Outcome → P × State → (P × State) × List Report
  unfolding record_found qualify latch_denial
  record_one d o (p, s) = let (s', f) = record_outcome s d o in record_found f (p, s')

  -- The free function `record`, under the lock of the state.
  pub record_scans : List (Detector × Outcome) → P × State → (P × State) × List Report
  record_scans [] ps = (ps, [])
  record_scans ((d, o) ∷ scans) ps =
      let (ps', now) = record_one d o ps in
      let (ps'', later) = record_scans scans ps' in (ps'', now ++ later)

-- What the worker, the handle and the host share; `H` is the host and the rest of the world.
pub record Shared (P H : Type 0) : Type 0 where
  pub process : P
  pub state : State
  pub pending : Reports
  pub host : H

-- What the worker calls that is not here.
pub record Outside (P H : Type 0) : Type 0 where
  pub clock : H → Option ℕ × H
  -- The answer of the thread's setup is dropped; what it does to the world is kept.
  pub prepare_worker : H → H
  pub scan_all : ℕ → H → List (Detector × Outcome) × H
  pub on_finding : Option (Finding → Shared P H → Shared P H × Bool)

-- How far a run came: it goes on, or the process stopped.
pub data Run (S : Type 0) : Type 0 where
  running : S → Run S
  aborted : S → Run S

abbrev pub then_run : {S : Type 0} → Run S → (S → Run S) → Run S
then_run (running s) f = f s
then_run (aborted s) f = aborted s

module _ {P H : Type 0} (policy : Policy) (hooks : Hooks P) (outside : Outside P H) where
  -- The finding that a panic of the callback leaves, in the detector's own category.
  unfoldable pub callback_panicked : Finding → ℕ → Outcome
  callback_panicked f now = found (
      new_finding f.detector low
        (detector_health (Evidence.new (literal "the host callback panicked"))) now)

  unfoldable pub survive : Finding → Shared P H × Bool → Shared P H
  survive f (w, false) = w
  survive f (w, true) =
      let (reading, host) = outside.clock w.host in
      record w {
        state = (record_outcome w.state f.detector (callback_panicked f (now_unix_ms reading))).0;
        host = host;
      }

  unfoldable pub call :
      Option (Finding → Shared P H → Shared P H × Bool) → Finding → Shared P H → Shared P H
  call none f w = w
  call (some on_finding) f w = survive f (on_finding f w)

  unfoldable pub invoke : Finding → Shared P H → Shared P H
  unfolding call survive callback_panicked
  invoke f w = call outside.on_finding f w

  unfoldable pub dispatch : List Report → Shared P H → Run (Shared P H)
  dispatch [] w = running w
  dispatch ((f, report) ∷ qualified) w = dispatch qualified w
  dispatch ((f, deny) ∷ qualified) w = dispatch qualified w
  dispatch ((f, callback) ∷ qualified) w = dispatch qualified (invoke f w)
  dispatch ((f, crash) ∷ qualified) w = aborted w

  unfoldable pub apply : List (Detector × Outcome) → Shared P H → Run (Shared P H)
  apply outcomes w =
      let (ps, qualified) = record_scans policy hooks outcomes (w.process, w.state) in
      dispatch qualified (record w { process = ps.0; state = ps.1 })

  unfoldable pub scan_and_apply : Shared P H → Run (Shared P H)
  scan_and_apply w =
      let (reading, host) = outside.clock w.host in
      let (outcomes, host') = outside.scan_all (now_unix_ms reading) host in
      apply outcomes (record w { host = host' })

  -- One turn of the loop of `run`, and `run_once`.
  unfoldable pub run_once : Shared P H → Run (Shared P H)
  unfolding scan_and_apply
  run_once w =
      let (pending, waiting) = Pending.take w.pending in
      then_run (then_run (dispatch waiting (record w { pending = pending })) scan_and_apply)
        λ w'. running (record w' { process = hooks.full_scan_complete w'.process })

  -- The first turns of the loop of `run`, which ends only with the process.
  unfoldable pub run_cycles : ℕ → Shared P H → Run (Shared P H)
  run_cycles zero w = running w
  run_cycles (suc n) w = then_run (run_once w) (run_cycles n)

  -- `run`: the setup of the thread, the initial actions, the report of readiness, which may find
  -- nobody, and the loop.
  unfoldable pub run : List Report → Bool → ℕ → Shared P H → Run (Shared P H)
  run initial received cycles w =
      then_run (dispatch initial (record w { host = outside.prepare_worker w.host }))
        λ w'. if received then run_cycles cycles w' else running w'
