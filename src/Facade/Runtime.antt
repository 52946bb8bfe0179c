-- ===== src/Facade/Runtime.antt =====
-- The runtime as a machine of small steps: the worker's turn in crates/fidelity-engine/src/worker.rs
-- taken apart at every point where it holds no lock, among the calls that the host makes of its
-- handle (crates/fidelity/src/handle.rs) from its own threads.
pub mod Growth
pub mod Steps
pub mod Turn
use fidelity.Common.{ℕ, List, [], ◌∷◌}
use fidelity.Types.Finding.{report, deny, callback, crash, Detector, Outcome}
use fidelity.Engine.Pending
use fidelity.Engine.Pending.{Report}
use fidelity.Engine.Worker.{record_scans, Shared, Outside, now_unix_ms, invoke}
use fidelity.Facade.Process.{Process, facade_hooks}
use fidelity.Facade.Handle.{HandleCall, perform}
use fidelity.Facade.Start.{Builder, Surroundings, Prepared, outside_of}

-- Where the worker stands in its turn.
pub data Phase : Type 0 where
  waiting scanning stopped : Phase
  applying_pending applying_found : List Report → Phase

module _ {H : Type 0} (b : Builder H) (around : Surroundings H) (prepared : Prepared) where
  abbrev pub Point : Type 0
  Point = Phase × Shared Process H

  -- One report of `dispatch`, and the phase of the reports that are left.
  apply_report : (List Report → Phase) → Report → List Report → Shared Process H → Point
  apply_report phase (f, report) reports w = (phase reports, w)
  apply_report phase (f, deny) reports w = (phase reports, w)
  apply_report phase (f, callback) reports w =
      (phase reports, invoke b.policy facade_hooks (outside_of b around prepared) f w)
  apply_report phase (f, crash) reports w = (stopped, w)

  take_pending : Shared Process H → Point
  take_pending w =
      let (pending, reports) = Pending.take w.pending in
      (applying_pending reports, record w { pending = pending })

  record_found : List (Detector × Outcome) → Shared Process H → Point
  record_found outcomes w =
      let (ps, qualified) = record_scans b.policy facade_hooks outcomes (w.process, w.state) in
      (applying_found qualified, record w { process = ps.0; state = ps.1 })

  scan : Shared Process H → Point
  unfolding record_found
  scan w =
      let outside = outside_of b around prepared in
      let (reading, host) = outside.clock w.host in
      let (outcomes, host') = outside.scan_all (now_unix_ms reading) host in
      record_found outcomes (record w { host = host' })

  unfoldable pub worker_step : Point → Point
  unfolding apply_report take_pending scan
  worker_step (waiting, w) = take_pending w
  worker_step (applying_pending [], w) = (scanning, w)
  worker_step (applying_pending (r ∷ rs), w) = apply_report applying_pending r rs w
  worker_step (scanning, w) = scan w
  worker_step (applying_found [], w) =
      (waiting, record w { process = facade_hooks.full_scan_complete w.process })
  worker_step (applying_found (r ∷ rs), w) = apply_report applying_found r rs w
  worker_step (stopped, w) = (stopped, w)

  -- What may happen next: the worker goes on, a thread of the host calls its handle, or the rest
  -- of the world changes.
  pub data Step : Point → Point → Type 0 where
    by_worker : (s : Point) → Step s (worker_step s)
    by_host :
        (phase : Phase) (w : Shared Process H) (call : HandleCall)
        → Step (phase, w) (phase, perform b.policy around.clock call w)
    by_world :
        (phase : Phase) (w : Shared Process H) (host : H)
        → Step (phase, w) (phase, record w { host = host })

  pub data Reaches : Point → Point → Type 0 where
    here : (s : Point) → Reaches s s
    there : (s t u : Point) → Step s t → Reaches t u → Reaches s u
