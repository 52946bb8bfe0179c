-- ===== src/Facade/Handle.antt =====
-- The handle (crates/fidelity/src/handle.rs): what a host may ask of a runtime that started.
--
-- Each call that changes the state holds its lock throughout, so it is one step here; the module
-- Locking takes the steps under the lock apart.
use fidelity.Common.{ℕ, Bool, Option, List, [], ◌∷◌}
use fidelity.Types.Category.{Category}
use fidelity.Types.Interface.{UiObservation}
use fidelity.Types.Snapshot.{Snapshot}
use fidelity.Detect.Inventory.{host_report_id}
use fidelity.Detect.Detectors.{host_report}
use fidelity.Engine.Policy.{Policy}
use fidelity.Engine.State.{State, latch_by_host}
use fidelity.Engine.State
use fidelity.Engine.Pending
use fidelity.Engine.Worker.{record_scans, Shared, now_unix_ms}
use fidelity.Facade.Process.{
  Process, latch, facade_hooks, Verdict, full_scan_complete, wait_for_full_scan,
}
use fidelity.Facade.Process

-- The part of a report that runs under the lock, at the time that the clock gave.
unfoldable pub record_host_report :
    Policy → UiObservation → ℕ → Process × State → (Process × State) × List Pending.Report
record_host_report policy observation now ps =
    record_scans policy facade_hooks ((host_report_id, host_report observation now) ∷ []) ps

module _ {H : Type 0} where
  unfoldable pub ensure_allowed : Shared Process H → Verdict
  ensure_allowed w = Process.ensure_allowed w.process

  -- The process word first, and then the state.
  unfoldable pub deny : Category → Shared Process H → Shared Process H
  deny c w = record w { process = latch c w.process; state = latch_by_host w.state c }

  unfoldable pub report_ui_abuse :
      Policy → (H → Option ℕ × H) → UiObservation → Shared Process H → Shared Process H
  unfolding record_host_report
  report_ui_abuse policy clock observation w =
      let (reading, host) = clock w.host in
      let (ps, qualified) =
        record_host_report policy observation (now_unix_ms reading) (w.process, w.state) in
      record w {
        process = ps.0;
        state = ps.1;
        pending = Pending.add w.pending qualified;
        host = host;
      }

  unfoldable pub first_full_scan_complete : Shared Process H → Bool
  first_full_scan_complete w = full_scan_complete w.process

  unfoldable pub wait_for_first_full_scan : Shared Process H → Shared Process H → Bool
  wait_for_first_full_scan before after = wait_for_full_scan before.process after.process

  unfoldable pub snapshot : Shared Process H → Snapshot
  snapshot w = State.snapshot w.state

-- The calls of a host that change something.
pub data HandleCall : Type 0 where
  call_deny : Category → HandleCall
  call_report_ui_abuse : UiObservation → HandleCall

module _ {H : Type 0} (policy : Policy) (clock : H → Option ℕ × H) where
  unfoldable pub perform : HandleCall → Shared Process H → Shared Process H
  unfolding deny report_ui_abuse
  perform (call_deny c) w = deny c w
  perform (call_report_ui_abuse o) w = report_ui_abuse policy clock o w

  unfoldable pub perform_all : List HandleCall → Shared Process H → Shared Process H
  unfolding perform
  perform_all [] w = w
  perform_all (call ∷ calls) w = perform_all calls (perform call w)
