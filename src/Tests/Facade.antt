-- ===== src/Tests/Facade.antt =====
-- The facade, at a concrete host.
use fidelity.Common.{◌≡◌, refl, sym, ◌∙◌, true, false, not, ◌&&◌, ◌↔◌, ◌⊎◌, arith}
use fidelity.Types.Category.{Category, debugging, instrumentation, ui_abuse}
use fidelity.Types.CategorySet
use fidelity.Types.CategorySet.{contains}
use fidelity.Detect.Scan.{scan_cheap}
use fidelity.Engine.State
use fidelity.Engine.State.{State, latch_by_host}
use fidelity.Engine.Worker.{run_once}
use fidelity.Facade.Process.{
  Process, idle, latch, latched_categories, facade_hooks, allowed, ensure_allowed,
}
use fidelity.Facade.Process.Laws.{latched_in, ensure_allowed_iff}
use fidelity.Facade.Handle.{call_deny, perform}
use fidelity.Facade.Coverage.{missing_required_coverage}
use fidelity.Facade.Coverage.Laws.{never_complete}
use fidelity.Facade.Coverage.Missing.{Covered, missing_required_coverage-contains}
use fidelity.Facade.Start.{start, outside_of}
use fidelity.Facade.Start.Laws.{Ended, start-Ended}
use fidelity.Facade.Runtime.{Point, Reaches, here, there, by_worker, by_host, waiting, worker_step}
use fidelity.Facade.Runtime.Growth.{Grown}
use fidelity.Facade.Runtime.Steps.{reaches-Grown}
use fidelity.Facade.Runtime.Turn.{Leads, ended, run_once-Leads}
use fidelity.Facade.Locking.{
  Lock, Moment, free, held, half_by_host, LockReaches, acquire, release, host_latches_process,
  host_latches_state,
}
use fidelity.Facade.Locking
use fidelity.Facade.Locking.Explained.{
  Explains, contains-latch, step-Explains, reaches-Explains, denial_explained,
}
use fidelity.Tests.Data.{builder, around, prepared, shared, words, clock, policy, probes, detectors}

start-Ended_example : Ended builder around idle (start builder around idle 5)
start-Ended_example = start-Ended builder around idle 5 (λ _. refl)

-- The host denies while the worker takes what waits.
abbrev denied_point : Point builder around prepared
denied_point = (waiting, perform policy clock (call_deny debugging) shared)

abbrev turning :
    Reaches builder around prepared
      (waiting, shared)
      (worker_step builder around prepared denied_point)
turning =
    there (waiting, shared) denied_point (worker_step builder around prepared denied_point)
      (by_host waiting shared (call_deny debugging))
      (there denied_point (worker_step builder around prepared denied_point)
        (worker_step builder around prepared denied_point) (by_worker denied_point)
        (here (worker_step builder around prepared denied_point)))

reaches-Grown_example : Grown shared (worker_step builder around prepared denied_point).1
reaches-Grown_example =
    reaches-Grown builder around prepared (waiting, shared)
      (worker_step builder around prepared denied_point) turning

run_once-Leads_example :
    Leads builder around prepared
      (waiting, shared)
      (ended builder around prepared
        (run_once policy facade_hooks (outside_of builder around prepared) shared))
run_once-Leads_example = run_once-Leads builder around prepared shared

ensure_allowed_iff_example : (ensure_allowed idle ≡ allowed) ↔ (
    ((c : Category) → latched_in idle c ≡ false)
    × ((idle.deny_until_full_scan && not idle.full_scan_done) ≡ false))
unfolding latched_categories CategorySet.from_bits
ensure_allowed_iff_example = ensure_allowed_iff idle (omega arith)

missing_required_coverage-contains_example :
    (contains
        (missing_required_coverage builder.required_coverage (scan_cheap detectors probes 7))
        debugging
      ≡ false)
    ↔ ((contains builder.required_coverage debugging ≡ false)
        ⊎ Covered debugging (scan_cheap detectors probes 7))
missing_required_coverage-contains_example =
    missing_required_coverage-contains builder.required_coverage (scan_cheap detectors probes 7)
      debugging

never_complete_example :
    (contains
        (missing_required_coverage builder.required_coverage (scan_cheap detectors probes 7))
        instrumentation
      ≡ contains builder.required_coverage instrumentation)
    × (contains
          (missing_required_coverage builder.required_coverage (scan_cheap detectors probes 7))
          ui_abuse
        ≡ contains builder.required_coverage ui_abuse)
never_complete_example = never_complete builder.required_coverage detectors probes 7

abbrev at : Lock → Process × State → Moment
at l ps = record { lock = l; process = ps.0; state = ps.1 }

-- The moment at which the word of the process denies, and the state does not hold the latch yet.
abbrev half_way : Moment
half_way = record {
  lock = half_by_host debugging;
  process = latch debugging words.0;
  state = words.1;
}

abbrev settled : Moment
settled = record {
  lock = free;
  process = latch debugging words.0;
  state = latch_by_host words.1 debugging;
}

abbrev settling : LockReaches half_way settled
settling =
    Locking.there half_way (at held (settled.process, settled.state)) settled
      (host_latches_state half_way.process half_way.state debugging)
      (Locking.there (at held (settled.process, settled.state)) settled settled
        (release settled.process settled.state) (Locking.here settled))

half_way-Explains : Explains half_way
half_way-Explains =
    step-Explains (at held words) half_way (host_latches_process words.0 words.1 debugging)
      (record { explains = at_rest })
  where
    at_rest : (d : Category) → latched_in words.0 d ≡ contains words.1.latched d
    at_rest d = unfold latched_categories State.new CategorySet.empty CategorySet.from_bits in refl

half_way-latched : latched_in half_way.process debugging ≡ true
half_way-latched = contains-latch debugging debugging words.0

denial_explained_example : contains (State.snapshot settled.state).latched debugging ≡ true
denial_explained_example =
    denial_explained half_way settled debugging half_way-Explains half_way-latched settling refl

settled-Explains : Explains settled
settled-Explains = reaches-Explains half_way settled settling half_way-Explains

settled-latched : contains (State.snapshot settled.state).latched debugging ≡ true
unfolding State.snapshot
settled-latched = sym (settled-Explains.explains debugging) ∙ half_way-latched
