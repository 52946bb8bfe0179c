-- ===== src/Facade/Runtime/Steps.antt =====
-- Whatever happens in a runtime, its words only grow.
use fidelity.Common.{Bool, true, false, Option, none, some, List, [], ◌∷◌}
use fidelity.Types.Finding.{Finding, report, deny, callback, crash}
use fidelity.Engine.Pending.{Report}
use fidelity.Engine.Worker.{Shared, invoke, survive, call}
use fidelity.Facade.Process.{Process, facade_hooks}
use fidelity.Facade.Start.{
  Builder, Surroundings, Prepared, Callback, outside_of, bind_callback, bound,
}
use fidelity.Facade.Runtime.{
  Phase, Point, waiting, scanning, stopped, applying_pending, applying_found, worker_step, Step,
  by_worker, by_host, by_world, Reaches, here, there, apply_report,
}
use fidelity.Facade.Runtime.Growth.{
  Grows-refl, Grows-trans, words, Grown, record_scans-Grows, perform-Grown, perform_all-Grown,
  recorded-Grows, mark-Grows,
}

module _ {H : Type 0} (b : Builder H) (around : Surroundings H) (prepared : Prepared) where
  survive-Grown :
      (f : Finding) (w : Shared Process H) (called : Shared Process H × Bool)
      → Grown w called.0
      → Grown w (survive b.policy facade_hooks (outside_of b around prepared) f called)
  unfolding survive outside_of
  survive-Grown f w (w', false) grown = grown
  survive-Grown f w (w', true) grown =
      Grows-trans (words w) (words w') _ grown (recorded-Grows f.detector _ w'.process w'.state)

  pub invoke-Grown :
      (f : Finding) (w : Shared Process H)
      → Grown w (invoke b.policy facade_hooks (outside_of b around prepared) f w)
  unfolding invoke outside_of call
  invoke-Grown f w = by_callback b.callback
    where
      by_callback :
          (c : Option (Callback H))
          → Grown w (
              call b.policy facade_hooks
                (outside_of b around prepared)
                (bind_callback b around c)
                f
                w)
      by_callback none = Grows-refl (words w)
      by_callback (some c) =
          survive-Grown f w (bound b around c f w)
            (perform_all-Grown b.policy around.clock (c f w).0 (record w { host = (c f w).2 }))

  apply_report-Grown :
      (phase : List Report → Phase) (r : Report) (rs : List Report) (w : Shared Process H)
      → Grown w (apply_report b around prepared phase r rs w).1
  unfolding apply_report
  apply_report-Grown phase (f, report) rs w = Grows-refl (words w)
  apply_report-Grown phase (f, deny) rs w = Grows-refl (words w)
  apply_report-Grown phase (f, crash) rs w = Grows-refl (words w)
  apply_report-Grown phase (f, callback) rs w = invoke-Grown f w

  worker_step-Grown :
      (phase : Phase) (w : Shared Process H) → Grown w (worker_step b around prepared (phase, w)).1
  unfolding worker_step facade_hooks
  worker_step-Grown waiting w = Grows-refl (words w)
  worker_step-Grown stopped w = Grows-refl (words w)
  worker_step-Grown scanning w = record_scans-Grows b.policy _ (words w)
  worker_step-Grown (applying_pending []) w = Grows-refl (words w)
  worker_step-Grown (applying_pending (r ∷ rs)) w = apply_report-Grown applying_pending r rs w
  worker_step-Grown (applying_found []) w = mark-Grows w.process w.state
  worker_step-Grown (applying_found (r ∷ rs)) w = apply_report-Grown applying_found r rs w

  Step-Grown : (s t : Point b around prepared) → Step b around prepared s t → Grown s.1 t.1
  Step-Grown s t (by_worker (phase, w)) = worker_step-Grown phase w
  Step-Grown s t (by_host phase w c) = perform-Grown b.policy around.clock c w
  Step-Grown s t (by_world phase w host) = Grows-refl (words w)

  -- However the steps of the worker, calls of the handle by threads of the host, calls of the
  -- handle by the callback, and changes of the world follow one another: where the process and
  -- the state latched the same categories, they still do, and every category that the host
  -- latched is latched; a latched category stays latched, a full scan that completed stays
  -- complete, and the slot and the host's coverage choice stay as they are.
  pub reaches-Grown :
      (s t : Point b around prepared) → Reaches b around prepared s t → Grown s.1 t.1
  reaches-Grown s t (here p) = Grows-refl (words p.1)
  reaches-Grown s t (there p q r step rest) =
      Grows-trans (words p.1) (words q.1) (words r.1) (Step-Grown p q step) (reaches-Grown q r rest)
