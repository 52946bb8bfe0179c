-- ===== src/Facade/Runtime/Turn.antt =====
-- The small steps of the worker, taken without a pause, are its turn: `run_once` and the body of
-- the loop of `run` in crates/fidelity-engine/src/worker.rs.
use fidelity.Common.{ℕ, zero, suc, ◌+◌, ◌≡◌, refl, ap, ◌∙◌, List, [], ◌∷◌, arith}
use fidelity.Types.Finding.{report, deny, callback, crash}
use fidelity.Engine.Pending
use fidelity.Engine.Pending.{Report}
use fidelity.Engine.Worker.{
  Shared, Run, running, aborted, then_run, dispatch, apply, scan_and_apply, run_once, record_scans,
  now_unix_ms, invoke,
}
use fidelity.Facade.Process.{Process, facade_hooks}
use fidelity.Facade.Start.{Builder, Surroundings, Prepared, outside_of}
use fidelity.Facade.Runtime.{
  Phase, Point, waiting, scanning, stopped, applying_pending, applying_found, worker_step,
  apply_report, take_pending, scan, record_found,
}

module _ {H : Type 0} (b : Builder H) (around : Surroundings H) (prepared : Prepared) where
  abbrev pub steps : ℕ → Point b around prepared → Point b around prepared
  steps zero s = s
  steps (suc n) s = steps n (worker_step b around prepared s)

  -- Some number of steps of the worker leads from one point to another.
  abbrev pub Leads : Point b around prepared → Point b around prepared → Type 0
  Leads s t = (n : ℕ) × (steps n s ≡ t)

  steps-add : (m n : ℕ) (s : Point b around prepared) → steps (m + n) s ≡ steps n (steps m s)
  steps-add zero n s = let e : 0 + n ≡ n = omega arith in ap (λ k. steps k s) e
  steps-add (suc m) n s =
      let e : suc m + n ≡ suc (m + n) = omega arith in
      ap (λ k. steps k s) e ∙ steps-add m n (worker_step b around prepared s)

  lead : (s t u : Point b around prepared) → Leads s t → Leads t u → Leads s u
  lead s t u (m, h) (n, k) = (m + n, steps-add m n s ∙ rw h k)

  after : (List Report → Phase) → Run (Shared Process H) → Point b around prepared
  after phase (running w) = (phase [], w)
  after phase (aborted w) = (stopped, w)

  dispatch-Leads_pending :
      (rs : List Report) (w : Shared Process H)
      → Leads
          (applying_pending rs, w)
          (after applying_pending
            (dispatch b.policy facade_hooks (outside_of b around prepared) rs w))
  unfolding dispatch after worker_step apply_report
  dispatch-Leads_pending [] w = (0, refl)
  dispatch-Leads_pending ((f, report) ∷ rs) w =
      lead (applying_pending ((f, report) ∷ rs), w) (applying_pending rs, w) _ (1, refl)
        (dispatch-Leads_pending rs w)
  dispatch-Leads_pending ((f, deny) ∷ rs) w =
      lead (applying_pending ((f, deny) ∷ rs), w) (applying_pending rs, w) _ (1, refl)
        (dispatch-Leads_pending rs w)
  dispatch-Leads_pending ((f, callback) ∷ rs) w =
      let w' = invoke b.policy facade_hooks (outside_of b around prepared) f w in
      lead (applying_pending ((f, callback) ∷ rs), w) (applying_pending rs, w') _ (1, refl)
        (dispatch-Leads_pending rs w')
  dispatch-Leads_pending ((f, crash) ∷ rs) w = (1, refl)

  dispatch-Leads_found :
      (rs : List Report) (w : Shared Process H)
      → Leads
          (applying_found rs, w)
          (after applying_found
            (dispatch b.policy facade_hooks (outside_of b around prepared) rs w))
  unfolding dispatch after worker_step apply_report
  dispatch-Leads_found [] w = (0, refl)
  dispatch-Leads_found ((f, report) ∷ rs) w =
      lead (applying_found ((f, report) ∷ rs), w) (applying_found rs, w) _ (1, refl)
        (dispatch-Leads_found rs w)
  dispatch-Leads_found ((f, deny) ∷ rs) w =
      lead (applying_found ((f, deny) ∷ rs), w) (applying_found rs, w) _ (1, refl)
        (dispatch-Leads_found rs w)
  dispatch-Leads_found ((f, callback) ∷ rs) w =
      let w' = invoke b.policy facade_hooks (outside_of b around prepared) f w in
      lead (applying_found ((f, callback) ∷ rs), w) (applying_found rs, w') _ (1, refl)
        (dispatch-Leads_found rs w')
  dispatch-Leads_found ((f, crash) ∷ rs) w = (1, refl)

  -- Where a turn ends: before the next one, or with the process.
  abbrev pub ended : Run (Shared Process H) → Point b around prepared
  ended (running w) = (waiting, w)
  ended (aborted w) = (stopped, w)

  abbrev marked : Run (Shared Process H) → Run (Shared Process H)
  marked r =
      then_run r λ w. running (record w { process = facade_hooks.full_scan_complete w.process })

  found-Leads : (r : Run (Shared Process H)) → Leads (after applying_found r) (ended (marked r))
  unfolding after worker_step
  found-Leads (running w) = (1, refl)
  found-Leads (aborted w) = (0, refl)

  scan-Leads :
      (w : Shared Process H)
      → Leads
          (scanning, w)
          (ended (marked (scan_and_apply b.policy facade_hooks (outside_of b around prepared) w)))
  unfolding scan_and_apply apply worker_step scan record_found
  scan-Leads w =
      let outside = outside_of b around prepared in
      let clocked = outside.clock w.host in
      let scanned = outside.scan_all (now_unix_ms clocked.0) clocked.1 in
      let recorded = record_scans b.policy facade_hooks scanned.0 (w.process, w.state) in
      let w' : Shared Process H = record w {
        process = recorded.0.0;
        state = recorded.0.1;
        host = scanned.1;
      } in
      lead (scanning, w) (applying_found recorded.1, w') _ (1, refl)
        (lead (applying_found recorded.1, w') _ _ (dispatch-Leads_found recorded.1 w')
          (found-Leads (dispatch b.policy facade_hooks outside recorded.1 w')))

  pending-Leads :
      (r : Run (Shared Process H))
      → Leads (after applying_pending r) (
          ended (
            marked
              (then_run r (scan_and_apply b.policy facade_hooks (outside_of b around prepared)))))
  unfolding after worker_step
  pending-Leads (running w) = lead (applying_pending [], w) (scanning, w) _ (1, refl) (scan-Leads w)
  pending-Leads (aborted w) = (0, refl)

  -- From the start of a turn, some number of the small steps of the worker leads to where
  -- `run_once` ends: before the next turn with the same shared values, or with the process
  -- stopped.
  pub run_once-Leads :
      (w : Shared Process H)
      → Leads (waiting, w) (ended (run_once b.policy facade_hooks (outside_of b around prepared) w))
  unfolding run_once worker_step take_pending
  run_once-Leads w =
      let taken = Pending.take w.pending in
      let w' : Shared Process H = record w { pending = taken.0 } in
      lead (waiting, w) (applying_pending taken.1, w') _ (1, refl)
        (lead (applying_pending taken.1, w') _ _ (dispatch-Leads_pending taken.1 w')
          (pending-Leads _))
