-- ===== src/Engine/Worker/Dispatch.antt =====
-- How far a run of the worker comes, which callbacks it makes, and what a panic leaves.
use mathlib.Core.Option
use fidelity.Common.{
  ℕ, zero, suc, ◌≡◌, ◌≢◌, refl, ap, Bool, true, false, Option, none, some, List, [], ◌∷◌, any,
  if◌then◌else◌,
}
use fidelity.Types.Category.{Category}
use fidelity.Common.Text.{literal}
use fidelity.Types.Evidence
use fidelity.Types.Evidence.{detector_health, is_detector_health}
use fidelity.Types.Finding.{
  Detector, same_detector, report, deny, callback, crash, Finding, low, Outcome, found, new_finding,
}
use fidelity.Engine.Policy.{Policy, action}
use fidelity.Engine.State.{record_outcome, record_slot}
use fidelity.Engine.State.Frame.{slot_of, slot_of-record_outcome}
use fidelity.Engine.Pending
use fidelity.Engine.Pending.{Report, Reports}
use fidelity.Engine.Pending.Queue.{Holds, new-Holds, take-Holds}
use fidelity.Engine.Worker.{
  Hooks, record_scans, Shared, Outside, Run, running, aborted, then_run, now_unix_ms, survive, call,
  invoke, dispatch, apply, run_once, run_cycles,
}
use fidelity.Engine.Worker.Reporting.{is_crash, reports-record_scans, peaceful_reports}

-- The findings that reach the callback: those of `callback` reports before the first `crash`.
abbrev pub called : List Report → List Finding
called [] = []
called ((f, report) ∷ rs) = called rs
called ((f, deny) ∷ rs) = called rs
called ((f, callback) ∷ rs) = f ∷ called rs
called ((f, crash) ∷ rs) = []

module _ {P H : Type 0} where
  -- Nothing that waits, and nothing that the policy selects, stops the process.
  pub record Spares (w : Shared P H) : Type 0 where
    pub queue : List Report
    pub waits : Holds w.pending queue
    pub harmless : any is_crash queue ≡ false

  abbrev pub Continues : (Shared P H → Type 0) → Run (Shared P H) → Type 0
  Continues Q (running w) = Q w
  Continues Q (aborted w) = ⊥

module _ {P H : Type 0} (policy : Policy) (hooks : Hooks P) (outside : Outside P H) where
  abbrev pub calls : List Finding → Shared P H → Shared P H
  calls [] w = w
  calls (f ∷ fs) w = calls fs (invoke policy hooks outside f w)

  -- Dispatching reports invokes the callback for the findings of the `callback` reports before
  -- the first `crash`, in order, and stops the process exactly where some report is a `crash`.
  pub dispatch_lem :
      (rs : List Report) (w : Shared P H)
      → dispatch policy hooks outside rs w
        ≡ (if any is_crash rs then aborted (calls (called rs) w) else running (calls (called rs) w))
  unfolding dispatch
  dispatch_lem [] w = refl
  dispatch_lem ((f, report) ∷ rs) w = dispatch_lem rs w
  dispatch_lem ((f, deny) ∷ rs) w = dispatch_lem rs w
  dispatch_lem ((f, callback) ∷ rs) w = dispatch_lem rs (invoke policy hooks outside f w)
  dispatch_lem ((f, crash) ∷ rs) w = refl

  -- Where the callback panics: the slot of the detector records a finding of detector health, of
  -- low strength and of the detector's own category, and no other slot changes after the
  -- callback.
  pub invoke_panic :
      (on_finding : Finding → Shared P H → Shared P H × Bool) (f : Finding) (w w' : Shared P H)
      (e : Detector)
      → outside.on_finding ≡ some on_finding
      → on_finding f w ≡ (w', true)
      → (health : Finding) × (health.category ≡ f.detector.category)
        × (health.strength ≡ low)
        × (is_detector_health health.evidence ≡ true)
        × (slot_of (invoke policy hooks outside f w).state.slots e ≡ (
            if same_detector f.detector e
            then Option.map (λ slot. record_slot slot (found health)) (slot_of w'.state.slots e)
            else slot_of w'.state.slots e))
  invoke_panic on_finding f w w' e supplied panicked =
      let now : ℕ = now_unix_ms (outside.clock w'.host).0 in
      (
        health now,
        refl,
        refl,
        unfold is_detector_health in refl,
        rw called_once (slot_of-record_outcome w'.state f.detector e (found (health now))),
      )
    where
      health : ℕ → Finding
      health now =
          new_finding f.detector low
            (detector_health (Evidence.new (literal "the host callback panicked"))) now

      called_once :
          (invoke policy hooks outside f w).state
          ≡ (record_outcome w'.state f.detector
              (found (health (now_unix_ms (outside.clock w'.host).0)))).0
      called_once =
          unfold invoke in
          rw (supplied, call) (ap (λ r. (survive policy hooks outside f r).state) panicked)

  -- What the worker may rely on: the policy selects no crash, and the host keeps its queue so.
  pub record Peaceful : Type 0 where
    pub no_crash : (c : Category) → action policy c ≢ crash
    pub callback_spares :
        (on_finding : Finding → Shared P H → Shared P H × Bool) (f : Finding) (w : Shared P H)
        → outside.on_finding ≡ some on_finding
        → Spares w
        → Spares (on_finding f w).0

  invoke-Spares :
      Peaceful
      → (f : Finding) (w : Shared P H) → Spares w
      → Spares (invoke policy hooks outside f w)
  invoke-Spares peace f w h = by_callback outside.on_finding refl
    where
      survived : (r : Shared P H × Bool) → Spares r.0 → Spares (survive policy hooks outside f r)
      survived (w', false) k = unfold survive in k
      survived (w', true) k =
          unfold survive in record { queue = k.queue; waits = k.waits; harmless = k.harmless }

      by_callback :
          (c : Option (Finding → Shared P H → Shared P H × Bool))
          → outside.on_finding ≡ c
          → Spares (invoke policy hooks outside f w)
      by_callback none e = unfold invoke in rw (e, call) h
      by_callback (some on_finding) e =
          unfold invoke in
          rw (e, call) (survived (on_finding f w) (peace.callback_spares on_finding f w e h))

  calls-Spares : Peaceful → (fs : List Finding) (w : Shared P H) → Spares w → Spares (calls fs w)
  calls-Spares peace [] w h = h
  calls-Spares peace (f ∷ fs) w h =
      calls-Spares peace fs (invoke policy hooks outside f w) (invoke-Spares peace f w h)

  dispatch-Continues :
      Peaceful
      → (rs : List Report) (w : Shared P H) → any is_crash rs ≡ false
      → Spares w
      → Continues Spares (dispatch policy hooks outside rs w)
  dispatch-Continues peace rs w harmless h =
      rw (dispatch_lem rs w, harmless) (calls-Spares peace (called rs) w h)

  then-Continues :
      (r : Run (Shared P H)) (k : Shared P H → Run (Shared P H))
      → Continues Spares r
      → ((w : Shared P H) → Spares w → Continues Spares (k w))
      → Continues Spares (then_run r k)
  then-Continues (running w) k h step = step w h
  then-Continues (aborted w) k h step = absurd h

  apply-Continues :
      Peaceful
      → (outcomes : List (Detector × Outcome)) (w : Shared P H) → Spares w
      → Continues Spares (apply policy hooks outside outcomes w)
  unfolding apply
  apply-Continues peace outcomes w h =
      dispatch-Continues peace (record_scans policy hooks outcomes (w.process, w.state)).1 _
        (rw (reports-record_scans policy hooks outcomes (w.process, w.state))
          (peaceful_reports policy peace.no_crash w.state.slots outcomes))
        (record { queue = h.queue; waits = h.waits; harmless = h.harmless })

  run_once-Continues :
      Peaceful → (w : Shared P H) → Spares w → Continues Spares (run_once policy hooks outside w)
  unfolding run_once
  run_once-Continues peace w h =
      let e : Pending.take w.pending ≡ (Pending.new, h.queue) =
        take-Holds w.pending h.queue h.waits in
      rw e (
        then-Continues _ _
          (then-Continues _ _
            (dispatch-Continues peace h.queue _ h.harmless
              (record { queue = []; waits = new-Holds; harmless = refl }))
            λ w' h'.
              apply-Continues peace _ _
                (record { queue = h'.queue; waits = h'.waits; harmless = h'.harmless }))
          λ w' h'. record { queue = h'.queue; waits = h'.waits; harmless = h'.harmless })

  -- Where the policy selects `crash` for no category, no waiting report asks for one, and no call
  -- of the callback leaves one waiting: the worker completes any number of cycles without
  -- stopping the process, and still no waiting report asks for a stop.
  pub run_cycles-Continues :
      Peaceful
      → (n : ℕ) (w : Shared P H) → Spares w
      → Continues Spares (run_cycles policy hooks outside n w)
  unfolding run_cycles
  run_cycles-Continues peace zero w h = h
  run_cycles-Continues peace (suc n) w h =
      then-Continues _ _ (run_once-Continues peace w h) (run_cycles-Continues peace n)
