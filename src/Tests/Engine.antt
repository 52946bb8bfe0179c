-- ===== src/Tests/Engine.antt =====
-- The policy, the retained state, the queue and the worker, at concrete scans.
use mathlib.Core.Option
use fidelity.Common.{
  ℕ, ◌≡◌, ◌≢◌, refl, ap, Bool, true, Option, none, some, List, [], ◌∷◌, ◌++◌, ◌-◌, take, arith,
}
use fidelity.Types.Category.{Category, debugging, instrumentation}
use fidelity.Types.CategorySet
use fidelity.Types.CategorySet.{contains}
use fidelity.Types.Evidence.{is_detector_health}
use fidelity.Types.Finding.{Finding, found, clean, crash, deny, callback, low, medium}
use fidelity.Types.Snapshot.{detector_state}
use fidelity.Detect.Inventory.{tracer_present_id}
use fidelity.Engine.Policy
use fidelity.Engine.Policy.{action, qualifying_action}
use fidelity.Engine.Policy.Laws.{no_crash_on_health, new-IsTable, set-IsTable, action-set, new_lem}
use fidelity.Engine.State
use fidelity.Engine.State.{new_slot, record_slot, to_public}
use fidelity.Engine.State.History.{replay, Summary, replay-Summary}
use fidelity.Engine.State.Frame.{slot_of, detector_state-snapshot}
use fidelity.Engine.Pending.{Report, most_reports, new, add}
use fidelity.Engine.Pending.Queue.{Holds, new-Holds, add-Holds}
use fidelity.Engine.Worker.{record_scans, Shared, Outside, aborted, dispatch, invoke, run_cycles}
use fidelity.Engine.Worker.Latching.{Agree, record_scans-Agree}
use fidelity.Engine.Worker.Reported.{Reported, record_scans-Reported}
use fidelity.Engine.Worker.Dispatch.{
  calls, dispatch_lem, invoke_panic, Spares, Peaceful, Continues, run_cycles-Continues,
}
use fidelity.Facade.Process.{Process, latched_categories, facade_hooks}
use fidelity.Facade.Process.Laws.{latched_in, facade_hooks-Latches}
use fidelity.Facade.Start.{outside_of}
use fidelity.Tests.Data.{
  traced, unhealthy, injected, policy, scans, words, clock, builder, around, prepared, shared,
}

abbrev stopping : Policy.Policy
stopping = Policy.set Policy.new debugging crash low

no_crash_on_health_example : qualifying_action stopping unhealthy ≢ some crash
unfolding is_detector_health
no_crash_on_health_example = no_crash_on_health stopping unhealthy refl

replay-Summary_example :
    Summary
      (found traced ∷ found unhealthy ∷ clean ∷ [])
      (replay (new_slot tracer_present_id) (found traced ∷ found unhealthy ∷ clean ∷ []))
replay-Summary_example =
    replay-Summary tracer_present_id (found traced ∷ found unhealthy ∷ clean ∷ [])

detector_state-snapshot_example :
    detector_state (State.snapshot words.1) tracer_present_id
    ≡ Option.map to_public (slot_of words.1.slots tracer_present_id)
detector_state-snapshot_example = detector_state-snapshot words.1 tracer_present_id

record_scans-Reported_example :
    Reported policy words.1.slots scans (record_scans policy facade_hooks scans words).1
record_scans-Reported_example = record_scans-Reported policy facade_hooks scans words

add-Holds_example :
    Holds
      (add new ((traced, deny) ∷ (unhealthy, callback) ∷ []))
      ([] ++ take (most_reports - 0) ((traced, deny) ∷ (unhealthy, callback) ∷ []))
add-Holds_example = add-Holds new [] ((traced, deny) ∷ (unhealthy, callback) ∷ []) new-Holds

words-Agree : Agree latched_in words
unfolding latched_categories State.new CategorySet.empty CategorySet.from_bits
words-Agree c = refl

record_scans-Agree_example : Agree latched_in (record_scans policy facade_hooks scans words).0
record_scans-Agree_example =
    record_scans-Agree policy facade_hooks latched_in facade_hooks-Latches scans words words-Agree

abbrev reports : List Report
reports = (traced, deny) ∷ (injected, callback) ∷ (traced, crash) ∷ (unhealthy, callback) ∷ []

dispatch_lem_example :
    dispatch policy facade_hooks (outside_of builder around prepared) reports shared
    ≡ aborted
        (calls policy facade_hooks (outside_of builder around prepared) (injected ∷ []) shared)
dispatch_lem_example =
    dispatch_lem policy facade_hooks (outside_of builder around prepared) reports shared

-- A host whose callback panics, and changes nothing.
abbrev panicking : Finding → Shared Process ℕ → Shared Process ℕ × Bool
panicking f w = (w, true)

abbrev outside : Outside Process ℕ
outside = record {
  clock = clock;
  prepare_worker = λ n. n;
  scan_all = λ now n. (scans, n);
  on_finding = some panicking;
}

invoke_panic_example :
    (health : Finding) × (health.category ≡ debugging)
    × (health.strength ≡ low)
    × (is_detector_health health.evidence ≡ true)
    × (slot_of (invoke policy facade_hooks outside traced shared).state.slots tracer_present_id
        ≡ Option.map
            (λ slot. record_slot slot (found health))
            (slot_of shared.state.slots tracer_present_id))
invoke_panic_example =
    invoke_panic policy facade_hooks outside panicking traced shared shared tracer_present_id refl
      refl

policy-peaceful : (c : Category) → action policy c ≢ crash
policy-peaceful c =
    rw
      (
        action-set (Policy.set Policy.new debugging deny medium) instrumentation c callback medium
            (set-IsTable Policy.new debugging deny medium new-IsTable),
        action-set Policy.new debugging c deny medium new-IsTable,
      )
      (ground (arith, new_lem c))

left_by :
    Finding
    → Shared Process ℕ
    → Option (Finding → Shared Process ℕ → Shared Process ℕ × Bool)
    → Shared Process ℕ
left_by f w none = w
left_by f w (some g) = (g f w).0

outside-Peaceful : Peaceful policy facade_hooks outside
unfolding left_by
outside-Peaceful = record {
  no_crash = policy-peaceful;
  callback_spares = λ on_finding f w supplied spares. rw (← ap (left_by f w) supplied) spares;
}

shared-Spares : Spares shared
shared-Spares = record { queue = []; waits = new-Holds; harmless = refl }

run_cycles-Continues_example : Continues Spares (run_cycles policy facade_hooks outside 3 shared)
run_cycles-Continues_example =
    run_cycles-Continues policy facade_hooks outside outside-Peaceful 3 shared shared-Spares
