-- ===== src/Facade/Start/Laws.antt =====
-- How a start ends, for the process: with a live runtime, or without a trace of it.
use fidelity.Common.{
  ◌≡◌, refl, ◌∙◌, sym, Bool, true, false, ◌⊎◌, inl, inr, Option, none, some, List, [], ◌∷◌,
  if◌then◌else◌, arith, Bool-cases,
}
use Prim.Native.String.{String}
use fidelity.Types.Category.{instrumentation, ui_abuse}
use fidelity.Types.CategorySet
use fidelity.Types.CategorySet.{contains}
use fidelity.Types.CategorySet.Laws.{is_empty-contains}
use fidelity.Types.Finding.{Detector, Outcome, report, deny, callback, crash}
use fidelity.Types.Identity.{Platform}
use fidelity.Core.Environment.{Call, returned, panicked}
use fidelity.Detect.Inventory.{inventory}
use fidelity.Detect.Scan.{scan_cheap}
use fidelity.Engine.State.{State}
use fidelity.Engine.State
use fidelity.Engine.Pending.{Report}
use fidelity.Engine.Worker.{Shared, Run, running, aborted, dispatch, invoke, now_unix_ms}
use fidelity.Facade.Process.{
  Process, idle, claim_slot, set_deny_until_full_scan, facade_hooks, latched_categories,
}
use fidelity.Facade.Process.Laws.{abandon_start-idle}
use fidelity.Facade.Coverage.{missing_required_coverage}
use fidelity.Facade.Coverage.Laws.{never_complete}
use fidelity.Facade.Runtime.Growth.{
  Sound, Grows, Grows-refl, Grows-trans, Grown, words, record_scans-Grows,
}
use fidelity.Facade.Runtime.Steps.{invoke-Grown}
use fidelity.Facade.Start.{
  Builder, Surroundings, Prepared, StartError, already_running, worker_stopped_during_start,
  required_coverage_unavailable, Result, ok, err, Attempt, started, failed, unwound, crashed,
  outside_of, await, spawn, launch, first_scan, scan_prepared, with_backend, with_platform,
  start_claimed, settle, start, validate,
}

-- A runtime that lives: it holds the slot, and its words are as the host asked.
pub record Live {H : Type 0} (b : Builder H) (ps : Process × State) : Type 0 where
  pub sound : Sound ps
  pub slot : ps.0.running ≡ true
  pub choice : ps.0.deny_until_full_scan ≡ b.deny_until_full_scan

pub Live-Grows :
    {H : Type 0} (b : Builder H) (a c : Process × State) → Live b a → Grows a c → Live b c
Live-Grows b a c live grows = record {
  sound = grows.sound live.sound;
  slot = grows.slot ∙ live.slot;
  choice = grows.choice ∙ live.choice;
}

-- The host requires neither of the two categories that the first scan never completes.
abbrev pub Possible : {H : Type 0} → Builder H → Type 0
Possible b =
    (contains b.required_coverage instrumentation ≡ false)
    × (contains b.required_coverage ui_abuse ≡ false)

module _ {H : Type 0} (b : Builder H) (around : Surroundings H) where
  abbrev RunGrown : Shared Process H → Run (Shared Process H) → Type 0
  RunGrown w (running w') = Grown w w'
  RunGrown w (aborted w') = Grown w w'

  run_trans :
      (w w' : Shared Process H) (r : Run (Shared Process H))
      → Grown w w'
      → RunGrown w' r
      → RunGrown w r
  run_trans w w' (running w'') h k = Grows-trans (words w) (words w') (words w'') h k
  run_trans w w' (aborted w'') h k = Grows-trans (words w) (words w') (words w'') h k

  dispatch-Grown :
      (prepared : Prepared) (rs : List Report) (w : Shared Process H)
      → RunGrown w (dispatch b.policy facade_hooks (outside_of b around prepared) rs w)
  unfolding dispatch
  dispatch-Grown prepared [] w = Grows-refl (words w)
  dispatch-Grown prepared ((f, report) ∷ rs) w = dispatch-Grown prepared rs w
  dispatch-Grown prepared ((f, deny) ∷ rs) w = dispatch-Grown prepared rs w
  dispatch-Grown prepared ((f, crash) ∷ rs) w = Grows-refl (words w)
  dispatch-Grown prepared ((f, callback) ∷ rs) w =
      let w' = invoke b.policy facade_hooks (outside_of b around prepared) f w in
      run_trans w w' _ (invoke-Grown b around prepared f w) (dispatch-Grown prepared rs w')

  -- What an attempt that holds the claim keeps.
  abbrev Kept : Attempt H → Type 0
  Kept (started prepared w) = Live b (words w) × Possible b
  Kept (failed e p host) = Unit
  Kept (unwound p host) = Unit
  Kept (crashed w) = Unit

  if-Kept :
      (t : Bool) (x y : Attempt H)
      → (t ≡ true → Kept x)
      → (t ≡ false → Kept y)
      → Kept (if t then x else y)
  if-Kept true x y hx hy = hx refl
  if-Kept false x y hx hy = hy refl

  await-Kept :
      (prepared : Prepared) (w : Shared Process H) (r : Run (Shared Process H))
      → Live b (words w) × Possible b
      → RunGrown w r
      → Kept (await b around prepared r)
  unfolding await
  await-Kept prepared w (aborted w') h grown = tt
  await-Kept prepared w (running w') h grown =
      if-Kept around.ready (started prepared w')
        (failed worker_stopped_during_start w'.process w'.host)
        (λ _. (Live-Grows b (words w) (words w') h.0 grown, h.1)) λ _. tt

  spawn-Kept :
      (prepared : Prepared) (rs : List Report) (refused : Option String) (w : Shared Process H)
      → Live b (words w) × Possible b
      → Kept (spawn b around prepared rs refused w)
  unfolding spawn
  spawn-Kept prepared rs (some reason) w h = tt
  spawn-Kept prepared rs none w h =
      await-Kept prepared w _ h
        (dispatch-Grown prepared rs (record w { host = around.prepare_worker w.host }))

  launch-Kept :
      (prepared : Prepared) (outcomes : List (Detector × Outcome)) (p : Process) (host : H)
      → Live b (p, State.new inventory) × Possible b
      → Kept (launch b around prepared outcomes p host)
  unfolding launch
  launch-Kept prepared outcomes p host h = spawn-Kept prepared _ around.refused _ (
    Live-Grows b (p, State.new inventory) _ h.0
        (record_scans-Grows b.policy outcomes (p, State.new inventory)),
    h.1,
  )

  first_scan-Kept :
      (prepared : Prepared) (p : Process) (host : H)
      → Live b (p, State.new inventory)
      → Kept (first_scan b around prepared p host)
  unfolding first_scan
  first_scan-Kept prepared p host live =
      let now = now_unix_ms (around.clock host).0 in
      let outcomes = scan_cheap prepared.detectors around.at_scan now in
      let missing = missing_required_coverage b.required_coverage outcomes in
      let never = never_complete b.required_coverage prepared.detectors around.at_scan now in
      if-Kept (CategorySet.is_empty missing)
        (launch b around prepared outcomes p (around.clock host).1)
        (failed (required_coverage_unavailable missing) p (around.clock host).1)
        (λ whole. launch-Kept prepared outcomes p _ (
          live,
          (
            sym never.0 ∙ is_empty-contains missing whole instrumentation,
            sym never.1 ∙ is_empty-contains missing whole ui_abuse,
          ),
        ))
        λ _. tt

  scan_prepared-Kept :
      (c : Call (Result StartError Prepared)) (p : Process) (host : H)
      → Live b (p, State.new inventory)
      → Kept (scan_prepared b around c p host)
  unfolding scan_prepared
  scan_prepared-Kept panicked p host live = tt
  scan_prepared-Kept (returned (err e)) p host live = tt
  scan_prepared-Kept (returned (ok prepared)) p host live = first_scan-Kept prepared p host live

  with_backend-Kept :
      (built : Result String Unit) (platform : Platform) (p : Process) (host : H)
      → Live b (p, State.new inventory)
      → Kept (with_backend b around built platform p host)
  unfolding with_backend
  with_backend-Kept (err reason) platform p host live = tt
  with_backend-Kept (ok _) platform p host live = scan_prepared-Kept _ p host live

  -- The words of a process at rest that the claim took.
  abbrev claimed : Process
  claimed = record idle { running = true }

  chosen-Live :
      Live b (set_deny_until_full_scan b.deny_until_full_scan claimed, State.new inventory)
  unfolding set_deny_until_full_scan latched_categories State.new CategorySet.empty
      CategorySet.from_bits
  chosen-Live = record {
    sound = record { agree = λ c. refl; plain = omega arith; hosted = λ c h. h };
    slot = refl;
    choice = refl;
  }

  with_platform-Kept :
      (platform : Result StartError Platform) (host : H)
      → Kept (with_platform b around platform claimed host)
  unfolding with_platform
  with_platform-Kept (err e) host = tt
  with_platform-Kept (ok platform) host = with_backend-Kept around.build platform _ host chosen-Live

  -- How a start ends, from the words that it finds.
  abbrev pub Ended : Process → Attempt H → Type 0
  Ended p (started prepared w) = (p.running ≡ false) × Live b (words w) × Possible b
  Ended p (failed e q host) =
      ((p.running ≡ true) × (e ≡ already_running) × (q ≡ p)) ⊎ ((p.running ≡ false) × (q ≡ idle))
  Ended p (unwound q host) = (p.running ≡ false) × (q ≡ idle)
  Ended p (crashed w) = p.running ≡ false

  settle-Ended :
      (p : Process) (a : Attempt H) → p.running ≡ false → Kept a → Ended p (settle b around a)
  unfolding settle
  settle-Ended p (started prepared w) free kept = (free, kept.0, kept.1)
  settle-Ended p (failed e q host) free kept = inr (free, abandon_start-idle q)
  settle-Ended p (unwound q host) free kept = (free, abandon_start-idle q)
  settle-Ended p (crashed w) free kept = free

  start-free :
      (p : Process) (host : H)
      → p ≡ idle
      → start b around p host ≡ settle b around (start_claimed b around claimed host)
  unfolding start claim_slot
  start-free p host e = rw e refl

  start-taken :
      (p : Process) (host : H)
      → p.running ≡ true
      → start b around p host ≡ failed already_running p host
  unfolding start claim_slot
  start-taken p host e = rw e refl

  -- From words where a free slot means the words of a process that started nothing: a start that
  -- finds the slot taken fails with `already_running` and changes no word; one that finds it free
  -- either gives a runtime that holds the slot, whose process and state latch the same
  -- categories, whose coverage choice is the builder's, and whose builder requires complete
  -- coverage neither of instrumentation nor of interface abuse, or fails or unwinds and leaves
  -- the words of a process that started nothing, or stops the process.
  pub start-Ended :
      (p : Process) (host : H) → (p.running ≡ false → p ≡ idle) → Ended p (start b around p host)
  start-Ended p host rested = elim (Bool-cases p.running) [
    | inl taken ↦ rw (start-taken p host taken) (inl (taken, refl, refl))
    | inr free ↦ rw (start-free p host (rested free)) (
        settle-Ended p (start_claimed b around claimed host) free
          (unfold start_claimed in with_platform-Kept (validate b around.target) host))
  ]
