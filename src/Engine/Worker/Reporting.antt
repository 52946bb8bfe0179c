-- ===== src/Engine/Worker/Reporting.antt =====
-- What a scan reports, and what it leaves in the slots.
use mathlib.Core.Option
use fidelity.Common.{
  ◌≡◌, ◌≢◌, refl, ◌∙◌, Bool, true, false, ◌||◌, Option, none, some, List, [], ◌∷◌, ◌++◌, arith, any,
  is_some, if◌then◌else◌, All,
}
use fidelity.Types.Evidence.{is_detector_health}
use fidelity.Types.Finding.{
  Detector, same_detector, crash, same_action, Finding, Outcome, not_run, clean, found, unsupported,
  finding,
}
use fidelity.Types.Category.{Category}
use fidelity.Engine.Policy.{Policy, action, qualifying_action}
use fidelity.Engine.Policy.Laws.{no_crash_on_health}
use fidelity.Engine.State.{Slot, State, record_outcome, latch, record_slot}
use fidelity.Engine.State.History.{replay}
use fidelity.Engine.State.Frame.{
  slot_of, slot_of-record_outcome, record_outcome-Recorded, outcomes_of, replay_cons,
}
use fidelity.Engine.Pending.{Report}
use fidelity.Engine.Worker.{Hooks, latch_denial, qualify, record_found, record_one, record_scans}

-- The report of one outcome, if its detector has a slot.
abbrev pub qualified_one : Policy → Bool → Option Finding → List Report
qualified_one policy false f = []
qualified_one policy true none = []
qualified_one policy true (some f) = elim (qualifying_action policy f) [
  | none ↦ []
  | some a ↦ (f, a) ∷ []
]

-- The reports of a scan, in its order.
unfoldable pub expected_reports : Policy → List Slot → List (Detector × Outcome) → List Report
expected_reports policy slots [] = []
expected_reports policy slots ((d, o) ∷ scans) =
    qualified_one policy (is_some (slot_of slots d)) (finding o)
    ++ expected_reports policy slots scans

module _ {P : Type 0} (policy : Policy) (hooks : Hooks P) where
  slots-record_found :
      (f : Option Finding) (p : P) (s : State)
      → (record_found policy hooks f (p, s)).0.1.slots ≡ s.slots
  unfolding record_found qualify latch_denial latch
  slots-record_found none p s = refl
  slots-record_found (some f) p s = ground arith

  slots-record_one :
      (d : Detector) (o : Outcome) (ps : P × State)
      → (record_one policy hooks d o ps).0.1.slots ≡ (record_outcome ps.1 d o).0.slots
  unfolding record_one
  slots-record_one d o (p, s) =
      slots-record_found (record_outcome s d o).1 p (record_outcome s d o).0

  -- After a scan is recorded, the slot of a detector is the slot before, with the outcomes of
  -- that detector alone recorded in order; a detector with no slot still has none.
  pub slot_of-record_scans :
      (scans : List (Detector × Outcome)) (ps : P × State) (e : Detector)
      → slot_of (record_scans policy hooks scans ps).0.1.slots e
        ≡ Option.map (λ slot. replay slot (outcomes_of e scans)) (slot_of ps.1.slots e)
  unfolding record_scans replay
  slot_of-record_scans [] ps e = ground arith
  slot_of-record_scans ((d, o) ∷ scans) ps e =
      slot_of-record_scans scans (record_one policy hooks d o ps).0 e
      ∙ rw (slots-record_one d o ps, slot_of-record_outcome ps.1 d e o)
          (replay_cons (same_detector d e) o (outcomes_of e scans) (slot_of ps.1.slots e))

  known-record_one :
      (d e : Detector) (o : Outcome) (ps : P × State)
      → is_some (slot_of (record_one policy hooks d o ps).0.1.slots e)
        ≡ is_some (slot_of ps.1.slots e)
  known-record_one d e o ps =
      rw (slots-record_one d o ps, slot_of-record_outcome ps.1 d e o)
        (kept (same_detector d e) (slot_of ps.1.slots e))
    where
      kept :
          (same : Bool) (slot : Option Slot)
          → is_some (if same then Option.map (λ s. record_slot s o) slot else slot) ≡ is_some slot
      kept true none = refl
      kept true (some slot) = refl
      kept false slot = refl

  reports-record_found :
      (f : Option Finding) (ps : P × State)
      → (record_found policy hooks f ps).1 ≡ qualified_one policy true f
  unfolding record_found qualify
  reports-record_found none ps = refl
  reports-record_found (some f) ps = ground arith

  reports-record_one :
      (d : Detector) (o : Outcome) (ps : P × State)
      → (record_one policy hooks d o ps).1
        ≡ qualified_one policy (is_some (slot_of ps.1.slots d)) (finding o)
  unfolding record_one
  reports-record_one d o (p, s) = by_slot (slot_of s.slots d) refl
    where
      by_slot :
          (slot : Option Slot)
          → slot_of s.slots d ≡ slot
          → (record_found policy hooks (record_outcome s d o).1 (p, (record_outcome s d o).0)).1
            ≡ qualified_one policy (is_some slot) (finding o)
      by_slot none e = rw ((record_outcome-Recorded s d o).unknown e) (unfold record_found in refl)
      by_slot (some slot) e =
          rw ((record_outcome-Recorded s d o).known (λ gone. cc))
            (reports-record_found (finding o) (p, (record_outcome s d o).0))

  expected_cong :
      (slots slots' : List Slot) (scans : List (Detector × Outcome))
      → ((e : Detector) → is_some (slot_of slots' e) ≡ is_some (slot_of slots e))
      → expected_reports policy slots' scans ≡ expected_reports policy slots scans
  unfolding expected_reports
  expected_cong slots slots' [] same = refl
  expected_cong slots slots' ((d, o) ∷ scans) same =
      rw (same d, expected_cong slots slots' scans same)

  -- Recording a scan gives, in the order of the scan, what `qualifying_action` gives for each finding
  -- whose detector has a slot.
  pub reports-record_scans :
      (scans : List (Detector × Outcome)) (ps : P × State)
      → (record_scans policy hooks scans ps).1 ≡ expected_reports policy ps.1.slots scans
  unfolding record_scans expected_reports
  reports-record_scans [] ps = refl
  reports-record_scans ((d, o) ∷ scans) ps = rw (
    reports-record_one d o ps,
    reports-record_scans scans (record_one policy hooks d o ps).0,
    expected_cong ps.1.slots _ scans (λ e. known-record_one d e o ps),
  )

-- Detector health never asks for a stop.
abbrev pub is_crash : Report → Bool
is_crash r = same_action r.1 crash

abbrev pub IsHealthy : Detector × Outcome → Type 0
IsHealthy (d, found f) = is_detector_health f.evidence ≡ true
IsHealthy (d, o) = Unit

not-crash-qualified_one :
    (policy : Policy) (known : Bool) (d : Detector) (o : Outcome)
    → IsHealthy (d, o)
    → any is_crash (qualified_one policy known (finding o)) ≡ false
not-crash-qualified_one policy false d o h = refl
not-crash-qualified_one policy true d (found f) h = ground (arith, no_crash_on_health policy f)
not-crash-qualified_one policy true d not_run h = refl
not-crash-qualified_one policy true d clean h = refl
not-crash-qualified_one policy true d (unsupported reason) h = refl

any-append : (xs ys : List Report) → any is_crash (xs ++ ys) ≡ (any is_crash xs || any is_crash ys)
any-append [] ys = refl
any-append (x ∷ xs) ys = ground (arith, any-append xs ys)

pub no_crash-expected_reports :
    (policy : Policy) (slots : List Slot) (scans : List (Detector × Outcome))
    → All IsHealthy scans
    → any is_crash (expected_reports policy slots scans) ≡ false
unfolding expected_reports
no_crash-expected_reports policy slots [] h = refl
no_crash-expected_reports policy slots ((d, o) ∷ scans) h = rw (
  any-append (qualified_one policy (is_some (slot_of slots d)) (finding o)) _,
  not-crash-qualified_one policy (is_some (slot_of slots d)) d o h.0,
  no_crash-expected_reports policy slots scans h.1,
)

-- A policy that selects no crash asks for no stop.
pub peaceful_reports :
    (policy : Policy)
    → ((c : Category) → action policy c ≢ crash)
    → (slots : List Slot) (scans : List (Detector × Outcome))
    → any is_crash (expected_reports policy slots scans) ≡ false
unfolding expected_reports
peaceful_reports policy no_crash slots [] = refl
peaceful_reports policy no_crash slots ((d, o) ∷ scans) = rw (
  any-append (qualified_one policy (is_some (slot_of slots d)) (finding o)) _,
  one (is_some (slot_of slots d)) (finding o),
  peaceful_reports policy no_crash slots scans,
)
  where
    one : (known : Bool) (f : Option Finding) → any is_crash (qualified_one policy known f) ≡ false
    one false f = refl
    one true none = refl
    one true (some f) = unfold qualifying_action in ground (arith, no_crash f.category)
