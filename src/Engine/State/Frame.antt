-- ===== src/Engine/State/Frame.antt =====
-- An outcome reaches the slot of its own detector alone, and creates none.
use fidelity.Common.{
  ◌≡◌, refl, ◌∙◌, Bool, true, false, Option, none, some, List, [], ◌∷◌, arith, map, if◌then◌else◌,
  find, ◌≢◌, ◌↔◌,
}
use mathlib.Core.Option
use fidelity.Types.Finding.{Detector, same_detector, Finding, Outcome, found, finding}
use fidelity.Types.Snapshot.{DetectorState, detector_state}
use fidelity.Engine.State.{
  Slot, record_slot, State, record_first, record_outcome, snapshot, to_public,
}
use fidelity.Engine.State.History.{replay}

abbrev pub slot_of : List Slot → Detector → Option Slot
slot_of slots d = find (λ slot. same_detector slot.detector d) slots

detector-record_slot : (slot : Slot) (o : Outcome) → (record_slot slot o).detector ≡ slot.detector
unfolding record_slot
detector-record_slot slot (found f) = refl
detector-record_slot slot _ = refl

-- The slots after an outcome for `d`: the slots before, where `d` has none.
abbrev slots_after : List Slot → Option (List Slot) → List Slot
slots_after slots none = slots
slots_after slots (some slots') = slots'

slots-record_outcome :
    (s : State) (d : Detector) (o : Outcome)
    → (record_outcome s d o).0.slots ≡ slots_after s.slots (record_first d o s.slots)
unfolding record_outcome
slots-record_outcome s d o = ground arith

slot_of-record_first :
    (d e : Detector) (o : Outcome) (slots : List Slot)
    → slot_of (slots_after slots (record_first d o slots)) e ≡ (
        if same_detector d e
        then Option.map (λ slot. record_slot slot o) (slot_of slots e)
        else slot_of slots e)
unfolding record_first
slot_of-record_first d e o [] = ground arith
slot_of-record_first d e o (slot ∷ slots) =
    ground (arith, slot_of-record_first d e o slots, detector-record_slot slot o)

-- Recording an outcome for one detector changes its slot as `Slot::record` does, and no other.
pub slot_of-record_outcome :
    (s : State) (d e : Detector) (o : Outcome)
    → slot_of (record_outcome s d o).0.slots e ≡ (
        if same_detector d e
        then Option.map (λ slot. record_slot slot o) (slot_of s.slots e)
        else slot_of s.slots e)
slot_of-record_outcome s d e o =
    rw (slots-record_outcome s d o) (slot_of-record_first d e o s.slots)

detectors-record_first :
    (d : Detector) (o : Outcome) (slots : List Slot)
    → map (λ (slot : Slot). slot.detector) (slots_after slots (record_first d o slots))
      ≡ map (λ (slot : Slot). slot.detector) slots
unfolding record_first
detectors-record_first d o [] = refl
detectors-record_first d o (slot ∷ slots) =
    ground (arith, detectors-record_first d o slots, detector-record_slot slot o)

is_known-record_first :
    (d : Detector) (o : Outcome) (slots : List Slot)
    → (record_first d o slots ≡ none) ↔ (slot_of slots d ≡ none)
unfolding record_first
is_known-record_first d o [] = (λ _. refl, λ _. refl)
is_known-record_first d o (slot ∷ slots) = ground (arith, is_known-record_first d o slots)

-- What recording an outcome leaves as it was, and what it returns.
pub record Recorded (s : State) (d : Detector) (o : Outcome) (r : State × Option Finding)
    : Type 0 where
  pub detectors :
      map (λ (slot : Slot). slot.detector) r.0.slots ≡ map (λ (slot : Slot). slot.detector) s.slots
  pub latched : r.0.latched ≡ s.latched
  pub host_latched : r.0.host_latched ≡ s.host_latched
  pub unknown : slot_of s.slots d ≡ none → r ≡ (s, none)
  pub known : slot_of s.slots d ≢ none → r.1 ≡ finding o

pub record_outcome-Recorded :
    (s : State) (d : Detector) (o : Outcome) → Recorded s d o (record_outcome s d o)
record_outcome-Recorded s d o = record {
  detectors = rw (slots-record_outcome s d o) (detectors-record_first d o s.slots);
  latched = unfold record_outcome in ground arith;
  host_latched = unfold record_outcome in ground arith;
  unknown = λ h. unfold record_outcome in ground (arith, (is_known-record_first d o s.slots).1 h);
  known = λ h. unfold record_outcome in ground (arith, is_known-record_first d o s.slots);
}

-- The outcomes that a list of scans holds for one detector, oldest first.
abbrev pub outcomes_of : Detector → List (Detector × Outcome) → List Outcome
outcomes_of e [] = []
outcomes_of e ((d, o) ∷ scans) =
    let rest = outcomes_of e scans in if same_detector d e then o ∷ rest else rest

pub record_all : State → List (Detector × Outcome) → State
record_all s [] = s
record_all s ((d, o) ∷ scans) = record_all (record_outcome s d o).0 scans

pub replay_cons :
    (same : Bool) (o : Outcome) (os : List Outcome) (slot : Option Slot)
    → Option.map (λ s. replay s os) (if same then Option.map (λ s. record_slot s o) slot else slot)
      ≡ Option.map (λ s. replay s (if same then o ∷ os else os)) slot
unfolding replay
replay_cons true o os none = refl
replay_cons true o os (some slot) = refl
replay_cons false o os slot = refl

-- After any scans of any detectors, a slot is the replay of the scans of its detector.
pub slot_of-record_all :
    (s : State) (e : Detector) (scans : List (Detector × Outcome))
    → slot_of (record_all s scans).slots e
      ≡ Option.map (λ slot. replay slot (outcomes_of e scans)) (slot_of s.slots e)
unfolding record_all
slot_of-record_all s e [] = unfold replay in ground arith
slot_of-record_all s e ((d, o) ∷ scans) =
    slot_of-record_all (record_outcome s d o).0 e scans
    ∙ rw (slot_of-record_outcome s d e o)
        (replay_cons (same_detector d e) o (outcomes_of e scans) (slot_of s.slots e))

-- A snapshot shows the slot of each detector.
pub detector_state-snapshot :
    (s : State) (d : Detector)
    → detector_state (snapshot s) d ≡ Option.map to_public (slot_of s.slots d)
unfolding snapshot detector_state
detector_state-snapshot s d = by_slots s.slots
  where
    by_slots :
        (slots : List Slot)
        → find (λ (state : DetectorState). same_detector state.detector d) (map to_public slots)
          ≡ Option.map to_public (slot_of slots d)
    by_slots [] = refl
    by_slots (slot ∷ slots) = ground (arith, by_slots slots)
