-- ===== src/Engine/State.antt =====
-- The retained state: one slot for each detector, and the latches
-- (crates/fidelity-engine/src/state.rs).
pub mod History
pub mod Frame
use fidelity.Common.{
  ℕ, ◌+◌, ◌-◌, ◌^◌, min, Bool, true, Option, none, some, List, [], ◌∷◌, map, if◌then◌else◌,
}
use fidelity.Types.Category.{Category}
use fidelity.Types.CategorySet
use fidelity.Types.CategorySet.{CategorySet}
use fidelity.Types.Finding.{
  Detector, same_detector, Finding, stronger, Outcome, not_run, clean, found, unsupported, finding,
}
use fidelity.Types.Snapshot.{DetectorState, Snapshot}

pub record Slot : Type 0 where
  pub detector : Detector
  pub outcome : Outcome
  pub strongest : Option Finding
  pub first_unix_ms : Option ℕ
  pub latest_unix_ms : Option ℕ
  pub occurrences : ℕ  -- u32

pub new_slot : Detector → Slot
new_slot d = record {
  detector = d;
  outcome = not_run;
  strongest = none;
  first_unix_ms = none;
  latest_unix_ms = none;
  occurrences = 0;
}

abbrev pub u32_max : ℕ
u32_max = 2 ^ 32 - 1

-- `get_or_insert`
abbrev pub or_insert : Option ℕ → ℕ → Option ℕ
or_insert (some first) observed = some first
or_insert none observed = some observed

-- `is_none_or(|held| finding.strength() > held.strength())`
abbrev pub replaces : Finding → Option Finding → Bool
replaces f none = true
replaces f (some held) = stronger f.strength held.strength

observe : Finding → Slot → Slot
observe f slot = record slot {
  first_unix_ms = or_insert slot.first_unix_ms f.observed_at_unix_ms;
  latest_unix_ms = some f.observed_at_unix_ms;
  occurrences = min (slot.occurrences + 1) u32_max;
  strongest = if replaces f slot.strongest then some f else slot.strongest;
}

observe_outcome : Outcome → Slot → Slot
unfolding observe
observe_outcome (found f) slot = observe f slot
observe_outcome not_run slot = slot
observe_outcome clean slot = slot
observe_outcome (unsupported reason) slot = slot

-- `Slot::record`
pub record_slot : Slot → Outcome → Slot
unfolding observe_outcome
record_slot slot o = record (observe_outcome o slot) { outcome = o }

pub to_public : Slot → DetectorState
to_public slot = record {
  detector = slot.detector;
  outcome = slot.outcome;
  strongest = slot.strongest;
  first_unix_ms = slot.first_unix_ms;
  latest_unix_ms = slot.latest_unix_ms;
  occurrences = slot.occurrences;
}

pub record State : Type 0 where
  pub latched : CategorySet
  pub host_latched : CategorySet
  pub slots : List Slot

unfoldable pub new : List Detector → State
new detectors = record {
  latched = CategorySet.empty;
  host_latched = CategorySet.empty;
  slots = map new_slot detectors;
}

-- `iter_mut().find(..)`, and the update of the slot that it found; `none` where there is none.
pub record_first : Detector → Outcome → List Slot → Option (List Slot)
record_first d o [] = none
record_first d o (slot ∷ slots) =
    let later : Option (List Slot) = elim (record_first d o slots) [
      | none ↦ none
      | some rest ↦ some (slot ∷ rest)
    ] in
    if same_detector slot.detector d then some (record_slot slot o ∷ slots) else later

with_slots : State → Outcome → Option (List Slot) → State × Option Finding
with_slots s o none = (s, none)
with_slots s o (some slots) = (record s { slots = slots }, finding o)

-- `State::record`
unfoldable pub record_outcome : State → Detector → Outcome → State × Option Finding
unfolding with_slots
record_outcome s d o = with_slots s o (record_first d o s.slots)

unfoldable pub latch : State → Category → State
latch s c = record s { latched = (CategorySet.insert s.latched c).0 }

unfoldable pub latch_by_host : State → Category → State
latch_by_host s c = record s {
  latched = (CategorySet.insert s.latched c).0;
  host_latched = (CategorySet.insert s.host_latched c).0;
}

unfoldable pub snapshot : State → Snapshot
unfolding to_public
snapshot s = record {
  latched = s.latched;
  host_latched = s.host_latched;
  detectors = map to_public s.slots;
}
