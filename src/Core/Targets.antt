-- ===== src/Core/Targets.antt =====
-- The dispatch targets of the main image, and which were redirected since a snapshot
-- (crates/fidelity-core/src/fact/dispatch.rs).
pub mod Changes
use fidelity.Common.{
  ℕ, Bool, true, false, not, ◌&&◌, ◌||◌, Option, none, some, List, ltb, leb, ◌==◌, length, take,
}
use fidelity.Common.Sort.{sort}
use fidelity.Core.Sweep.{sweep}

pub record Target : Type 0 where
  pub slot : ℕ  -- u64
  pub value : ℕ  -- u64

-- The derived order: by slot, then by value.
pub target_le : Target → Target → Bool
target_le a b = ltb a.slot b.slot || (a.slot == b.slot && leb a.value b.value)

abbrev pub max_targets : ℕ
max_targets = 4096

pub record DispatchTargets : Type 0 where
  pub targets : List Target
  pub bound : Bool
  pub truncated : Bool

pub new : List Target → Bool → DispatchTargets
new targets bound =
    let sorted = sort target_le targets in
    record {
      targets = take max_targets sorted;
      bound = bound;
      truncated = ltb max_targets (length sorted);
    }

abbrev pub slot_before : Target → Target → Bool
slot_before target candidate = ltb candidate.slot target.slot

abbrev pub moved_at : Target → Option Target → Bool
moved_at target none = false
moved_at target (some candidate) =
    candidate.slot == target.slot && not (candidate.value == target.value)

pub redirected_since : DispatchTargets → DispatchTargets → List Target
redirected_since current start = sweep slot_before moved_at current.targets start.targets
