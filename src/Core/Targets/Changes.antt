-- ===== src/Core/Targets/Changes.antt =====
-- The comparison finds exactly the targets whose slot held another value at the start.
use fidelity.Common.{
  ◌≤◌, ◌≡◌, Bool, true, false, not, none, some, List, arith, ◌==◌, length, length-take, keep, find,
}
use fidelity.Common.Sort.{sort, Ordered, take-Ordered, TotalOrder, sort-Ordered}
use fidelity.Core.Keyed.{keyed-Sweeps}
use fidelity.Core.Sweep.{sweep-keep}
use fidelity.Core.Targets.{Target, target_le, max_targets, new, redirected_since}

target_le-TotalOrder : TotalOrder target_le
unfolding target_le
target_le-TotalOrder = record { total = λ a b h. ground arith; trans = λ a b c h k. ground arith }

new-Ordered : (targets : List Target) (bound : Bool) → Ordered target_le (new targets bound).targets
unfolding new
new-Ordered targets bound =
    take-Ordered target_le max_targets (sort target_le targets)
      (sort-Ordered target_le target_le-TotalOrder targets)

pub length-new :
    (targets : List Target) (bound : Bool) → length (new targets bound).targets ≤ max_targets
unfolding new
length-new targets bound = omega (arith, length-take max_targets (sort target_le targets))

target_le-slot : (a b : Target) → target_le a b ≡ true → a.slot ≤ b.slot
unfolding target_le
target_le-slot a b h = ground arith

-- The single sweep finds exactly the targets for whose slot the first target of the start with
-- the same slot had another value, in slot order.
pub redirected_since-keep :
    (current start : List Target) (bound bound' : Bool)
    → redirected_since (new current bound) (new start bound')
      ≡ keep
          (λ t. elim (find (λ (c : Target). c.slot == t.slot) (new start bound').targets) [
            | none ↦ false
            | some c ↦ not (c.value == t.value)
          ])
          (new current bound).targets
unfolding redirected_since
redirected_since-keep current start bound bound' =
    sweep-keep
      (keyed-Sweeps (λ (t : Target). t.slot) (λ (c : Target). c.slot)
        (λ t c. not (c.value == t.value)) target_le target_le target_le-slot target_le-slot)
      (new current bound).targets (new start bound').targets (new-Ordered current bound)
      (new-Ordered start bound')
