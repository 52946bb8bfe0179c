-- ===== src/Facade/Process/Laws.antt =====
-- What the words of the process promise: a latch adds one category, a start that is abandoned
-- leaves no trace, and the verdict is read from the latches and the coverage alone.
use fidelity.Common.{◌≡◌, refl, Bool, true, false, not, ◌&&◌, ◌↔◌, arith, if◌then◌else◌}
use fidelity.Types.Category.{
  Category, integrity, debugging, instrumentation, device_compromise, virtualization, ui_abuse,
}
use fidelity.Types.CategorySet
use fidelity.Types.CategorySet.{CategorySet, contains, insert, from_bits}
use fidelity.Types.CategorySet.Laws.{
  contains-insert, IsPlain, insert-IsPlain, is_empty-contains, is_empty_iff,
}
use fidelity.Engine.Worker.Latching.{Latches}
use fidelity.Facade.Process.{
  Process, idle, latched_categories, latch, abandon_start, facade_hooks, allowed, denied, Denied,
  ensure_allowed, denies_until_full_scan, clear_latched, release_slot, set_deny_until_full_scan,
  full_scan_complete,
}

-- The latch word, read as a set.
abbrev pub latched_in : Process → Category → Bool
latched_in p c = contains (latched_categories p) c

pub latch-insert :
    (c : Category) (p : Process)
    → latched_categories (latch c p) ≡ (insert (latched_categories p) c).0
unfolding latch latched_categories insert from_bits CategorySet.empty
latch-insert integrity p = refl
latch-insert debugging p = refl
latch-insert instrumentation p = refl
latch-insert device_compromise p = refl
latch-insert virtualization p = refl
latch-insert ui_abuse p = refl

-- The hooks of the facade do what the engine needs of them.
pub facade_hooks-Latches : Latches facade_hooks latched_in
unfolding facade_hooks
facade_hooks-Latches = record {
  latched = λ c d p. rw (latch-insert c p) (contains-insert (latched_categories p) c d);
}

pub latch-IsPlain :
    (c : Category) (p : Process)
    → IsPlain (latched_categories p)
    → IsPlain (latched_categories (latch c p))
latch-IsPlain c p plain = rw (latch-insert c p) (insert-IsPlain (latched_categories p) c plain)

-- Whatever a start did to the words before it was abandoned, the process is as it was before any start.
pub abandon_start-idle : (p : Process) → abandon_start p ≡ idle
unfolding abandon_start clear_latched release_slot set_deny_until_full_scan
abandon_start-idle p = refl

not-false : (b : Bool) → not b ≡ false → b ≡ true
not-false true h = refl
not-false false h = ground arith

if_denied :
    (a b : Bool) (x y : Denied)
    → ((if a then denied x else if b then denied y else allowed) ≡ allowed)
      ↔ ((a ≡ false) × (b ≡ false))
if_denied true b x y = ((λ h. absurd cc), λ h. absurd (ground (arith, h.0)))
if_denied false true x y = ((λ h. absurd cc), λ h. absurd (ground (arith, h.1)))
if_denied false false x y = ((λ h. (refl, refl)), λ h. refl)

-- For a latch word with no bit past the last category: an operation is allowed exactly where no
-- category is latched, and the host did not ask to wait for a full scan that is not complete.
pub ensure_allowed_iff :
    (p : Process)
    → IsPlain (latched_categories p)
    → (ensure_allowed p ≡ allowed) ↔ (
        ((c : Category) → latched_in p c ≡ false)
        × ((p.deny_until_full_scan && not p.full_scan_done) ≡ false))
unfolding ensure_allowed full_scan_complete denies_until_full_scan
ensure_allowed_iff p plain =
    let test =
      if_denied (not (CategorySet.is_empty (latched_categories p)))
        (p.deny_until_full_scan && not p.full_scan_done) _ _ in
    (
      (λ h. (is_empty-contains (latched_categories p) (not-false _ (test.0 h).0), (test.0 h).1)),
      λ h. test.1 (rw (is_empty_iff (latched_categories p) plain h.0) refl, h.1),
    )
