-- ===== src/Facade/Locking/Explained.antt =====
-- A host that sees a denial reads a snapshot that explains it, and a snapshot that shows a latch
-- always denies.
use fidelity.Common.{◌≡◌, refl, sym, ◌∙◌, Bool, true, false, ◌||◌, arith}
use fidelity.Types.Category.{Category, same_category}
use fidelity.Types.CategorySet.{contains}
use fidelity.Types.CategorySet.Laws.{contains-insert}
use fidelity.Engine.State.{State, record_outcome, latch_by_host}
use fidelity.Engine.State
use fidelity.Engine.State.Frame.{record_outcome-Recorded}
use fidelity.Facade.Process.{Process, latch, latched_categories, mark_full_scan_complete}
use fidelity.Facade.Process.Laws.{latched_in, latch-insert}
use fidelity.Facade.Locking.{
  Lock, free, held, half_by_policy, half_by_host, Moment, LockStep, acquire, release,
  record_under_lock, policy_latches_process, policy_latches_state, host_latches_process,
  host_latches_state, mark, LockReaches, here, there,
}

-- Whether the latch of the category is under way.
abbrev pub under_way : Lock → Category → Bool
under_way free d = false
under_way held d = false
under_way (half_by_policy c) d = same_category c d
under_way (half_by_host c) d = same_category c d

-- The process denies what the state holds, and what is under way.
pub record Explains (m : Moment) : Type 0 where
  pub explains :
      (d : Category) → latched_in m.process d ≡ (under_way m.lock d || contains m.state.latched d)

pub contains-latch :
    (c d : Category) (p : Process)
    → latched_in (latch c p) d ≡ (same_category c d || latched_in p d)
contains-latch c d p = rw (latch-insert c p) (contains-insert (latched_categories p) c d)

pub step-Explains : (m n : Moment) → LockStep m n → Explains m → Explains n
unfolding mark_full_scan_complete latched_categories latch_by_host State.latch
step-Explains m n (acquire p s) h = record { explains = h.explains }
step-Explains m n (release p s) h = record { explains = h.explains }
step-Explains m n (record_under_lock p s d o) h = record {
  explains = λ c. h.explains c ∙ rw (record_outcome-Recorded s d o).latched refl;
}
step-Explains m n (policy_latches_process p s c) h = record {
  explains = λ d. contains-latch c d p ∙ rw (h.explains d) refl;
}
step-Explains m n (host_latches_process p s c) h = record {
  explains = λ d. contains-latch c d p ∙ rw (h.explains d) refl;
}
step-Explains m n (policy_latches_state p s c) h = record {
  explains = λ d. h.explains d ∙ sym (contains-insert s.latched c d);
}
step-Explains m n (host_latches_state p s c) h = record {
  explains = λ d. h.explains d ∙ sym (contains-insert s.latched c d);
}
step-Explains m n (mark l p s) h = record { explains = h.explains }

step-latched :
    (m n : Moment) (d : Category)
    → LockStep m n
    → latched_in m.process d ≡ true
    → latched_in n.process d ≡ true
unfolding mark_full_scan_complete latched_categories
step-latched m n d (acquire p s) h = h
step-latched m n d (release p s) h = h
step-latched m n d (record_under_lock p s e o) h = h
step-latched m n d (policy_latches_process p s c) h = rw (contains-latch c d p, h) (ground arith)
step-latched m n d (host_latches_process p s c) h = rw (contains-latch c d p, h) (ground arith)
step-latched m n d (policy_latches_state p s c) h = h
step-latched m n d (host_latches_state p s c) h = h
step-latched m n d (mark l p s) h = h

pub reaches-Explains : (m n : Moment) → LockReaches m n → Explains m → Explains n
reaches-Explains m n (here k) h = h
reaches-Explains m n (there k l o step rest) h =
    reaches-Explains l o rest (step-Explains k l step h)

reaches-latched :
    (m n : Moment) (d : Category)
    → LockReaches m n
    → latched_in m.process d ≡ true
    → latched_in n.process d ≡ true
reaches-latched m n d (here k) h = h
reaches-latched m n d (there k l o step rest) h =
    reaches-latched l o d rest (step-latched k l d step h)

unlocked_lem : (l : Lock) → l ≡ free → (d : Category) → under_way l d ≡ false
unlocked_lem l e d = rw e refl

-- Where the word of the process denies what the state holds and what is being latched, a category
-- that the word of the process denies is in every snapshot taken at a later moment at which the
-- lock is free, also where the state did not hold the category yet.
pub denial_explained :
    (m n : Moment) (d : Category)
    → Explains m
    → latched_in m.process d ≡ true
    → LockReaches m n
    → n.lock ≡ free
    → contains (State.snapshot n.state).latched d ≡ true
unfolding State.snapshot
denial_explained m n d h latched later unlocked =
    sym ((reaches-Explains m n later h).explains d ∙ rw (unlocked_lem n.lock unlocked d) refl)
    ∙ reaches-latched m n d later latched

-- Where the word of the process denies what the state holds and what is being latched, a category
-- that a snapshot shows as latched is denied by the word of the process at every later moment.
pub snapshot_denies :
    (m n : Moment) (d : Category)
    → Explains m
    → contains (State.snapshot m.state).latched d ≡ true
    → LockReaches m n
    → latched_in n.process d ≡ true
unfolding State.snapshot
snapshot_denies m n d h shown later =
    reaches-latched m n d later (h.explains d ∙ rw shown (ground arith))
