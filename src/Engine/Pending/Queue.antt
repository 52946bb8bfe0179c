-- ===== src/Engine/Pending/Queue.antt =====
-- The array holds a queue of at most sixteen reports, oldest first.
use mathlib.Core.List.{append_assoc, append-nil}
use native.Mathlib.Nat.{zero-add, suc-add}
use fidelity.Common.{
  ℕ, zero, suc, ◌+◌, ◌-◌, ◌≤◌, ◌<◌, min, ◌≡◌, refl, ap, sym, ◌∙◌, Bool, true, false, Option, none,
  some, List, [], ◌∷◌, ◌++◌, map, arith, leb, if◌then◌else◌, length, replicate, Bool-cases, ◌⊎◌,
  inl, inr, leb→le, leb→lt, lt→leb, length-append, length-map,
}
use fidelity.Common
use fidelity.Engine.Pending.{Report, most_reports, Reports, new, push, take_entries, take, add}

-- The array that holds `queue`, with `room` empty places behind it.
abbrev array : List Report → ℕ → List (Option Report)
array queue room = map some queue ++ replicate room none

pub record Holds (q : Reports) (queue : List Report) : Type 0 where
  pub bounded : length queue ≤ most_reports
  pub counted : q.len ≡ length queue
  pub stored : q.entries ≡ array queue (most_reports - length queue)

pub new-Holds : Holds new []
unfolding new
new-Holds = record { bounded = omega arith; counted = refl; stored = refl }

set_next :
    (queue : List Report) (room : ℕ) (report : Report)
    → Common.set (array queue (suc room)) (length queue) (some report)
      ≡ array (queue ++ report ∷ []) room
set_next [] room report = refl
set_next (r ∷ queue) room report = ap (λ t. some r ∷ t) (set_next queue room report)

-- A push appends where there is room, and else changes nothing and says so.
pub push-Holds :
    (q : Reports) (queue : List Report) (report : Report)
    → Holds q queue
    → (length queue < most_reports
        → Holds (push q report).0 (queue ++ report ∷ []) × ((push q report).1 ≡ true))
      × (length queue ≡ most_reports → push q report ≡ (q, false))
unfolding push
push-Holds q queue report h = (accepted, λ full. ground arith)
  where
    next_place :
        length queue < most_reports
        → Common.set q.entries q.len (some report)
          ≡ array (queue ++ report ∷ []) (most_reports - (length queue + 1))
    next_place lt =
        let room : most_reports - length queue ≡ suc (most_reports - (length queue + 1)) =
          omega arith in
        rw (h.stored, h.counted) (rw room (set_next queue _ report))

    accepted :
        length queue < most_reports
        → Holds (push q report).0 (queue ++ report ∷ []) × ((push q report).1 ≡ true)
    accepted lt =
        let size : length (queue ++ report ∷ []) ≡ length queue + 1 =
          omega (arith, length-append {0} queue (report ∷ [])) in
        let has_room : leb most_reports q.len ≡ false = rw h.counted (lt→leb _ _ lt) in
        rw has_room (
          record {
            bounded = omega arith;
            counted = omega (arith, h.counted);
            stored = rw size (next_place lt);
          },
          refl,
        )

-- A queue that holds at most its bound holds, after an addition, what it held and then as many of
-- the first new reports as there is room for.
pub add-Holds :
    (q : Reports) (queue reports : List Report)
    → Holds q queue
    → Holds (add q reports) (queue ++ Common.take (most_reports - length queue) reports)
unfolding add
add-Holds q queue [] h =
    let e : Common.take (most_reports - length queue) [] ≡ [] =
      take_nil (most_reports - length queue) in
    rw e (rw append-nil h)
  where
    take_nil : (n : ℕ) → Common.take n (let none_left : List Report = [] in none_left) ≡ []
    take_nil zero = refl
    take_nil (suc n) = refl
add-Holds q queue (report ∷ reports) h = elim (split (length queue) most_reports h.bounded) [
  | inl full ↦
      let e : push q report ≡ (q, false) = (push-Holds q queue report h).1 full in
      let no_room : most_reports - length queue ≡ 0 = omega arith in
      rw (e, no_room) (rw append-nil h)
  | inr lt ↦
      let (pushed, said) = (push-Holds q queue report h).0 lt in
      let size : length (queue ++ report ∷ []) ≡ length queue + 1 =
        omega (arith, length-append {0} queue (report ∷ [])) in
      let room : most_reports - length queue ≡ suc (most_reports - (length queue + 1)) =
        omega arith in
      let rest : Holds (add (push q report).0 reports) (
          (queue ++ report ∷ [])
          ++ Common.take (most_reports - length (queue ++ report ∷ [])) reports) =
        add-Holds (push q report).0 (queue ++ report ∷ []) reports pushed in
      rw (said, room) (rw (size, append_assoc) at rest)
]
  where
    split : (a b : ℕ) → a ≤ b → (a ≡ b) ⊎ (a < b)
    split a b h = ground arith

take_entries-array :
    (queue : List Report) (room : ℕ)
    → take_entries (length queue) (array queue room) ≡ (replicate (length queue + room) none, queue)
unfolding take_entries
take_entries-array [] room = rw zero-add
take_entries-array (report ∷ queue) room = rw (suc-add, take_entries-array queue room)

-- Taking from a queue gives every report that it holds, oldest first, and leaves the new queue.
pub take-Holds : (q : Reports) (queue : List Report) → Holds q queue → take q ≡ (new, queue)
unfolding take new
take-Holds q queue h =
    let full : length queue + (most_reports - length queue) ≡ most_reports =
      omega (arith, h.bounded) in
    rw (h.stored, h.counted) (rw (take_entries-array queue (most_reports - length queue), full))
