-- ===== src/Engine/State/History.antt =====
-- A slot is a summary of everything that its detector reported.
use fidelity.Common.{
  ℕ, ◌+◌, ◌≤◌, ◌<◌, min, ◌≡◌, refl, ap, ◌∙◌, Option, none, some, List, [], ◌∷◌, ◌++◌, arith, length,
  if◌then◌else◌, All, All-append, or_else, Bool-cases, ltb→lt, ltb→le, inl, inr,
}
use mathlib.Core.List.{append-nil, append_assoc}
use fidelity.Types.Finding.{
  Detector, Finding, rank, stronger, Outcome, not_run, clean, found, unsupported,
}
use fidelity.Engine.State.{Slot, new_slot, u32_max, record_slot, or_insert, replaces}

-- `Slot::record` over the scans of a detector, oldest first.
unfoldable pub replay : Slot → List Outcome → Slot
replay slot [] = slot
replay slot (o ∷ os) = replay (record_slot slot o) os

-- The findings of a history, oldest first.
abbrev pub findings : List Outcome → List Finding
findings [] = []
findings (found f ∷ os) = f ∷ findings os
findings (not_run ∷ os) = findings os
findings (clean ∷ os) = findings os
findings (unsupported reason ∷ os) = findings os

abbrev last_from : Outcome → List Outcome → Outcome
last_from o [] = o
last_from o (p ∷ os) = last_from p os

abbrev first_time : List Finding → Option ℕ
first_time [] = none
first_time (f ∷ fs) = some f.observed_at_unix_ms

abbrev latest_from : Option ℕ → List Finding → Option ℕ
latest_from t [] = t
latest_from t (f ∷ fs) = latest_from (some f.observed_at_unix_ms) fs

-- The earliest of the strongest findings: what none before reaches and none after exceeds.
pub record IsStrongest (fs : List Finding) (f : Finding) : Type 0 where
  pub before : List Finding
  pub after : List Finding
  pub splits : fs ≡ before ++ f ∷ after
  pub above : All (λ (g : Finding). rank g.strength < rank f.strength) before
  pub below : All (λ (g : Finding). rank g.strength ≤ rank f.strength) after

abbrev Strongest : List Finding → Option Finding → Type 0
Strongest fs none = fs ≡ []
Strongest fs (some f) = IsStrongest fs f

outcome-replay :
    (slot : Slot) (os : List Outcome) → (replay slot os).outcome ≡ last_from slot.outcome os
unfolding replay record_slot
outcome-replay slot [] = refl
outcome-replay slot (o ∷ os) = outcome-replay (record_slot slot o) os

latest-replay :
    (slot : Slot) (os : List Outcome)
    → (replay slot os).latest_unix_ms ≡ latest_from slot.latest_unix_ms (findings os)
unfolding replay record_slot
latest-replay slot [] = refl
latest-replay slot (found f ∷ os) = latest-replay (record_slot slot (found f)) os
latest-replay slot (not_run ∷ os) = latest-replay (record_slot slot not_run) os
latest-replay slot (clean ∷ os) = latest-replay (record_slot slot clean) os
latest-replay slot (unsupported r ∷ os) = latest-replay (record_slot slot (unsupported r)) os

occurrences-replay :
    (slot : Slot) (os : List Outcome)
    → slot.occurrences ≤ u32_max
    → (replay slot os).occurrences ≡ min (slot.occurrences + length (findings os)) u32_max
unfolding replay record_slot
occurrences-replay slot [] h = omega arith
occurrences-replay slot (found f ∷ os) h =
    omega (arith, occurrences-replay (record_slot slot (found f)) os (omega arith))
occurrences-replay slot (not_run ∷ os) h = occurrences-replay (record_slot slot not_run) os h
occurrences-replay slot (clean ∷ os) h = occurrences-replay (record_slot slot clean) os h
occurrences-replay slot (unsupported r ∷ os) h =
    occurrences-replay (record_slot slot (unsupported r)) os h

first-replay :
    (slot : Slot) (os : List Outcome)
    → (replay slot os).first_unix_ms ≡ or_else slot.first_unix_ms (first_time (findings os))
unfolding replay record_slot
first-replay slot [] = ground arith
first-replay slot (found f ∷ os) =
    first-replay (record_slot slot (found f)) os
    ∙ or_insert-or_else slot.first_unix_ms f (findings os)
  where
    or_insert-or_else :
        (t : Option ℕ) (f : Finding) (fs : List Finding)
        → or_else (or_insert t f.observed_at_unix_ms) (first_time fs)
          ≡ or_else t (first_time (f ∷ fs))
    or_insert-or_else none f fs = refl
    or_insert-or_else (some t) f fs = refl
first-replay slot (not_run ∷ os) = first-replay (record_slot slot not_run) os
first-replay slot (clean ∷ os) = first-replay (record_slot slot clean) os
first-replay slot (unsupported r ∷ os) = first-replay (record_slot slot (unsupported r)) os

All-lt :
    (n m : ℕ) (fs : List Finding)
    → n ≤ m
    → All (λ (g : Finding). rank g.strength < n) fs
    → All (λ (g : Finding). rank g.strength < m) fs
All-lt n m [] h a = tt
All-lt n m (f ∷ fs) h a = (omega (arith, a.0), All-lt n m fs h a.1)

All-le-lt :
    (n m : ℕ) (fs : List Finding)
    → n < m
    → All (λ (g : Finding). rank g.strength ≤ n) fs
    → All (λ (g : Finding). rank g.strength < m) fs
All-le-lt n m [] h a = tt
All-le-lt n m (f ∷ fs) h a = (omega (arith, a.0), All-le-lt n m fs h a.1)

append-one-Strongest :
    (fs : List Finding) (o : Option Finding) (f : Finding)
    → Strongest fs o
    → Strongest (fs ++ f ∷ []) (if replaces f o then some f else o)
append-one-Strongest fs none f h = record {
  before = [];
  after = [];
  splits = ap (λ gs. gs ++ f ∷ []) h;
  above = tt;
  below = tt;
}
append-one-Strongest fs (some g) f h = elim (Bool-cases (stronger f.strength g.strength)) [
  | inl e ↦ rw e (replaced (ltb→lt _ _ e))
  | inr e ↦ rw e (kept (ltb→le _ _ e))
]
  where
    replaced : rank g.strength < rank f.strength → IsStrongest (fs ++ f ∷ []) f
    replaced lt = record {
      before = h.before ++ g ∷ h.after;
      after = [];
      splits = ap (λ gs. gs ++ f ∷ []) h.splits;
      above =
          All-append _ h.before (g ∷ h.after) (All-lt _ _ h.before (omega arith) h.above)
            (lt, All-le-lt _ _ h.after lt h.below);
      below = tt;
    }

    kept : rank f.strength ≤ rank g.strength → IsStrongest (fs ++ f ∷ []) g
    kept le = record {
      before = h.before;
      after = h.after ++ f ∷ [];
      splits = ap (λ gs. gs ++ f ∷ []) h.splits ∙ append_assoc h.before (g ∷ h.after) (f ∷ []);
      above = h.above;
      below = All-append _ h.after (f ∷ []) h.below (le, tt);
    }

strongest-replay :
    (past : List Finding) (slot : Slot) (os : List Outcome)
    → Strongest past slot.strongest
    → Strongest (past ++ findings os) (replay slot os).strongest
unfolding replay record_slot
strongest-replay past slot [] h = rw append-nil h
strongest-replay past slot (found f ∷ os) h = rw (← append_assoc past (f ∷ []) (findings os)) (
    strongest-replay (past ++ f ∷ []) (record_slot slot (found f)) os
      (append-one-Strongest past slot.strongest f h))
strongest-replay past slot (not_run ∷ os) h = strongest-replay past (record_slot slot not_run) os h
strongest-replay past slot (clean ∷ os) h = strongest-replay past (record_slot slot clean) os h
strongest-replay past slot (unsupported r ∷ os) h =
    strongest-replay past (record_slot slot (unsupported r)) os h

-- What a slot shows of a history.
pub record Summary (os : List Outcome) (slot : Slot) : Type 0 where
  pub outcome : slot.outcome ≡ last_from not_run os
  pub strongest : Strongest (findings os) slot.strongest
  pub first : slot.first_unix_ms ≡ first_time (findings os)
  pub latest : slot.latest_unix_ms ≡ latest_from none (findings os)
  pub occurrences : slot.occurrences ≡ min (length (findings os)) u32_max

-- A new slot after any outcomes holds the latest of them, the first of the strongest findings,
-- the times of the first and of the latest finding, and the number of findings up to the greatest
-- 32-bit number.
pub replay-Summary : (d : Detector) (os : List Outcome) → Summary os (replay (new_slot d) os)
unfolding new_slot
replay-Summary d os = record {
  outcome = outcome-replay (new_slot d) os;
  strongest = strongest-replay [] (new_slot d) os refl;
  first = first-replay (new_slot d) os;
  latest = latest-replay (new_slot d) os;
  occurrences = omega (arith, occurrences-replay (new_slot d) os (omega arith));
}
