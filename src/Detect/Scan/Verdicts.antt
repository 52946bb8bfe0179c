-- ===== src/Detect/Scan/Verdicts.antt =====
-- When the comparison with the start finds nothing.
use Prim.Native.String.{String}
use fidelity.Common.{
  ℕ, ◌≡◌, refl, Bool, true, false, not, ◌↔◌, none, some, List, [], ◌∷◌, All, any, find, keep,
  is_empty, if◌then◌else◌, ◌==◌, arith,
}
use fidelity.Types.Finding.{Finding, clean, found, unsupported}
use fidelity.Core.Regions.{Region, holds, new, added_since, now_writable_since}
use fidelity.Core.Regions.Changes.{added_since-keep, now_writable_since-keep}
use fidelity.Detect.Snapshots.{compare_baseline}

-- A region starts inside one that the start mapped.
abbrev pub covered : List Region → Region → Bool
covered earlier r = any (λ c. holds c r.start) earlier

-- A region is writable, and the first one at its start was not.
abbrev pub opened : List Region → Region → Bool
opened earlier r = elim (find (λ (c : Region). c.start == r.start) earlier) [
  | none ↦ false
  | some c ↦ not c.writable
]

keep-empty-cons :
    {A : Type 0} (p : A → Bool) (x : A) (xs : List A) (b : Bool)
    → p x ≡ b
    → ((is_empty (keep p xs) ≡ true) ↔ All (λ y. p y ≡ false) xs)
    → (is_empty (if b then x ∷ keep p xs else keep p xs) ≡ true)
      ↔ ((p x ≡ false) × All (λ y. p y ≡ false) xs)
keep-empty-cons p x xs true e rest =
    ((λ h. absurd (ground arith)), λ h. absurd (ground (arith, h.0)))
keep-empty-cons p x xs false e rest = ((λ h. (e, rest.0 h)), λ h. rest.1 h.1)

keep-empty :
    {A : Type 0} (p : A → Bool) (xs : List A)
    → (is_empty (keep p xs) ≡ true) ↔ All (λ x. p x ≡ false) xs
keep-empty p [] = ((λ _. tt), λ _. refl)
keep-empty p (x ∷ xs) = keep-empty-cons p x xs (p x) refl (keep-empty p xs)

not-false : (b : Bool) → (not b ≡ false) → b ≡ true
not-false true h = refl
not-false false h = ground arith

keep-not-empty :
    {A : Type 0} (p : A → Bool) (xs : List A)
    → (is_empty (keep (λ x. not (p x)) xs) ≡ true) ↔ All (λ x. p x ≡ true) xs
keep-not-empty {A = A} p xs = (
  (λ h. forth xs ((keep-empty (λ x. not (p x)) xs).0 h)),
  λ h. (keep-empty (λ x. not (p x)) xs).1 (back xs h),
)
  where
    forth : (ys : List A) → All (λ x. not (p x) ≡ false) ys → All (λ x. p x ≡ true) ys
    forth [] h = tt
    forth (y ∷ ys) h = (not-false (p y) h.0, forth ys h.1)

    back : (ys : List A) → All (λ x. p x ≡ true) ys → All (λ x. not (p x) ≡ false) ys
    back [] h = tt
    back (y ∷ ys) h = (rw h.0 refl, back ys h.1)

verdict :
    (t a o : Bool) (r : String) (f g : Finding)
    → ((if t then unsupported r else if a then (if o then clean else found f) else found g) ≡ clean)
      ↔ ((t ≡ false) × (a ≡ true) × (o ≡ true))
verdict true a o r f g = ((λ h. absurd cc), λ h. absurd (ground (arith, h.0)))
verdict false true true r f g = ((λ h. (refl, refl, refl)), λ h. refl)
verdict false true false r f g = ((λ h. absurd cc), λ h. absurd (ground (arith, h.2)))
verdict false false o r f g = ((λ h. absurd cc), λ h. absurd (ground (arith, h.1)))

-- The comparison of a later snapshot with that of the start is clean exactly where the later
-- snapshot was not truncated, each of its regions starts inside a region of the start, and for
-- none of its writable regions was the first region of the start at the same address not
-- writable.
pub compare_baseline-clean :
    (start current : List Region) (now : ℕ)
    → (compare_baseline (new start) (new current) now ≡ clean) ↔ (
        ((new current).truncated ≡ false)
        × All (λ r. covered (new start).regions r ≡ true) (new current).regions
        × All
            (λ r. opened (new start).regions r ≡ false)
            (keep (λ (r : Region). r.writable) (new current).regions))
unfolding compare_baseline
compare_baseline-clean start current now =
    let judged =
      verdict (new current).truncated (is_empty (added_since (new current) (new start)))
        (is_empty (now_writable_since (new current) (new start)))
        "the process maps more executable regions than a snapshot keeps" _ _ in
    let covers = keep-not-empty (covered (new start).regions) (new current).regions in
    let opens =
      keep-empty (opened (new start).regions)
        (keep (λ (r : Region). r.writable) (new current).regions) in
    (
      (λ h. (
        (judged.0 h).0,
        covers.0 (rw (← added_since-keep current start) (judged.0 h).1),
        opens.0 (rw (← now_writable_since-keep current start) (judged.0 h).2),
      )),
      λ h. judged.1 (
        h.0,
        rw (added_since-keep current start) (covers.1 h.1),
        rw (now_writable_since-keep current start) (opens.1 h.2),
      ),
    )
