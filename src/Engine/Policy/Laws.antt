-- ===== src/Engine/Policy/Laws.antt =====
-- A setting reaches its own category alone; what a finding qualifies for.
use fidelity.Common.{
  ℕ, zero, suc, ◌≤◌, ◌<◌, ◌≡◌, ◌≢◌, refl, ◌↔◌, ◌⊎◌, inl, inr, Bool, true, false, ◌&&◌, not, Option,
  none, some, List, [], ◌∷◌, arith, if◌then◌else◌, length, replicate, get_or, leb, Bool-cases,
  leb→le, le→leb, ==→eq, ==→ne, ◌==◌,
}
use fidelity.Common
use fidelity.Types.Category.{Category, integrity, index, same_category}
use fidelity.Types.Evidence.{is_detector_health}
use fidelity.Types.Finding.{SignalStrength, high, rank, reaches, Action, report, crash, Finding}
use fidelity.Engine.Policy.{Policy, new, set, entry, action, threshold, qualifying_action}

-- The table has one entry for each category.
abbrev pub IsTable : Policy → Type 0
IsTable p = length p.entries ≡ 6

pub new-IsTable : IsTable new
unfolding new
new-IsTable = refl

module _ {ℓ} {A : Type ℓ} where
  length-set : (xs : List A) (i : ℕ) (v : A) → length (Common.set xs i v) ≡ length xs
  length-set [] i v = refl
  length-set (x ∷ xs) zero v = refl
  length-set (x ∷ xs) (suc i) v = Common.ap suc (length-set xs i v)

  get_or-set_self :
      (xs : List A) (i : ℕ) (v d : A) → i < length xs → get_or (Common.set xs i v) i d ≡ v
  get_or-set_self [] i v d h = absurd (omega arith)
  get_or-set_self (x ∷ xs) zero v d h = refl
  get_or-set_self (x ∷ xs) (suc i) v d h = get_or-set_self xs i v d (omega arith)

  get_or-set_ne :
      (xs : List A) (i j : ℕ) (v d : A) → i ≢ j → get_or (Common.set xs i v) j d ≡ get_or xs j d
  get_or-set_ne [] i j v d h = refl
  get_or-set_ne (x ∷ xs) zero zero v d h = absurd (h refl)
  get_or-set_ne (x ∷ xs) zero (suc j) v d h = refl
  get_or-set_ne (x ∷ xs) (suc i) zero v d h = refl
  get_or-set_ne (x ∷ xs) (suc i) (suc j) v d h = get_or-set_ne xs i j v d (λ e. h (Common.ap suc e))

pub set-IsTable :
    (p : Policy) (c : Category) (a : Action) (t : SignalStrength)
    → IsTable p
    → IsTable (set p c a t)
unfolding set
set-IsTable p c a t h =
    omega (arith, length-set {0} p.entries (index c) (record { chosen = a; bar = t }))

index-lt : (c : Category) → index c < 6
index-lt integrity = omega arith
index-lt _ = omega arith

-- In a policy with an entry for each category: setting a category gives it that action and
-- threshold, and every other category keeps its own.
pub entry-set :
    (p : Policy) (c d : Category) (a : Action) (t : SignalStrength)
    → IsTable p
    → entry (set p c a t) d
      ≡ (if same_category c d then record { chosen = a; bar = t } else entry p d)
unfolding set entry
entry-set p c d a t h =
    let fits : index c < length p.entries = omega (arith, index-lt c) in
    elim (Bool-cases (same_category c d)) [
      | inl e ↦ rw e (rw (← ==→eq _ _ e) (get_or-set_self p.entries (index c) _ _ fits))
      | inr e ↦ rw e (get_or-set_ne p.entries (index c) (index d) _ _ (==→ne _ _ e))
    ]

pub action-set :
    (p : Policy) (c d : Category) (a : Action) (t : SignalStrength)
    → IsTable p
    → action (set p c a t) d ≡ (if same_category c d then a else action p d)
unfolding action
action-set p c d a t h =
    let e : entry (set p c a t) d
        ≡ (if same_category c d then record { chosen = a; bar = t } else entry p d) =
      entry-set p c d a t h in
    ground arith

pub threshold-set :
    (p : Policy) (c d : Category) (a : Action) (t : SignalStrength)
    → IsTable p
    → threshold (set p c a t) d ≡ (if same_category c d then t else threshold p d)
unfolding threshold
threshold-set p c d a t h =
    let e : entry (set p c a t) d
        ≡ (if same_category c d then record { chosen = a; bar = t } else entry p d) =
      entry-set p c d a t h in
    ground arith

-- What a finding qualifies for: nothing exactly below the threshold of its category; else the
-- action of the category, but `report` where that is `crash` and the finding is one of health.
pub record Qualifies (p : Policy) (f : Finding) (r : Option Action) : Type 0 where
  pub refused : (r ≡ none) ↔ (rank f.strength < rank (threshold p f.category))
  pub chosen :
      rank (threshold p f.category) ≤ rank f.strength
      → (action p f.category ≢ crash) ⊎ (is_detector_health f.evidence ≡ false)
      → r ≡ some (action p f.category)
  pub spared :
      rank (threshold p f.category) ≤ rank f.strength
      → action p f.category ≡ crash
      → is_detector_health f.evidence ≡ true
      → r ≡ some report

-- A finding qualifies for nothing exactly below the threshold of its category; otherwise it
-- qualifies for the action of its category, but for `report` where that action is `crash` and the
-- finding is of detector health.
pub qualifying_action-Qualifies : (p : Policy) (f : Finding) → Qualifies p f (qualifying_action p f)
unfolding qualifying_action reaches
qualifying_action-Qualifies p f = ground arith

-- A finding of health never stops the process.
pub no_crash_on_health :
    (p : Policy) (f : Finding)
    → is_detector_health f.evidence ≡ true
    → qualifying_action p f ≢ some crash
unfolding qualifying_action
no_crash_on_health p f h = ground arith

-- Stronger evidence of the same kind never qualifies for less.
pub qualifying_action_mono :
    (p : Policy) (f : Finding) (s : SignalStrength) {a : Action}
    → rank f.strength ≤ rank s
    → qualifying_action p f ≡ some a
    → qualifying_action p (record f { strength = s }) ≡ some a
unfolding qualifying_action reaches
qualifying_action_mono p f s h q = ground arith

-- The default policy reports, and only what is of high strength.
pub new_lem : (c : Category) → (action new c ≡ report) × (threshold new c ≡ high)
unfolding new action threshold
new_lem integrity = (refl, refl)
new_lem _ = (refl, refl)
