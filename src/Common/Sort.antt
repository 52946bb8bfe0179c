-- ===== src/Common/Sort.antt =====
-- Sorting by a total order, as `sort_unstable` does where equal elements cannot be told apart:
-- the sorted arrangement is unique, so the way to it does not matter.
use mathlib.Core.List.{Perm}
use mathlib.Core.List.Perm
use Prim.Native.Nat.{ℕ, zero, suc}
use mathlib.Core.Path.{◌≡◌}
use mathlib.Core.Logic.{inl, inr}
use mathlib.Core.Bool.{Bool, true, false}
use mathlib.Core.List.{List, [], ◌∷◌}
use fidelity.Common.Tests.{if◌then◌else◌, Bool-cases}
use fidelity.Common.Lists.{All, take, keep, All-take}

module _ {ℓ} {A : Type ℓ} (le : A → A → Bool) where
  insert : A → List A → List A
  insert a [] = a ∷ []
  insert a (x ∷ xs) = let rest = insert a xs in if le a x then a ∷ x ∷ xs else x ∷ rest

  unfoldable pub sort : List A → List A
  unfolding insert
  sort [] = []
  sort (x ∷ xs) = insert x (sort xs)

  insert-Perm : (a : A) (xs : List A) → Perm (insert a xs) (a ∷ xs)
  unfolding insert
  insert-Perm a [] = Perm.refl _
  insert-Perm a (x ∷ xs) = elim (Bool-cases (le a x)) [
    | inl e ↦ rw e (Perm.refl _)
    | inr e ↦ rw e (Perm.trans (Perm.cons x (insert-Perm a xs)) (Perm.swap a x xs))
  ]

  pub sort-Perm : (xs : List A) → Perm (sort xs) xs
  unfolding sort
  sort-Perm [] = Perm.refl _
  sort-Perm (x ∷ xs) = Perm.trans (insert-Perm x (sort xs)) (Perm.cons x (sort-Perm xs))

  -- Each element is below all that follow it.
  abbrev pub Ordered : List A → Type 0
  Ordered [] = Unit
  Ordered (x ∷ xs) = All (λ y. le x y ≡ true) xs × Ordered xs

  pub take-Ordered : (n : ℕ) (xs : List A) → Ordered xs → Ordered (take n xs)
  take-Ordered zero xs h = tt
  take-Ordered (suc n) [] h = tt
  take-Ordered (suc n) (x ∷ xs) h = (All-take _ n xs h.0, take-Ordered n xs h.1)

  keep-All :
      (p : A → Bool) (x : A) (xs : List A)
      → All (λ y. le x y ≡ true) xs
      → All (λ y. le x y ≡ true) (keep p xs)
  keep-All p x [] h = tt
  keep-All p x (y ∷ ys) h = elim (Bool-cases (p y)) [
    | inl e ↦ rw e (h.0, keep-All p x ys h.1)
    | inr e ↦ rw e (keep-All p x ys h.1)
  ]

  pub keep-Ordered : (p : A → Bool) (xs : List A) → Ordered xs → Ordered (keep p xs)
  keep-Ordered p [] h = tt
  keep-Ordered p (x ∷ xs) h = elim (Bool-cases (p x)) [
    | inl e ↦ rw e (keep-All p x xs h.0, keep-Ordered p xs h.1)
    | inr e ↦ rw e (keep-Ordered p xs h.1)
  ]

-- What makes a Boolean test a total order.
pub record TotalOrder {ℓ} {A : Type ℓ} (le : A → A → Bool) : Type ℓ where
  pub total : (a b : A) → le a b ≡ false → le b a ≡ true
  pub trans : (a b c : A) → le a b ≡ true → le b c ≡ true → le a c ≡ true

module _ {ℓ} {A : Type ℓ} (le : A → A → Bool) (order : TotalOrder le) where
  All-above :
      (a x : A) (xs : List A)
      → le a x ≡ true
      → All (λ y. le x y ≡ true) xs
      → All (λ y. le a y ≡ true) xs
  All-above a x [] h above = tt
  All-above a x (y ∷ ys) h above = (order.trans a x y h above.0, All-above a x ys h above.1)

  insert-All :
      (x a : A) (xs : List A)
      → le x a ≡ true
      → All (λ y. le x y ≡ true) xs
      → All (λ y. le x y ≡ true) (insert le a xs)
  unfolding insert
  insert-All x a [] h above = (h, tt)
  insert-All x a (y ∷ ys) h above = elim (Bool-cases (le a y)) [
    | inl e ↦ rw e (h, above)
    | inr e ↦ rw e (above.0, insert-All x a ys h above.1)
  ]

  insert-Ordered : (a : A) (xs : List A) → Ordered le xs → Ordered le (insert le a xs)
  unfolding insert
  insert-Ordered a [] h = (tt, tt)
  insert-Ordered a (x ∷ xs) h = elim (Bool-cases (le a x)) [
    | inl e ↦ rw e ((e, All-above a x xs e h.0), h)
    | inr e ↦ rw e (insert-All x a xs (order.total a x e) h.0, insert-Ordered a xs h.1)
  ]

  pub sort-Ordered : (xs : List A) → Ordered le (sort le xs)
  unfolding sort
  sort-Ordered [] = tt
  sort-Ordered (x ∷ xs) = insert-Ordered x (sort le xs) (sort-Ordered xs)
