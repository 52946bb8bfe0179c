-- ===== src/Formats/Parts.antt =====
-- Stretches of the bytes that the archive readers take apart
-- (crates/fidelity-formats/src/apk).
use mathlib.Core.List.{append_assoc, append-nil}
use fidelity.Common.{
  ℕ, zero, suc, ◌-◌, ◌≡◌, refl, sym, ap, ◌∙◌, ◌&&◌, Option, none, some, List, [], ◌∷◌, ◌++◌, length,
  take, drop, leb, ◌>>=◌, Bool-cases, some-injective, inl, inr,
}
use fidelity.Formats.Bytes.{slice}

-- A stretch of consecutive bytes.
pub IsPart : List ℕ → List ℕ → Type 0
IsPart part bytes = (before after : List ℕ) × (before ++ (part ++ after) ≡ bytes)

-- An answer, where there is one, meets a predicate.
pub data Within {A : Type 0} (P : A → Type 0) : Option A → Type 0 where
  nothing : Within P none
  just : (a : A) → P a → Within P (some a)

module _ {A : Type 0} (P : A → Type 0) where
  pub within_some : (o : Option A) (a : A) → Within P o → o ≡ some a → P a
  within_some _ a nothing e = absurd cc
  within_some _ a (just b h) e = rw (← some-injective e) h

  pub Within-intro : (o : Option A) → ((a : A) → o ≡ some a → P a) → Within P o
  Within-intro none k = nothing
  Within-intro (some a) k = just a (k a refl)

  pub bind-Within :
      {B : Type 0} (o : Option B) (f : B → Option A)
      → ((b : B) → o ≡ some b → Within P (f b))
      → Within P (o >>= f)
  bind-Within none f k = nothing
  bind-Within (some b) f k = k b refl

pub IsPart-trans : (a b c : List ℕ) → IsPart a b → IsPart b c → IsPart a c
unfolding IsPart
IsPart-trans a b c (p, q, e) (p', q', e') = (p' ++ p, q ++ q', joined)
  where
    joined : (p' ++ p) ++ (a ++ (q ++ q')) ≡ c
    joined =
        append_assoc p' p (a ++ (q ++ q'))
        ∙ ap (λ t. p' ++ (p ++ t)) (sym (append_assoc a q q'))
        ∙ ap (λ t. p' ++ t) (sym (append_assoc p (a ++ q) q'))
        ∙ ap (λ t. p' ++ (t ++ q')) e
        ∙ e'

take-append-drop : (n : ℕ) (xs : List ℕ) → take n xs ++ drop n xs ≡ xs
take-append-drop zero xs = refl
take-append-drop (suc n) [] = refl
take-append-drop (suc n) (x ∷ xs) = ap (λ t. x ∷ t) (take-append-drop n xs)

pub slice-IsPart :
    (bytes : List ℕ) (at end : ℕ) → Within (λ part. IsPart part bytes) (slice bytes at end)
unfolding IsPart
slice-IsPart bytes at end = elim (Bool-cases (leb at end && leb end (length bytes))) [
  | inl e ↦ rw e (
      just _ (
        take at bytes,
        drop (end - at) (drop at bytes),
        ap (λ t. take at bytes ++ t) (take-append-drop (end - at) (drop at bytes))
            ∙ take-append-drop at bytes,
      ))
  | inr e ↦ rw e nothing
]

pub IsPart-refl : (bytes : List ℕ) → IsPart bytes bytes
unfolding IsPart
IsPart-refl bytes = ([], [], append-nil bytes)
