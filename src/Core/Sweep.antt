-- ===== src/Core/Sweep.antt =====
-- The shape of the three comparisons of snapshots: one pass over the current entries, with a
-- position in the earlier ones that only moves forward.
use fidelity.Common.{
  ◌≡◌, refl, sym, ◌∙◌, Bool, true, false, Option, none, some, List, [], ◌∷◌, if◌then◌else◌, keep,
  All, Bool-cases, inl, inr,
}
use mathlib.Core.List.{head?}
use fidelity.Common.Sort.{Ordered}

module _ {A B : Type 0} (skip : A → B → Bool) (hit : A → Option B → Bool) where
  -- `while earlier.get(known).is_some_and(..) { known += 1; }`; the list is the earlier entries
  -- from `known` on.
  abbrev pub advance : A → List B → List B
  advance a [] = []
  advance a (b ∷ bs) = let rest = advance a bs in if skip a b then rest else b ∷ bs

  -- The loop over the current entries; `hit` reads the entry at `known`, if there is one.
  abbrev pub sweep : List A → List B → List A
  sweep [] known = []
  sweep (a ∷ others) known =
      let known' = advance a known in
      let rest = sweep others known' in if hit a (head? known') then a ∷ rest else rest

-- What a pass needs in order to find what a search of all earlier entries finds.
pub record Sweeps {A B : Type 0} (skip : A → B → Bool) (hit : A → Option B → Bool)
    (le : A → A → Bool) (below : B → B → Bool) (found : A → List B → Bool) : Type 0 where
  -- An entry that is passed over for one is passed over for all that follow it.
  pub skip_mono : (a a' : A) (b : B) → le a a' ≡ true → skip a b ≡ true → skip a' b ≡ true
  -- An entry that is passed over plays no part.
  pub found_skip : (a : A) (b : B) (bs : List B) → skip a b ≡ true → found a (b ∷ bs) ≡ found a bs
  pub found_none : (a : A) → found a [] ≡ hit a none
  -- The first entry that is not passed over decides.
  pub found_first :
      (a : A) (b : B) (bs : List B)
      → skip a b ≡ false
      → All (λ c. below b c ≡ true) bs
      → found a (b ∷ bs) ≡ hit a (some b)

module _ {A B : Type 0} {skip : A → B → Bool} {hit : A → Option B → Bool} {le : A → A → Bool}
    {below : B → B → Bool} {found : A → List B → Bool} (s : Sweeps skip hit le below found) where
  advance-Ordered :
      (a : A) (known : List B) → Ordered below known → Ordered below (advance skip hit a known)
  advance-Ordered a [] h = tt
  advance-Ordered a (b ∷ bs) h = elim (Bool-cases (skip a b)) [
    | inl e ↦ rw e (advance-Ordered a bs h.1)
    | inr e ↦ rw e h
  ]

  found-advance :
      (a a' : A) (known : List B)
      → ((b : B) → skip a b ≡ true → skip a' b ≡ true)
      → found a' known ≡ found a' (advance skip hit a known)
  found-advance a a' [] up = refl
  found-advance a a' (b ∷ bs) up = elim (Bool-cases (skip a b)) [
    | inl e ↦ rw e (s.found_skip a' b bs (up b e) ∙ found-advance a a' bs up)
    | inr e ↦ rw e
  ]

  found-hit :
      (a : A) (known : List B)
      → Ordered below known
      → found a (advance skip hit a known) ≡ hit a (head? (advance skip hit a known))
  found-hit a [] h = s.found_none a
  found-hit a (b ∷ bs) h = elim (Bool-cases (skip a b)) [
    | inl e ↦ rw e (found-hit a bs h.1)
    | inr e ↦ rw e (s.found_first a b bs e h.0)
  ]

  keep-cong :
      (p q : A → Bool) (others : List A)
      → All (λ a. p a ≡ q a) others
      → keep p others ≡ keep q others
  keep-cong p q [] h = refl
  keep-cong p q (a ∷ others) h = rw (h.0, keep-cong p q others h.1)

  found-advance-All :
      (a : A) (others : List A) (known : List B)
      → All (λ a'. le a a' ≡ true) others
      → All (λ a'. found a' (advance skip hit a known) ≡ found a' known) others
  found-advance-All a [] known h = tt
  found-advance-All a (a' ∷ others) known h = (
    sym (found-advance a a' known (λ b e. s.skip_mono a a' b h.0 e)),
    found-advance-All a others known h.1,
  )

  -- One pass over ordered entries keeps what a search of all earlier entries would keep.
  pub sweep-keep :
      (others : List A) (known : List B)
      → Ordered le others
      → Ordered below known
      → sweep skip hit others known ≡ keep (λ a. found a known) others
  sweep-keep [] known ha hk = refl
  sweep-keep (a ∷ others) known ha hk =
      let first : found a known ≡ hit a (head? (advance skip hit a known)) =
        found-advance a a known (λ b e. e) ∙ found-hit a known hk in
      let rest : sweep skip hit others (advance skip hit a known)
          ≡ keep (λ a'. found a' known) others =
        sweep-keep others (advance skip hit a known) ha.1 (advance-Ordered a known hk)
        ∙ keep-cong _ _ others (found-advance-All a others known ha.0) in
      rw (← first, rest)
