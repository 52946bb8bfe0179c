-- ===== src/Core/Keyed.antt =====
-- A pass that looks each entry up by its key among ordered keys.
use fidelity.Common.{
  ℕ, ◌≤◌, ◌<◌, ◌≡◌, refl, Bool, true, false, ◌&&◌, Option, none, some, List, [], ◌∷◌, arith, ltb,
  ◌==◌, find, All, Bool-cases, ◌⊎◌, inl, inr,
}
use fidelity.Core.Sweep.{Sweeps}

module _ {A B : Type 0} (key_a : A → ℕ) (key_b : B → ℕ) (good : A → B → Bool) where
  abbrev pub key_before : A → B → Bool
  key_before a b = ltb (key_b b) (key_a a)

  abbrev pub key_hit : A → Option B → Bool
  key_hit a none = false
  key_hit a (some b) = key_b b == key_a a && good a b

  -- The first entry with the key passes the test.
  abbrev pub looked_up : A → List B → Bool
  looked_up a bs = elim (find (λ b. key_b b == key_a a) bs) [ none ↦ false | some b ↦ good a b ]

  module _ (le : A → A → Bool) (below : B → B → Bool)
      (le_key : (a a' : A) → le a a' ≡ true → key_a a ≤ key_a a')
      (below_key : (b b' : B) → below b b' ≡ true → key_b b ≤ key_b b') where
    looked_up_later :
        (a : A) (b : B) (bs : List B)
        → key_a a < key_b b
        → All (λ c. below b c ≡ true) bs
        → looked_up a bs ≡ false
    looked_up_later a b [] h above = refl
    looked_up_later a b (c ∷ bs) h above =
        ground (arith, below_key b c above.0, looked_up_later a b bs h above.1)

    pub keyed-Sweeps : Sweeps key_before key_hit le below looked_up
    keyed-Sweeps = record {
      skip_mono = λ a a' b h k. ground (arith, le_key a a' h);
      found_skip = λ a b bs h. ground arith;
      found_none = λ a. refl;
      found_first = λ a b bs h above. first a b bs h above (Bool-cases (key_b b == key_a a));
    }
      where
        first :
            (a : A) (b : B) (bs : List B)
            → key_before a b ≡ false
            → All (λ c. below b c ≡ true) bs
            → ((key_b b == key_a a) ≡ true) ⊎ ((key_b b == key_a a) ≡ false)
            → looked_up a (b ∷ bs) ≡ key_hit a (some b)
        first a b bs h above (inl e) = ground arith
        first a b bs h above (inr e) =
            let past : key_a a < key_b b = ground arith in
            ground (arith, looked_up_later a b bs past above)
