-- ===== src/Types/Evidence/Bounds.antt =====
-- Truncation keeps the bound, the prefix and the characters.
use fidelity.Common.{
  ℕ, zero, suc, ◌≤◌, ◌<◌, ◌≡◌, refl, sym, Bool, true, false, not, ◌&&◌, ◌⊎◌, inl, inr, ◌↔◌, Option,
  none, some, [], ◌∷◌, arith, ltb, leb, ◌==◌, if◌then◌else◌, Bool-cases, length, get_elem?, take,
  length-take, take_all, ◌∙◌, leb→le, leb→lt,
}
use fidelity.Common.Text.{Text}
use fidelity.Types.Evidence.{BoundedText, is_continuation, is_char_boundary, step_back, bounded}

-- The loop stops at a boundary, no later than it started, and passes over no boundary.
pub step_back_lem :
    (t : Text) (end : ℕ)
    → (is_char_boundary t (step_back t end) ≡ true)
      × (step_back t end ≤ end)
      × ((i : ℕ) → step_back t end < i → i ≤ end → is_char_boundary t i ≡ false)
unfolding step_back
step_back_lem t zero = (unfold is_char_boundary in refl, omega arith, λ i h k. absurd (omega arith))
step_back_lem t (suc end) =
    let (at, before, skipped) = step_back_lem t end in
    elim (Bool-cases (is_char_boundary t (suc end))) [
      | inl e ↦ rw e (e, omega arith, λ i h k. absurd (omega arith))
      | inr e ↦ rw e (at, omega arith, λ i h k. by_last i h (split i (suc end) k) e skipped)
    ]
  where
    split : (i n : ℕ) → i ≤ n → (i ≡ n) ⊎ (i < n)
    split i n k = ground arith

    by_last :
        (i : ℕ)
        → step_back t end < i
        → (i ≡ suc end) ⊎ (i < suc end)
        → is_char_boundary t (suc end) ≡ false
        → ((j : ℕ) → step_back t end < j → j ≤ end → is_char_boundary t j ≡ false)
        → is_char_boundary t i ≡ false
    by_last i h (inl p) e skipped = rw p e
    by_last i h (inr p) e skipped = skipped i h (omega arith)

-- The number of continuation bytes that a first byte announces.
abbrev pub announced : ℕ → Option ℕ
announced b =
    if ltb b 0x80
    then some 0
    else if ltb b 0xc2
    then none
    else if ltb b 0xe0
    then some 1
    else if ltb b 0xf0
    then some 2
    else if ltb b 0xf5
    then some 3
    else none

abbrev on_some : Option ℕ → (ℕ → Bool) → Bool
on_some none f = false
on_some (some n) f = f n

on_some_mono :
    (o : Option ℕ) (f g : ℕ → Bool)
    → ((n : ℕ) → f n ≡ true → g n ≡ true)
    → on_some o f ≡ true
    → on_some o g ≡ true
on_some_mono none f g up h = h
on_some_mono (some n) f g up h = up n h

and_parts : (a b : Bool) → (a && b) ≡ true → (a ≡ true) × (b ≡ true)
and_parts a b h = ground arith

-- A text of whole characters, from a place where `pending` continuation bytes are due.
unfoldable pub whole : ℕ → Text → Bool
whole zero [] = true
whole (suc pending) [] = false
whole (suc pending) (b ∷ t) = is_continuation b && whole pending t
whole zero (b ∷ t) = on_some (announced b) (λ pending. whole pending t)

-- Cutting whole characters where the next byte starts one leaves whole characters.
abbrev Starts : Option ℕ → Type 0
Starts none = Unit
Starts (some b) = is_continuation b ≡ false

whole-take :
    (n pending : ℕ) (t : Text)
    → whole pending t ≡ true
    → Starts (get_elem? t n)
    → whole pending (take n t) ≡ true
unfolding whole
whole-take zero zero t h s = refl
whole-take zero (suc pending) [] h s = h
whole-take zero (suc pending) (b ∷ t) h s = sym s ∙ (and_parts (is_continuation b) _ h).0
whole-take (suc n) zero [] h s = h
whole-take (suc n) (suc pending) [] h s = h
whole-take (suc n) (suc pending) (b ∷ t) h s =
    let (this, others) = and_parts (is_continuation b) (whole pending t) h in
    rw (this, whole-take n pending t others s)
whole-take (suc n) zero (b ∷ t) h s =
    on_some_mono (announced b) (λ p. whole p t) (λ p. whole p (take n t))
      (λ p k. whole-take n p t k s) h

boundary-Starts :
    (t : Text) (i : ℕ) → is_char_boundary t (suc i) ≡ true → Starts (get_elem? t (suc i))
unfolding is_char_boundary
boundary-Starts t i h = by_byte (get_elem? t (suc i)) h
  where
    by_byte :
        (o : Option ℕ)
        → elim o [ none ↦ suc i == length t | some b ↦ not (is_continuation b) ] ≡ true
        → Starts o
    by_byte none k = tt
    by_byte (some b) k = ground arith

whole-take-boundary :
    (t : Text) (i : ℕ) → whole 0 t ≡ true → is_char_boundary t i ≡ true → whole 0 (take i t) ≡ true
whole-take-boundary t zero w h = unfold whole in refl
whole-take-boundary t (suc i) w h = whole-take (suc i) 0 t w (boundary-Starts t i h)

-- Bounded text of whole characters has whole characters.
pub bounded-whole :
    (limit : ℕ) (t : Text) → whole 0 t ≡ true → whole 0 (bounded limit t).text ≡ true
unfolding bounded
bounded-whole limit t w = elim (Bool-cases (leb (length t) limit)) [
  | inl e ↦ rw e w
  | inr e ↦ rw e (whole-take-boundary t (step_back t limit) w (step_back_lem t limit).0)
]

-- What bounding keeps: all of a text that fits, and else the longest prefix within the limit
-- that ends on a boundary.
pub record Bounds (limit : ℕ) (t : Text) (r : BoundedText) : Type 0 where
  pub within : length r.text ≤ limit
  pub prefix : take (length r.text) t ≡ r.text
  pub kept : r.truncated ≡ false → r.text ≡ t
  pub flagged : (r.truncated ≡ true) ↔ (limit < length t)
  pub on_boundary : r.truncated ≡ true → is_char_boundary t (length r.text) ≡ true
  pub longest :
      (i : ℕ) → length r.text < i → i ≤ limit → i < length t → is_char_boundary t i ≡ false

bounded_cut :
    (limit : ℕ) (t : Text) → limit < length t → (bounded limit t).text ≡ take (step_back t limit) t
unfolding bounded
bounded_cut limit t h = ground arith

-- Bounding a text keeps it whole where it fits; otherwise it keeps the longest prefix within the
-- limit that ends on a character boundary, and says that it cut the text exactly there.
pub bounded-Bounds : (limit : ℕ) (t : Text) → Bounds limit t (bounded limit t)
unfolding bounded
bounded-Bounds limit t = elim (Bool-cases (leb (length t) limit)) [
  | inl e ↦ rw e (record {
    within = leb→le _ _ e;
    prefix = take_all _ t (omega arith);
    kept = λ _. refl;
    flagged = (λ k. cc, λ k. absurd (omega (arith, leb→le _ _ e)));
    on_boundary = λ k. cc;
    longest = λ i h k l. absurd (omega arith);
  })
  | inr e ↦ rw e (cut (leb→lt _ _ e))
]
  where
    cut :
        limit < length t
        → Bounds limit t (record { text = take (step_back t limit) t; truncated = true })
    cut h =
        let (at, before, skipped) = step_back_lem t limit in
        let size : length (take (step_back t limit) t) ≡ step_back t limit =
          omega (arith, length-take (step_back t limit) t) in
        record {
          within = omega arith;
          prefix = rw size refl;
          kept = λ k. cc;
          flagged = (λ _. h, λ _. refl);
          on_boundary = λ _. rw size at;
          longest = λ i p k l. skipped i (omega arith) k;
        }
