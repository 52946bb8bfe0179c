-- ===== src/Types/Identity/Values.antt =====
-- Which texts the values of the pinned identity take.
use mathlib.Core.List.{reverse, reverse-append}
use fidelity.Common.{
  ℕ, ◌≡◌, refl, ap, ◌∙◌, Bool, true, false, ◌&&◌, [], ◌∷◌, ◌++◌, all, is_empty, if◌then◌else◌,
  arith, Bool-cases, inl, inr,
}
use fidelity.Common.Chars.{Chars, is_whitespace, trim_start, trim_end, trim, as_bytes}
use fidelity.Types.Identity.{ok, err, empty_value, code_requirement, team_identifier}

is_empty-trim_start : (text : Chars) → is_empty (trim_start text) ≡ all is_whitespace text
unfolding trim_start
is_empty-trim_start [] = refl
is_empty-trim_start (c ∷ text) = elim (Bool-cases (is_whitespace c)) [
  | inl e ↦ rw e (is_empty-trim_start text)
  | inr e ↦ rw e refl
]

all-trim_start : (text : Chars) → all is_whitespace (trim_start text) ≡ all is_whitespace text
unfolding trim_start
all-trim_start [] = refl
all-trim_start (c ∷ text) = elim (Bool-cases (is_whitespace c)) [
  | inl e ↦ rw e (all-trim_start text)
  | inr e ↦ rw (e, e) refl
]

all-append :
    (xs ys : Chars) → all is_whitespace (xs ++ ys) ≡ (all is_whitespace xs && all is_whitespace ys)
all-append [] ys = refl
all-append (x ∷ xs) ys = elim (Bool-cases (is_whitespace x)) [
  | inl e ↦ rw e (all-append xs ys)
  | inr e ↦ rw e refl
]

swapped : (a b : Bool) → (a && (b && true)) ≡ (b && a)
swapped a b = ground arith

is_empty-append : (xs : Chars) (x : ℕ) → is_empty (xs ++ x ∷ []) ≡ false
is_empty-append [] x = refl
is_empty-append (y ∷ xs) x = refl

all-reverse : (xs : Chars) → all is_whitespace (reverse xs) ≡ all is_whitespace xs
all-reverse [] = refl
all-reverse (x ∷ xs) = rw (reverse-append (x ∷ []) xs) (
    all-append (reverse xs) (x ∷ [])
    ∙ ap (λ b. b && (is_whitespace x && true)) (all-reverse xs)
    ∙ swapped (all is_whitespace xs) (is_whitespace x))

is_empty-reverse : (xs : Chars) → is_empty (reverse xs) ≡ is_empty xs
is_empty-reverse [] = refl
is_empty-reverse (x ∷ xs) = rw (reverse-append (x ∷ []) xs) (is_empty-append (reverse xs) x)

is_empty-trim : (text : Chars) → is_empty (trim text) ≡ all is_whitespace text
unfolding trim trim_end
is_empty-trim text =
    is_empty-reverse (trim_start (reverse (trim_start text)))
    ∙ is_empty-trim_start (reverse (trim_start text))
    ∙ all-reverse (trim_start text)
    ∙ all-trim_start text

-- A text is refused as empty exactly where it is white space alone; otherwise it is kept.
pub code_requirement-blank :
    (text : Chars)
    → code_requirement text
      ≡ (if all is_whitespace text then err empty_value else ok (as_bytes text))
unfolding code_requirement
code_requirement-blank text = rw (is_empty-trim text) refl

-- The same of a team.
pub team_identifier-blank :
    (text : Chars)
    → team_identifier text
      ≡ (if all is_whitespace text then err empty_value else ok (as_bytes text))
unfolding team_identifier
team_identifier-blank text = rw (is_empty-trim text) refl
