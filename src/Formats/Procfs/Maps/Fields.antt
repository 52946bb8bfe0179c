-- ===== src/Formats/Procfs/Maps/Fields.antt =====
-- The fields of a line, and what splitting and searching make of them.
use mathlib.Core.List.{append_assoc, append-nil}
use fidelity.Common.{
  ℕ, ◌≡◌, refl, sym, ap, ◌∙◌, true, false, some, List, [], ◌∷◌, ◌++◌, All, is_empty, ◌==◌,
  Bool-cases, inl, inr,
}
use fidelity.Common.Chars.{Chars, is_whitespace, starts_with, find, words_from, split_whitespace}
use fidelity.Common.Chars.Laws.{starts_with-append}

-- A field of a line: some characters, of which none is white space or the mark.
pub record IsField (mark : ℕ) (field : Chars) : Type 0 where
  pub filled : is_empty field ≡ false
  pub solid : All (λ c. is_whitespace c ≡ false) field
  pub unmarked : All (λ c. (c == mark) ≡ false) field

-- The white space before the path.
pub record IsGap (mark : ℕ) (gap : Chars) : Type 0 where
  pub filled : is_empty gap ≡ false
  pub blank : All (λ c. is_whitespace c ≡ true) gap
  pub unmarked : All (λ c. (c == mark) ≡ false) gap

words_from-solid :
    (word u rest : Chars)
    → All (λ c. is_whitespace c ≡ false) u
    → words_from word (u ++ rest) ≡ words_from (word ++ u) rest
unfolding words_from
words_from-solid word [] rest h = ap (λ w. words_from w rest) (sym (append-nil word))
words_from-solid word (c ∷ u) rest h = rw h.0 (
    words_from-solid (word ++ c ∷ []) u rest h.1
    ∙ ap (λ w. words_from w rest) (append_assoc word (c ∷ []) u))

words_from-blank :
    (gap rest : Chars)
    → All (λ c. is_whitespace c ≡ true) gap
    → words_from [] (gap ++ rest) ≡ words_from [] rest
unfolding words_from
words_from-blank [] rest h = refl
words_from-blank (c ∷ gap) rest h = rw h.0 (words_from-blank gap rest h.1)

words_from_ended :
    (word : Chars) (c : ℕ) (rest : Chars)
    → is_whitespace c ≡ true
    → is_empty word ≡ false
    → words_from word (c ∷ rest) ≡ word ∷ words_from [] rest
unfolding words_from
words_from_ended word c rest h e = rw (h, e) refl

pub split_whitespace-field :
    (field gap rest : Chars) (mark : ℕ)
    → IsField mark field
    → IsGap mark gap
    → split_whitespace (field ++ (gap ++ rest)) ≡ field ∷ split_whitespace rest
unfolding split_whitespace
split_whitespace-field field [] rest mark f g = absurd (let e = g.filled in cc)
split_whitespace-field field (c ∷ gap) rest mark f g =
    words_from-solid [] field ((c ∷ gap) ++ rest) f.solid
    ∙ words_from_ended field c (gap ++ rest) g.blank.0 f.filled
    ∙ ap (λ ws. field ∷ ws) (words_from-blank gap rest g.blank.1)

-- A word that is being read goes on with the front of the text.
pub record Begins (word text : Chars) : Type 0 where
  pub more : Chars
  pub tail : Chars
  pub others : List Chars
  pub parts : text ≡ more ++ tail
  pub words : words_from word text ≡ (word ++ more) ∷ others

pub words_from-Begins : (word text : Chars) → is_empty word ≡ false → Begins word text
unfolding words_from
words_from-Begins word [] h = record {
  more = [];
  tail = [];
  others = [];
  parts = refl;
  words = rw (h, append-nil word) refl;
}
words_from-Begins word (c ∷ text) h = elim (Bool-cases (is_whitespace c)) [
  | inl e ↦ record {
    more = [];
    tail = c ∷ text;
    others = words_from [] text;
    parts = refl;
    words = rw (e, h, append-nil word) refl;
  }
  | inr e ↦
      let rest = words_from-Begins (word ++ c ∷ []) text (filled word c) in
      record {
        more = c ∷ rest.more;
        tail = rest.tail;
        others = rest.others;
        parts = ap (λ t. c ∷ t) rest.parts;
        words =
            rw e (rest.words ∙ ap (λ w. w ∷ rest.others) (append_assoc word (c ∷ []) rest.more));
      }
]
  where
    filled : (word : Chars) (c : ℕ) → is_empty (word ++ c ∷ []) ≡ false
    filled [] c = refl
    filled (d ∷ word) c = refl

pub find-unmarked :
    (mark : ℕ) (front more tail : Chars)
    → All (λ c. (c == mark) ≡ false) front
    → find (front ++ (mark ∷ (more ++ tail))) (mark ∷ more) ≡ some (front, mark ∷ (more ++ tail))
unfolding find
find-unmarked mark [] more tail h = rw (starts_with-append (mark ∷ more) tail) refl
find-unmarked mark (c ∷ front) more tail h =
    let other : starts_with (c ∷ (front ++ (mark ∷ (more ++ tail)))) (mark ∷ more) ≡ false =
      unfold starts_with in rw h.0 refl in
    rw (other, find-unmarked mark front more tail h.1) refl
