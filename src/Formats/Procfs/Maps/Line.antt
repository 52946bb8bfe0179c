-- ===== src/Formats/Procfs/Maps/Line.antt =====
-- About a line of the form that the kernel writes (`mapping` of procfs/maps.rs).
use mathlib.Core.List.{append_assoc}
use fidelity.Common.{
  ℕ, ◌≡◌, refl, false, not, Option, none, some, List, [], ◌∷◌, ◌++◌, All, All-append, ◌==◌,
  if◌then◌else◌, ◌>>=◌,
}
use fidelity.Common.Chars.{
  Chars, is_whitespace, trim_end, find, contains_char, words_from, split_whitespace,
}
use fidelity.Formats.Procfs.Maps.{
  Mapping, origin, from_there, from_sixth, rest_of, range_of, mapping,
}
use fidelity.Formats.Procfs.Maps.Fields.{
  IsField, IsGap, split_whitespace-field, words_from-Begins, find-unmarked,
}

-- The first five columns of a line, each with the white space behind it.
pub record Columns : Type 0 where
  pub range : Chars
  pub gap₁ : Chars
  pub permissions : Chars
  pub gap₂ : Chars
  pub offset : Chars
  pub gap₃ : Chars
  pub device : Chars
  pub gap₄ : Chars
  pub inode : Chars
  pub gap₅ : Chars

pub record AreColumns (mark : ℕ) (c : Columns) : Type 0 where
  pub range : IsField mark c.range
  pub gap₁ : IsGap mark c.gap₁
  pub permissions : IsField mark c.permissions
  pub gap₂ : IsGap mark c.gap₂
  pub offset : IsField mark c.offset
  pub gap₃ : IsGap mark c.gap₃
  pub device : IsField mark c.device
  pub gap₄ : IsGap mark c.gap₄
  pub inode : IsField mark c.inode
  pub gap₅ : IsGap mark c.gap₅

abbrev pub line_of : Columns → Chars → Chars
line_of c path =
    c.range
    ++ (c.gap₁
        ++ (c.permissions
            ++ (c.gap₂
                ++ (c.offset
                    ++ (c.gap₃ ++ (c.device ++ (c.gap₄ ++ (c.inode ++ (c.gap₅ ++ path)))))))))

abbrev front_of : Columns → Chars
front_of c =
    c.range
    ++ (c.gap₁
        ++ (c.permissions
            ++ (c.gap₂ ++ (c.offset ++ (c.gap₃ ++ (c.device ++ (c.gap₄ ++ (c.inode ++ c.gap₅))))))))

line_of-front_of : (c : Columns) (path : Chars) → line_of c path ≡ front_of c ++ path
line_of-front_of c path = simp append_assoc

split_whitespace-line_of :
    (mark : ℕ) (c : Columns) (path : Chars)
    → AreColumns mark c
    → split_whitespace (line_of c path)
      ≡ c.range ∷ c.permissions ∷ c.offset ∷ c.device ∷ c.inode ∷ split_whitespace path
split_whitespace-line_of mark c path a =
    rw
      (
        split_whitespace-field c.range c.gap₁ _ mark a.range a.gap₁,
        split_whitespace-field c.permissions c.gap₂ _ mark a.permissions a.gap₂,
        split_whitespace-field c.offset c.gap₃ _ mark a.offset a.gap₃,
        split_whitespace-field c.device c.gap₄ _ mark a.device a.gap₄,
        split_whitespace-field c.inode c.gap₅ path mark a.inode a.gap₅,
      )
      refl

abbrev Unmarked : ℕ → Chars → Type 0
Unmarked mark = All (λ c. (c == mark) ≡ false)

front_of-Unmarked : (mark : ℕ) (c : Columns) → AreColumns mark c → Unmarked mark (front_of c)
front_of-Unmarked mark c a = both c.range _ a.range.unmarked (
    both c.gap₁ _ a.gap₁.unmarked (
      both c.permissions _ a.permissions.unmarked (
        both c.gap₂ _ a.gap₂.unmarked (
          both c.offset _ a.offset.unmarked (
            both c.gap₃ _ a.gap₃.unmarked (
              both c.device _ a.device.unmarked (
                both c.gap₄ _ a.gap₄.unmarked
                  (both c.inode c.gap₅ a.inode.unmarked a.gap₅.unmarked))))))))
  where
    both : (xs ys : Chars) → Unmarked mark xs → Unmarked mark ys → Unmarked mark (xs ++ ys)
    both = All-append (λ c. (c == mark) ≡ false)

first_word :
    (mark : ℕ) (path : Chars)
    → is_whitespace mark ≡ false
    → (more tail : Chars) × (others : List Chars) × (path ≡ more ++ tail)
      × (split_whitespace (mark ∷ path) ≡ (mark ∷ more) ∷ others)
unfolding split_whitespace words_from
first_word mark path h =
    let b = words_from-Begins (mark ∷ []) path refl in
    (b.more, b.tail, b.others, b.parts, rw h b.words)

find-line_of :
    (mark : ℕ) (c : Columns) (path more tail : Chars)
    → AreColumns mark c
    → path ≡ more ++ tail
    → find (line_of c (mark ∷ path)) (mark ∷ more) ≡ some (front_of c, mark ∷ path)
find-line_of mark c path more tail a parts =
    rw (line_of-front_of c (mark ∷ path), parts)
      (find-unmarked mark (front_of c) more tail (front_of-Unmarked mark c a))

rest_of-line_of :
    (mark : ℕ) (c : Columns) (path : Chars)
    → AreColumns mark c
    → is_whitespace mark ≡ false
    → rest_of (line_of c (mark ∷ path)) ≡ trim_end (mark ∷ path)
unfolding rest_of
rest_of-line_of mark c path a h =
    let (more, tail, others, parts, words) = first_word mark path h in
    rw (split_whitespace-line_of mark c (mark ∷ path) a, words)
      (unfold from_sixth in
        rw (find-line_of mark c path more tail a parts) (unfold from_there in refl))

-- What a line comes to, by its first two columns and the text of its path.
abbrev pub reading : Columns → Chars → Option Mapping
reading c path =
    if not (contains_char c.permissions b'x')
    then none
    else range_of c.range >>= λ ends. some record {
      start = ends.0;
      end = ends.1;
      writable = contains_char c.permissions b'w';
      origin = origin path;
    }

-- A line of five columns with white space behind each, then a path whose first character is no
-- white space and stands in none of them, is read as the mapping of its columns, with the path,
-- without the white space at its end, as the origin; and as nothing where the mapping cannot
-- execute or its range cannot be read.
pub mapping-line_of :
    (mark : ℕ) (c : Columns) (path : Chars)
    → AreColumns mark c
    → is_whitespace mark ≡ false
    → mapping (line_of c (mark ∷ path)) ≡ reading c (trim_end (mark ∷ path))
unfolding mapping
mapping-line_of mark c path a h =
    rw (split_whitespace-line_of mark c (mark ∷ path) a, rest_of-line_of mark c path a h) refl

pub mapping-line_of_anonymous :
    (mark : ℕ) (c : Columns) → AreColumns mark c → mapping (line_of c []) ≡ reading c []
unfolding mapping
mapping-line_of_anonymous mark c a =
    let none_left : split_whitespace [] ≡ [] = unfold split_whitespace words_from in refl in
    let words = split_whitespace-line_of mark c [] a in
    let nothing : rest_of (line_of c []) ≡ [] =
      unfold rest_of in rw (words, none_left) (unfold from_sixth in refl) in
    rw (words, nothing) refl
