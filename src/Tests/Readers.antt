-- ===== src/Tests/Readers.antt =====
-- The readers of text and of tables, on concrete input.
use fidelity.Common.{
  ℕ, ◌≡◌, refl, Bool, false, some, [], ◌∷◌, All, any, find_map, Bool-cases, inl, inr, ◌==◌,
}
use fidelity.Common.Text.{literal}
use fidelity.Common.Chars.{
  Chars, is_whitespace, trim_end, lines, split_whitespace, find, ends_with, split_at,
}
use fidelity.Formats.Procfs.Maps.{mapping}
use fidelity.Formats.Procfs.Maps.Fields.{IsField, IsGap}
use fidelity.Formats.Procfs.Maps.Line.{Columns, AreColumns, line_of, reading, mapping-line_of}
use fidelity.Formats.Procfs.Archive.{package_archive, path_of, names}
use fidelity.Formats.Procfs.Archive.Sound.{Answer, package_archive-Answer}

none_of : (p : ℕ → Bool) (xs : Chars) → any p xs ≡ false → All (λ c. p c ≡ false) xs
none_of p [] h = tt
none_of p (c ∷ xs) h = elim (Bool-cases (p c)) [
  | inl e ↦ absurd (let k = rw e at h in cc)
  | inr e ↦ (e, none_of p xs (rw e at h))
]

-- A space, and a field without one.
gap : IsGap b'/' (b' ' ∷ [])
gap = record { filled = refl; blank = (unfold is_whitespace in refl, tt); unmarked = (refl, tt) }

field :
    (c : ℕ) (cs : Chars)
    → any is_whitespace (c ∷ cs) ≡ false
    → any (λ d. d == b'/') (c ∷ cs) ≡ false
    → IsField b'/' (c ∷ cs)
field c cs solid unmarked = record {
  filled = refl;
  solid = none_of is_whitespace (c ∷ cs) solid;
  unmarked = none_of (λ d. d == b'/') (c ∷ cs) unmarked;
}

-- `10-2f r-xp 0 0 7`
abbrev columns : Columns
columns = record {
  range = b'1' ∷ b'0' ∷ b'-' ∷ b'2' ∷ b'f' ∷ [];
  gap₁ = b' ' ∷ [];
  permissions = b'r' ∷ b'-' ∷ b'x' ∷ b'p' ∷ [];
  gap₂ = b' ' ∷ [];
  offset = b'0' ∷ [];
  gap₃ = b' ' ∷ [];
  device = b'0' ∷ [];
  gap₄ = b' ' ∷ [];
  inode = b'7' ∷ [];
  gap₅ = b' ' ∷ [];
}

are_columns : AreColumns b'/' columns
unfolding is_whitespace
are_columns = record {
  range = field _ _ refl refl;
  gap₁ = gap;
  permissions = field _ _ refl refl;
  gap₂ = gap;
  offset = field _ _ refl refl;
  gap₃ = gap;
  device = field _ _ refl refl;
  gap₄ = gap;
  inode = field _ _ refl refl;
  gap₅ = gap;
}

mapping-line_of_example :
    mapping (line_of columns (b'/' ∷ b'a' ∷ [])) ≡ reading columns (trim_end (b'/' ∷ b'a' ∷ []))
unfolding is_whitespace
mapping-line_of_example = mapping-line_of b'/' columns (b'a' ∷ []) are_columns refl

-- `1-2 r--p 0 0 7 /data/app/a-b/base.apk`
abbrev wanted : Chars
wanted = b'a' ∷ []

abbrev path : Chars
path = literal "/data/app/a-b/base.apk"

abbrev table : Chars
table = literal "1-2 r--p 0 0 7 /data/app/a-b/base.apk"

found : package_archive table wanted ≡ some path
unfolding package_archive literal find_map lines path_of split_whitespace find trim_end ends_with
    names split_at
found = refl

package_archive-Answer_example : Answer table wanted path
package_archive-Answer_example = package_archive-Answer table wanted path found
