-- ===== src/Formats/Zip.antt =====
-- The end record of an archive (crates/fidelity-formats/src/apk/zip.rs).
pub mod Latest
use fidelity.Common.{
  ℕ, zero, suc, ◌+◌, ◌-◌, ◌^◌, Bool, true, false, ◌&&◌, not, Option, none, some, List, [], ◌∷◌,
  length, if◌then◌else◌, ◌==◌, ◌>>=◌,
}
use fidelity.Formats.Bytes.{checked_add, checked_sub, slice, same_bytes, read_u16, read_u32}

abbrev pub end_magic : List ℕ
end_magic = 80 ∷ 75 ∷ 5 ∷ 6 ∷ []

abbrev pub end_size : ℕ
end_size = 22

abbrev pub offset_field : ℕ
offset_field = 16

abbrev pub comment_field : ℕ
comment_field = 20

-- What one place of the search comes to: the next place, or the answer of the whole search.
pub data Place : Type 0 where
  skip : Place
  answer : Option ℕ → Place

-- `slice == Some(&END_MAGIC)`
is_magic : Option (List ℕ) → Bool
is_magic none = false
is_magic (some bytes) = same_bytes bytes end_magic

or_none : {A : Type 0} → Option A → (A → Place) → Place
or_none none k = answer none
or_none (some a) k = k a

or_skip : {A : Type 0} → Option A → (A → Place) → Place
or_skip none k = skip
or_skip (some a) k = k a

unfoldable pub place : List ℕ → ℕ → Place
unfolding is_magic or_none or_skip
place tail at = or_none (checked_add at 4) λ magic_end.
    if not (is_magic (slice tail at magic_end))
    then skip
    else or_none (checked_add at comment_field) λ comment_at.
      or_skip (read_u16 tail comment_at) λ comment.
        or_skip (checked_add at end_size >>= λ after. checked_add after comment) λ ends.
          if not (ends == length tail)
          then skip
          else or_none (checked_add at offset_field) λ offset_at. answer (read_u32 tail offset_at)

-- The loop, from a place down to the first.
unfoldable pub search : List ℕ → ℕ → Option ℕ
search tail zero = elim (place tail zero) [ skip ↦ none | answer o ↦ o ]
search tail (suc at) =
    let rest = search tail at in elim (place tail (suc at)) [ skip ↦ rest | answer o ↦ o ]

unfoldable pub central_directory_offset : List ℕ → Option ℕ
central_directory_offset tail = do last ← checked_sub (length tail) end_size; search tail last
