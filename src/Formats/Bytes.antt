-- ===== src/Formats/Bytes.antt =====
-- Slices and little-endian numbers, with the checks of Rust (the helpers of
-- crates/fidelity-formats/src/apk/zip.rs and signing.rs). A `usize` has 64 bits.
use fidelity.Common.{
  ℕ, ◌+◌, ◌-◌, ◌*◌, ◌^◌, ◌≤◌, ◌<◌, ◌≡◌, refl, Bool, true, false, ◌&&◌, Option, none, some, List, [],
  ◌∷◌, length, take, drop, if◌then◌else◌, leb, ltb, ◌==◌, ◌>>=◌, arith, lt→ltb, le→leb,
}

-- `usize::checked_add` and `usize::checked_sub`.
abbrev pub checked_add : ℕ → ℕ → Option ℕ
checked_add a b = if ltb (a + b) (2 ^ 64) then some (a + b) else none

abbrev pub checked_sub : ℕ → ℕ → Option ℕ
checked_sub a b = if leb b a then some (a - b) else none

-- `usize::checked_mul`.
abbrev pub checked_mul : ℕ → ℕ → Option ℕ
checked_mul a b = if ltb (a * b) (2 ^ 64) then some (a * b) else none

-- `bytes.get(at..end)`.
abbrev pub slice : List ℕ → ℕ → ℕ → Option (List ℕ)
slice bytes at end =
    if leb at end && leb end (length bytes) then some (take (end - at) (drop at bytes)) else none

abbrev pub same_bytes : List ℕ → List ℕ → Bool
same_bytes [] [] = true
same_bytes [] (y ∷ ys) = false
same_bytes (x ∷ xs) [] = false
same_bytes (x ∷ xs) (y ∷ ys) = x == y && same_bytes xs ys

-- Little-endian numbers of a field.
abbrev pub le_number : List ℕ → ℕ
le_number [] = 0
le_number (b ∷ bs) = b + 256 * le_number bs

abbrev pub read : ℕ → List ℕ → ℕ → Option ℕ
read width bytes at = do
  end ← checked_add at width
  field ← slice bytes at end
  some (le_number field)

unfoldable pub read_u16 : List ℕ → ℕ → Option ℕ
read_u16 bytes at = read 2 bytes at

unfoldable pub read_u32 : List ℕ → ℕ → Option ℕ
read_u32 bytes at = read 4 bytes at

unfoldable pub read_u64 : List ℕ → ℕ → Option ℕ
read_u64 bytes at = read 8 bytes at

pub checked_add-some : (a b : ℕ) → a + b < 2 ^ 64 → checked_add a b ≡ some (a + b)
checked_add-some a b h = rw (lt→ltb (a + b) (2 ^ 64) h) refl

pub slice-some :
    (bytes : List ℕ) (at end : ℕ)
    → at ≤ end
    → end ≤ length bytes
    → slice bytes at end ≡ some (take (end - at) (drop at bytes))
slice-some bytes at end h k = rw (le→leb at end h, le→leb end (length bytes) k) refl

-- The number of a field, wherever it stands.
abbrev pub number_at : ℕ → List ℕ → ℕ → ℕ
number_at width bytes at = le_number (take width (drop at bytes))

pub read-some :
    (width : ℕ) (bytes : List ℕ) (at : ℕ)
    → at + width ≤ length bytes
    → length bytes < 2 ^ 64
    → read width bytes at ≡ some (number_at width bytes at)
read-some width bytes at fits short =
    let size : at + width - at ≡ width = omega arith in
    rw
      (
        checked_add-some at width (omega arith),
        slice-some bytes at (at + width) (omega arith) fits,
        size,
      )
      refl
