-- ===== src/Formats/Procfs/Maps.antt =====
-- The process mapping table (crates/fidelity-formats/src/procfs/maps.rs): its executable mappings, and
-- the two counts over them. A text is the list of its characters.
pub mod Fields
pub mod Line
pub mod Counts
use mathlib.Core.List.{filter_map}
use fidelity.Common.{
  ℕ, ◌+◌, ◌-◌, ◌^◌, min, Bool, true, false, not, ◌&&◌, Option, none, some, List, [], ◌∷◌, map, any,
  get_elem?, is_empty, ltb, leb, ◌==◌, if◌then◌else◌, ◌>>=◌,
}
use fidelity.Common.Chars.{
  Chars, strip_suffix, starts_with, trim_end, find, split_once_at, contains_char, split_whitespace,
  lines, unsigned,
}

pub data Origin : Type 0 where
  file : Chars → Origin
  deleted : Chars → Origin
  anonymous : Origin
  named : Chars → Origin

pub record Mapping : Type 0 where
  pub start : ℕ
  pub end : ℕ
  pub writable : Bool
  pub origin : Origin

-- `saturating_sub`
abbrev pub size : Mapping → ℕ
size m = m.end - m.start

-- " (deleted)"
abbrev pub deleted_suffix : Chars
deleted_suffix = 32 ∷ 40 ∷ 100 ∷ 101 ∷ 108 ∷ 101 ∷ 116 ∷ 101 ∷ 100 ∷ 41 ∷ []

unfoldable pub origin : Chars → Origin
origin path = if is_empty path then anonymous else elim (strip_suffix path deleted_suffix) [
  | some name ↦ deleted name
  | none ↦ if starts_with path (b'[' ∷ []) then named path else file path
]

from_there : Option (Chars × Chars) → Chars
from_there none = []
from_there (some halves) = trim_end halves.1

from_sixth : Chars → Option Chars → Chars
from_sixth line none = []
from_sixth line (some first) = from_there (find line first)

-- The text from the sixth field on, without the white space at its end.
unfoldable pub rest_of : Chars → Chars
unfolding from_sixth from_there
rest_of line = from_sixth line (get_elem? (split_whitespace line) 5)

-- `u64::from_str_radix` of both ends of a range.
unfoldable pub range_of : Chars → Option (ℕ × ℕ)
range_of range = do
  ends ← split_once_at range (b'-' ∷ [])
  start ← unsigned 16 (2 ^ 64) ends.0
  end ← unsigned 16 (2 ^ 64) ends.1
  some (start, end)

unfoldable pub mapping : Chars → Option Mapping
mapping line = do
  let words = split_whitespace line
  range ← get_elem? words 0
  permissions ← get_elem? words 1
  offset ← get_elem? words 2
  device ← get_elem? words 3
  inode ← get_elem? words 4
  if not (contains_char permissions b'x')
      then none
      else range_of range >>= λ ends. some record {
        start = ends.0;
        end = ends.1;
        writable = contains_char permissions b'w';
        origin = origin (rest_of line);
      }

unfoldable pub executable_mappings : Chars → List Mapping
executable_mappings text = filter_map mapping (lines text)

abbrev pub u32_max : ℕ
u32_max = 2 ^ 32 - 1

abbrev pub u64_max : ℕ
u64_max = 2 ^ 64 - 1

-- `saturating_add` below a greatest number.
abbrev pub saturating_add : ℕ → ℕ → ℕ → ℕ
saturating_add greatest a b = min greatest (a + b)

pub record Unaccounted : Type 0 where
  pub regions : ℕ
  pub bytes : ℕ

pub record CatalogGap : Type 0 where
  pub regions : ℕ
  pub bytes : ℕ

unfoldable pub no_gap : CatalogGap → Bool
no_gap g = g.regions == 0

unfoldable pub all_accounted : Unaccounted → Bool
all_accounted u = u.regions == 0

-- `Origin::Anonymous | Origin::Deleted(_)`
abbrev pub has_no_file : Origin → Bool
has_no_file anonymous = true
has_no_file (deleted path) = true
has_no_file (file path) = false
has_no_file (named name) = false

-- `Origin::File(_) | Origin::Deleted(_)`
abbrev pub had_a_file : Origin → Bool
had_a_file (file path) = true
had_a_file (deleted path) = true
had_a_file anonymous = false
had_a_file (named name) = false

-- One round of the loop of `unaccounted`.
unfoldable pub count_unaccounted : Unaccounted → Mapping → Unaccounted
count_unaccounted found m = if not (has_no_file m.origin) then found else record {
  regions = saturating_add u32_max found.regions 1;
  bytes = saturating_add u64_max found.bytes (size m);
}

unfoldable pub unaccounted_from : Unaccounted → List Mapping → Unaccounted
unaccounted_from found [] = found
unaccounted_from found (m ∷ ms) = unaccounted_from (count_unaccounted found m) ms

unfoldable pub unaccounted : Chars → Unaccounted
unaccounted text = unaccounted_from (record { regions = 0; bytes = 0 }) (executable_mappings text)

-- Whether a range of the loader holds the mapping.
abbrev pub accounted : List (ℕ × ℕ) → Mapping → Bool
accounted ranges m = any (λ r. leb r.0 m.start && leb m.end r.1) ranges

-- One round of the loop of `outside_loader`.
unfoldable pub count_outside : List (ℕ × ℕ) → CatalogGap → Mapping → CatalogGap
count_outside ranges found m =
    if not (had_a_file m.origin) then found else if accounted ranges m then found else record {
      regions = saturating_add u32_max found.regions 1;
      bytes = saturating_add u64_max found.bytes (size m);
    }

unfoldable pub outside_from : List (ℕ × ℕ) → CatalogGap → List Mapping → CatalogGap
outside_from ranges found [] = found
outside_from ranges found (m ∷ ms) = outside_from ranges (count_outside ranges found m) ms

unfoldable pub outside_loader : Chars → List (ℕ × ℕ) → CatalogGap
outside_loader text ranges =
    outside_from ranges (record { regions = 0; bytes = 0 }) (executable_mappings text)

unfoldable pub executable_ranges : Chars → List (ℕ × ℕ)
executable_ranges text = map (λ m. (m.start, m.end)) (executable_mappings text)
