-- ===== src/Probe/Linux/Loader.antt =====
-- The catalog of the dynamic loader and the dispatch table of the main image
-- (crates/probe/fidelity-probe-linux/src/sys/catalog.rs and sys/dispatch.rs).
use fidelity.Common.{
  ℕ, suc, ◌-◌, Bool, false, not, ◌&&◌, Option, none, some, List, [], ◌∷◌, ◌++◌, length, any, ltb,
  leb, ◌==◌, if◌then◌else◌, ◌>>=◌, is_empty, bit_and,
}
use fidelity.Formats.Bytes.{checked_add, checked_sub, le_number}
use fidelity.Formats.Elf.{max_dynamic_bytes, max_relocation_bytes, dynamic_table, jump_slots}
use fidelity.Core.Regions.{max_regions}
use fidelity.Core.Targets.{Target, max_targets}
use fidelity.Probe.Linux.System.{Phdr, Image, System}

abbrev pub pt_load : ℕ
pt_load = 1

abbrev pub pt_dynamic : ℕ
pt_dynamic = 2

-- `is_power_of_two` of a 64-bit word: one bit is set.
abbrev pub is_power_of_two : ℕ → Bool
is_power_of_two n = not (n == 0) && bit_and n (n - 1) == 0

-- `start & !mask` of a 64-bit word.
abbrev pub clear_mask : ℕ → ℕ → ℕ
clear_mask n mask = n - bit_and n mask

unfoldable pub aligned : ℕ → ℕ → ℕ → Option (ℕ × ℕ)
aligned start end alignment =
    if leb alignment 1
    then some (start, end)
    else if not (is_power_of_two alignment)
    then none
    else do
      mask ← checked_sub alignment 1
      raised ← checked_add end mask
      some (clear_mask start mask, clear_mask raised mask)

-- The range of one header.
unfoldable pub load_range : ℕ → Phdr → Option (ℕ × ℕ)
load_range base header = do
  raw_start ← checked_add base header.vaddr
  raw_end ← checked_add raw_start header.memsz
  aligned raw_start raw_end header.align

-- The catalog: its ranges, or that it failed, in which case the loader stops the visit.
pub data Catalog : Type 0 where
  ranges : List (ℕ × ℕ) → Catalog
  invalid : Catalog

unfoldable pub with_range : Option (ℕ × ℕ) → List (ℕ × ℕ) → (List (ℕ × ℕ) → Catalog) → Catalog
with_range none found next = invalid
with_range (some range) found next =
    if leb max_regions (length found) then invalid else next (found ++ range ∷ [])

unfoldable pub take_headers : ℕ → List Phdr → List (ℕ × ℕ) → (List (ℕ × ℕ) → Catalog) → Catalog
unfolding with_range
take_headers base [] found next = next found
take_headers base (header ∷ headers) found next =
    let go =
      with_range (load_range base header) found λ found'. take_headers base headers found' next in
    let skip = take_headers base headers found next in if header.kind == pt_load then go else skip

unfoldable pub take_ranges : List Image → List (ℕ × ℕ) → Catalog
take_ranges [] found = ranges found
take_ranges (image ∷ images) found = elim image.headers [
  | none ↦ invalid
  | some headers ↦
      let go = take_headers image.base headers found λ found'. take_ranges images found' in
      if is_empty headers then invalid else go
]

-- The first image without a name.
unfoldable pub main_image : List Image → Option Image
main_image [] = none
main_image (image ∷ images) = if image.is_unnamed then some image else main_image images

-- A header of which every address of the range lies inside.
unfoldable pub maps_range : ℕ → ℕ → ℕ → Phdr → Bool
maps_range base address end header =
    header.kind == pt_load && elim (checked_add base header.vaddr) [
      | none ↦ false
      | some low ↦ elim (checked_add low header.memsz) [
        | none ↦ false
        | some high ↦ leb low address && leb end high
      ]
    ]

unfoldable pub mapped_bytes : System → ℕ → ℕ → ℕ → List Phdr → ℕ → Option (List ℕ)
mapped_bytes system address bytes base headers limit = if ltb limit bytes then none else do
  end ← checked_add address bytes
  if any (maps_range base address end) headers then some (system.memory address bytes) else none

unfoldable pub find_header : ℕ → List Phdr → Option Phdr
find_header kind [] = none
find_header kind (header ∷ headers) =
    if header.kind == kind then some header else find_header kind headers

unfoldable pub segment_bytes : System → ℕ → List Phdr → ℕ → ℕ → Option (List ℕ)
segment_bytes system base headers kind limit = do
  header ← find_header kind headers
  address ← checked_add base header.vaddr
  mapped_bytes system address header.memsz base headers limit

-- The word of a slot: `try_into` refuses another length, and the supported targets are little-endian.
unfoldable pub target_at : System → ℕ → List Phdr → ℕ → Option Target
target_at system base headers offset = do
  slot ← checked_add base offset
  word ← mapped_bytes system slot 8 base headers 8
  if length word == 8 then some (record { slot = slot; value = le_number word }) else none

unfoldable pub targets_at : System → ℕ → List Phdr → List ℕ → Option (List Target)
targets_at system base headers [] = some []
targets_at system base headers (offset ∷ offsets) = do
  target ← target_at system base headers offset
  targets ← targets_at system base headers offsets
  some (target ∷ targets)

pub record RawTargets : Type 0 where
  pub targets : List Target
  pub bound : Bool

unfoldable pub raw_targets : System → Option RawTargets
raw_targets system = do
  image ← main_image system.images
  headers ← image.headers
  dynamic ← segment_bytes system image.base headers pt_dynamic max_dynamic_bytes
  table ← dynamic_table dynamic
  relocations ←
      mapped_bytes system table.jump_relocations table.jump_relocation_bytes image.base headers
        max_relocation_bytes
  slots ← jump_slots relocations system.jump_slot (suc max_targets)
  targets ← targets_at system image.base headers slots.offsets
  some record { targets = targets; bound = table.bound }
