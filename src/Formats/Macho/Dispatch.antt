-- ===== src/Formats/Macho/Dispatch.antt =====
-- The symbol-pointer sections of an image (crates/fidelity-formats/src/macho/dispatch.rs).
pub mod Bounds
use fidelity.Common.{
  ℕ, zero, suc, ◌+◌, ◌*◌, ◌^◌, bit_and, Bool, true, false, not, ◌&&◌, ◌||◌, Option, none, some,
  List, [], ◌∷◌, ◌++◌, length, ltb, ◌==◌, if◌then◌else◌, ◌>>=◌,
}
use fidelity.Formats.Bytes.{checked_add, checked_mul, read_u32, read_u64}
use fidelity.Formats.Macho.Commands.{
  Command, command_at, max_command_bytes, segment_command_bytes, lc_segment_64,
}

abbrev pub max_pointer_sections : ℕ
max_pointer_sections = 128

abbrev pub section_bytes : ℕ
section_bytes = 80

abbrev pub lc_dyld_chained_fixups : ℕ
lc_dyld_chained_fixups = 0x80000034

abbrev pub section_type : ℕ
section_type = 0xff

abbrev pub s_non_lazy_symbol_pointers : ℕ
s_non_lazy_symbol_pointers = 6

pub record PointerSection : Type 0 where
  pub address : ℕ
  pub bytes : ℕ

pub record DispatchLayout : Type 0 where
  pub sections : List PointerSection
  pub bound : Bool

unfoldable pub pointer_section_at : List ℕ → ℕ → Option PointerSection
pointer_section_at commands section = do
  address_at ← checked_add section 32
  address ← read_u64 commands address_at
  bytes_at ← checked_add section 40
  bytes ← read_u64 commands bytes_at
  some record { address = address; bytes = bytes }

-- A section of the wanted kind is put behind those before, unless there are too many.
unfoldable pub push_section : List ℕ → ℕ → List PointerSection → Option (List PointerSection)
push_section commands section sections =
    if length sections == max_pointer_sections
    then none
    else pointer_section_at commands section >>= λ s. some (sections ++ s ∷ [])

-- One round of the loop over the sections of a segment.
unfoldable pub take_section : List ℕ → ℕ → ℕ → List PointerSection → Option (List PointerSection)
take_section commands at index sections = do
  first ← checked_add at segment_command_bytes
  offset ← checked_mul index section_bytes
  section ← checked_add first offset
  flags_at ← checked_add section 64
  flags ← read_u32 commands flags_at
  if not (bit_and flags section_type == s_non_lazy_symbol_pointers)
      then some sections
      else push_section commands section sections

-- The loop over the sections, by those that are left.
unfoldable pub sections_from :
    ℕ → List ℕ → ℕ → ℕ → List PointerSection → Option (List PointerSection)
sections_from zero commands at index sections = some sections
sections_from (suc left) commands at index sections =
    take_section commands at index sections >>= λ sections'.
    sections_from left commands at (suc index) sections'

unfoldable pub take_segment :
    List ℕ → ℕ → Command → List PointerSection → Option (List PointerSection)
take_segment commands at c sections = do
  count_at ← checked_add at 64
  count ← (if ltb c.size segment_command_bytes then none else read_u32 commands count_at)
  all_sections ← checked_mul count section_bytes
  required ← checked_add segment_command_bytes all_sections
  if ltb c.size required then none else sections_from count commands at 0 sections

unfoldable pub take_command : List ℕ → ℕ → Command → DispatchLayout → Option DispatchLayout
take_command commands at c layout =
    let bound = layout.bound || c.kind == lc_dyld_chained_fixups in
    if c.kind == lc_segment_64
    then (take_segment commands at c layout.sections >>= λ sections.
        some record { sections = sections; bound = bound })
    else some record { sections = layout.sections; bound = bound }

-- The loop over the commands, by those that are left.
unfoldable pub commands_from : ℕ → List ℕ → ℕ → DispatchLayout → Option (ℕ × DispatchLayout)
commands_from zero commands at layout = some (at, layout)
commands_from (suc left) commands at layout = command_at commands at >>= λ c.
    take_command commands at c layout >>= λ layout'. commands_from left commands c.end layout'

unfoldable pub dispatch_layout : List ℕ → ℕ → Option DispatchLayout
dispatch_layout commands command_count =
    if ltb max_command_bytes (length commands) then none else do
      ended ← commands_from command_count commands 0 (record { sections = []; bound = false })
      if not (ended.0 == length commands) then none else some ended.1
