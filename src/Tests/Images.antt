-- ===== src/Tests/Images.antt =====
-- The readers of program images and of firmware tables, on concrete bytes.
use fidelity.Common.{ℕ, ◌≤◌, ◌<◌, ◌≡◌, ◌≢◌, refl, some, List, [], ◌∷◌, ◌++◌, replicate, arith}
use fidelity.Common.Chars.{starts_with}
use fidelity.Common.Int.{pos, checked_add_signed}
use fidelity.Formats.Bytes.{read_u16, read_u32, read_u64}
use fidelity.Formats.Elf.{dynamic_table, jump_slots}
use fidelity.Formats.Elf.Dynamic.{dynamic_array, Said, dynamic_table-dynamic_array}
use fidelity.Formats.Elf.Slots.{
  Rela, relocation_table, offsets_of, limited, jump_slots-relocation_table,
}
use fidelity.Formats.Macho.Commands.{command_at}
use fidelity.Formats.Macho.Image.{
  max_signature_bytes, SignatureLayout, Linkedit, SignatureData, fit, linkedit_at, signature_at,
  take_segment, take_signature, take_command, commands_from, signature_layout,
}
use fidelity.Formats.Macho.Image.Inside.{IsPlaced, Inside, signature_layout-Inside}
use fidelity.Formats.Macho.Image.Standing.{IsSegment, IsSignature}
use fidelity.Formats.Pe
use fidelity.Formats.Pe.{
  optional_header, directory, thunk_at, thunks_from, describe, descriptor_at, descriptors_from,
  walk_imports, mapped_import_slots,
}
use fidelity.Formats.Pe.Slots.{AreSlots}
use fidelity.Formats.Pe.Imports.{walk_imports-ne-exhausted, mapped_import_slots-AreSlots}
use fidelity.Formats.Smbios
use fidelity.Formats.Smbios.{returned, system_information}
use fidelity.Formats.Smbios.Runs.{IsString}
use fidelity.Formats.Smbios.Table.{
  Structure, encode, encode_all, IsOther, IsInformation, told, system_information-encode_all,
}
use fidelity.Formats.Smbios.Ends.{system_information-ne-exhausted}

-- A jump table of 48 bytes at 4096, with a flag that binds at the start.
abbrev entries : List (ℕ × ℕ)
entries = (23, 4096) ∷ (2, 48) ∷ (20, 7) ∷ (30, 8) ∷ []

dynamic_table-dynamic_array_example : Said entries (dynamic_table (dynamic_array entries 0 []))
dynamic_table-dynamic_array_example =
    dynamic_table-dynamic_array entries 0 []
      (
        (omega arith, omega arith),
        (
          (omega arith, omega arith),
          ((omega arith, omega arith), ((omega arith, omega arith), tt)),
        ),
      )
      (refl, (refl, (refl, (refl, tt)))) (omega arith) (omega arith)

abbrev relocations : List Rela
relocations =
    record { offset = 16; info = 7; addend = 0 }
    ∷ record { offset = 24; info = 6; addend = 0 }
    ∷ record { offset = 32; info = 7; addend = 0 }
    ∷ []

jump_slots-relocation_table_example :
    jump_slots (relocation_table relocations) 7 1 ≡ some (limited 1 (offsets_of 7 relocations))
jump_slots-relocation_table_example =
    jump_slots-relocation_table relocations 7 1
      ((omega arith, omega arith), ((omega arith, omega arith), ((omega arith, omega arith), tt)))
      (omega arith)

-- A link-edit segment of 64 bytes at 4096, and a signature of four bytes that starts at its eighth.
abbrev load_commands : List ℕ
load_commands =
    25
      ∷ 0
      ∷ 0
      ∷ 0
      ∷ 72
      ∷ 0
      ∷ 0
      ∷ 0
      ∷ 95
      ∷ 95
      ∷ 76
      ∷ 73
      ∷ 78
      ∷ 75
      ∷ 69
      ∷ 68
      ∷ 73
      ∷ 84
      ∷ replicate 6 0
    ++ (0 ∷ 16 ∷ replicate 22 0)
    ++ (64 ∷ replicate 23 0)
    ++ (29 ∷ 0 ∷ 0 ∷ 0 ∷ 16 ∷ 0 ∷ 0 ∷ 0 ∷ 8 ∷ 0 ∷ 0 ∷ 0 ∷ 4 ∷ 0 ∷ 0 ∷ 0 ∷ [])

abbrev layout : SignatureLayout
layout = record { address = 4114; bytes = 4 }

signature_run : signature_layout load_commands 2 (pos 10) ≡ some layout
unfolding signature_layout commands_from command_at take_command take_segment take_signature
    linkedit_at signature_at fit checked_add_signed read_u32 read_u64 starts_with
signature_run = refl

signature_layout-Inside_example :
    (l : Linkedit) × (d : SignatureData) × IsSegment load_commands l
    × IsSignature load_commands d
    × (0 < 4)
    × (4 ≤ max_signature_bytes)
    × (4 ≡ d.datasize)
    × IsPlaced layout l d (pos 10)
    × Inside layout l (pos 10)
signature_layout-Inside_example =
    signature_layout-Inside load_commands 2 (pos 10) layout signature_run

-- One import with one slot, whose value is 9.
abbrev image : List ℕ
image =
    77 ∷ 90 ∷ replicate 58 0
    ++ (64 ∷ 0 ∷ 0 ∷ 0 ∷ 80 ∷ 69 ∷ replicate 18 0)
    ++ (128 ∷ 0 ∷ 0 ∷ 0 ∷ 11 ∷ 2 ∷ replicate 106 0)
    ++ (2 ∷ replicate 11 0)
    ++ (216 ∷ 0 ∷ 0 ∷ 0 ∷ 40 ∷ 0 ∷ 0 ∷ 0 ∷ [])
    ++ (0 ∷ 1 ∷ replicate 10 0)
    ++ (1 ∷ 0 ∷ 0 ∷ 0 ∷ 16 ∷ 1 ∷ 0 ∷ 0 ∷ replicate 20 0)
    ++ (5 ∷ replicate 15 0)
    ++ (9 ∷ replicate 7 0)

slots_run : mapped_import_slots image 4096 8 ≡ some ((4368, 9) ∷ [])
unfolding mapped_import_slots walk_imports optional_header directory descriptors_from descriptor_at
    describe thunks_from thunk_at read_u16 read_u32 read_u64
slots_run = refl

mapped_import_slots-AreSlots_example : AreSlots image 4096 8 ((4368, 9) ∷ [])
mapped_import_slots-AreSlots_example =
    mapped_import_slots-AreSlots image 4096 8 ((4368, 9) ∷ []) slots_run

walk_imports-ne-exhausted_example : walk_imports image 4096 8 ≢ some Pe.exhausted
walk_imports-ne-exhausted_example = walk_imports-ne-exhausted image 4096 8

-- A structure without strings, and one that states the maker "A" and no product.
abbrev board : Structure
board = record { kind = 2; handle_low = 0; handle_high = 0; fields = []; strings = [] }

abbrev system : Structure
system = record {
  kind = 1;
  handle_low = 1;
  handle_high = 0;
  fields = 1 ∷ 0 ∷ [];
  strings = (65 ∷ []) ∷ [];
}

maker-IsString : IsString (65 ∷ [])
maker-IsString = record { first = 65; others = []; parts = refl; no_zero = (refl, tt) }

board-IsOther : IsOther board
board-IsOther = record { no_information = refl; no_end = refl; are_strings = tt }

abbrev system_states : IsInformation system 1 0
system_states = record {
  of_kind = refl;
  more = [];
  numbers = refl;
  first = 65 ∷ [];
  others = [];
  strings = refl;
  are_strings = (maker-IsString, tt);
}

system_information-encode_all_example :
    system_information (encode_all (board ∷ []) ++ (encode system ++ (127 ∷ [])))
    ≡ returned (told ((65 ∷ []) ∷ []) 1 0)
system_information-encode_all_example =
    system_information-encode_all (board ∷ []) system (127 ∷ []) 1 0 (board-IsOther, tt)
      system_states

system_information-ne-exhausted_example : system_information (encode system) ≢ Smbios.exhausted
system_information-ne-exhausted_example = system_information-ne-exhausted (encode system)
