-- ===== src/Formats/Elf.antt =====
-- The dynamic array and the jump relocations of an ELF image (crates/fidelity-formats/src/elf/mod.rs).
-- A tag is compared as the 64-bit pattern that stands in the array: every known tag is positive.
pub mod Dynamic
pub mod Slots
use fidelity.Common.{
  ℕ, zero, suc, ◌+◌, ◌-◌, ◌*◌, ◌/◌, ◌%◌, bit_and, Bool, true, false, not, ◌&&◌, ◌||◌, Option, none,
  some, List, [], ◌∷◌, ◌++◌, length, if◌then◌else◌, ltb, ◌==◌, ◌>>=◌,
}
use fidelity.Formats.Bytes.{checked_add, read_u64}

abbrev pub max_dynamic_bytes : ℕ
max_dynamic_bytes = 1024 * 1024

abbrev pub max_relocation_bytes : ℕ
max_relocation_bytes = 4 * 1024 * 1024

abbrev pub dynamic_entry_bytes : ℕ
dynamic_entry_bytes = 16

abbrev pub rela_entry_bytes : ℕ
rela_entry_bytes = 24

abbrev pub dt_null : ℕ
dt_null = 0

abbrev pub dt_pltrelsz : ℕ
dt_pltrelsz = 2

abbrev pub dt_pltrel : ℕ
dt_pltrel = 20

abbrev pub dt_jmprel : ℕ
dt_jmprel = 23

abbrev pub dt_bind_now : ℕ
dt_bind_now = 24

abbrev pub dt_flags : ℕ
dt_flags = 30

abbrev pub dt_flags_1 : ℕ
dt_flags_1 = 0x6ffffffb

abbrev pub dt_rela : ℕ
dt_rela = 7

abbrev pub df_bind_now : ℕ
df_bind_now = 8

abbrev pub df_1_now : ℕ
df_1_now = 1

pub record DynamicTable : Type 0 where
  pub jump_relocations : ℕ
  pub jump_relocation_bytes : ℕ
  pub bound : Bool

-- The variables of the loop.
pub record Fields : Type 0 where
  pub jump_relocations : ℕ
  pub jump_relocation_bytes : ℕ
  pub relocation_form : ℕ
  pub bound : Bool

-- The cases of the loop but the end of the array.
unfoldable pub take_entry : ℕ → ℕ → Fields → Fields
take_entry tag value s =
    if tag == dt_jmprel
    then record s { jump_relocations = value }
    else if tag == dt_pltrelsz
    then record s { jump_relocation_bytes = value }
    else if tag == dt_pltrel
    then record s { relocation_form = value }
    else if tag == dt_bind_now
    then record s { bound = true }
    else if tag == dt_flags && not (bit_and value df_bind_now == 0)
    then record s { bound = true }
    else if tag == dt_flags_1 && not (bit_and value df_1_now == 0)
    then record s { bound = true }
    else s

-- The case of the end.
unfoldable pub finish : Fields → Option DynamicTable
finish s =
    if s.jump_relocations == 0 || s.jump_relocation_bytes == 0 || not (s.relocation_form == dt_rela)
    then none
    else some record {
      jump_relocations = s.jump_relocations;
      jump_relocation_bytes = s.jump_relocation_bytes;
      bound = s.bound;
    }

-- The tag and the value at a place.
unfoldable pub entry_at : List ℕ → ℕ → Option (ℕ × ℕ)
entry_at bytes at = do
  tag ← read_u64 bytes at
  value_at ← checked_add at 8
  value ← read_u64 bytes value_at
  some (tag, value)

-- The loop, by the rounds that are left.
unfoldable pub dynamic_from : ℕ → List ℕ → ℕ → Fields → Option DynamicTable
dynamic_from zero bytes at s = none
dynamic_from (suc rounds) bytes at s = entry_at bytes at >>= λ entry.
    let more =
      dynamic_from rounds bytes (at + dynamic_entry_bytes) (take_entry entry.0 entry.1 s) in
    if entry.0 == dt_null then finish s else more

-- The rounds of `(0..length).step_by(step)`.
abbrev pub rounds_of : ℕ → ℕ → ℕ
rounds_of size step = (size + (step - 1)) / step

abbrev pub no_fields : Fields
no_fields = record {
  jump_relocations = 0;
  jump_relocation_bytes = 0;
  relocation_form = 0;
  bound = false;
}

unfoldable pub dynamic_table : List ℕ → Option DynamicTable
dynamic_table bytes =
    if ltb max_dynamic_bytes (length bytes)
    then none
    else dynamic_from (rounds_of (length bytes) dynamic_entry_bytes) bytes 0 no_fields

pub record JumpSlots : Type 0 where
  pub offsets : List ℕ
  pub truncated : Bool

-- One round of the loop of `jump_slots`.
unfoldable pub take_relocation : ℕ → ℕ → ℕ × ℕ → JumpSlots → JumpSlots
take_relocation jump_slot limit entry s =
    if not (bit_and entry.1 0xffffffff == jump_slot)
    then s
    else if length s.offsets == limit
    then record s { truncated = true }
    else record s { offsets = s.offsets ++ entry.0 ∷ [] }

unfoldable pub slots_from : ℕ → ℕ → ℕ → List ℕ → ℕ → JumpSlots → Option JumpSlots
slots_from jump_slot limit zero bytes at s = some s
slots_from jump_slot limit (suc rounds) bytes at s = entry_at bytes at >>= λ entry.
    slots_from jump_slot limit rounds bytes (at + rela_entry_bytes)
      (take_relocation jump_slot limit entry s)

unfoldable pub jump_slots : List ℕ → ℕ → ℕ → Option JumpSlots
jump_slots bytes jump_slot limit =
    if ltb max_relocation_bytes (length bytes) || not (length bytes % rela_entry_bytes == 0)
    then none
    else slots_from jump_slot limit (rounds_of (length bytes) rela_entry_bytes) bytes 0
        (record { offsets = []; truncated = false })
