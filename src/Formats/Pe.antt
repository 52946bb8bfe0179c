-- ===== src/Formats/Pe.antt =====
-- The readers of Windows images (crates/fidelity-formats/src/pe/mod.rs).
pub mod Slots
pub mod Imports
pub mod Certificate
use fidelity.Common.{
  ℕ, zero, suc, ◌+◌, ◌*◌, ◌^◌, Bool, true, false, not, ◌&&◌, ◌||◌, Option, none, some, List, [],
  ◌∷◌, ◌++◌, length, is_empty, ltb, leb, ◌==◌, if◌then◌else◌, ◌>>=◌,
}
use fidelity.Formats.Bytes.{checked_add, checked_mul, slice, read_u16, read_u32, read_u64}

abbrev pub dos_signature : ℕ
dos_signature = 0x5a4d

abbrev pub nt_signature : ℕ
nt_signature = 0x4550

abbrev pub optional_magic_64 : ℕ
optional_magic_64 = 0x20b

abbrev pub e_lfanew : ℕ
e_lfanew = 60

abbrev pub optional_from_nt : ℕ
optional_from_nt = 24

abbrev pub optional_size_from_nt : ℕ
optional_size_from_nt = 20

abbrev pub data_directory : ℕ
data_directory = 112

abbrev pub directory_count : ℕ
directory_count = 108

abbrev pub import_directory : ℕ
import_directory = 1

abbrev pub certificate_directory : ℕ
certificate_directory = 4

abbrev pub directory_entry : ℕ
directory_entry = 8

abbrev pub import_descriptor : ℕ
import_descriptor = 20

abbrev pub when : {A : Type 0} → Bool → Option A → Option A
when b o = if b then o else none

unfoldable pub optional_header : List ℕ → Option (List ℕ)
optional_header image = do
  dos ← read_u16 image 0
  nt ← when (dos == dos_signature) (read_u32 image e_lfanew)
  signature ← read_u32 image nt
  size_offset ← when (signature == nt_signature) (checked_add nt optional_size_from_nt)
  size ← read_u16 image size_offset
  start ← checked_add nt optional_from_nt
  end ← checked_add start size
  optional ← slice image start end
  magic ← read_u16 optional 0
  when (magic == optional_magic_64) (some optional)

unfoldable pub directory : List ℕ → ℕ → Option (ℕ × ℕ)
directory optional index = do
  count ← read_u32 optional directory_count
  entries ← when (ltb index count) (checked_mul index directory_entry)
  offset ← checked_add data_directory entries
  address ← read_u32 optional offset
  size_at ← checked_add offset 4
  size ← read_u32 optional size_at
  if address == 0 || size == 0 then none else some (address, size)

unfoldable pub certificate_table : List ℕ → Option (List ℕ)
certificate_table image = do
  optional ← optional_header image
  entry ← directory optional certificate_directory
  end ← (if entry.0 == 0 || entry.1 == 0 then none else checked_add entry.0 entry.1)
  slice image entry.0 end

-- One entry of the table of thunks: its end, or a slot with its value.
pub data Thunk : Type 0 where
  last : Thunk
  slot : ℕ → ℕ → Thunk

unfoldable pub thunk_at : List ℕ → ℕ → ℕ → ℕ → ℕ → Option Thunk
thunk_at image base count_table address_table index = do
  delta ← checked_mul index 8
  count_offset ← checked_add count_table delta
  counted ← read_u64 image count_offset
  if counted == 0 then some last else do
    slot_offset ← checked_add address_table delta
    value ← read_u64 image slot_offset
    address ← checked_add base slot_offset
    some (slot address value)

-- How the walk of one table, or of all, ends: without fuel, with `None`, early with the most slots, or
-- at its end.
pub data Walked : Type 0 where
  exhausted refused : Walked
  full : List (ℕ × ℕ) → Walked
  ended : List (ℕ × ℕ) → Walked

with_thunk : Option Thunk → List (ℕ × ℕ) → (List (ℕ × ℕ) → Walked) → Walked
with_thunk none slots next = refused
with_thunk (some last) slots next = ended slots
with_thunk (some (slot address value)) slots next = next (slots ++ (address, value) ∷ [])

-- The inner loop, from one index on.
unfoldable pub thunks_from : ℕ → List ℕ → ℕ → ℕ → ℕ → ℕ → ℕ → List (ℕ × ℕ) → Walked
unfolding with_thunk
thunks_from zero image base most count_table address_table index slots = exhausted
thunks_from (suc fuel) image base most count_table address_table index slots =
    let go =
      with_thunk (thunk_at image base count_table address_table index) slots
        λ slots'. thunks_from fuel image base most count_table address_table (suc index) slots' in
    if leb most (length slots) then full slots else go

-- What a descriptor says: that it is malformed, the last, or where its tables stand.
pub data Descriptor : Type 0 where
  malformed final : Descriptor
  tables : ℕ → ℕ → Descriptor

unfoldable pub describe : ℕ → ℕ → ℕ → Descriptor
describe lookup name address_table =
    if name == 0 && address_table == 0
    then final
    else if address_table == 0
    then malformed
    else tables (if lookup == 0 then address_table else lookup) address_table

unfoldable pub descriptor_at : List ℕ → ℕ → Option Descriptor
descriptor_at image descriptor = do
  lookup ← read_u32 image descriptor
  name_at ← checked_add descriptor 12
  name ← read_u32 image name_at
  address_at ← checked_add descriptor 16
  address_table ← read_u32 image address_at
  some (describe lookup name address_table)

-- `found_end && !slots.is_empty()`; the walk that ends without a last descriptor is refused.
or_refused : List (ℕ × ℕ) → Walked
or_refused slots = if is_empty slots then refused else ended slots

after_table : Walked → (List (ℕ × ℕ) → Walked) → Walked
after_table exhausted next = exhausted
after_table refused next = refused
after_table (full slots) next = full slots
after_table (ended slots) next = next slots

with_descriptor :
    Option Descriptor → (ℕ → ℕ → Walked) → List (ℕ × ℕ) → (List (ℕ × ℕ) → Walked) → Walked
unfolding or_refused after_table
with_descriptor none walk_table slots next = refused
with_descriptor (some malformed) walk_table slots next = refused
with_descriptor (some final) walk_table slots next = or_refused slots
with_descriptor (some (tables count_table address_table)) walk_table slots next =
    after_table (walk_table count_table address_table) next

-- The outer loop, from one descriptor on; a thunk takes eight bytes of the image, so its length is
-- fuel enough for the inner loop.
unfoldable pub descriptors_from : ℕ → List ℕ → ℕ → ℕ → ℕ → ℕ → List (ℕ × ℕ) → Walked
unfolding with_descriptor
descriptors_from zero image base most directory_end descriptor slots = exhausted
descriptors_from (suc fuel) image base most directory_end descriptor slots =
    elim (checked_add descriptor import_descriptor) [
      | none ↦ refused
      | some next ↦
          let go =
            with_descriptor (descriptor_at image descriptor)
              (λ count_table address_table.
                thunks_from (suc (length image)) image base most count_table address_table 0 slots)
              slots (λ slots'. descriptors_from fuel image base most directory_end next slots') in
          if leb next directory_end then go else refused
    ]

-- A descriptor takes twenty bytes of the directory, so its end is fuel enough.
unfoldable pub walk_imports : List ℕ → ℕ → ℕ → Option Walked
walk_imports image base most = do
  optional ← optional_header image
  entry ← directory optional import_directory
  directory_end ← checked_add entry.0 entry.1
  body ← slice image entry.0 directory_end
  some (descriptors_from (suc directory_end) image base most directory_end entry.0 [])

slots_of : Walked → Option (List (ℕ × ℕ))
slots_of exhausted = none
slots_of refused = none
slots_of (full slots) = some slots
slots_of (ended slots) = some slots

unfoldable pub mapped_import_slots : List ℕ → ℕ → ℕ → Option (List (ℕ × ℕ))
unfolding slots_of
mapped_import_slots image base most = walk_imports image base most >>= slots_of
