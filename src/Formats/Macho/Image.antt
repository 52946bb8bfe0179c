-- ===== src/Formats/Macho/Image.antt =====
-- Where an image has its code signature (crates/fidelity-formats/src/macho/image.rs).
pub mod Inside
pub mod Standing
pub mod Known
use fidelity.Common.{
  ℕ, zero, suc, ◌+◌, ◌*◌, Bool, true, false, not, ◌&&◌, ◌||◌, Option, none, some, List, [], ◌∷◌,
  length, get_elem?, take, is_some, ltb, leb, ◌==◌, if◌then◌else◌, ◌>>=◌,
}
use fidelity.Common.Int.{ℤ, checked_add_signed}
use fidelity.Common.Chars.{starts_with}
use fidelity.Formats.Bytes.{checked_add, checked_sub, slice, read_u32, read_u64}
use fidelity.Formats.Macho.Commands.{
  Command, command_at, max_command_bytes, segment_command_bytes, lc_segment_64,
}

abbrev pub signature_command_bytes : ℕ
signature_command_bytes = 16

abbrev pub lc_code_signature : ℕ
lc_code_signature = 0x1d

-- "__LINKEDIT"
abbrev pub linkedit_name : List ℕ
linkedit_name = 95 ∷ 95 ∷ 76 ∷ 73 ∷ 78 ∷ 75 ∷ 69 ∷ 68 ∷ 73 ∷ 84 ∷ []

abbrev pub max_signature_bytes : ℕ
max_signature_bytes = 16 * 1024 * 1024

pub record SignatureLayout : Type 0 where
  pub address : ℕ
  pub bytes : ℕ

pub record Linkedit : Type 0 where
  pub vmaddr : ℕ
  pub fileoff : ℕ
  pub filesize : ℕ

pub record SignatureData : Type 0 where
  pub dataoff : ℕ
  pub datasize : ℕ

-- `fit`
unfoldable pub fit : Linkedit → SignatureData → ℤ → Option SignatureLayout
fit l d slide = if d.datasize == 0 || ltb max_signature_bytes d.datasize then none else do
  end ← checked_add d.dataoff d.datasize
  mapped_end ← (if ltb d.dataoff l.fileoff then none else checked_add l.fileoff l.filesize)
  base ← (if ltb mapped_end end then none else checked_sub l.vmaddr l.fileoff)
  unslid ← checked_add base d.dataoff
  address ← checked_add_signed unslid slide
  some record { address = address; bytes = d.datasize }

-- What the loop read so far.
pub record Seen : Type 0 where
  pub linkedit : Option Linkedit
  pub signature : Option SignatureData

is_zero : Option ℕ → Bool
is_zero none = false
is_zero (some byte) = byte == 0

-- `starts_with` and the zero byte behind the name.
pub is_linkedit : List ℕ → Bool
unfolding is_zero
is_linkedit name = starts_with name linkedit_name && is_zero (get_elem? name (length linkedit_name))

unfoldable pub linkedit_at : List ℕ → ℕ → Option Linkedit
linkedit_at commands at = do
  address_at ← checked_add at 24
  vmaddr ← read_u64 commands address_at
  offset_at ← checked_add at 40
  fileoff ← read_u64 commands offset_at
  size_at ← checked_add at 48
  filesize ← read_u64 commands size_at
  some record { vmaddr = vmaddr; fileoff = fileoff; filesize = filesize }

unfoldable pub signature_at : List ℕ → ℕ → Option SignatureData
signature_at commands at = do
  offset_at ← checked_add at 8
  dataoff ← read_u32 commands offset_at
  size_at ← checked_add at 12
  datasize ← read_u32 commands size_at
  some record { dataoff = dataoff; datasize = datasize }

-- The case of a segment.
unfoldable pub take_segment : List ℕ → ℕ → Seen → Option Seen
unfolding is_linkedit
take_segment commands at seen = do
  name_at ← checked_add at 8
  name_end ← checked_add at 24
  name ← slice commands name_at name_end
  if not (is_linkedit name)
      then some seen
      else if is_some seen.linkedit
      then none
      else linkedit_at commands at >>= λ l. some (record seen { linkedit = some l })

-- The case of a signature.
unfoldable pub take_signature : List ℕ → ℕ → Seen → Option Seen
take_signature commands at seen =
    if is_some seen.signature
    then none
    else signature_at commands at >>= λ d. some (record seen { signature = some d })

-- The cases of a command.
unfoldable pub take_command : List ℕ → ℕ → Command → Seen → Option Seen
take_command commands at c seen =
    if c.kind == lc_segment_64 && leb segment_command_bytes c.size
    then take_segment commands at seen
    else if c.kind == lc_code_signature && leb signature_command_bytes c.size
    then take_signature commands at seen
    else if c.kind == lc_segment_64 || c.kind == lc_code_signature
    then none
    else some seen

-- The loop, by the commands that are left: where it ends, and what it read.
unfoldable pub commands_from : ℕ → List ℕ → ℕ → Seen → Option (ℕ × Seen)
commands_from zero commands at seen = some (at, seen)
commands_from (suc left) commands at seen = command_at commands at >>= λ c.
    take_command commands at c seen >>= λ seen'. commands_from left commands c.end seen'

unfoldable pub signature_layout : List ℕ → ℕ → ℤ → Option SignatureLayout
signature_layout commands command_count slide =
    if ltb max_command_bytes (length commands) then none else do
      ended ← commands_from command_count commands 0 (record { linkedit = none; signature = none })
      l ← (if not (ended.0 == length commands) then none else ended.1.linkedit)
      d ← ended.1.signature
      fit l d slide
