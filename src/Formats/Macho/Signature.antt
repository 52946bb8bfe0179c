-- ===== src/Formats/Macho/Signature.antt =====
-- The entitlements slot of a code signature (crates/fidelity-formats/src/macho/signature.rs).
pub mod Within
use fidelity.Common.{
  ℕ, zero, suc, ◌+◌, ◌*◌, ◌^◌, Bool, not, Option, none, some, List, [], ◌∷◌, length, ltb, ◌==◌,
  if◌then◌else◌, ◌>>=◌,
}
use fidelity.Formats.Bytes.{checked_add, checked_mul, slice}

abbrev pub superblob_magic : ℕ
superblob_magic = 0xfade0cc0

abbrev pub entitlements_magic : ℕ
entitlements_magic = 0xfade7171

abbrev pub entitlements_slot : ℕ
entitlements_slot = 5

abbrev pub header : ℕ
header = 8

abbrev pub superblob_header : ℕ
superblob_header = 12

abbrev pub index_entry : ℕ
index_entry = 8

abbrev pub max_signature : ℕ
max_signature = 16 * 1024 * 1024

-- `u32::from_be_bytes`, from the number of the bytes before.
abbrev be_number : ℕ → List ℕ → ℕ
be_number n [] = n
be_number n (b ∷ bs) = be_number (n * 256 + b) bs

unfoldable pub read_u32 : List ℕ → ℕ → Option ℕ
read_u32 bytes at = do end ← checked_add at 4; field ← slice bytes at end; some (be_number 0 field)

-- The blob that an entry names.
unfoldable pub blob_at : List ℕ → ℕ → Option (List ℕ)
blob_at signature at = do
  magic ← read_u32 signature at
  length_at ← checked_add at 4
  size ← (if not (magic == entitlements_magic) then none else read_u32 signature length_at)
  start ← checked_add at header
  end ← checked_add at size
  slice signature start end

-- Where the entry of a slot stands.
abbrev pub entry_of : ℕ → Option ℕ
entry_of slot = checked_mul slot index_entry >>= λ bytes. checked_add superblob_header bytes

-- The loop over the slots, by the number that is left.
unfoldable pub slots_from : ℕ → List ℕ → ℕ → Option (List ℕ)
slots_from zero signature slot = none
slots_from (suc left) signature slot = do
  entry ← entry_of slot
  kind ← read_u32 signature entry
  let later = slots_from left signature (suc slot)
  let here = checked_add entry 4 >>= λ offset_at.
      read_u32 signature offset_at >>= λ at. blob_at signature at
  if not (kind == entitlements_slot) then later else here

unfoldable pub entitlements : List ℕ → Option (List ℕ)
entitlements bytes = if ltb max_signature (length bytes) then none else do
  magic ← read_u32 bytes 0
  declared ← (if not (magic == superblob_magic) then none else read_u32 bytes 4)
  signature ← slice bytes 0 declared
  count ← read_u32 signature 8
  slots_from count signature 0
