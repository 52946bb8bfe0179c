-- ===== src/Formats/Signing.antt =====
-- The signing block of an Android archive (crates/fidelity-formats/src/apk/signing.rs).
pub mod Walk
pub mod Parts
use fidelity.Common.{
  ℕ, zero, suc, ◌+◌, ◌-◌, ◌*◌, ◌^◌, Bool, true, false, ◌&&◌, not, Option, none, some, List, [], ◌∷◌,
  length, drop, or_else, is_some, if◌then◌else◌, ltb, leb, ◌==◌, ◌>>=◌,
}
use fidelity.Formats.Bytes.{checked_add, checked_sub, slice, same_bytes, read_u32, read_u64}

-- "APK Sig Block 42"
abbrev pub magic : List ℕ
magic = 65 ∷ 80 ∷ 75 ∷ 32 ∷ 83 ∷ 105 ∷ 103 ∷ 32 ∷ 66 ∷ 108 ∷ 111 ∷ 99 ∷ 107 ∷ 32 ∷ 52 ∷ 50 ∷ []

abbrev pub footer_size : ℕ
footer_size = 24

-- 0x7109871a, 0xf05368c0 and 0x1b93ad61
abbrev pub scheme_v2 : ℕ
scheme_v2 = 1896449818

abbrev pub scheme_v3 : ℕ
scheme_v3 = 4031998144

abbrev pub scheme_v31 : ℕ
scheme_v31 = 462663009

abbrev pub max_block : ℕ
max_block = 4 * 1024 * 1024

-- `bytes.get(at..)`
suffix : List ℕ → ℕ → Option (List ℕ)
suffix bytes at = if leb at (length bytes) then some (drop at bytes) else none

pub block_length : List ℕ → Option ℕ
unfolding suffix
block_length footer = do
  at ← checked_sub (length footer) footer_size
  magic_at ← checked_add at 8
  stated ← suffix footer magic_at
  size ← (if same_bytes stated magic then read_u64 footer at else none)
  if ltb max_block size then none else checked_add size 8

-- One length-prefixed element.
unfoldable pub element : List ℕ → ℕ → Option (List ℕ)
element bytes at = do
  size ← read_u32 bytes at
  start ← checked_add at 4
  end ← checked_add start size
  slice bytes start end

unfoldable pub certificate : List ℕ → Option (List ℕ)
certificate scheme = do
  signers ← element scheme 0
  signer ← element signers 0
  signed_data ← element signer 0
  digests ← element signed_data 0
  after ← checked_add 4 (length digests)
  certificates ← element signed_data after
  element certificates 0

-- One pair of the block: its identifier, its value, and where it ends.
pub record Pair : Type 0 where
  pub identifier : ℕ
  pub value : List ℕ
  pub end : ℕ

unfoldable pub pair_at : List ℕ → ℕ → Option Pair
pair_at block at = do
  size ← read_u64 block at
  identifier_at ← checked_add at 8
  identifier ← read_u32 block identifier_at
  start ← checked_add at 12
  end_size ← checked_add at 8
  end ← checked_add end_size size
  value ← slice block start end
  some record { identifier = identifier; value = value; end = end }

-- What the walk read so far, by scheme.
pub record Schemes : Type 0 where
  pub v31 : Option (List ℕ)
  pub v3 : Option (List ℕ)
  pub v2 : Option (List ℕ)

unfoldable pub take_pair : Pair → Schemes → Schemes
take_pair p s =
    if p.identifier == scheme_v31 && not (is_some s.v31)
    then record s { v31 = certificate p.value }
    else if p.identifier == scheme_v3 && not (is_some s.v3)
    then record s { v3 = certificate p.value }
    else if p.identifier == scheme_v2 && not (is_some s.v2)
    then record s { v2 = certificate p.value }
    else s

-- How a walk on fuel ends.
pub data Walked : Type 0 where
  exhausted refused : Walked
  walked : Schemes → Walked

unfoldable pub walk : ℕ → List ℕ → ℕ → ℕ → Schemes → Walked
walk zero block trailing at s = if ltb at trailing then exhausted else walked s
walk (suc fuel) block trailing at s = elim (pair_at block at) [
  | none ↦ if ltb at trailing then refused else walked s
  | some p ↦
      let rest = walk fuel block trailing p.end (take_pair p s) in
      if ltb at trailing then rest else walked s
]

unfoldable pub prefer : Walked → Option (List ℕ)
prefer exhausted = none
prefer refused = none
prefer (walked s) = or_else s.v31 (or_else s.v3 s.v2)

-- Every pair takes at least twelve bytes, so the length of the block is fuel enough.
unfoldable pub walk_block : List ℕ → ℕ → Walked
walk_block block trailing =
    walk (length block) block trailing 8 (record { v31 = none; v3 = none; v2 = none })

unfoldable pub signer_certificate : List ℕ → Option (List ℕ)
signer_certificate block = if ltb max_block (length block) then none else do
  trailing ← checked_sub (length block) footer_size
  leading_size ← read_u64 block 0
  trailing_size ← read_u64 block trailing
  if leading_size == trailing_size then prefer (walk_block block trailing) else none
