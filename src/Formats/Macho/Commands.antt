-- ===== src/Formats/Macho/Commands.antt =====
-- The header of a load command, which `dispatch_layout` and `signature_layout` read alike
-- (crates/fidelity-formats/src/macho).
use fidelity.Common.{
  ℕ, ◌+◌, ◌*◌, ◌≤◌, ◌≡◌, Option, none, some, List, length, ltb, if◌then◌else◌, ◌>>=◌, arith,
}
use fidelity.Formats.Bytes.{checked_add, slice, read_u32}

abbrev pub max_command_bytes : ℕ
max_command_bytes = 4 * 1024 * 1024

abbrev pub load_command_bytes : ℕ
load_command_bytes = 8

abbrev pub segment_command_bytes : ℕ
segment_command_bytes = 72

abbrev pub lc_segment_64 : ℕ
lc_segment_64 = 0x19

pub record Command : Type 0 where
  pub kind : ℕ
  pub size : ℕ
  pub end : ℕ

-- A command that stands inside the commands with all its bytes.
unfoldable pub command_at : List ℕ → ℕ → Option Command
command_at commands at = do
  kind ← read_u32 commands at
  size_at ← checked_add at 4
  size ← read_u32 commands size_at
  end ← (if ltb size load_command_bytes then none else checked_add at size)
  body ← slice commands at end
  some record { kind = kind; size = size; end = end }

pub command_at-end :
    (commands : List ℕ) (at : ℕ) (c : Command)
    → command_at commands at ≡ some c
    → (8 ≤ c.size) × (c.end ≡ at + c.size) × (c.end ≤ length commands)
unfolding command_at
command_at-end commands at c h = ground arith
