-- ===== src/Cipher/Hex.antt =====
-- The hexadecimal form of a digest (`hex` in crates/fidelity-cipher/src/sha256.rs).
pub mod Trip
use fidelity.Common.{ℕ, ◌+◌, ◌-◌, ◌/◌, ◌%◌, List, [], ◌∷◌, ltb, if◌then◌else◌}
use fidelity.Common.Text.{Text}

-- `char::from_digit(nibble, 16)`, or '0' where there is none.
unfoldable pub digit : ℕ → ℕ
digit nibble =
    if ltb nibble 10 then b'0' + nibble else if ltb nibble 16 then b'a' + (nibble - 10) else b'0'

-- `byte >> 4` and `byte & 0x0f`
unfoldable pub hex : List ℕ → Text
hex [] = []
hex (byte ∷ digest) = digit (byte / 16) ∷ digit (byte % 16) ∷ hex digest
