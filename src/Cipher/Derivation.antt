-- ===== src/Cipher/Derivation.antt =====
-- The salt and the key of a guarded constant (crates/fidelity-cipher/src/lib.rs).
pub mod Laws
use fidelity.Common.{ℕ, ◌/◌, ◌%◌, ◌^◌, List, [], ◌∷◌, ◌++◌, length, take, if◌then◌else◌, ltb}
use fidelity.Cipher.Sha256.{sha256}

-- `u64::to_le_bytes`.
abbrev pub le_bytes_64 : ℕ → List ℕ
le_bytes_64 n =
    n % 256
    ∷ n / 2 ^ 8 % 256
    ∷ n / 2 ^ 16 % 256
    ∷ n / 2 ^ 24 % 256
    ∷ n / 2 ^ 32 % 256
    ∷ n / 2 ^ 40 % 256
    ∷ n / 2 ^ 48 % 256
    ∷ n / 2 ^ 56 % 256
    ∷ []

-- One part of an input: its length, and its bytes.
unfoldable pub framed : List ℕ → List ℕ
framed part = le_bytes_64 (length part) ++ part

unfoldable pub salt_input : List ℕ → List ℕ → List ℕ
salt_input seed text = framed seed ++ framed text

unfoldable pub derive_salt : List ℕ → List ℕ → List ℕ
derive_salt seed text = take 16 (sha256 (salt_input seed text))

abbrev pub cap : ℕ
cap = 64

unfoldable pub reduced : List ℕ → List ℕ
reduced part = if ltb cap (length part) then sha256 part else part

unfoldable pub key_input : List ℕ → List ℕ → List ℕ
key_input salt identity = framed (reduced salt) ++ framed (reduced identity)

unfoldable pub derive_key : List ℕ → List ℕ → List ℕ
derive_key salt identity = sha256 (key_input salt identity)
