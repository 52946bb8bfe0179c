-- ===== src/Cipher.antt =====
-- The cipher of guarded constants (crates/fidelity-cipher/src).
pub mod Sha256
pub mod Stream
pub mod Derivation
pub mod Binding
pub mod Hex
