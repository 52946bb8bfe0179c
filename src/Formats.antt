-- ===== src/Formats.antt =====
-- The readers of file formats (crates/fidelity-formats/src).
pub mod Bytes
pub mod Parts
pub mod Words
pub mod Zip
pub mod Signing
pub mod Procfs
pub mod Elf
pub mod Macho
pub mod Pe
pub mod Smbios
