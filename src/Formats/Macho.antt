-- ===== src/Formats/Macho.antt =====
-- The readers of Mach-O images (crates/fidelity-formats/src/macho), with what the readers of load
-- commands share.
pub mod Signature
pub mod Entitlements
pub mod Commands
pub mod Image
pub mod Dispatch
