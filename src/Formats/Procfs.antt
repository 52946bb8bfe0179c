-- ===== src/Formats/Procfs.antt =====
-- The readers of the process files (crates/fidelity-formats/src/procfs).
pub mod Maps
pub mod Archive
pub mod Status
