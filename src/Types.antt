-- ===== src/Types.antt =====
-- The public types of the library (crates/fidelity-types/src).
pub mod Category
pub mod CategorySet
pub mod Evidence
pub mod Finding
pub mod Snapshot
pub mod Identity
pub mod Interface
