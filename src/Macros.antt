-- ===== src/Macros.antt =====
-- The macros `guarded!` and `guarded_bytes!` (crates/fidelity-macros/src).
pub mod Literal
pub mod Expand
