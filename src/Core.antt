-- ===== src/Core.antt =====
-- The facts that a probe reports, and how two snapshots compare (crates/fidelity-core/src).
mod Sweep
mod Keyed
pub mod Facts
pub mod Regions
pub mod Targets
pub mod Environment
pub mod LocalAgent
