-- ===== src/Engine.antt =====
-- The portable runtime: policy, retained state, pending reports and the worker
-- (crates/fidelity-engine/src).
pub mod Policy
pub mod State
pub mod Pending
pub mod Worker
