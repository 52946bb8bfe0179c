-- ===== src/Detect.antt =====
-- The built-in detectors, from the facts of an environment to outcomes (crates/fidelity-detect/src).
pub mod Inventory
pub mod Detectors
pub mod Snapshots
pub mod Scan
