-- ===== src/Probe.antt =====
-- The probes of the platforms, over what the operating system answers (crates/probe).
pub mod Linux
