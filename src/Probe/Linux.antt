-- ===== src/Probe/Linux.antt =====
-- The Linux probe (crates/probe/fidelity-probe-linux/src): what the kernel and the loader answer is a
-- record, and the capabilities are functions of it.
pub mod System
pub mod Loader
pub mod Firmware
pub mod Capabilities
pub mod Mapped
pub mod Listed
pub mod Reports
pub mod Registered
