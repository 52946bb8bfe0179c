-- ===== src/Facade.antt =====
-- The facade: the words of the process, the handle, and the start (crates/fidelity/src).
pub mod Process
pub mod Handle
pub mod Secret
pub mod Coverage
pub mod Start
pub mod Runtime
pub mod Locking
