-- ===== src/Tests.antt =====
-- Examples: each theorem of the results, at a concrete input.
mod Data
mod Words
mod Cipher
mod Formats
mod Macros
mod Readers
mod Probe
mod Agent
mod Images
mod Engine
mod Scans
mod Facade
