-- ===== src/Lib.antt =====
-- Verification of fidelity, a run-time protection library (crates/).
--
-- The program. A host builds a configuration and starts one runtime for its process. The runtime
-- reads the environment through probes, detectors turn what they read into findings, and a policy
-- gives each category of finding an action: report it, deny protected operations for good, call
-- the host, or stop the process. A worker thread repeats the scan. The host checks for a denial
-- before each protected operation, and reads a snapshot of the retained state.
--
-- The parts, from the bottom, and where each is modelled:
--   * Common: shared notation, Boolean tests on the native numbers, lists, bits, bytes, sorting; Chars
--     has the functions of Rust's `str` that the program calls, over lists of code points, Utf8 the
--     decoding of bytes, and Int the signed slide of an image.
--   * Types (crates/fidelity-types/src): Category and CategorySet are category.rs, the set being a
--     32-bit word; Evidence is evidence.rs, whose text is a list of bytes; Finding is strength.rs,
--     action.rs, detector.rs, finding.rs and outcome.rs; Snapshot, Interface and Identity are the
--     files of their names.
--   * Core (crates/fidelity-core/src): Facts and Environment are the answers of the probes; a
--     capability is a call that returns an observation or panics. Regions is fact/baseline.rs and
--     Targets is fact/dispatch.rs; Sweep and Keyed hold the loop that both share. LocalAgent is
--     capability/local_agent.rs; what its socket answers is a record.
--   * Detect (crates/fidelity-detect/src): Inventory has the identities of the detectors,
--     Detectors those that read one fact, Snapshots the two that compare with the start, and Scan
--     the guard (`guarded`) and the two scans (`scan_cheap`, `scan_all`).
--   * Cipher (crates/fidelity-cipher/src): Sha256 is sha256.rs; Stream has the two streams of lib.rs
--     and Derivation the derivation of keys and salts there; Binding is binding.rs, whose strings are
--     lists of code points; Hex is the `hex` of sha256.rs.
--   * Macros (crates/fidelity-macros/src): Literal is literal.rs and Expand is lib.rs; the emitted code
--     is a record of what is written in it.
--   * Formats (crates/fidelity-formats/src): Bytes is the bounded reading of little-endian words, and
--     Words has its laws; Zip and Signing are apk/zip.rs and apk/signing.rs; Procfs/Maps and
--     Procfs/Archive are procfs/maps.rs and Procfs/Status is procfs/status.rs; Elf is elf/mod.rs; the
--     children of Macho are the files of their names in macho/, with the load commands that two of
--     them read in Commands; Pe is pe/mod.rs; Smbios is smbios/system.rs and smbios/vendor.rs. Parts
--     has the stretches of bytes that the proofs speak of.
--   * Probe/Linux (crates/probe/fidelity-probe-linux/src): System is what the kernel and the loader
--     answer, Loader is sys/catalog.rs and sys/dispatch.rs, Firmware is sys/dmi.rs and emulation.rs, and
--     Capabilities has the other files and the environment that they make. Listed, Mapped,
--     Reports and Registered are about these composed with the readers and the detectors.
--   * Engine (crates/fidelity-engine/src): Policy, State, Pending and Worker are the files of
--     their names. `record_scans` is `record`, `record_outcome` is `State::record`, and
--     `record_slot` is `Slot::record`.
--   * Facade (crates/fidelity/src): Process is the atomics of lib.rs and the check of handle.rs;
--     Handle is handle.rs; Secret is secret.rs; Coverage and Start are builder.rs; Runtime takes the
--     turn of the worker apart into the steps between which a host may act; Locking takes apart what
--     happens under the lock of the state.
--   * Tests has one example of each result below.
--
-- How they interact. The worker, the handle and the callback share one store: the words of the
-- process, the state, the queue of host reports, and the rest of the world, which is a type of the
-- reader's choice. A callback is a function of the finding and the store that says which calls of
-- the handle it makes and whether it panics. The operations pass the store explicitly; a scan
-- reads an environment whose every call may answer anything or panic. The engine reaches the
-- facade through a record of two hooks, and what its proofs need of them is the record `Latches`,
-- which the facade's own hooks meet.
--
-- Numbers. Times, counters and words are native natural numbers; the occurrence counter saturates
-- at the greatest 32-bit number, the sum of region sizes wraps at 64 bits, and the xorshift of the
-- schedule keeps to 64 bits. The set iterator runs on fuel 7, one more than the categories, and the
-- number of turns of the worker, which never ends by itself, is a parameter. The walk of a signing
-- block runs on the length of the block, and every pair takes at least twelve bytes of it. The loops of
-- ELF run on the number of entries that the bytes can hold. The walk over PE imports runs on the end of
-- the directory, of which a descriptor takes twenty bytes, and on the length of the image, of which a
-- slot takes eight. The walk over a firmware table runs on its length, and so does the search for the
-- end of the strings; the search for a key runs on the length of the text. A loop on fuel has a result of
-- its own for running out of it. The loops over load commands run on the stated count, and the reading
-- of a response on the events that the socket delivers.
--
-- Not modelled: the probes of the other systems, and the foreign calls of the Linux probe, whose
-- answers are a record; the selection of a probe by the build; the text of messages, of diagnostics and of the emitted code; that the overwriting of a guarded value
-- survives the optimiser; the announcements of the lifecycle; the sleep of the worker and the waiting
-- inside the condition variable; the poisoning of a lock, from which every caller recovers; a process
-- built to abort where it panics.
pub mod Common
pub mod Types
pub mod Core
pub mod Detect
pub mod Cipher
pub mod Macros
pub mod Probe
pub mod Formats
pub mod Engine
pub mod Facade
pub mod Tests
