-- ===== src/Probe/Linux/Reports.antt =====
-- What a clean outcome of a detector says of the answers of a Linux system.
use fidelity.Common.{
  ℕ, ◌<◌, ◌≡◌, ◌≢◌, ◌↔◌, refl, ap, min, Bool, true, false, Option, none, some, List, [], ◌∷◌,
  length, All, keep, is_empty, if◌then◌else◌, ◌==◌, arith, some-injective,
}
use fidelity.Common.Chars.{Chars, lines}
use fidelity.Types.Evidence.{BoundedText}
use fidelity.Types.Identity.{ExpectedIdentity, value}
use fidelity.Cipher.Sha256.{sha256}
use fidelity.Formats.Bytes.{same_bytes}
use fidelity.Types.Finding.{Outcome, clean}
use fidelity.Core.Environment.{returned}
use fidelity.Core.Facts
use fidelity.Formats.Procfs.Status.{TracerPid, no_tracer, traced_by, tracer_pid}
use fidelity.Formats.Procfs.Maps
use fidelity.Formats.Procfs.Maps.{
  Mapping, Origin, file, deleted, anonymous, named, mapping, accounted, had_a_file, has_no_file,
  u32_max, executable_mappings, outside_loader, all_accounted, no_gap,
}
use fidelity.Formats.Procfs.Maps.Counts.{none-executable_mappings, unaccounted-keep}
use fidelity.Detect.Detectors.{
  tracer_outcome, tracer_present, code_outcome, unaccounted_code, host_outcome, machine_host,
  identity_outcome, expected_identity,
}
use fidelity.Probe.Linux.System.{System}
use fidelity.Probe.Linux.Firmware
use fidelity.Probe.Linux.Firmware.{
  IoResult, by_monitor, by_bus, named_monitor, holds_a_paravirtual_device,
}
use fidelity.Probe.Linux.Capabilities.{
  environment, tracer_state, tracer_of_status, tracer_of_field, code_origin, origin_of_maps,
  origin_of, identity_match, match_of, by_choice, compare,
}

pub no_elements :
    {A : Type 0} (bound : ℕ) (xs : List A) (n : ℕ)
    → 0 < bound
    → n ≡ min bound (length xs)
    → (n == 0) ≡ is_empty xs
no_elements bound [] n h e = rw e (ground arith)
no_elements bound (x ∷ xs) n h e = ground arith

-- A detector that reads a file is clean exactly where the file opened and its text is clean.
pub clean_iff :
    {A : Type 0} (P : A → Type 0) (outcome : Option A → Outcome) (file : Option A)
    → outcome none ≢ clean
    → ((text : A) → (outcome (some text) ≡ clean) ↔ P text)
    → (returned (outcome file) ≡ returned clean) ↔ ((text : A) × (file ≡ some text) × P text)
clean_iff P outcome none dirty iff = (
  (λ h. absurd (dirty (let e : outcome none ≡ clean = cc in e))),
  (λ k. absurd (let e = k.1 in cc)),
)
clean_iff P outcome (some text) dirty iff = (
  (λ h. (text, refl, (iff text).0 (let e : outcome (some text) ≡ clean = cc in e))),
  (λ k. let same : text ≡ k.0 = some-injective k.1 in ap returned ((iff text).1 (rw same k.2))),
)

read_tracer :
    (now : ℕ) (o : Option TracerPid)
    → (tracer_outcome (tracer_of_field o) now ≡ clean) ↔ (o ≡ some no_tracer)
unfolding tracer_of_field tracer_outcome
read_tracer now (some no_tracer) = ((λ h. refl), (λ h. refl))
read_tracer now (some (traced_by pid)) = ((λ h. absurd cc), (λ h. absurd cc))
read_tracer now none = ((λ h. absurd cc), (λ h. absurd cc))

-- The detector of tracers is clean exactly where the status file opened and names no tracer.
pub tracer_present-clean :
    (system : System) (now : ℕ)
    → (tracer_present (environment system) now ≡ returned clean)
      ↔ ((text : Chars) × (system.status ≡ some text) × (tracer_pid text ≡ some no_tracer))
unfolding tracer_present tracer_state tracer_of_status tracer_outcome
tracer_present-clean system now =
    clean_iff (λ text. tracer_pid text ≡ some no_tracer)
      (λ o. tracer_outcome (tracer_of_status o) now) system.status (λ h. cc)
      (λ text. read_tracer now (tracer_pid text))

code_by_count :
    (now : ℕ) (b : Bool) (regions : ℕ) (detail : BoundedText)
    → (code_outcome
          (if b then Facts.fact Facts.accounted else Facts.fact (Facts.unaccounted regions detail))
          now
        ≡ clean)
      ↔ (b ≡ true)
unfolding code_outcome
code_by_count now true regions detail = ((λ h. refl), (λ h. refl))
code_by_count now false regions detail = ((λ h. absurd cc), (λ h. absurd cc))

-- A mapping has a file that is still there, or a name that the kernel gave it.
abbrev pub HasFile : Origin → Type 0
HasFile (file path) = Unit
HasFile (named name) = Unit
HasFile anonymous = ⊥
HasFile (deleted path) = ⊥

-- Every line that is an executable mapping has a property.
abbrev pub AllMappings : (Mapping → Type 0) → Chars → Type 0
AllMappings P text = All (λ line. (m : Mapping) → mapping line ≡ some m → P m) (lines text)

has_no_file-HasFile : (o : Origin) → (has_no_file o ≡ false) ↔ HasFile o
has_no_file-HasFile (file path) = ((λ h. tt), (λ h. refl))
has_no_file-HasFile (named name) = ((λ h. tt), (λ h. refl))
has_no_file-HasFile anonymous = ((λ h. absurd cc), (λ h. absurd h))
has_no_file-HasFile (deleted path) = ((λ h. absurd cc), (λ h. absurd h))

pub then_iff : {P Q R : Type 0} → P ↔ Q → Q ↔ R → P ↔ R
then_iff pq qr = ((λ p. qr.0 (pq.0 p)), (λ r. pq.1 (qr.1 r)))

counted_code :
    (now : ℕ) (text : Chars)
    → (code_outcome (origin_of (Maps.unaccounted text)) now ≡ clean)
      ↔ AllMappings (λ m. HasFile m.origin) text
unfolding origin_of all_accounted
counted_code now text =
    let left_out = keep (λ m. has_no_file m.origin) (executable_mappings text) in
    rw
      (no_elements u32_max left_out (Maps.unaccounted text).regions (omega arith)
        (unaccounted-keep text).0)
      (then_iff (code_by_count now (is_empty left_out) _ _) (
        none-executable_mappings (λ m. has_no_file m.origin) (λ m. HasFile m.origin)
          (λ m. has_no_file-HasFile m.origin) text))

-- On Linux, the detector of unaccounted code is clean exactly where the mapping table of the
-- process opened and every line of it that is read as an executable mapping has a file that is
-- not deleted, or a name in brackets: none is anonymous or has a deleted file.
pub unaccounted_code-clean :
    (system : System) (now : ℕ)
    → (unaccounted_code (environment system) now ≡ returned clean)
      ↔ ((text : Chars) × (system.maps ≡ some text) × AllMappings (λ m. HasFile m.origin) text)
unfolding unaccounted_code code_origin origin_of_maps code_outcome
unaccounted_code-clean system now =
    clean_iff (λ text. AllMappings (λ m. HasFile m.origin) text)
      (λ o. code_outcome (origin_of_maps o) now) system.maps (λ h. cc)
      (λ text. counted_code now text)

compared :
    (now : ℕ) (b : Bool) (detail : BoundedText)
    → (identity_outcome (Facts.fact (if b then Facts.same else Facts.different detail)) now ≡ clean)
      ↔ (b ≡ true)
unfolding identity_outcome
compared now true detail = ((λ h. refl), (λ h. refl))
compared now false detail = ((λ h. absurd cc), (λ h. absurd cc))

-- On Linux, where the host pins a digest, the detector of the expected identity is clean exactly
-- where the running image opened and its SHA-256 is the pinned value.
pub expected_identity-clean :
    (system : System) (expected : ExpectedIdentity) (pinned : List ℕ) (now : ℕ)
    → expected.linux_choice ≡ some (value pinned)
    → (expected_identity (environment system) (some expected) now ≡ returned clean)
      ↔ ((bytes : List ℕ) × (system.exe ≡ some bytes) × (same_bytes (sha256 bytes) pinned ≡ true))
unfolding expected_identity identity_match identity_outcome match_of by_choice
expected_identity-clean system expected pinned now stated = rw stated (
    clean_iff (λ bytes. same_bytes (sha256 bytes) pinned ≡ true)
      (λ o. identity_outcome (match_of o pinned) now) system.exe (λ h. cc)
      (λ bytes. unfold compare in compared now (same_bytes (sha256 bytes) pinned) _))

judged :
    (now : ℕ) (monitor : IoResult (Option Chars)) (bus : IoResult Bool)
    → (host_outcome (by_monitor monitor (by_bus bus)) now ≡ clean)
      ↔ ((monitor ≡ Firmware.ok none) × (bus ≡ Firmware.ok false))
unfolding host_outcome by_monitor by_bus
judged now (Firmware.ok none) (Firmware.ok false) = ((λ h. (refl, refl)), (λ h. refl))
judged now (Firmware.ok none) (Firmware.ok true) =
    ((λ h. absurd cc), (λ h. absurd (let e = h.1 in cc)))
judged now (Firmware.ok none) (Firmware.err message) =
    ((λ h. absurd cc), (λ h. absurd (let e = h.1 in cc)))
judged now (Firmware.ok (some field)) bus = ((λ h. absurd cc), (λ h. absurd (let e = h.0 in cc)))
judged now (Firmware.err message) bus = ((λ h. absurd cc), (λ h. absurd (let e = h.0 in cc)))

-- The detector of the machine is clean exactly where the firmware fields were read and name no monitor, and
-- the bus was read and lists no device.
pub machine_host-clean :
    (system : System) (now : ℕ)
    → (machine_host (environment system) now ≡ returned clean) ↔ (
        (named_monitor system ≡ Firmware.ok none)
        × (holds_a_paravirtual_device system.virtio ≡ Firmware.ok false))
unfolding machine_host Firmware.machine_host
machine_host-clean system now =
    let iff = judged now (named_monitor system) (holds_a_paravirtual_device system.virtio) in
    ((λ h. iff.0 cc), (λ h. ap returned (iff.1 h)))
