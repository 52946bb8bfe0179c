-- ===== src/Tests/Probe.antt =====
-- The Linux probe, on a concrete system.
use fidelity.Common.{
  ℕ, ◌≡◌, ◌↔◌, refl, ap, true, none, some, List, [], ◌∷◌, replicate, ltb, if◌then◌else◌, arith,
  some-injective, le→ltb,
}
use fidelity.Common.Text.{literal}
use fidelity.Common.Chars.{Chars}
use fidelity.Types.Finding.{clean}
use fidelity.Types.Identity.{ExpectedIdentity, value}
use fidelity.Cipher.Sha256.{sha256}
use fidelity.Core.Environment.{returned}
use fidelity.Core.Facts
use fidelity.Formats.Bytes.{same_bytes}
use fidelity.Detect.Detectors.{unaccounted_code, image_catalog, expected_identity}
use fidelity.Probe.Linux.System.{Phdr, Image, System, absent, no_directory}
use fidelity.Probe.Linux.Loader.{main_image, raw_targets}
use fidelity.Probe.Linux.Capabilities.{environment}
use fidelity.Probe.Linux.Mapped.{SameMapped, raw_targets-same}
use fidelity.Probe.Linux.Reports.{
  HasFile, AllMappings, unaccounted_code-clean, expected_identity-clean,
}
use fidelity.Probe.Linux.Registered.{AllRegistered, image_catalog-clean}

-- A load segment of 64 bytes, and the dynamic array in its second half.
abbrev segments : List Phdr
segments =
    record { kind = 1; vaddr = 0; memsz = 64; align = 4096 }
    ∷ record { kind = 2; vaddr = 32; memsz = 32; align = 8 }
    ∷ []

abbrev main : Image
main = record { is_unnamed = true; base = 4096; headers = some segments }

abbrev system : System
system = record {
  status = none;
  maps = some (literal "1000-2000 r-xp 0 0 7 /a");
  exe = some (1 ∷ 2 ∷ []);
  verity = none;
  manufacturer = absent;
  product = absent;
  virtio = no_directory;
  images = main ∷ [];
  memory = λ address bytes. replicate bytes 0;
  jump_slot = 7;
  agent = Facts.fact Facts.no_agent;
}

unaccounted_code-clean_example :
    (unaccounted_code (environment system) 5 ≡ returned clean)
    ↔ ((text : Chars) × (system.maps ≡ some text) × AllMappings (λ m. HasFile m.origin) text)
unaccounted_code-clean_example = unaccounted_code-clean system 5

image_catalog-clean_example :
    (image_catalog (environment system) 5 ≡ returned clean)
    ↔ ((text : Chars) × (system.maps ≡ some text) × AllRegistered system.images text)
image_catalog-clean_example = image_catalog-clean system 5

abbrev pins : ExpectedIdentity
pins = record {
  windows_choice = none;
  macos_choice = none;
  ios_choice = none;
  android_choice = none;
  linux_choice = some (value (7 ∷ []));
}

expected_identity-clean_example :
    (expected_identity (environment system) (some pins) 5 ≡ returned clean)
    ↔ ((bytes : List ℕ) × (system.exe ≡ some bytes) × (same_bytes (sha256 bytes) (7 ∷ []) ≡ true))
expected_identity-clean_example = expected_identity-clean system pins (7 ∷ []) 5 refl

-- Another memory below the image.
abbrev memory : ℕ → ℕ → List ℕ
memory address bytes = if ltb address 4096 then [] else system.memory address bytes

memory_same :
    (image : Image) (headers : List Phdr)
    → main_image system.images ≡ some image
    → image.headers ≡ some headers
    → SameMapped system memory image.base headers
unfolding main_image
memory_same image headers first has header address bytes h loads fits low high =
    let e : main ≡ image = some-injective first in
    let f : main.base ≡ image.base = ap (λ (i : Image). i.base) e in
    rw (le→ltb address 4096 (omega arith)) refl

raw_targets-same_example : raw_targets (record system { memory = memory }) ≡ raw_targets system
raw_targets-same_example = raw_targets-same system memory memory_same
