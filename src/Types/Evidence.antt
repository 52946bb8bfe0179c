-- ===== src/Types/Evidence.antt =====
-- Bounded text and typed evidence (crates/fidelity-types/src/evidence.rs).
pub mod Bounds
use fidelity.Common.{
  ℕ, zero, suc, Bool, true, false, not, ◌&&◌, Option, none, some, ◌==◌, ltb, leb, if◌then◌else◌,
  length, get_elem?, take,
}
use fidelity.Common.Text.{Text}

abbrev pub max_evidence_bytes : ℕ
max_evidence_bytes = 4096

pub record BoundedText : Type 0 where
  pub text : Text
  pub truncated : Bool

-- A byte that continues a character: `(byte as i8) < -0x40`.
abbrev pub is_continuation : ℕ → Bool
is_continuation b = leb 128 b && ltb b 192

-- `str::is_char_boundary`.
pub is_char_boundary : Text → ℕ → Bool
is_char_boundary t zero = true
is_char_boundary t (suc i) = elim (get_elem? t (suc i)) [
  | none ↦ suc i == length t
  | some b ↦ not (is_continuation b)
]

-- `while end > 0 && !text.is_char_boundary(end) { end -= 1; }`
pub step_back : Text → ℕ → ℕ
step_back t zero = zero
step_back t (suc end) =
    let rest = step_back t end in if is_char_boundary t (suc end) then suc end else rest

-- The cut at a limit; `BoundedText::new` takes `max_evidence_bytes`.
pub bounded : ℕ → Text → BoundedText
bounded limit t =
    if leb (length t) limit
    then record { text = t; truncated = false }
    else record { text = take (step_back t limit) t; truncated = true }

pub new : Text → BoundedText
new t = bounded max_evidence_bytes t

pub data Evidence : Type 0 where
  detector_health image_untrusted unexpected_identity tracer_present : BoundedText → Evidence
  unaccounted_code local_instrumentation_agent unregistered_image : BoundedText → Evidence
  code_added_after_start code_made_writable dispatch_redirected : BoundedText → Evidence
  development_build unverified_boot interface_observed : BoundedText → Evidence
  virtual_machine_host simulated_environment : BoundedText → Evidence

unfoldable pub is_detector_health : Evidence → Bool
is_detector_health (detector_health detail) = true
is_detector_health _ = false
