-- ===== src/Formats/Procfs/Status.antt =====
-- The process status file (crates/fidelity-formats/src/procfs/status.rs).
pub mod Tracer
use fidelity.Common.{
  ℕ, ◌^◌, Bool, true, false, Option, none, some, List, [], ◌∷◌, find_map, ◌==◌, if◌then◌else◌,
  ◌>>=◌,
}
use fidelity.Common.Chars.{Chars, strip_prefix, trim, lines, unsigned}

-- "TracerPid:"
abbrev pub tracer_field : Chars
tracer_field = b'T' ∷ b'r' ∷ b'a' ∷ b'c' ∷ b'e' ∷ b'r' ∷ b'P' ∷ b'i' ∷ b'd' ∷ b':' ∷ []

pub data TracerPid : Type 0 where
  no_tracer : TracerPid
  traced_by : ℕ → TracerPid

unfoldable pub tracer_pid : Chars → Option TracerPid
tracer_pid text = do
  value ← find_map (λ line. strip_prefix line tracer_field) (lines text)
  pid ← unsigned 10 (2 ^ 32) (trim value)
  some (if pid == 0 then no_tracer else traced_by pid)
