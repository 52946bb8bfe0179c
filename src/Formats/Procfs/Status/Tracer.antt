-- ===== src/Formats/Procfs/Status/Tracer.antt =====
-- About the field of the tracer as the kernel writes it (procfs/status.rs).
use mathlib.Core.List.{reverse, reverse-append, reverse-reverse}
use fidelity.Common.{
  ℕ, ◌^◌, ◌<◌, ◌≡◌, refl, false, Option, none, some, List, [], ◌∷◌, ◌++◌, All, All-append, find_map,
  ◌==◌, if◌then◌else◌, arith,
}
use fidelity.Common.Text.{decimal}
use fidelity.Common.Chars.{Chars, is_whitespace, strip_prefix, trim_start, trim_end, trim, lines}
use fidelity.Common.Chars.Laws.{strip_prefix-append}
use fidelity.Common.Chars.Decimal.{IsDigits, decimal-IsDigits, unsigned-decimal}
use fidelity.Formats.Procfs.Status.{tracer_field, TracerPid, no_tracer, traced_by, tracer_pid}

abbrev IsSolid : Chars → Type 0
IsSolid = All (λ c. is_whitespace c ≡ false)

trim_start_solid : (text : Chars) → IsSolid text → trim_start text ≡ text
unfolding trim_start
trim_start_solid [] h = refl
trim_start_solid (c ∷ text) h = rw h.0 refl

reverse-IsSolid : (text : Chars) → IsSolid text → IsSolid (reverse text)
reverse-IsSolid [] h = tt
reverse-IsSolid (c ∷ text) h = rw (reverse-append (c ∷ []) text) (
    All-append (λ c. is_whitespace c ≡ false) (reverse text) (c ∷ []) (reverse-IsSolid text h.1)
      (h.0, tt))

trim_solid : (text : Chars) → IsSolid text → trim text ≡ text
unfolding trim trim_end
trim_solid text h =
    rw (trim_start_solid text h, trim_start_solid (reverse text) (reverse-IsSolid text h))
      (reverse-reverse text)

IsDigits-IsSolid : (text : Chars) → IsDigits text → IsSolid text
IsDigits-IsSolid [] h = tt
IsDigits-IsSolid (c ∷ text) h =
    (unfold is_whitespace in ground (arith, h.0), IsDigits-IsSolid text h.1)

find_map-skip :
    {A B : Type 0} (f : A → Option B) (front : List A) (x : A) (rest : List A) (b : B)
    → All (λ y. f y ≡ none) front
    → f x ≡ some b
    → find_map f (front ++ x ∷ rest) ≡ some b
unfolding find_map
find_map-skip f [] x rest b h e = rw e refl
find_map-skip f (y ∷ front) x rest b h e = rw h.0 (find_map-skip f front x rest b h.1 e)

-- The line of the field, as the kernel writes it.
abbrev pub tracer_line : ℕ → Chars
tracer_line pid = tracer_field ++ 9 ∷ decimal pid

-- What a process identifier says.
abbrev pub tracer_of : ℕ → TracerPid
tracer_of pid = if pid == 0 then no_tracer else traced_by pid

trim-tab : (text : Chars) → IsSolid text → trim (9 ∷ text) ≡ text
trim-tab text h = unfold trim trim_start is_whitespace in trim_solid text h

-- In a text whose first line with the field of the tracer is the one that the kernel writes for a
-- process identifier of 32 bits, the reader finds that tracer, and no tracer for 0.
pub tracer_pid-tracer_line :
    (text : Chars) (front rest : List Chars) (pid : ℕ)
    → lines text ≡ front ++ tracer_line pid ∷ rest
    → All (λ line. strip_prefix line tracer_field ≡ none) front
    → pid < 2 ^ 32
    → tracer_pid text ≡ some (tracer_of pid)
unfolding tracer_pid
tracer_pid-tracer_line text front rest pid e h small =
    let found : find_map (λ line. strip_prefix line tracer_field) (lines text)
        ≡ some (9 ∷ decimal pid) =
      rw e (
        find_map-skip (λ line. strip_prefix line tracer_field) front (tracer_line pid) rest
          (9 ∷ decimal pid) h (strip_prefix-append tracer_field (9 ∷ decimal pid))) in
    rw
      (
        found,
        trim-tab (decimal pid) (IsDigits-IsSolid (decimal pid) (decimal-IsDigits pid)),
        unsigned-decimal (2 ^ 32) pid small (omega arith),
      )
      refl
