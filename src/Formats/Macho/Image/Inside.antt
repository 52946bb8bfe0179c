-- ===== src/Formats/Macho/Image/Inside.antt =====
-- About where the signature lies (macho/image.rs).
use fidelity.Common.{
  ℕ, suc, ◌+◌, ◌≤◌, ◌<◌, ◌≡◌, Bool, true, false, not, Option, none, some, List, length, ltb, ◌==◌,
  if◌then◌else◌, ◌>>=◌, arith, bind_some,
}
use fidelity.Common.Int.{ℤ, pos, negsuc, checked_add_signed}
use fidelity.Formats.Macho.Commands.{max_command_bytes}
use fidelity.Formats.Macho.Image.{
  max_signature_bytes, SignatureLayout, Linkedit, SignatureData, fit, commands_from,
  signature_layout,
}
use fidelity.Formats.Macho.Image.Standing.{first, IsSegment, IsSignature}
use fidelity.Formats.Macho.Image.Known.{commands_from-Known}

-- The range lies in the segment, where the image was moved by the slide.
abbrev pub Inside : SignatureLayout → Linkedit → ℤ → Type 0
Inside s l (pos n) = (l.vmaddr + n ≤ s.address) × (s.address + s.bytes ≤ l.vmaddr + n + l.filesize)
Inside s l (negsuc n) =
    (l.vmaddr ≤ s.address + suc n) × (s.address + suc n + s.bytes ≤ l.vmaddr + l.filesize)

-- The range lies in the segment as far behind its start as the data lies behind that in the file.
abbrev pub IsPlaced : SignatureLayout → Linkedit → SignatureData → ℤ → Type 0
IsPlaced s l d (pos n) = s.address + l.fileoff ≡ l.vmaddr + d.dataoff + n
IsPlaced s l d (negsuc n) = s.address + suc n + l.fileoff ≡ l.vmaddr + d.dataoff

fit-Inside :
    (l : Linkedit) (d : SignatureData) (slide : ℤ) (s : SignatureLayout)
    → fit l d slide ≡ some s
    → (0 < s.bytes)
      × (s.bytes ≤ max_signature_bytes)
      × (s.bytes ≡ d.datasize)
      × IsPlaced s l d slide
      × Inside s l slide
unfolding fit checked_add_signed
fit-Inside l d (pos n) s h = ground arith
fit-Inside l d (negsuc n) s h = ground arith

-- Where a range is answered for a code signature, the commands, walked from the first, hold a
-- segment command of at least 72 bytes whose name is __LINKEDIT and a zero byte, and a signature
-- command of at least 16 bytes. The range has the size that the signature command states, which
-- is not 0 and at most 16 mebibytes; it lies inside that segment as the slide moved it, as far
-- behind its start as the data lies behind the segment's in the file.
pub signature_layout-Inside :
    (commands : List ℕ) (command_count : ℕ) (slide : ℤ) (s : SignatureLayout)
    → signature_layout commands command_count slide ≡ some s
    → (l : Linkedit) × (d : SignatureData) × IsSegment commands l
      × IsSignature commands d
      × (0 < s.bytes)
      × (s.bytes ≤ max_signature_bytes)
      × (s.bytes ≡ d.datasize)
      × IsPlaced s l d slide
      × Inside s l slide
unfolding signature_layout
signature_layout-Inside commands command_count slide s h =
    by_tests (ltb max_command_bytes (length commands)) h
  where
    by_end :
        (b : Bool) (o : Option Linkedit) (l : Linkedit)
        → (if not b then none else o) ≡ some l
        → o ≡ some l
    by_end true o l k = k
    by_end false o l k = absurd cc

    by_tests :
        (b : Bool)
        → (if b
            then none
            else commands_from command_count commands 0
                (record { linkedit = none; signature = none })
              >>= λ ended.
                  (if not (ended.0 == length commands) then none else ended.1.linkedit) >>= λ l.
                  ended.1.signature >>= λ d. fit l d slide)
          ≡ some s
        → (l : Linkedit) × (d : SignatureData) × IsSegment commands l
          × IsSignature commands d
          × (0 < s.bytes)
          × (s.bytes ≤ max_signature_bytes)
          × (s.bytes ≡ d.datasize)
          × IsPlaced s l d slide
          × Inside s l slide
    by_tests true k = absurd cc
    by_tests false k =
        let (ended, run, k1) =
          bind_some
            (commands_from command_count commands 0 (record { linkedit = none; signature = none }))
            _ s k in
        let (l, last, k2) =
          bind_some (if not (ended.0 == length commands) then none else ended.1.linkedit) _ s k1 in
        let (d, signed, fitted) = bind_some ended.1.signature _ s k2 in
        let (segments, signatures) =
          commands_from-Known commands command_count 0
            (record { linkedit = none; signature = none }) ended first run
            ((λ l e. absurd cc), (λ d e. absurd cc)) in
        let segment = segments l (by_end (ended.0 == length commands) ended.1.linkedit l last) in
        let (some_bytes, bounded, size, placed, inside) = fit-Inside l d slide s fitted in
        (l, d, segment, signatures d signed, some_bytes, bounded, size, placed, inside)
