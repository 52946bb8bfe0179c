-- ===== src/Tests/Formats.antt =====
-- The archive readers, at concrete bytes.
use mathlib.Core.Option
use fidelity.Common.{
  ℕ, ◌-◌, ◌≡◌, refl, Option, none, some, List, [], ◌∷◌, ◌++◌, ◌⊎◌, length, replicate, or_else,
  arith,
}
use fidelity.Formats.Bytes.{read_u64, read_u32}
use fidelity.Formats.Zip.{central_directory_offset}
use fidelity.Formats.Zip.Latest.{ends_at, Latest, offset_at, central_directory_offset-Latest}
use fidelity.Formats.Signing.{
  magic, Pair, signer_certificate, prefer, walk_block, walk, pair_at, take_pair, certificate,
  element, scheme_v2, scheme_v3, scheme_v31,
}
use fidelity.Formats.Signing.Walk.{Pairs, Breaks, first_of, signer_certificate_lem}

-- A record with a comment of four bytes that holds the magic number again.
abbrev tail : List ℕ
tail = 80 ∷ 75 ∷ 5 ∷ 6 ∷ replicate 12 0 ++ (64 ∷ 1 ∷ 0 ∷ 0 ∷ 4 ∷ 0 ∷ 80 ∷ 75 ∷ 5 ∷ 6 ∷ [])

central_directory_offset-Latest_example :
    (found : Option ℕ) × Latest (ends_at tail) (length tail - 22) found
    × (central_directory_offset tail ≡ Option.map (offset_at tail) found)
central_directory_offset-Latest_example =
    central_directory_offset-Latest tail (omega arith) (omega arith)

-- A block with one pair of the second scheme, whose certificate is one byte.
abbrev block : List ℕ
block =
    61 ∷ 0 ∷ 0 ∷ 0 ∷ 0 ∷ 0 ∷ 0 ∷ 0 ∷ 29 ∷ 0 ∷ 0 ∷ 0 ∷ 0 ∷ 0 ∷ 0 ∷ 0 ∷ 26 ∷ 135 ∷ 9 ∷ 113 ∷ 21 ∷ 0
    ∷ 0 ∷ 0 ∷ 17 ∷ 0 ∷ 0 ∷ 0 ∷ 13 ∷ 0 ∷ 0 ∷ 0 ∷ 0 ∷ 0 ∷ 0 ∷ 0 ∷ 5 ∷ 0 ∷ 0 ∷ 0 ∷ 1 ∷ 0 ∷ 0 ∷ 0 ∷ 7
    ∷ 61 ∷ 0 ∷ 0 ∷ 0 ∷ 0 ∷ 0 ∷ 0 ∷ 0 ∷ magic

signer_certificate_lem_example :
    ((ps : List Pair) × Pairs block 45 8 ps
      × (signer_certificate block
          ≡ or_else
              (first_of scheme_v31 ps)
              (or_else (first_of scheme_v3 ps) (first_of scheme_v2 ps))))
    ⊎ (Breaks block 45 8 × (signer_certificate block ≡ none))
unfolding read_u64
signer_certificate_lem_example = signer_certificate_lem block 45 61 (omega arith) refl refl refl

-- The certificate of the pair.
signer_certificate_run : signer_certificate block ≡ some (7 ∷ [])
unfolding signer_certificate read_u64 read_u32 prefer walk_block walk pair_at take_pair certificate
    element
signer_certificate_run = refl
