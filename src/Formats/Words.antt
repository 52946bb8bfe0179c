-- ===== src/Formats/Words.antt =====
-- About words in little-endian order, wherever they stand.
use fidelity.Common.{
  ℕ, ◌+◌, ◌^◌, ◌<◌, ◌≤◌, ◌≡◌, ap, ◌∙◌, some, List, ◌++◌, length, take, drop, arith, length-append,
  take-append-length, drop-append-length,
}
use fidelity.Cipher.Derivation.{le_bytes_64}
use fidelity.Formats.Bytes.{le_number, read_u64, read-some}

le_number-le_bytes_64 : (v : ℕ) → v < 2 ^ 64 → le_number (le_bytes_64 v) ≡ v
le_number-le_bytes_64 v h = omega arith

field_at :
    (front field rest : List ℕ)
    → take (length field) (drop (length front) (front ++ (field ++ rest))) ≡ field
field_at front field rest =
    rw (drop-append-length front (field ++ rest)) (take-append-length field rest)

pub read_u64-le_bytes_64 :
    (front : List ℕ) (v : ℕ) (rest : List ℕ)
    → v < 2 ^ 64
    → length (front ++ (le_bytes_64 v ++ rest)) < 2 ^ 64
    → read_u64 (front ++ (le_bytes_64 v ++ rest)) (length front) ≡ some v
unfolding read_u64
read_u64-le_bytes_64 front v rest h short =
    let fits : length front + 8 ≤ length (front ++ (le_bytes_64 v ++ rest)) =
      omega (arith, length-append front (le_bytes_64 v ++ rest)) in
    read-some 8 (front ++ (le_bytes_64 v ++ rest)) (length front) fits short
    ∙ ap some (ap le_number (field_at front (le_bytes_64 v) rest) ∙ le_number-le_bytes_64 v h)
