-- ===== src/Cipher/Hex/Trip.antt =====
-- The parser of crates/fidelity-types/src/identity.rs reads what `hex` prints.
use fidelity.Common.{
  ℕ, ◌+◌, ◌-◌, ◌*◌, ◌/◌, ◌%◌, ◌<◌, ◌≡◌, refl, ap, List, [], ◌∷◌, length, All, arith, bit_or, ltb,
  eq→==, ltb→lt, ltb→le, lt→ltb, le→ltb, le→leb, lt→leb, Bool-cases, inl, inr, ◌≤◌,
}
use fidelity.Common.Bits.{bit_or-nibbles}
use fidelity.Types.Identity.{ok, hex_digit, hex_pairs, parse_sha256_hex}
use fidelity.Cipher.Hex.{digit, hex}

low_digit : (n : ℕ) → n < 10 → digit n ≡ 48 + n
unfolding digit
low_digit n h = rw (lt→ltb n 10 h) refl

high_digit : (n : ℕ) → 10 ≤ n → n < 16 → digit n ≡ 97 + (n - 10)
unfolding digit
high_digit n low high = rw (le→ltb n 10 low, lt→ltb n 16 high) refl

low_value : (n : ℕ) → n < 10 → hex_digit (48 + n) ≡ ok n
unfolding hex_digit
low_value n h =
    let e : 48 + n - 48 ≡ n = omega arith in
    rw (le→leb 48 (48 + n) (omega arith), le→leb (48 + n) 57 (omega arith)) (ap ok e)

high_value : (n : ℕ) → 10 ≤ n → n < 16 → hex_digit (97 + (n - 10)) ≡ ok n
unfolding hex_digit
high_value n low high =
    let e : 97 + (n - 10) - 97 + 10 ≡ n = omega arith in
    rw
      (
        le→leb 48 (97 + (n - 10)) (omega arith),
        lt→leb (97 + (n - 10)) 57 (omega arith),
        le→leb 97 (97 + (n - 10)) (omega arith),
        le→leb (97 + (n - 10)) 102 (omega arith),
      )
      (ap ok e)

hex_digit-digit : (nibble : ℕ) → nibble < 16 → hex_digit (digit nibble) ≡ ok nibble
hex_digit-digit nibble h = elim (Bool-cases (ltb nibble 10)) [
  | inl e ↦ rw (low_digit nibble (ltb→lt _ _ e)) (low_value nibble (ltb→lt _ _ e))
  | inr e ↦ rw (high_digit nibble (ltb→le _ _ e) h) (high_value nibble (ltb→le _ _ e) h)
]

length-hex : (digest : List ℕ) → length (hex digest) ≡ 2 * length digest
unfolding hex
length-hex [] = refl
length-hex (byte ∷ digest) = omega (arith, length-hex digest)

hex_pairs-hex :
    (digest : List ℕ) → All (λ byte. byte < 256) digest → hex_pairs (hex digest) ≡ ok digest
unfolding hex_pairs hex
hex_pairs-hex [] h = refl
hex_pairs-hex (byte ∷ digest) h =
    let whole : bit_or (byte / 16 * 16 % 256) (byte % 16) ≡ byte =
      let fits : byte / 16 * 16 % 256 ≡ byte / 16 * 16 = omega (arith, h.0) in
      rw (fits, bit_or-nibbles (byte / 16) (byte % 16) (omega arith)) (omega arith) in
    rw
      (
        hex_digit-digit (byte / 16) (omega (arith, h.0)),
        hex_digit-digit (byte % 16) (omega arith),
        hex_pairs-hex digest h.1,
        whole,
      )
      refl

-- The parser of expected identities reads the hexadecimal form of 32 bytes as those bytes.
pub parse_sha256_hex-hex :
    (digest : List ℕ)
    → length digest ≡ 32
    → All (λ byte. byte < 256) digest
    → parse_sha256_hex (hex digest) ≡ ok digest
unfolding parse_sha256_hex
parse_sha256_hex-hex digest size bytes =
    rw (eq→== (length (hex digest)) 64 (omega (arith, length-hex digest)))
      (hex_pairs-hex digest bytes)
