-- ===== src/Cipher/Stream/Laws.antt =====
-- The streams give back what they took, and every key keeps to the alphabet.
use fidelity.Common.{
  ℕ, suc, ◌+◌, ◌*◌, ◌/◌, ◌%◌, ◌≤◌, ◌<◌, ◌≡◌, refl, true, some, List, [], ◌∷◌, arith, if◌then◌else◌,
  ◌==◌,
}
use fidelity.Common.Bits.{xor_twice}
use fidelity.Cipher.Stream.{
  in_alphabet, first_byte, Direction, forward, backward, amount, moved, step_from, step, encrypt,
  decrypt, byte_stream_from, byte_stream, encrypt_bytes, decrypt_bytes, keystream,
  bytes_per_character,
}

amount-lt : (block : List ℕ) (position : ℕ) → amount block position < 95
unfolding amount
amount-lt block position = omega arith

moved-lt : (direction : Direction) (byte by : ℕ) → moved direction byte by < 95
unfolding moved
moved-lt forward byte by = omega arith
moved-lt backward byte by = omega arith

-- One byte there and back.
moved-moved :
    (byte by : ℕ)
    → 32 ≤ byte
    → byte ≤ 126
    → by < 95
    → 32 + moved backward (32 + moved forward byte by) by ≡ byte
unfolding moved
moved-moved byte by low high small = omega arith

in_alphabet-cons :
    (m : ℕ) (rest : List ℕ)
    → m < 95
    → in_alphabet rest ≡ true
    → in_alphabet ((first_byte + m) ∷ rest) ≡ true
unfolding in_alphabet
in_alphabet-cons m rest small h = ground arith

in_alphabet-step_from :
    (key : List ℕ) (direction : Direction) (index : ℕ) (block value : List ℕ)
    → in_alphabet (step_from key direction index block value) ≡ true
unfolding step_from
in_alphabet-step_from key direction index block [] = unfold in_alphabet in refl
in_alphabet-step_from key direction index block (byte ∷ value) =
    in_alphabet-cons _ _ (moved-lt direction byte _)
      (in_alphabet-step_from key direction (suc index) _ value)

-- Decrypting any bytes under any key, right or wrong, gives bytes of the alphabet.
pub in_alphabet-decrypt : (key value : List ℕ) → in_alphabet (decrypt key value) ≡ true
unfolding decrypt step
in_alphabet-decrypt key value = in_alphabet-step_from key backward 0 _ value

head_bounds :
    (byte : ℕ) (value : List ℕ)
    → in_alphabet (byte ∷ value) ≡ true
    → (32 ≤ byte) × (byte ≤ 126) × (in_alphabet value ≡ true)
unfolding in_alphabet
head_bounds byte value h = ground arith

there_and_back :
    (key : List ℕ) (index : ℕ) (block value : List ℕ)
    → in_alphabet value ≡ true
    → step_from key backward index block (step_from key forward index block value) ≡ value
unfolding step_from
there_and_back key index block [] h = refl
there_and_back key index block (byte ∷ value) h =
    let bounds = head_bounds byte value h in
    let position = index * bytes_per_character % 32 in
    let block' =
      if position == 0 then keystream key (index * bytes_per_character / 32) else block in
    rw
      (
        moved-moved byte (amount block' position) bounds.0 bounds.1 (amount-lt block' position),
        there_and_back key (suc index) block' value bounds.2,
      )
      refl

-- For any key, a literal of the alphabet encrypts to a value of the alphabet, which decrypts to
-- the literal.
pub decrypt-encrypt :
    (key plain : List ℕ)
    → in_alphabet plain ≡ true
    → (value : List ℕ) × (encrypt key plain ≡ some value)
      × (in_alphabet value ≡ true)
      × (decrypt key value ≡ plain)
unfolding encrypt decrypt step
decrypt-encrypt key plain h = (
  step key plain forward,
  rw h refl,
  in_alphabet-step_from key forward 0 _ plain,
  there_and_back key 0 _ plain h,
)

stream_twice :
    (key : List ℕ) (index : ℕ) (block value : List ℕ)
    → byte_stream_from key index block (byte_stream_from key index block value) ≡ value
unfolding byte_stream_from
stream_twice key index block [] = refl
stream_twice key index block (byte ∷ value) =
    let block' = if index % 32 == 0 then keystream key (index / 32) else block in
    rw (xor_twice, stream_twice key (suc index) block' value) refl

-- For any key, encrypting bytes with the byte stream and decrypting the result gives the bytes.
pub decrypt_bytes-encrypt_bytes :
    (key plain : List ℕ) → decrypt_bytes key (encrypt_bytes key plain) ≡ plain
unfolding decrypt_bytes encrypt_bytes byte_stream
decrypt_bytes-encrypt_bytes key plain = stream_twice key 0 _ plain
