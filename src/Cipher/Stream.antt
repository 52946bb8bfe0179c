-- ===== src/Cipher/Stream.antt =====
-- The two streams that guarded constants use (crates/fidelity-cipher/src/lib.rs): one moves bytes
-- through the printable alphabet, and one is an exclusive or.
pub mod Laws
use fidelity.Common.{
  ℕ, suc, ◌+◌, ◌-◌, ◌*◌, ◌/◌, ◌%◌, ◌^◌, min, bit_xor, Bool, ◌&&◌, Option, none, some, List, [], ◌∷◌,
  ◌++◌, all, get_or, replicate, if◌then◌else◌, leb, ◌==◌,
}
use fidelity.Cipher.Sha256.{sha256}

abbrev pub first_byte : ℕ
first_byte = 32

abbrev pub last_byte : ℕ
last_byte = 126

abbrev pub alphabet : ℕ
alphabet = last_byte - first_byte + 1

abbrev pub min_bytes : ℕ
min_bytes = 8

abbrev pub bytes_per_character : ℕ
bytes_per_character = 2

unfoldable pub in_alphabet : List ℕ → Bool
in_alphabet value = all (λ byte. leb first_byte byte && leb byte last_byte) value

-- `u32::to_le_bytes`.
abbrev pub le_bytes_32 : ℕ → List ℕ
le_bytes_32 n = n % 256 ∷ n / 2 ^ 8 % 256 ∷ n / 2 ^ 16 % 256 ∷ n / 2 ^ 24 % 256 ∷ []

-- The block of the keystream at a counter, which stops at the greatest 32-bit number.
unfoldable pub keystream : List ℕ → ℕ → List ℕ
keystream key counter = sha256 (key ++ le_bytes_32 (min counter (2 ^ 32 - 1)))

pub data Direction : Type 0 where
  forward backward : Direction

-- `u16::from_le_bytes` of two bytes of the block, reduced to the alphabet.
amount : List ℕ → ℕ → ℕ
amount block position = (get_or block position 0 + get_or block (position + 1) 0 * 256) % alphabet

-- `*byte - FIRST` is a `u8`, which wraps where a byte stands below the alphabet.
moved : Direction → ℕ → ℕ → ℕ
moved forward byte by = ((byte + 256 - first_byte) % 256 + by) % alphabet
moved backward byte by = ((byte + 256 - first_byte) % 256 + alphabet - by) % alphabet

-- The loop of `step`, from one index on, with the block that it holds.
step_from : List ℕ → Direction → ℕ → List ℕ → List ℕ → List ℕ
unfolding amount moved
step_from key direction index block [] = []
step_from key direction index block (byte ∷ value) =
    let offset = index * bytes_per_character in
    let position = offset % 32 in
    let block' = if position == 0 then keystream key (offset / 32) else block in
    (first_byte + moved direction byte (amount block' position))
    ∷ step_from key direction (suc index) block' value

pub step : List ℕ → List ℕ → Direction → List ℕ
unfolding step_from
step key value direction = step_from key direction 0 (replicate 32 0) value

-- `none` where the assertion would panic.
unfoldable pub encrypt : List ℕ → List ℕ → Option (List ℕ)
encrypt key plain = if in_alphabet plain then some (step key plain forward) else none

pub decrypt : List ℕ → List ℕ → List ℕ
decrypt key value = step key value backward

byte_stream_from : List ℕ → ℕ → List ℕ → List ℕ → List ℕ
byte_stream_from key index block [] = []
byte_stream_from key index block (byte ∷ value) =
    let position = index % 32 in
    let block' = if position == 0 then keystream key (index / 32) else block in
    bit_xor byte (get_or block' position 0) ∷ byte_stream_from key (suc index) block' value

pub byte_stream : List ℕ → List ℕ → List ℕ
unfolding byte_stream_from
byte_stream key value = byte_stream_from key 0 (replicate 32 0) value

pub encrypt_bytes : List ℕ → List ℕ → List ℕ
encrypt_bytes key plain = byte_stream key plain

pub decrypt_bytes : List ℕ → List ℕ → List ℕ
decrypt_bytes key value = byte_stream key value
