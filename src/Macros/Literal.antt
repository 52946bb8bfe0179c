-- ===== src/Macros/Literal.antt =====
-- The bytes that a literal holds (crates/fidelity-macros/src/literal.rs). A token is the list of its
-- characters.
pub mod Quoted
use fidelity.Common.{
  ℕ, zero, suc, ◌-◌, Bool, true, false, not, ◌&&◌, Option, none, some, List, [], ◌∷◌, ◌++◌, all,
  length, replicate, ltb, ◌==◌, if◌then◌else◌, ◌>>=◌,
}
use fidelity.Common.Chars.{Chars, encode_utf8, as_bytes, strip_prefix, strip_suffix, unsigned}

-- Why a token is refused, with what the message quotes.
pub data LiteralError : Type 0 where
  not_a_literal : Chars → LiteralError
  not_a_byte : ℕ → ℕ → LiteralError
  cannot_carry : ℕ → LiteralError
  ends_in_escape : LiteralError
  not_ascii : LiteralError

pub data Read : Type 0 where
  ok : List ℕ → Read
  err : LiteralError → Read

-- `bytes.push` or `extend_from_slice`, before what the rest of the body gives.
abbrev pub behind : List ℕ → Read → Read
behind bytes (ok more) = ok (bytes ++ more)
behind bytes (err e) = err e

abbrev pub backslash : ℕ
backslash = 92

abbrev pub quote : ℕ
quote = 34

-- `str::trim_start_matches` of a character.
trim_start_matches : Chars → ℕ → Chars
trim_start_matches [] c = []
trim_start_matches (d ∷ ds) c = if d == c then trim_start_matches ds c else d ∷ ds

-- What stands in a raw literal that starts with the prefix.
raw_body_after : Chars → Chars → Option Chars
unfolding trim_start_matches
raw_body_after prefix token = do
  rest ← strip_prefix token prefix
  let hashes = length rest - length (trim_start_matches rest 35)
  opened ← strip_prefix rest (replicate hashes 35)
  body ← strip_prefix opened (quote ∷ [])
  strip_suffix body (quote ∷ replicate hashes 35)

-- "r" and "br"
unfoldable pub raw_body : Chars → Option Chars
unfolding raw_body_after
raw_body token = raw_body_after (114 ∷ []) token

unfoldable pub raw_byte_body : Chars → Option Chars
unfolding raw_body_after
raw_byte_body token = raw_body_after (98 ∷ 114 ∷ []) token

-- `u8::from_str_radix` of two characters.
hex_byte : ℕ → ℕ → Option ℕ
hex_byte high low = unsigned 16 256 (high ∷ low ∷ [])

with_byte : Option ℕ → ℕ → ℕ → Read → Read
with_byte none high low more = err (not_a_byte high low)
with_byte (some value) high low more = behind (value ∷ []) more

-- The loop over the characters of the body; `'_'` stands for a character that is missing.
unfoldable mutual
  unfolding hex_byte with_byte

  pub unescape : Chars → Read
  unescape [] = ok []
  unescape (c ∷ cs) =
      let plain = behind (encode_utf8 c) (unescape cs) in
      let special = escaped cs in if not (c == backslash) then plain else special

  pub escaped : Chars → Read
  escaped [] = err ends_in_escape
  escaped (e ∷ cs) =
      let itself = behind (e ∷ []) (unescape cs) in
      let hexadecimal = high_digit cs in
      if e == backslash
      then itself
      else if e == quote
      then itself
      else if e == 39
      then itself
      else if e == 120
      then hexadecimal
      else err (cannot_carry e)

  pub high_digit : Chars → Read
  high_digit [] = err (not_a_byte 95 95)
  high_digit (high ∷ cs) = low_digit high cs

  pub low_digit : ℕ → Chars → Read
  low_digit high [] = err (not_a_byte high 95)
  low_digit high (low ∷ cs) = with_byte (hex_byte high low) high low (unescape cs)

-- What stands between the marks of a literal.
abbrev pub between : Chars → Chars → Option Chars
between token opening = strip_prefix token opening >>= λ rest. strip_suffix rest (quote ∷ [])

escaped_body : Option Chars → Chars → Read
escaped_body none token = err (not_a_literal token)
escaped_body (some body) token = unescape body

body_of : Option Chars → Chars → Read
unfolding escaped_body
body_of (some body) token = ok (as_bytes body)
body_of none token = escaped_body (between token (quote ∷ [])) token

unfoldable pub parse : Chars → Read
unfolding body_of
parse token = body_of (raw_body token) token

abbrev pub is_ascii : Chars → Bool
is_ascii cs = all (λ c. ltb c 128) cs

unfoldable mutual
  unfolding hex_byte with_byte

  pub unescape_bytes : Chars → Read
  unescape_bytes [] = ok []
  unescape_bytes (c ∷ cs) =
      let plain = behind (c ∷ []) (unescape_bytes cs) in
      let special = escaped_bytes cs in
      if not (c == backslash) then if not (ltb c 128) then err not_ascii else plain else special

  pub escaped_bytes : Chars → Read
  escaped_bytes [] = err ends_in_escape
  escaped_bytes (e ∷ cs) =
      let one = λ (byte : ℕ). behind (byte ∷ []) (unescape_bytes cs) in
      let hexadecimal = high_digit_bytes cs in
      if e == backslash
      then one backslash
      else if e == quote
      then one quote
      else if e == 110
      then one 10
      else if e == 114
      then one 13
      else if e == 116
      then one 9
      else if e == 48
      then one 0
      else if e == 120
      then hexadecimal
      else err (cannot_carry e)

  pub high_digit_bytes : Chars → Read
  high_digit_bytes [] = err (not_a_byte 95 95)
  high_digit_bytes (high ∷ cs) = low_digit_bytes high cs

  pub low_digit_bytes : ℕ → Chars → Read
  low_digit_bytes high [] = err (not_a_byte high 95)
  low_digit_bytes high (low ∷ cs) = with_byte (hex_byte high low) high low (unescape_bytes cs)

escaped_byte_body : Option Chars → Chars → Read
escaped_byte_body none token = err (not_a_literal token)
escaped_byte_body (some body) token = unescape_bytes body

-- "b" and the mark.
byte_body_of : Option Chars → Chars → Read
unfolding escaped_byte_body
byte_body_of (some body) token = if not (is_ascii body) then err not_ascii else ok (as_bytes body)
byte_body_of none token = escaped_byte_body (between token (98 ∷ quote ∷ [])) token

unfoldable pub parse_bytes : Chars → Read
unfolding byte_body_of
parse_bytes token = byte_body_of (raw_byte_body token) token
