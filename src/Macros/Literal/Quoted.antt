-- ===== src/Macros/Literal/Quoted.antt =====
-- About literals that are written with escapes, or raw (crates/fidelity-macros/src/literal.rs).
use fidelity.Common.{
  ℕ, zero, suc, ◌-◌, ◌/◌, ◌%◌, ◌<◌, ◌≡◌, refl, false, ◌||◌, none, some, List, [], ◌∷◌, ◌++◌, length,
  replicate, All, ◌==◌, if◌then◌else◌, arith, Bool-cases, inl, inr, lt→ltb, length-append,
  length-replicate,
}
use fidelity.Common.Chars.{Chars, encode_utf8, as_bytes, strip_prefix, to_digit, unsigned}
use fidelity.Common.Chars.Laws.{strip_prefix-append, strip_suffix-append}
use fidelity.Cipher.Hex.{digit}
use fidelity.Macros.Literal.{
  ok, backslash, quote, trim_start_matches, raw_body, raw_byte_body, hex_byte, unescape, parse,
  unescape_bytes, parse_bytes, with_byte, escaped_body, escaped_byte_body, body_of, byte_body_of,
}

-- Text with an escape before each mark and each backslash.
abbrev pub written : List ℕ → Chars
written [] = []
written (b ∷ bs) =
    if b == backslash || b == quote then backslash ∷ b ∷ written bs else b ∷ written bs

abbrev pub string_literal : List ℕ → Chars
string_literal plain = quote ∷ (written plain ++ quote ∷ [])

unescape-written : (plain : List ℕ) → All (λ b. b < 128) plain → unescape (written plain) ≡ ok plain
unfolding unescape
unescape-written [] h = refl
unescape-written (b ∷ bs) h = elim (Bool-cases (b == backslash)) [
  | inl e ↦ rw (e, e, unescape-written bs h.1) refl
  | inr ne ↦ elim (Bool-cases (b == quote)) [
    | inl q ↦ rw (ne, q, ne, unescape-written bs h.1, q) refl
    | inr nq ↦
        rw (ne, nq, ne, unescape-written bs h.1) (unfold encode_utf8 in rw (lt→ltb b 128 h.0) refl)
  ]
]

raw_body-quote : (text : Chars) → raw_body (quote ∷ text) ≡ none
unfolding raw_body strip_prefix
raw_body-quote text = refl

raw_byte_body-quote : (text : Chars) → raw_byte_body (98 ∷ quote ∷ text) ≡ none
unfolding raw_byte_body strip_prefix
raw_byte_body-quote text = refl

-- ASCII that is written between quotes, with an escape before each quote and backslash, is read back.
pub parse-string_literal :
    (plain : List ℕ) → All (λ b. b < 128) plain → parse (string_literal plain) ≡ ok plain
unfolding parse
parse-string_literal plain h =
    let front : strip_prefix (string_literal plain) (quote ∷ [])
        ≡ some (written plain ++ quote ∷ []) =
      strip_prefix-append (quote ∷ []) (written plain ++ quote ∷ []) in
    rw (raw_body-quote (written plain ++ quote ∷ [])) (
      unfold body_of in
      rw (front, strip_suffix-append (written plain) (quote ∷ []))
        (unfold escaped_body in unescape-written plain h))

to_digit-digit : (n : ℕ) → n < 16 → to_digit 16 (digit n) ≡ some n
unfolding to_digit digit
to_digit-digit n h = ground arith

hex_byte-digit : (b : ℕ) → b < 256 → hex_byte (digit (b / 16)) (digit (b % 16)) ≡ some b
unfolding hex_byte unsigned
hex_byte-digit b h =
    let first : (digit (b / 16) == 43) ≡ false = unfold digit in ground arith in
    rw (first, to_digit-digit (b / 16) (omega arith), to_digit-digit (b % 16) (omega arith))
      (ground arith)

-- Bytes with a hexadecimal escape each.
abbrev pub written_bytes : List ℕ → Chars
written_bytes [] = []
written_bytes (b ∷ bs) = backslash ∷ 120 ∷ digit (b / 16) ∷ digit (b % 16) ∷ written_bytes bs

abbrev pub byte_string_literal : List ℕ → Chars
byte_string_literal plain = 98 ∷ quote ∷ (written_bytes plain ++ quote ∷ [])

unescape_bytes-written_bytes :
    (plain : List ℕ) → All (λ b. b < 256) plain → unescape_bytes (written_bytes plain) ≡ ok plain
unfolding unescape_bytes
unescape_bytes-written_bytes [] h = refl
unescape_bytes-written_bytes (b ∷ bs) h =
    rw (hex_byte-digit b h.0, unescape_bytes-written_bytes bs h.1) (unfold with_byte in refl)

-- Bytes that are written as a byte-string literal with a hexadecimal escape each are read as
-- those bytes.
pub parse_bytes-byte_string_literal :
    (plain : List ℕ) → All (λ b. b < 256) plain → parse_bytes (byte_string_literal plain) ≡ ok plain
unfolding parse_bytes
parse_bytes-byte_string_literal plain h =
    let front : strip_prefix (byte_string_literal plain) (98 ∷ quote ∷ [])
        ≡ some (written_bytes plain ++ quote ∷ []) =
      strip_prefix-append (98 ∷ quote ∷ []) (written_bytes plain ++ quote ∷ []) in
    rw (raw_byte_body-quote (written_bytes plain ++ quote ∷ [])) (
      unfold byte_body_of in
      rw (front, strip_suffix-append (written_bytes plain) (quote ∷ []))
        (unfold escaped_byte_body in unescape_bytes-written_bytes plain h))

-- A raw literal with a number of marks.
abbrev pub raw_literal : ℕ → Chars → Chars
raw_literal hashes body =
    114 ∷ (replicate hashes 35 ++ (quote ∷ (body ++ (quote ∷ replicate hashes 35))))

trim_start_matches-replicate :
    (n : ℕ) (text : Chars) → trim_start_matches (replicate n 35 ++ quote ∷ text) 35 ≡ quote ∷ text
unfolding trim_start_matches
trim_start_matches-replicate zero text = refl
trim_start_matches-replicate (suc n) text = trim_start_matches-replicate n text

raw_body-raw_literal : (n : ℕ) (body : Chars) → raw_body (raw_literal n body) ≡ some body
unfolding raw_body
raw_body-raw_literal n body =
    let tail = quote ∷ (body ++ (quote ∷ replicate n 35)) in
    let opened : strip_prefix (raw_literal n body) (114 ∷ []) ≡ some (replicate n 35 ++ tail) =
      strip_prefix-append (114 ∷ []) (replicate n 35 ++ tail) in
    let trimmed : trim_start_matches (replicate n 35 ++ tail) 35 ≡ tail =
      trim_start_matches-replicate n (body ++ (quote ∷ replicate n 35)) in
    let count : length (replicate n 35 ++ tail) - length tail ≡ n =
      omega (arith, length-append (replicate n 35) tail, length-replicate {A = ℕ} n 35) in
    let inner : strip_prefix tail (quote ∷ []) ≡ some (body ++ (quote ∷ replicate n 35)) =
      strip_prefix-append (quote ∷ []) (body ++ (quote ∷ replicate n 35)) in
    rw
      (
        opened,
        trimmed,
        count,
        strip_prefix-append (replicate n 35) tail,
        inner,
        strip_suffix-append body (quote ∷ replicate n 35),
      )
      refl

-- A raw literal with any number of marks gives the bytes of its body.
pub parse-raw_literal :
    (hashes : ℕ) (body : Chars) → parse (raw_literal hashes body) ≡ ok (as_bytes body)
unfolding parse body_of
parse-raw_literal hashes body = rw (raw_body-raw_literal hashes body) refl
