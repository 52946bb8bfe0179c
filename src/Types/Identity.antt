-- ===== src/Types/Identity.antt =====
-- The identity that the host pins, by platform, and its digests in hexadecimal
-- (crates/fidelity-types/src/identity.rs).
mod Values
use Prim.Native.Nat.{◌*◌}
use fidelity.Common.{
  ℕ, ◌+◌, ◌-◌, ◌%◌, bit_or, Bool, ◌&&◌, Option, none, some, List, [], ◌∷◌, leb, ◌==◌, is_some,
  is_empty, if◌then◌else◌, length,
}
use fidelity.Common.Text.{Text}
use fidelity.Common.Chars.{Chars, trim, as_bytes}

pub data Platform : Type 0 where
  windows macos ios android linux : Platform

pub data Choice {ℓ} (A : Type ℓ) : Type ℓ where
  value : A → Choice A
  accept_unsupported : Choice A

pub record ExpectedIdentity : Type 0 where
  pub windows_choice : Option (Choice (List ℕ))
  pub macos_choice : Option (Choice Text)
  pub ios_choice : Option (Choice Text)
  pub android_choice : Option (Choice (List ℕ))
  pub linux_choice : Option (Choice (List ℕ))

unfoldable pub states_choice_for : ExpectedIdentity → Platform → Bool
states_choice_for e windows = is_some e.windows_choice
states_choice_for e macos = is_some e.macos_choice
states_choice_for e ios = is_some e.ios_choice
states_choice_for e android = is_some e.android_choice
states_choice_for e linux = is_some e.linux_choice

pub data IdentityError : Type 0 where
  empty_value not_hex : IdentityError
  bad_hex_length : ℕ → ℕ → IdentityError

pub data Parsed (A : Type 0) : Type 0 where
  ok : A → Parsed A
  err : IdentityError → Parsed A

abbrev pub then_parse : {A B : Type 0} → Parsed A → (A → Parsed B) → Parsed B
then_parse (ok a) f = f a
then_parse (err e) f = err e

unfoldable pub hex_digit : ℕ → Parsed ℕ
hex_digit byte =
    if leb b'0' byte && leb byte b'9'
    then ok (byte - b'0')
    else if leb b'a' byte && leb byte b'f'
    then ok (byte - b'a' + 10)
    else if leb b'A' byte && leb byte b'F'
    then ok (byte - b'A' + 10)
    else err not_hex

-- The loop over the slots of the digest: two digits to a byte, `(high << 4) | low` in a `u8`.
unfoldable pub hex_pairs : Text → Parsed (List ℕ)
hex_pairs [] = ok []
hex_pairs (a ∷ []) = ok []
hex_pairs (a ∷ b ∷ rest) = then_parse (hex_digit a) λ high.
    then_parse (hex_digit b)
      λ low. then_parse (hex_pairs rest) λ digest. ok (bit_or (high * 16 % 256) low ∷ digest)

abbrev pub sha256_hex_len : ℕ
sha256_hex_len = 64

unfoldable pub parse_sha256_hex : Text → Parsed (List ℕ)
parse_sha256_hex hex =
    if length hex == sha256_hex_len
    then hex_pairs hex
    else err (bad_hex_length sha256_hex_len (length hex))

-- The setters of the builder. A later choice for a platform replaces an earlier one.
unfoldable pub with_windows : ExpectedIdentity → Choice (List ℕ) → ExpectedIdentity
with_windows e choice = record e { windows_choice = some choice }

unfoldable pub with_macos : ExpectedIdentity → Choice Text → ExpectedIdentity
with_macos e choice = record e { macos_choice = some choice }

unfoldable pub with_ios : ExpectedIdentity → Choice Text → ExpectedIdentity
with_ios e choice = record e { ios_choice = some choice }

unfoldable pub with_android : ExpectedIdentity → Choice (List ℕ) → ExpectedIdentity
with_android e choice = record e { android_choice = some choice }

unfoldable pub with_linux : ExpectedIdentity → Choice (List ℕ) → ExpectedIdentity
with_linux e choice = record e { linux_choice = some choice }

abbrev pub no_choices : ExpectedIdentity
no_choices = record {
  windows_choice = none;
  macos_choice = none;
  ios_choice = none;
  android_choice = none;
  linux_choice = none;
}

-- `from_hex` of both digests, of a text.
unfoldable pub digest_from_hex : Chars → Parsed (List ℕ)
digest_from_hex hex = parse_sha256_hex (as_bytes hex)

-- `CodeRequirement::new` and `TeamIdentifier::new`: the text is kept as it is.
unfoldable pub code_requirement : Chars → Parsed Text
code_requirement requirement =
    if is_empty (trim requirement) then err empty_value else ok (as_bytes requirement)

unfoldable pub team_identifier : Chars → Parsed Text
team_identifier identifier =
    if is_empty (trim identifier) then err empty_value else ok (as_bytes identifier)

unfoldable pub content_digest : List ℕ → Parsed (List ℕ)
content_digest digest = if is_empty digest then err empty_value else ok digest
