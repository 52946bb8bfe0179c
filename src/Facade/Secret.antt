-- ===== src/Facade/Secret.antt =====
-- Reading a guarded constant (crates/fidelity/src/secret.rs). What a compiler keeps in a register is
-- out of the model: a value is its buffer.
use fidelity.Common.{
  ℕ, ◌≡◌, refl, Bool, Option, none, some, List, [], length, replicate, if◌then◌else◌,
}
use fidelity.Common.Chars.{Chars}
use fidelity.Common.Utf8.{from_utf8}
use fidelity.Cipher.Derivation.{derive_key}
use fidelity.Cipher.Stream.{decrypt, decrypt_bytes}

pub record Secret : Type 0 where
  pub bytes : List ℕ

pub record SecretBytes : Type 0 where
  pub bytes : List ℕ

-- `unwrap_or("")`
text_or_empty : Option Chars → Chars
text_or_empty none = []
text_or_empty (some text) = text

unfoldable pub as_str : Secret → Chars
unfolding text_or_empty
as_str secret = text_or_empty (from_utf8 secret.bytes)

pub as_str-from_utf8 :
    (secret : Secret) (text : Chars) → from_utf8 secret.bytes ≡ some text → as_str secret ≡ text
unfolding as_str
as_str-from_utf8 secret text h = rw h refl

unfoldable pub as_bytes : SecretBytes → List ℕ
as_bytes secret = secret.bytes

-- `Drop`: the buffer after the value leaves its scope.
unfoldable pub drop_secret : Secret → Secret
drop_secret secret = record { bytes = replicate (length secret.bytes) 0 }

unfoldable pub drop_secret_bytes : SecretBytes → SecretBytes
drop_secret_bytes secret = record { bytes = replicate (length secret.bytes) 0 }

-- The identity that a read binds to: that of the running image, or none.
abbrev pub bound_identity : Bool → List ℕ → List ℕ
bound_identity bound identity = if bound then identity else []

unfoldable pub guarded : Bool → List ℕ → List ℕ → List ℕ → Secret
guarded bound identity salt value =
    let key = derive_key salt (bound_identity bound identity) in
    record { bytes = decrypt key value }

unfoldable pub guarded_bytes : Bool → List ℕ → List ℕ → List ℕ → SecretBytes
guarded_bytes bound identity salt value =
    let key = derive_key salt (bound_identity bound identity) in
    record { bytes = decrypt_bytes key value }
