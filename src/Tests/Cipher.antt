-- ===== src/Tests/Cipher.antt =====
-- The cipher, at a concrete key, constant and identity.
use fidelity.Common.{
  ℕ, ◌≡◌, refl, true, false, some, List, [], ◌∷◌, ◌↔◌, replicate, arith, is_empty,
}
use fidelity.Cipher.Sha256.{sha256}
use fidelity.Cipher.Stream.{in_alphabet, encrypt, decrypt}
use fidelity.Cipher.Stream.Laws.{decrypt-encrypt}
use fidelity.Cipher.Derivation.{derive_key}
use fidelity.Cipher.Derivation.Laws.{derive_key-digest}
use fidelity.Cipher.Binding.{apple_team, refuses, ok, present, parse}
use fidelity.Cipher.Binding.Laws.{stated_as, parse_iff}

abbrev key : List ℕ
key = replicate 32 7

-- "host.api"
abbrev plain : List ℕ
plain = 104 ∷ 111 ∷ 115 ∷ 116 ∷ 46 ∷ 97 ∷ 112 ∷ 105 ∷ []

decrypt-encrypt_example :
    (value : List ℕ) × (encrypt key plain ≡ some value)
    × (in_alphabet value ≡ true)
    × (decrypt key value ≡ plain)
unfolding in_alphabet
decrypt-encrypt_example = decrypt-encrypt key plain refl

abbrev salt : List ℕ
salt = replicate 16 3

derive_key-digest_example :
    derive_key salt (replicate 65 1) ≡ derive_key salt (sha256 (replicate 65 1))
derive_key-digest_example = derive_key-digest salt (replicate 65 1) (omega arith)

-- "TEAM"
abbrev team : List ℕ
team = 84 ∷ 69 ∷ 65 ∷ 77 ∷ []

parse_iff_example : (parse (stated_as apple_team team) ≡ ok (present apple_team team)) ↔ (
    (stated_as apple_team team ≡ stated_as apple_team team)
    × (is_empty team ≡ false)
    × (refuses apple_team team ≡ false))
parse_iff_example = parse_iff (stated_as apple_team team) apple_team team
