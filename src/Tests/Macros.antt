-- ===== src/Tests/Macros.antt =====
-- The macros, on concrete tokens.
use fidelity.Common.{ℕ, ◌<◌, ◌≡◌, ◌≢◌, refl, true, sym, ap, ◌∙◌, some, List, [], ◌∷◌, All, arith}
use fidelity.Common.Chars.{Chars, as_bytes}
use fidelity.Cipher.Binding
use fidelity.Cipher.Binding.{Binding, Material, apple_team, present, parse, refuses}
use fidelity.Cipher.Binding.Laws.{stated_as, parse_iff}
use fidelity.Cipher.Derivation.{derive_salt, derive_key}
use fidelity.Cipher.Stream.{encrypt_bytes}
use fidelity.Macros.Literal.Quoted.{byte_string_literal, parse_bytes-byte_string_literal}
use fidelity.Macros.Expand.{
  TokenTree, punct, literal, other, bytes, Build, ok, panicked, split, take_trees, take_tree,
  only_literal, plain_of, Expansion, expand, encrypted,
}
use fidelity.Macros.Expand.Reads.{Reports, read_back, read_back-expand}
use fidelity.Macros.Expand.Accepts.{expand-call}
use fidelity.Macros.Expand.Safety.{expand-ne-panicked}

-- Nine bytes, of which one is no text.
abbrev plain : List ℕ
plain = 255 ∷ 1 ∷ 2 ∷ 3 ∷ 4 ∷ 5 ∷ 6 ∷ 7 ∷ 8 ∷ []

plain_small : All (λ b. b < 256) plain
plain_small = (
  omega arith,
  (
    omega arith,
    (
      omega arith,
      (omega arith, (omega arith, (omega arith, (omega arith, (omega arith, (omega arith, tt)))))),
    ),
  ),
)

-- "TEAM"
abbrev team : Chars
team = 84 ∷ 69 ∷ 65 ∷ 77 ∷ []

-- `&handle, b"\xff\x01…"`
abbrev input : List TokenTree
input = other 0 ∷ other 1 ∷ punct 44 ∷ literal (byte_string_literal plain) ∷ []

abbrev build : Build
build = record { seed = some (115 ∷ []); identity = some (stated_as apple_team team) }

abbrev salt : List ℕ
salt = derive_salt (as_bytes (115 ∷ [])) plain

abbrev expansion : Expansion
expansion = record {
  handle = other 0 ∷ other 1 ∷ [];
  reader = bytes;
  salt = salt;
  value = encrypt_bytes (derive_key salt (as_bytes team)) plain;
  bound = true;
}

stated_team : parse (stated_as apple_team team) ≡ Binding.ok (present apple_team team)
unfolding refuses
stated_team = (parse_iff (stated_as apple_team team) apple_team team).1 (refl, refl, refl)

expand_run : expand build input bytes ≡ ok expansion
unfolding expand split take_trees take_tree only_literal plain_of encrypted
expand_run = rw (parse_bytes-byte_string_literal plain plain_small, stated_team) refl

expand-ne-panicked_example : expand build input bytes ≢ panicked
expand-ne-panicked_example = expand-ne-panicked build input bytes

reports_team : Reports build (as_bytes team)
reports_team kind value e =
    let same : Binding.ok (present apple_team team) ≡ Binding.ok (present kind value) =
      sym stated_team ∙ e in
    let value_same : team ≡ value = cc in ap as_bytes value_same

read_back-expand_example :
    (token : Chars) × (literal_bytes : List ℕ) × (split input ≡ ok (expansion.handle, token))
    × (plain_of bytes token ≡ ok literal_bytes)
    × (read_back expansion (as_bytes team) ≡ literal_bytes)
read_back-expand_example =
    read_back-expand build input bytes expansion (as_bytes team) reports_team expand_run

expand-call_example :
    (e : Expansion) × (expand build input bytes ≡ ok e)
    × (e.handle ≡ other 0 ∷ other 1 ∷ [])
    × ((identity : List ℕ) → Reports build identity → read_back e identity ≡ plain)
expand-call_example =
    expand-call build (other 0 ∷ other 1 ∷ []) plain (115 ∷ []) (present apple_team team)
      (tt, (tt, tt)) refl plain_small (omega arith) refl stated_team
