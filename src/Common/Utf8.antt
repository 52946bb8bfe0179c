-- ===== src/Common/Utf8.antt =====
-- Rust's `str::from_utf8`: the characters that bytes encode, where they encode any.
use Prim.Native.Nat.{ℕ, ◌+◌, ◌-◌, ◌*◌, ◌<◌}
use mathlib.Core.Path.{◌≡◌, refl}
use mathlib.Core.Bool.{Bool, ◌&&◌, ◌||◌}
use mathlib.Core.Option.{Option, none, some}
use mathlib.Core.List.{List, [], ◌∷◌}
use fidelity.Common.Tests.{ltb, leb, ◌==◌, if◌then◌else◌, lt→ltb}
use fidelity.Common.Lists.{◌>>=◌, All}
use fidelity.Common.Chars.{Chars}

-- A byte that continues a character, between bounds that the first byte may narrow.
abbrev within : ℕ → ℕ → ℕ → Bool
within low high byte = leb low byte && leb byte high

-- Whether a second byte may follow the first of three, or of four.
second_of_three : ℕ → ℕ → Bool
second_of_three a b =
    (a == 224 && within 160 191 b)
    || (within 225 236 a && within 128 191 b)
    || (a == 237 && within 128 159 b)
    || (within 238 239 a && within 128 191 b)

second_of_four : ℕ → ℕ → Bool
second_of_four a b =
    (a == 240 && within 144 191 b)
    || (within 241 243 a && within 128 191 b)
    || (a == 244 && within 128 143 b)

unfoldable mutual
  unfolding second_of_three second_of_four

  pub from_utf8 : List ℕ → Option Chars
  from_utf8 [] = some []
  from_utf8 (a ∷ bytes) =
      let one = from_utf8 bytes >>= λ cs. some (a ∷ cs) in if ltb a 128 then one else second a bytes

  pub second : ℕ → List ℕ → Option Chars
  second a [] = none
  second a (b ∷ bytes) =
      let two = from_utf8 bytes >>= λ cs. some (((a - 192) * 64 + (b - 128)) ∷ cs) in
      if within 194 223 a && within 128 191 b
      then two
      else if second_of_three a b || second_of_four a b
      then third a b bytes
      else none

  pub third : ℕ → ℕ → List ℕ → Option Chars
  third a b [] = none
  third a b (c ∷ bytes) =
      let three =
        from_utf8 bytes >>= λ cs. some (((a - 224) * 4096 + (b - 128) * 64 + (c - 128)) ∷ cs) in
      if within 128 191 c then if ltb a 240 then three else fourth a b c bytes else none

  pub fourth : ℕ → ℕ → ℕ → List ℕ → Option Chars
  fourth a b c [] = none
  fourth a b c (d ∷ bytes) =
      let four = from_utf8 bytes >>= λ cs.
      some (((a - 240) * 262144 + (b - 128) * 4096 + (c - 128) * 64 + (d - 128)) ∷ cs) in
      if within 128 191 d then four else none

pub from_utf8_ascii :
    (bytes : List ℕ) → All (λ byte. byte < 128) bytes → from_utf8 bytes ≡ some bytes
unfolding from_utf8
from_utf8_ascii [] h = refl
from_utf8_ascii (a ∷ bytes) h = rw (lt→ltb a 128 h.0, from_utf8_ascii bytes h.1) refl

from_utf8_two : from_utf8 (195 ∷ 169 ∷ 226 ∷ 130 ∷ 172 ∷ []) ≡ some (233 ∷ 8364 ∷ [])
unfolding from_utf8
from_utf8_two = refl
