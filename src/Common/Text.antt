-- ===== src/Common/Text.antt =====
-- Rust's `String` and `&str` as their UTF-8 bytes.
use Prim.Native.Nat.{ℕ, zero, suc, ◌+◌, ◌-◌, ◌/◌, ◌%◌}
use Prim.Native.Char.{code}
use Prim.Native.String.{String}
use mathlib.Core.Path.{◌≡◌, refl}
use mathlib.Core.List.{List, [], ◌∷◌, ◌++◌}
use fidelity.Common.Tests.{ltb, ◌==◌, if◌then◌else◌}

abbrev pub Text : Type 0
Text = List ℕ

-- The bytes of an ASCII literal.
unfoldable pub literal : String → Text
literal String.[] = []
literal (String.◌∷◌ c s) = code c ∷ literal s

-- What `{}` and `{:x}` print of a number: its digits, of which a `u64` has at most 64 in any base.
unfoldable pub digits : ℕ → ℕ → ℕ → Text → Text
digits base zero n printed = printed
digits base (suc fuel) n printed =
    let d = n % base in
    let printed' = (if ltb d 10 then b'0' + d else b'a' + d - 10) ∷ printed in
    let rest = digits base fuel (n / base) printed' in if n / base == 0 then printed' else rest

unfoldable pub decimal : ℕ → Text
unfolding digits
decimal n = digits 10 64 n []

unfoldable pub hexadecimal : ℕ → Text
unfolding digits
hexadecimal n = literal "0x" ++ digits 16 64 n []

decimal_example : decimal 4096 ≡ literal "4096"
unfolding decimal literal
decimal_example = refl
