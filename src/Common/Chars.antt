-- ===== src/Common/Chars.antt =====
-- Rust's `&str` as the list of its characters, given as code points: the functions of the standard
-- library that the readers and the macros call.
pub mod Laws
pub mod Decimal
use Prim.Native.Nat.{ℕ, zero, suc, ◌+◌, ◌-◌, ◌*◌, ◌/◌, ◌%◌}
use mathlib.Core.Path.{◌≡◌, refl}
use mathlib.Core.Bool.{Bool, true, false, not, ◌&&◌, ◌||◌}
use mathlib.Core.Option.{Option, none, some}
use mathlib.Core.List.{List, [], ◌∷◌, ◌++◌, reverse}
use fidelity.Common.Tests.{ltb, leb, ◌==◌, if◌then◌else◌}
use fidelity.Common.Lists.{length, drop, is_empty, ◌>>=◌}
use fidelity.Common.Text.{Text}

abbrev pub Chars : Type 0
Chars = List ℕ

-- `==` on strings.
abbrev pub same_chars : Chars → Chars → Bool
same_chars [] [] = true
same_chars [] (d ∷ ds) = false
same_chars (c ∷ cs) [] = false
same_chars (c ∷ cs) (d ∷ ds) = c == d && same_chars cs ds

-- `char::is_whitespace`: the characters with the property `White_Space`.
unfoldable pub is_whitespace : ℕ → Bool
is_whitespace c =
    (leb 9 c && leb c 13)
    || c == 32
    || c == 133
    || c == 160
    || c == 5760
    || (leb 8192 c && leb c 8202)
    || c == 8232
    || c == 8233
    || c == 8239
    || c == 8287
    || c == 12288

-- `char::encode_utf8`, and the bytes of a string.
unfoldable pub encode_utf8 : ℕ → List ℕ
encode_utf8 c =
    if ltb c 128
    then c ∷ []
    else if ltb c 2048
    then (192 + c / 64) ∷ (128 + c % 64) ∷ []
    else if ltb c 65536
    then (224 + c / 4096) ∷ (128 + c / 64 % 64) ∷ (128 + c % 64) ∷ []
    else (240 + c / 262144) ∷ (128 + c / 4096 % 64) ∷ (128 + c / 64 % 64) ∷ (128 + c % 64) ∷ []

unfoldable pub as_bytes : Chars → Text
as_bytes [] = []
as_bytes (c ∷ cs) = encode_utf8 c ++ as_bytes cs

-- `str::strip_prefix` and `str::starts_with`; the pattern is the second argument.
unfoldable pub strip_prefix : Chars → Chars → Option Chars
strip_prefix text [] = some text
strip_prefix [] (p ∷ ps) = none
strip_prefix (c ∷ cs) (p ∷ ps) = if c == p then strip_prefix cs ps else none

unfoldable pub starts_with : Chars → Chars → Bool
starts_with text [] = true
starts_with [] (p ∷ ps) = false
starts_with (c ∷ cs) (p ∷ ps) = c == p && starts_with cs ps

-- `str::strip_suffix` and `str::ends_with`.
unfoldable pub strip_suffix : Chars → Chars → Option Chars
unfolding strip_prefix
strip_suffix text suffix =
    strip_prefix (reverse text) (reverse suffix) >>= λ kept. some (reverse kept)

unfoldable pub ends_with : Chars → Chars → Bool
unfolding starts_with
ends_with text suffix = starts_with (reverse text) (reverse suffix)

-- `str::trim_start`, `str::trim_end` and `str::trim`.
unfoldable pub trim_start : Chars → Chars
unfolding is_whitespace
trim_start [] = []
trim_start (c ∷ cs) = if is_whitespace c then trim_start cs else c ∷ cs

unfoldable pub trim_end : Chars → Chars
unfolding trim_start
trim_end text = reverse (trim_start (reverse text))

unfoldable pub trim : Chars → Chars
unfolding trim_end
trim text = trim_end (trim_start text)

-- `str::find` of a string: what stands before its first occurrence, and the text from there on.
unfoldable pub find : Chars → Chars → Option (Chars × Chars)
unfolding starts_with
find [] pattern = if starts_with [] pattern then some ([], []) else none
find (c ∷ cs) pattern =
    let later : Option (Chars × Chars) =
      find cs pattern >>= λ halves. some (c ∷ halves.0, halves.1) in
    if starts_with (c ∷ cs) pattern then some ([], c ∷ cs) else later

-- `str::split_once` at a string.
unfoldable pub split_once_at : Chars → Chars → Option (Chars × Chars)
unfolding find
split_once_at text pattern =
    find text pattern >>= λ halves. some (halves.0, drop (length pattern) halves.1)

-- `str::contains` of a character.
unfoldable pub contains_char : Chars → ℕ → Bool
contains_char [] c = false
contains_char (d ∷ ds) c = d == c || contains_char ds c

-- `str::split` at a character, with the part that is being read.
unfoldable pub split_from : ℕ → Chars → Chars → List Chars
split_from separator part [] = part ∷ []
split_from separator part (c ∷ cs) =
    let next = part ∷ split_from separator [] cs in
    let same = split_from separator (part ++ c ∷ []) cs in if c == separator then next else same

unfoldable pub split_at : Chars → ℕ → List Chars
unfolding split_from
split_at text separator = split_from separator [] text

-- `str::split_whitespace`, with the word that is being read.
unfoldable pub words_from : Chars → Chars → List Chars
unfolding is_whitespace
words_from word [] = if is_empty word then [] else word ∷ []
words_from word (c ∷ cs) =
    let ended = words_from [] cs in
    let longer = words_from (word ++ c ∷ []) cs in
    if is_whitespace c then if is_empty word then ended else word ∷ ended else longer

unfoldable pub split_whitespace : Chars → List Chars
unfolding words_from
split_whitespace text = words_from [] text

-- `str::lines`: a line ends at a line feed, and loses one carriage return before it.
unfoldable pub without_return : Chars → Chars
unfolding strip_suffix
without_return line = elim (strip_suffix line (13 ∷ [])) [ none ↦ line | some kept ↦ kept ]

unfoldable pub lines_from : Chars → Chars → List Chars
unfolding without_return
lines_from line [] = if is_empty line then [] else line ∷ []
lines_from line (c ∷ cs) =
    let ended = without_return line ∷ lines_from [] cs in
    let longer = lines_from (line ++ c ∷ []) cs in if c == 10 then ended else longer

unfoldable pub lines : Chars → List Chars
unfolding lines_from
lines text = lines_from [] text

-- `char::to_digit` in a base up to 36.
unfoldable pub to_digit : ℕ → ℕ → Option ℕ
to_digit base c =
    let value : Option ℕ =
      if leb 48 c && leb c 57
      then some (c - 48)
      else if leb 97 c && leb c 122
      then some (c - 97 + 10)
      else if leb 65 c && leb c 90
      then some (c - 65 + 10)
      else none in
    value >>= λ d. if ltb d base then some d else none

-- `from_str_radix` of an unsigned number below a limit: an optional `+`, and one or more digits
-- whose value stays below the limit.
unfoldable pub digits_from : ℕ → ℕ → ℕ → Chars → Option ℕ
unfolding to_digit
digits_from base limit value [] = some value
digits_from base limit value (c ∷ cs) = to_digit base c >>= λ d.
    let value' = value * base + d in
    if ltb value' limit then digits_from base limit value' cs else none

unfoldable pub unsigned : ℕ → ℕ → Chars → Option ℕ
unfolding digits_from
unsigned base limit [] = none
unsigned base limit (c ∷ cs) =
    if c == 43
    then if is_empty cs then none else digits_from base limit 0 cs
    else digits_from base limit 0 (c ∷ cs)
