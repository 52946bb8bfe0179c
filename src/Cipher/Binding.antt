-- ===== src/Cipher/Binding.antt =====
-- What a build states about code identity (crates/fidelity-cipher/src/binding.rs). A string is the
-- list of its characters, as code points.
pub mod Laws
use fidelity.Common.{
  ℕ, zero, suc, ◌+◌, Bool, true, false, not, ◌&&◌, ◌||◌, Option, none, some, List, [], ◌∷◌, ◌++◌,
  any, all, is_empty, if◌then◌else◌, leb, ltb, ◌==◌,
}
use fidelity.Common.Chars.{Chars, same_chars, is_whitespace}

-- `str::len`: the bytes of the UTF-8 form.
abbrev pub utf8_len : Chars → ℕ
utf8_len [] = 0
utf8_len (c ∷ cs) =
    (if ltb c 128 then 1 else if ltb c 2048 then 2 else if ltb c 65536 then 3 else 4) + utf8_len cs

-- "none"
abbrev pub no_identity : Chars
no_identity = 110 ∷ 111 ∷ 110 ∷ 101 ∷ []

-- ':'
abbrev pub separator : ℕ
separator = 58

pub data Material : Type 0 where
  apple_team windows_certificate android_certificate : Material

abbrev pub same_material : Material → Material → Bool
same_material apple_team apple_team = true
same_material windows_certificate windows_certificate = true
same_material android_certificate android_certificate = true
same_material _ _ = false

-- "apple", "windows" and "android"
abbrev pub name : Material → Chars
name apple_team = 97 ∷ 112 ∷ 112 ∷ 108 ∷ 101 ∷ []
name windows_certificate = 119 ∷ 105 ∷ 110 ∷ 100 ∷ 111 ∷ 119 ∷ 115 ∷ []
name android_certificate = 97 ∷ 110 ∷ 100 ∷ 114 ∷ 111 ∷ 105 ∷ 100 ∷ []

-- "macos", "ios", "windows" and "android"
unfoldable pub of_target : Chars → Option Material
of_target target_os =
    if same_chars target_os (109 ∷ 97 ∷ 99 ∷ 111 ∷ 115 ∷ [])
      || same_chars target_os (105 ∷ 111 ∷ 115 ∷ [])
    then some apple_team
    else if same_chars target_os (name windows_certificate)
    then some windows_certificate
    else if same_chars target_os (name android_certificate)
    then some android_certificate
    else none

-- `char::is_control`: the category `Cc`.
is_control : ℕ → Bool
is_control c = leb c 31 || (leb 127 c && leb c 159)

-- A hexadecimal digit of ASCII that is no upper-case letter.
is_lower_hex : ℕ → Bool
is_lower_hex c = (leb 48 c && leb c 57) || (leb 97 c && leb c 102)

-- Whether the kind rejects the material; the reason is a text.
unfoldable pub refuses : Material → Chars → Bool
unfolding is_whitespace is_control is_lower_hex
refuses apple_team value = any (λ c. is_whitespace c || is_control c) value
refuses windows_certificate value = not (utf8_len value == 64 && all is_lower_hex value)
refuses android_certificate value = not (utf8_len value == 64 && all is_lower_hex value)

pub data Binding : Type 0 where
  absent : Binding
  present : Material → Chars → Binding

-- Why a value is refused, with what the message quotes.
pub data BindingError : Type 0 where
  unnamed : Chars → BindingError
  unknown_kind : Chars → BindingError
  no_material : Chars → BindingError
  unusable : Material → BindingError

pub data Stated : Type 0 where
  ok : Binding → Stated
  err : BindingError → Stated

-- `str::split_once`: what stands before and after the first separator.
unfoldable pub split_once : Chars → Option (Chars × Chars)
split_once [] = none
split_once (c ∷ cs) =
    let rest : Option (Chars × Chars) = elim (split_once cs) [
      | none ↦ none
      | some halves ↦ some (c ∷ halves.0, halves.1)
    ] in
    if c == separator then some ([], cs) else rest

-- The first kind of `EVERY` that has the name.
unfoldable pub find_kind : Chars → Option Material
find_kind stated_name =
    if same_chars (name apple_team) stated_name
    then some apple_team
    else if same_chars (name windows_certificate) stated_name
    then some windows_certificate
    else if same_chars (name android_certificate) stated_name
    then some android_certificate
    else none

unfoldable pub with_kind : Option Material → Chars → Chars → Stated
with_kind none stated_name value = err (unknown_kind stated_name)
with_kind (some material) stated_name value =
    if is_empty value
    then err (no_material stated_name)
    else if refuses material value
    then err (unusable material)
    else ok (present material value)

unfoldable pub with_split : Chars → Option (Chars × Chars) → Stated
unfolding with_kind
with_split stated none = err (unnamed stated)
with_split stated (some halves) = with_kind (find_kind halves.0) halves.0 halves.1

unfoldable pub parse : Chars → Stated
unfolding with_split
parse stated =
    if same_chars stated no_identity then ok absent else with_split stated (split_once stated)

-- Whether a target reports the material, and what it reports where it reports another.
pub data Fit : Type 0 where
  fits : Fit
  reports : Material → Fit
  reports_nothing : Fit

fit_of : Material → Option Material → Fit
fit_of material none = reports_nothing
fit_of material (some reported) = if same_material reported material then fits else reports reported

unfoldable pub check_target : Material → Chars → Fit
unfolding fit_of
check_target material target_os = fit_of material (of_target target_os)
