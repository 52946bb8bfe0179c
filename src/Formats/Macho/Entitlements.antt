-- ===== src/Formats/Macho/Entitlements.antt =====
-- The team of a signed image (crates/fidelity-formats/src/macho/entitlements.rs).
pub mod Team
use fidelity.Common.{
  ℕ, zero, suc, ◌+◌, Bool, true, false, not, ◌&&◌, ◌||◌, Option, none, some, List, [], ◌∷◌, all,
  drop, length, is_empty, leb, ◌==◌, if◌then◌else◌, ◌>>=◌,
}
use fidelity.Common.Text.{literal}
use fidelity.Common.Chars.{Chars, same_chars, as_bytes, trim, find, split_once_at}
use fidelity.Common.Utf8.{from_utf8}

-- The keys and the marks; each is ASCII, so its bytes are its characters.
abbrev pub team_key : Chars
team_key = literal "com.apple.developer.team-identifier"

abbrev pub app_id_key : Chars
app_id_key = literal "application-identifier"

abbrev pub open_key : Chars
open_key = literal "<key>"

abbrev pub close_key : Chars
close_key = literal "</key>"

abbrev pub open_string : Chars
open_string = literal "<string>"

abbrev pub close_string : Chars
close_string = literal "</string>"

abbrev pub max_team : ℕ
max_team = 64

abbrev pub team_length : ℕ
team_length = 10

-- `char::is_ascii_alphanumeric`
is_ascii_alphanumeric : ℕ → Bool
is_ascii_alphanumeric c =
    (leb 48 c && leb c 57) || (leb 65 c && leb c 90) || (leb 97 c && leb c 122)

-- `str::len` counts bytes.
unfoldable pub acceptable : Chars → Bool
unfolding is_ascii_alphanumeric
acceptable team =
    not (is_empty team) && leb (length (as_bytes team)) max_team && all is_ascii_alphanumeric team

-- How a search on fuel ends.
pub data Searched : Type 0 where
  exhausted : Searched
  answer : Option Chars → Searched

-- The text of the value that follows a key.
value_after : Chars → Option Chars
value_after tail = do
  opened ← split_once_at tail open_string
  closed ← split_once_at opened.1 close_string
  some (trim closed.0)

-- The name of the next key, and the text behind it.
unfoldable pub next_key : Chars → Option (Chars × Chars)
next_key rest =
    find rest open_key >>= λ halves. split_once_at (drop (length open_key) halves.1) close_key

unfoldable pub string_value_from : ℕ → Chars → Chars → Searched
unfolding value_after
string_value_from zero rest key = exhausted
string_value_from (suc fuel) rest key = elim (next_key rest) [
  | none ↦ answer none
  | some halves ↦
      let later = string_value_from fuel halves.1 key in
      if same_chars (trim halves.0) key then answer (value_after halves.1) else later
]

-- Every key takes at least one character, so the length of the text is fuel enough.
unfoldable pub string_value : Chars → Chars → Searched
string_value text key = string_value_from (suc (length text)) text key

or_missing : Searched → Option Chars
or_missing exhausted = none
or_missing (answer value) = value

-- `filter`
accepted : Chars → Option Chars
accepted team = if acceptable team then some team else none

-- The team in front of an App ID.
unfoldable pub app_id_team : Chars → Option Chars
app_id_team app_id = split_once_at app_id (b'.' ∷ []) >>= λ halves.
    if is_empty halves.1
      || not (length (as_bytes halves.0) == team_length)
      || not (acceptable halves.0)
    then none
    else some halves.0

first_team : Option Chars → Option Chars → Option Chars
first_team (some team) app_id = some team
first_team none app_id = app_id >>= app_id_team

unfoldable pub team_of : Chars → Option Chars
unfolding or_missing accepted first_team
team_of text =
    first_team (or_missing (string_value text team_key) >>= accepted)
      (or_missing (string_value text app_id_key))

unfoldable pub team_identifier : List ℕ → Option Chars
team_identifier plist = from_utf8 plist >>= team_of
