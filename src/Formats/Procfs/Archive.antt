-- ===== src/Formats/Procfs/Archive.antt =====
-- The archive of a package, out of the mapping table
-- (`package_archive` in crates/fidelity-formats/src/procfs/maps.rs).
pub mod Sound
use fidelity.Common.{
  ℕ, ◌+◌, Bool, true, false, not, ◌&&◌, ◌||◌, Option, none, some, List, [], ◌∷◌, any, find_map,
  get_elem?, length, take, drop, is_empty, if◌then◌else◌, ◌>>=◌,
}
use fidelity.Common.Chars.{
  Chars, strip_prefix, starts_with, ends_with, trim_end, find, split_at, split_whitespace, lines,
}
use fidelity.Formats.Procfs.Maps.{deleted_suffix}

-- "/data/app/"
abbrev pub installed : Chars
installed = b'/' ∷ b'd' ∷ b'a' ∷ b't' ∷ b'a' ∷ b'/' ∷ b'a' ∷ b'p' ∷ b'p' ∷ b'/' ∷ []

-- ".apk" and ".apk!"
abbrev pub archive : Chars
archive = b'.' ∷ b'a' ∷ b'p' ∷ b'k' ∷ []

abbrev pub inside_archive : Chars
inside_archive = b'.' ∷ b'a' ∷ b'p' ∷ b'k' ∷ b'!' ∷ []

unfoldable pub path_of : Chars → Option Chars
path_of line = do
  sixth ← get_elem? (split_whitespace line) 5
  halves ← find line sixth
  let path = trim_end halves.1
  if is_empty path || starts_with path (b'[' ∷ []) || ends_with path deleted_suffix
      then none
      else some path

starts_with_dash : Option Chars → Bool
starts_with_dash none = false
starts_with_dash (some rest) = starts_with rest (b'-' ∷ [])

unfoldable pub names : Chars → Chars → Bool
unfolding starts_with_dash
names path wanted =
    any (λ component. starts_with_dash (strip_prefix component wanted)) (split_at path b'/')

-- A path that the package runs from.
unfoldable pub accepted : Chars → Chars → Option Chars
accepted wanted path =
    if starts_with path installed && ends_with path archive && names path wanted
    then some path
    else none

unfoldable pub package_archive : Chars → Chars → Option Chars
unfolding accepted
package_archive text wanted =
    if is_empty wanted
    then none
    else find_map (λ line. path_of line >>= λ path. accepted wanted path) (lines text)

-- The text up to the end of an archive that a path goes into.
unfoldable pub up_to_archive : Chars → Option Chars
up_to_archive path = find path inside_archive >>= λ halves. some (take (length halves.0 + 4) path)

unfoldable pub install_root : Chars → Option Chars
install_root path = do
  rest ← strip_prefix path installed
  first ← find rest (b'/' ∷ [])
  second ← find (drop (length first.0 + 1) rest) (b'/' ∷ [])
  some (take (length installed + (length first.0 + 1) + length second.0 + 1) path)

below_root : Chars → Chars → Option Chars
below_root root path =
    if starts_with path root && ends_with path archive
    then some path
    else if starts_with path root
    then up_to_archive path
    else none

unfoldable pub package_archive_for_image : Chars → Chars → Option Chars
unfolding below_root
package_archive_for_image text image = elim (find image inside_archive) [
  | some halves ↦ some (take (length halves.0 + 4) image)
  | none ↦ install_root image >>= λ root.
      find_map (λ line. path_of line >>= λ path. below_root root path) (lines text)
]
