-- ===== src/Macros/Expand.antt =====
-- The expansion of `guarded!` and `guarded_bytes!` (crates/fidelity-macros/src/lib.rs). The compiler's
-- token streams are lists of token trees, and the emitted code is a record of what is written in it.
pub mod Reads
pub mod Safety
pub mod Accepts
use fidelity.Common.{
  ℕ, Bool, true, false, not, ◌&&◌, Option, none, some, List, [], ◌∷◌, ◌++◌, length, ltb, ◌==◌,
  is_empty, if◌then◌else◌,
}
use fidelity.Common.Chars.{Chars, as_bytes}
use fidelity.Cipher.Binding
use fidelity.Cipher.Binding.{Binding, BindingError, Stated, absent, present}
use fidelity.Cipher.Derivation.{derive_salt, derive_key}
use fidelity.Cipher.Stream.{min_bytes, in_alphabet, encrypt, encrypt_bytes}
use fidelity.Macros.Literal
use fidelity.Macros.Literal.{LiteralError, Read}

pub data LiteralKind : Type 0 where
  text bytes : LiteralKind

-- A mark, a literal as it is written, or any other token or group, by a number of its own.
pub data TokenTree : Type 0 where
  punct : ℕ → TokenTree
  literal : Chars → TokenTree
  other : ℕ → TokenTree

-- Why the build fails, with what the message quotes.
pub data ExpandError : Type 0 where
  no_comma no_handle no_literal not_in_place outside_alphabet no_seed : ExpandError
  refused : LiteralError → ExpandError
  too_short : ℕ → ExpandError
  unusable_identity : BindingError → ExpandError

-- `panicked` is the assertion of `encrypt`.
pub data Expanded (A : Type 0) : Type 0 where
  ok : A → Expanded A
  err : ExpandError → Expanded A
  panicked : Expanded A

infixl 5 ◌>>=◌
abbrev pub ◌>>=◌ : {A B : Type 0} → Expanded A → (A → Expanded B) → Expanded B
ok a >>= f = f a
err e >>= f = err e
panicked >>= f = panicked

abbrev guard : Bool → ExpandError → Expanded (Unit {0})
guard true e = err e
guard false e = ok tt

-- The loop of `split`: the handle, what follows the first comma, and whether there was one.
pub record Pieces : Type 0 where
  pub handle : List TokenTree
  pub tail : List TokenTree
  pub seen_comma : Bool

place_tree : TokenTree → Pieces → Pieces
place_tree tree p =
    if p.seen_comma
    then record p { tail = p.tail ++ tree ∷ [] }
    else record p { handle = p.handle ++ tree ∷ [] }

unfoldable pub take_tree : TokenTree → Pieces → Pieces
unfolding place_tree
take_tree (punct c) p =
    if c == 44 && not p.seen_comma then record p { seen_comma = true } else place_tree (punct c) p
take_tree (literal written) p = place_tree (literal written) p
take_tree (other n) p = place_tree (other n) p

unfoldable pub take_trees : List TokenTree → Pieces → Pieces
take_trees [] p = p
take_trees (tree ∷ trees) p = take_trees trees (take_tree tree p)

-- The `match` on what follows the comma.
unfoldable pub only_literal : List TokenTree → Expanded Chars
only_literal [] = err no_literal
only_literal (literal written ∷ []) = ok written
only_literal (literal written ∷ tree ∷ trees) = err not_in_place
only_literal (punct c ∷ trees) = err not_in_place
only_literal (other n ∷ trees) = err not_in_place

unfoldable pub split : List TokenTree → Expanded (List TokenTree × Chars)
unfolding take_trees only_literal
split input = do
  let p = take_trees input (record { handle = []; tail = []; seen_comma = false })
  seen ← guard (not p.seen_comma) no_comma
  filled ← guard (is_empty p.handle) no_handle
  written ← only_literal p.tail
  ok (p.handle, written)

-- The two variables of the build.
pub record Build : Type 0 where
  pub seed : Option Chars
  pub identity : Option Chars

of_read : Read → Expanded (List ℕ)
of_read (Literal.ok plain) = ok plain
of_read (Literal.err e) = err (refused e)

unfoldable pub plain_of : LiteralKind → Chars → Expanded (List ℕ)
unfolding of_read
plain_of text token = of_read (Literal.parse token)
plain_of bytes token = of_read (Literal.parse_bytes token)

outside : LiteralKind → List ℕ → Bool
outside text plain = not (in_alphabet plain)
outside bytes plain = false

or_no_seed : Option Chars → Expanded Chars
or_no_seed none = err no_seed
or_no_seed (some seed) = ok seed

-- `unwrap_or_default` of the variable, and the parser's answer.
abbrev pub stated : Build → Chars
stated build = elim build.identity [ none ↦ [] | some value ↦ value ]

of_stated : Stated → Expanded Binding
of_stated (Binding.ok binding) = ok binding
of_stated (Binding.err e) = err (unusable_identity e)

abbrev pub is_bound : Binding → Bool
is_bound absent = false
is_bound (present kind value) = true

abbrev pub material : Binding → List ℕ
material absent = []
material (present kind value) = as_bytes value

or_panic : Option (List ℕ) → Expanded (List ℕ)
or_panic none = panicked
or_panic (some value) = ok value

unfoldable pub encrypted : LiteralKind → List ℕ → List ℕ → Expanded (List ℕ)
unfolding or_panic
encrypted text key plain = or_panic (encrypt key plain)
encrypted bytes key plain = ok (encrypt_bytes key plain)

-- The code that replaces the call: the handle as it was written, and the call that reads the
-- constant, with its salt, its value and whether it binds.
pub record Expansion : Type 0 where
  pub handle : List TokenTree
  pub reader : LiteralKind
  pub salt : List ℕ
  pub value : List ℕ
  pub bound : Bool

unfoldable pub expand : Build → List TokenTree → LiteralKind → Expanded Expansion
unfolding outside or_no_seed of_stated
expand build input kind = do
  pieces ← split input
  plain ← plain_of kind pieces.1
  long ← guard (ltb (length plain) min_bytes) (too_short (length plain))
  inside ← guard (outside kind plain) outside_alphabet
  seed ← or_no_seed build.seed
  binding ← of_stated (Binding.parse (stated build))
  let salt = derive_salt (as_bytes seed) plain
  let key = derive_key salt (material binding)
  value ← encrypted kind key plain
  ok record {
    handle = pieces.0;
    reader = kind;
    salt = salt;
    value = value;
    bound = is_bound binding;
  }
