-- ===== src/Macros/Expand/Accepts.antt =====
-- About the calls that the macro for bytes accepts (crates/fidelity-macros/src/lib.rs).
use fidelity.Common.{
  ℕ, ◌≤◌, ◌<◌, ◌≡◌, refl, sym, ap, ◌∙◌, true, false, some, List, [], ◌∷◌, ◌++◌, length, All,
  is_empty, ◌==◌, le→ltb,
}
use mathlib.Core.List.{append_assoc, append-nil}
use fidelity.Common.Chars.{Chars, as_bytes}
use fidelity.Cipher.Binding
use fidelity.Cipher.Binding.{Binding}
use fidelity.Cipher.Derivation.{derive_salt, derive_key}
use fidelity.Cipher.Stream.{min_bytes, encrypt_bytes}
use fidelity.Macros.Literal.Quoted.{byte_string_literal, parse_bytes-byte_string_literal}
use fidelity.Macros.Expand.{
  bytes, TokenTree, punct, literal, other, take_tree, take_trees, only_literal, split, ok, Build,
  plain_of, stated, encrypted, is_bound, material, Expansion, expand,
}
use fidelity.Macros.Expand.Reads.{Reports, read_back, read_back-expand}

ok-injective : {A : Type 0} {a b : A} → ok a ≡ ok b → a ≡ b
ok-injective h = cc

-- A token that is no comma of the top level.
abbrev pub NoComma : TokenTree → Type 0
NoComma (punct c) = (c == 44) ≡ false
NoComma (literal written) = Unit
NoComma (other n) = Unit

take_tree-handle :
    (tree : TokenTree) (handle : List TokenTree)
    → NoComma tree
    → take_tree tree (record { handle = handle; tail = []; seen_comma = false })
      ≡ record { handle = handle ++ tree ∷ []; tail = []; seen_comma = false }
unfolding take_tree
take_tree-handle (punct c) handle h = rw h refl
take_tree-handle (literal written) handle h = refl
take_tree-handle (other n) handle h = refl

take_trees-call :
    (before handle : List TokenTree) (written : Chars)
    → All NoComma handle
    → take_trees
        (handle ++ punct 44 ∷ literal written ∷ [])
        (record { handle = before; tail = []; seen_comma = false })
      ≡ record { handle = before ++ handle; tail = literal written ∷ []; seen_comma = true }
unfolding take_trees
take_trees-call before [] written h = unfold take_tree in rw (append-nil before) refl
take_trees-call before (tree ∷ handle) written h =
    ap (take_trees (handle ++ punct 44 ∷ literal written ∷ [])) (take_tree-handle tree before h.0)
    ∙ take_trees-call (before ++ tree ∷ []) handle written h.1
    ∙ ap
        (λ (hs : List TokenTree). record {
          handle = hs;
          tail = literal written ∷ [];
          seen_comma = true;
        })
        (append_assoc before (tree ∷ []) handle)

split-call :
    (handle : List TokenTree) (written : Chars)
    → All NoComma handle
    → is_empty handle ≡ false
    → split (handle ++ punct 44 ∷ literal written ∷ []) ≡ ok (handle, written)
unfolding split only_literal
split-call handle written h filled = rw (take_trees-call [] handle written h, filled) refl

plain_of-byte_string_literal :
    (plain : List ℕ)
    → All (λ b. b < 256) plain
    → plain_of bytes (byte_string_literal plain) ≡ ok plain
unfolding plain_of
plain_of-byte_string_literal plain small = rw (parse_bytes-byte_string_literal plain small) refl

abbrev call : List TokenTree → List ℕ → List TokenTree
call handle plain = handle ++ punct 44 ∷ literal (byte_string_literal plain) ∷ []

-- The expansion of a call.
abbrev expansion : List TokenTree → List ℕ → Chars → Binding → Expansion
expansion handle plain seed binding =
    let salt = derive_salt (as_bytes seed) plain in
    record {
      handle = handle;
      reader = bytes;
      salt = salt;
      value = encrypt_bytes (derive_key salt (material binding)) plain;
      bound = is_bound binding;
    }

module _ (build : Build) (handle : List TokenTree) (plain : List ℕ) (seed : Chars)
    (binding : Binding) (h : All NoComma handle) (filled : is_empty handle ≡ false)
    (small : All (λ b. b < 256) plain) (long : min_bytes ≤ length plain)
    (seeded : build.seed ≡ some seed)
    (named : Binding.parse (stated build) ≡ Binding.ok binding) where
  expand-expansion :
      expand build (call handle plain) bytes ≡ ok (expansion handle plain seed binding)
  unfolding expand encrypted
  expand-expansion =
      rw
        (
          split-call handle (byte_string_literal plain) h filled,
          plain_of-byte_string_literal plain small,
          le→ltb (length plain) min_bytes long,
          seeded,
          named,
        )
        refl

  reads_plain :
      (identity : List ℕ)
      → Reports build identity
      → read_back (expansion handle plain seed binding) identity ≡ plain
  reads_plain identity reports =
      let (token, read, cut, taken, back) =
        read_back-expand build (call handle plain) bytes (expansion handle plain seed binding)
          identity reports expand-expansion in
      let cut' = split-call handle (byte_string_literal plain) h filled in
      let taken' = plain_of-byte_string_literal plain small in
      let token_same : token ≡ byte_string_literal plain =
        ap (λ (p : List TokenTree × Chars). p.1) (ok-injective (sym cut ∙ cut')) in
      let read_same : read ≡ plain =
        ok-injective (sym taken ∙ (ap (plain_of bytes) token_same ∙ taken')) in
      back ∙ read_same

  -- In a build with a seed and a usable statement of its identity, a call with a handle that is
  -- not empty and has no comma at its top level, and a byte-string literal that writes eight
  -- bytes or more in hexadecimal, is accepted: the emitted code keeps the handle, and gives those
  -- bytes in every image that reports the material of the build, where the build stated one.
  pub expand-call :
      (e : Expansion) × (expand build
          (handle ++ punct 44 ∷ literal (byte_string_literal plain) ∷ [])
          bytes
        ≡ ok e)
      × (e.handle ≡ handle)
      × ((identity : List ℕ) → Reports build identity → read_back e identity ≡ plain)
  expand-call = (expansion handle plain seed binding, expand-expansion, refl, reads_plain)
