-- ===== src/Macros/Expand/Safety.antt =====
-- About the assertion of the cipher in an expansion (crates/fidelity-macros/src/lib.rs).
use fidelity.Common.{
  ℕ, ◌≡◌, ◌≢◌, refl, Bool, true, false, not, Option, none, some, List, [], ◌∷◌, length, ltb,
  is_empty,
}
use fidelity.Common.Chars.{Chars, as_bytes}
use fidelity.Cipher.Binding
use fidelity.Cipher.Binding.{Binding, Stated}
use fidelity.Cipher.Derivation.{derive_salt, derive_key}
use fidelity.Cipher.Stream.{min_bytes, in_alphabet, encrypt}
use fidelity.Macros.Literal
use fidelity.Macros.Literal.{Read}
use fidelity.Macros.Expand.{
  LiteralKind, text, bytes, TokenTree, punct, literal, other, Expanded, ok, err, panicked, ◌>>=◌,
  guard, ExpandError, take_trees, only_literal, split, Build, of_read, plain_of, outside,
  or_no_seed, stated, of_stated, material, encrypted, or_panic, expand, too_short, outside_alphabet,
  no_comma, no_handle,
}

abbrev Safe : {A : Type 0} → Expanded A → Type 0
Safe (ok a) = Unit
Safe (err e) = Unit
Safe panicked = ⊥

bind-Safe :
    {A B : Type 0} (m : Expanded A) (f : A → Expanded B)
    → Safe m
    → ((a : A) → m ≡ ok a → Safe (f a))
    → Safe (m >>= f)
bind-Safe (ok a) f h k = k a refl
bind-Safe (err e) f h k = tt
bind-Safe panicked f h k = h

guard-Safe : (b : Bool) (e : ExpandError) → Safe (guard b e)
guard-Safe true e = tt
guard-Safe false e = tt

only_literal-Safe : (trees : List TokenTree) → Safe (only_literal trees)
unfolding only_literal
only_literal-Safe [] = tt
only_literal-Safe (literal written ∷ []) = tt
only_literal-Safe (literal written ∷ tree ∷ trees) = tt
only_literal-Safe (punct c ∷ trees) = tt
only_literal-Safe (other n ∷ trees) = tt

split-Safe : (input : List TokenTree) → Safe (split input)
unfolding split
split-Safe input =
    let p = take_trees input (record { handle = []; tail = []; seen_comma = false }) in
    bind-Safe (guard (not p.seen_comma) no_comma) _ (guard-Safe _ _) λ _ _.
      bind-Safe (guard (is_empty p.handle) no_handle) _ (guard-Safe _ _)
        λ _ _. bind-Safe (only_literal p.tail) _ (only_literal-Safe p.tail) λ _ _. tt

of_read-Safe : (r : Read) → Safe (of_read r)
unfolding of_read
of_read-Safe (Literal.ok plain) = tt
of_read-Safe (Literal.err e) = tt

plain_of-Safe : (kind : LiteralKind) (token : Chars) → Safe (plain_of kind token)
unfolding plain_of
plain_of-Safe text token = of_read-Safe (Literal.parse token)
plain_of-Safe bytes token = of_read-Safe (Literal.parse_bytes token)

or_no_seed-Safe : (seed : Option Chars) → Safe (or_no_seed seed)
unfolding or_no_seed
or_no_seed-Safe none = tt
or_no_seed-Safe (some seed) = tt

of_stated-Safe : (s : Stated) → Safe (of_stated s)
unfolding of_stated
of_stated-Safe (Binding.ok b) = tt
of_stated-Safe (Binding.err e) = tt

encrypted-Safe :
    (kind : LiteralKind) (key plain : List ℕ)
    → guard (outside kind plain) outside_alphabet ≡ ok tt
    → Safe (encrypted kind key plain)
unfolding encrypted outside
encrypted-Safe bytes key plain h = tt
encrypted-Safe text key plain h = by_test (in_alphabet plain) refl h
  where
    by_test :
        (b : Bool)
        → in_alphabet plain ≡ b
        → guard (not b) outside_alphabet ≡ ok tt
        → Safe (or_panic (encrypt key plain))
    by_test true e k = unfold encrypt or_panic in rw e tt
    by_test false e k = absurd cc

expand-Safe :
    (build : Build) (input : List TokenTree) (kind : LiteralKind) → Safe (expand build input kind)
unfolding expand
expand-Safe build input kind = bind-Safe (split input) _ (split-Safe input) λ pieces _.
    bind-Safe (plain_of kind pieces.1) _ (plain_of-Safe kind pieces.1) λ plain _.
      bind-Safe (guard (ltb (length plain) min_bytes) (too_short (length plain))) _ (guard-Safe _ _)
        λ _ _.
          bind-Safe (guard (outside kind plain) outside_alphabet) _ (guard-Safe _ _) λ _ inside.
            bind-Safe (or_no_seed build.seed) _ (or_no_seed-Safe build.seed) λ seed _.
              bind-Safe (of_stated (Binding.parse (stated build))) _ (of_stated-Safe _) λ binding _.
                bind-Safe
                  (encrypted kind
                    (derive_key (derive_salt (as_bytes seed) plain) (material binding)) plain)
                  _ (encrypted-Safe kind _ plain inside) λ _ _. tt

-- Whatever the tokens and the variables of the build are, the expansion of a macro never reaches
-- the assertion of the cipher.
pub expand-ne-panicked :
    (build : Build) (input : List TokenTree) (kind : LiteralKind)
    → expand build input kind ≢ panicked
expand-ne-panicked build input kind h = rw h at (expand-Safe build input kind)
