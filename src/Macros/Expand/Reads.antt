-- ===== src/Macros/Expand/Reads.antt =====
-- About what the emitted code reads (crates/fidelity-macros/src/lib.rs and
-- crates/fidelity/src/secret.rs).
use fidelity.Common.{
  ℕ, ◌<◌, ◌≡◌, refl, Bool, true, List, [], ◌∷◌, length, All, ltb, arith, Bool-cases, inl, inr,
}
use fidelity.Common.Chars.{Chars, as_bytes}
use fidelity.Common.Utf8.{from_utf8_ascii}
use fidelity.Cipher.Binding
use fidelity.Cipher.Binding.{Binding, Material, Stated, absent, present}
use fidelity.Cipher.Derivation.{derive_salt, derive_key}
use fidelity.Cipher.Stream.{min_bytes, in_alphabet, encrypt, encrypt_bytes}
use fidelity.Cipher.Stream.Laws.{decrypt-encrypt, decrypt_bytes-encrypt_bytes}
use fidelity.Facade.Secret
use fidelity.Facade.Secret.{guarded, guarded_bytes, as_str-from_utf8, bound_identity}
use fidelity.Macros.Expand.{
  LiteralKind, text, bytes, TokenTree, Expanded, ok, err, panicked, ◌>>=◌, guard, split, Build,
  plain_of, outside, or_no_seed, stated, of_stated, is_bound, material, encrypted, or_panic,
  Expansion, expand, too_short, outside_alphabet,
}

bind_ok :
    {A B : Type 0} (m : Expanded A) (f : A → Expanded B) (b : B)
    → (m >>= f) ≡ ok b
    → (a : A) × (m ≡ ok a) × (f a ≡ ok b)
bind_ok (ok a) f b h = (a, refl, h)
bind_ok (err e) f b h = absurd cc
bind_ok panicked f b h = absurd cc

-- The running image reports what the build stated, where the build stated a material.
abbrev pub Reports : Build → List ℕ → Type 0
Reports build identity =
    (kind : Material) (value : Chars)
    → Binding.parse (stated build) ≡ Binding.ok (present kind value)
    → identity ≡ as_bytes value

-- The call that the emitted code makes, and the view that it gives the host.
abbrev reading : LiteralKind → Bool → List ℕ → List ℕ → List ℕ → List ℕ
reading text bound identity salt value = Secret.as_str (guarded bound identity salt value)
reading bytes bound identity salt value = Secret.as_bytes (guarded_bytes bound identity salt value)

abbrev pub read_back : Expansion → List ℕ → List ℕ
read_back e identity = reading e.reader e.bound identity e.salt e.value

alphabet-ascii : (plain : List ℕ) → in_alphabet plain ≡ true → All (λ b. b < 128) plain
alphabet-ascii [] h = tt
alphabet-ascii (b ∷ bs) h =
    let head : (b < 128) × (in_alphabet bs ≡ true) = unfold in_alphabet in ground arith in
    (head.0, alphabet-ascii bs head.1)

same_key :
    (build : Build) (identity : List ℕ) (binding : Binding)
    → Reports build identity
    → of_stated (Binding.parse (stated build)) ≡ ok binding
    → bound_identity (is_bound binding) identity ≡ material binding
same_key build identity absent reports e = refl
same_key build identity (present kind value) reports e =
    reports kind value (by_answer (Binding.parse (stated build)) e)
  where
    by_answer :
        (s : Stated) → of_stated s ≡ ok (present kind value) → s ≡ Binding.ok (present kind value)
    by_answer (Binding.ok b) k = unfold of_stated in cc
    by_answer (Binding.err b) k = absurd (unfold of_stated in cc)

reading-encrypted :
    (kind : LiteralKind) (bound : Bool) (identity named salt plain value : List ℕ)
    → bound_identity bound identity ≡ named
    → encrypted kind (derive_key salt named) plain ≡ ok value
    → reading kind bound identity salt value ≡ plain
unfolding encrypted
reading-encrypted bytes bound identity named salt plain value same h =
    let e : encrypt_bytes (derive_key salt named) plain ≡ value = cc in
    unfold Secret.as_bytes guarded_bytes in
    rw (same, ← e) (decrypt_bytes-encrypt_bytes (derive_key salt named) plain)
reading-encrypted text bound identity named salt plain value same h =
    elim (Bool-cases (in_alphabet plain)) [
      | inl good ↦
          let (v, made, inside, back) = decrypt-encrypt (derive_key salt named) plain good in
          let e : v ≡ value = unfold or_panic in ground (arith, made) in
          as_str-from_utf8 (guarded bound identity salt value) plain (
            unfold guarded in
            rw (same, ← e, back) (from_utf8_ascii plain (alphabet-ascii plain good)))
      | inr bad ↦ absurd (unfold encrypt or_panic in ground arith)
    ]

-- Where the build accepts a call of a macro, the literal of the call is read as some bytes, and
-- the code that replaces the call gives the host exactly those bytes in an image that reports the
-- material of the build, where the build stated one.
pub read_back-expand :
    (build : Build) (input : List TokenTree) (kind : LiteralKind) (e : Expansion)
    (identity : List ℕ)
    → Reports build identity
    → expand build input kind ≡ ok e
    → (token : Chars) × (plain : List ℕ) × (split input ≡ ok (e.handle, token))
      × (plain_of kind token ≡ ok plain)
      × (read_back e identity ≡ plain)
unfolding expand
read_back-expand build input kind e identity reports h =
    let (pieces, cut, h1) = bind_ok (split input) _ e h in
    let (plain, read, h2) = bind_ok (plain_of kind pieces.1) _ e h1 in
    let (_, long, h3) =
      bind_ok (guard (ltb (length plain) min_bytes) (too_short (length plain))) _ e h2 in
    let (_, inside, h4) = bind_ok (guard (outside kind plain) outside_alphabet) _ e h3 in
    let (seed, seeded, h5) = bind_ok (or_no_seed build.seed) _ e h4 in
    let (binding, bound, h6) = bind_ok (of_stated (Binding.parse (stated build))) _ e h5 in
    let salt = derive_salt (as_bytes seed) plain in
    let (value, made, h7) =
      bind_ok (encrypted kind (derive_key salt (material binding)) plain) _ e h6 in
    let same : record {
      handle = pieces.0;
      reader = kind;
      salt = salt;
      value = value;
      bound = is_bound binding;
    }
        ≡ e =
      cc in
    rw (← same) (
      pieces.1,
      plain,
      cut,
      read,
      reading-encrypted kind (is_bound binding) identity (material binding) salt plain value
          (same_key build identity binding reports bound) made,
    )
