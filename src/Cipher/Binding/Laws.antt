-- ===== src/Cipher/Binding/Laws.antt =====
-- What a build may state is exactly what its printed form says.
use fidelity.Common.{
  ℕ, ◌≡◌, refl, ap, ◌∙◌, Bool, true, false, ◌↔◌, Option, none, some, [], ◌∷◌, ◌++◌, is_empty,
  if◌then◌else◌, ◌==◌, ==→eq, some-injective,
}
use fidelity.Common.Chars.{Chars, same_chars}
use fidelity.Common.Chars.Laws.{same_chars-eq}
use fidelity.Cipher.Binding.{
  no_identity, separator, Material, apple_team, windows_certificate, android_certificate, name,
  refuses, no_material, unusable, absent, present, Stated, ok, err, split_once, find_kind,
  with_kind, with_split, parse,
}

-- The form of a value that names a kind.
abbrev pub stated_as : Material → Chars → Chars
stated_as material value = name material ++ separator ∷ value

split_once-stated :
    (material : Material) (value : Chars)
    → split_once (stated_as material value) ≡ some (name material, value)
unfolding split_once
split_once-stated apple_team value = refl
split_once-stated windows_certificate value = refl
split_once-stated android_certificate value = refl

find_kind-name : (material : Material) → find_kind (name material) ≡ some material
unfolding find_kind
find_kind-name apple_team = refl
find_kind-name windows_certificate = refl
find_kind-name android_certificate = refl

not_none :
    (material : Material) (value : Chars)
    → same_chars (stated_as material value) no_identity ≡ false
not_none apple_team value = refl
not_none windows_certificate value = refl
not_none android_certificate value = refl

-- A value that is stated as a kind and a material which the kind accepts is read as both.
pub parse-stated :
    (material : Material) (value : Chars)
    → is_empty value ≡ false
    → refuses material value ≡ false
    → parse (stated_as material value) ≡ ok (present material value)
unfolding parse with_split with_kind
parse-stated material value filled accepted =
    rw
      (
        not_none material value,
        split_once-stated material value,
        find_kind-name material,
        filled,
        accepted,
      )
      refl

abbrev joined : ℕ → Chars → Bool → Option (Chars × Chars) → Option (Chars × Chars)
joined c cs b r =
    let rest : Option (Chars × Chars) = elim r [
      | none ↦ none
      | some halves ↦ some (c ∷ halves.0, halves.1)
    ] in
    if b then some ([], cs) else rest

split_once-cons :
    (c : ℕ) (cs : Chars) (b : Bool) (r : Option (Chars × Chars)) (before after : Chars)
    → (c == separator) ≡ b
    → ((xs ys : Chars) → r ≡ some (xs, ys) → cs ≡ xs ++ separator ∷ ys)
    → joined c cs b r ≡ some (before, after)
    → c ∷ cs ≡ before ++ separator ∷ after
split_once-cons c cs true r before after e ih h =
    let pair : ([], cs) ≡ (before, after) = some-injective h in
    let front : [] ≡ before = ap (λ p. p.0) pair in
    let back : cs ≡ after = ap (λ p. p.1) pair in rw (← front, ← back, ==→eq c separator e) refl
split_once-cons c cs false none before after e ih h = absurd cc
split_once-cons c cs false (some halves) before after e ih h =
    let pair : (c ∷ halves.0, halves.1) ≡ (before, after) = some-injective h in
    let front : c ∷ halves.0 ≡ before = ap (λ p. p.0) pair in
    let back : halves.1 ≡ after = ap (λ p. p.1) pair in
    rw (← front, ← back) (ap (λ t. c ∷ t) (ih halves.0 halves.1 refl))

split_once-append :
    (cs before after : Chars)
    → split_once cs ≡ some (before, after)
    → cs ≡ before ++ separator ∷ after
unfolding split_once
split_once-append [] before after h = absurd cc
split_once-append (c ∷ cs) before after h =
    split_once-cons c cs (c == separator) (split_once cs) before after refl (split_once-append cs) h

find_kind_sound :
    (stated_name : Chars) (material : Material)
    → find_kind stated_name ≡ some material
    → name material ≡ stated_name
unfolding find_kind
find_kind_sound stated_name material h =
    by_tests (same_chars (name apple_team) stated_name)
      (same_chars (name windows_certificate) stated_name)
      (same_chars (name android_certificate) stated_name) refl refl refl h
  where
    by_tests :
        (a w d : Bool)
        → same_chars (name apple_team) stated_name ≡ a
        → same_chars (name windows_certificate) stated_name ≡ w
        → same_chars (name android_certificate) stated_name ≡ d
        → (if a
            then some apple_team
            else if w
            then some windows_certificate
            else if d
            then some android_certificate
            else none)
          ≡ some material
        → name material ≡ stated_name
    by_tests true w d ea ew ed k =
        let same : apple_team ≡ material = some-injective k in
        rw (← same) (same_chars-eq (name apple_team) stated_name ea)
    by_tests false true d ea ew ed k =
        let same : windows_certificate ≡ material = some-injective k in
        rw (← same) (same_chars-eq (name windows_certificate) stated_name ew)
    by_tests false false true ea ew ed k =
        let same : android_certificate ≡ material = some-injective k in
        rw (← same) (same_chars-eq (name android_certificate) stated_name ed)
    by_tests false false false ea ew ed k = absurd cc

-- What a value that was read names.
abbrev Names : Chars → Material → Chars → Type 0
Names stated material value =
    (stated ≡ stated_as material value)
    × (is_empty value ≡ false)
    × (refuses material value ≡ false)

named : Stated → Option (Material × Chars)
named (ok (present material value)) = some (material, value)
named (ok absent) = none
named (err e) = none

with_kind-Names :
    (kind : Option Material) (before after : Chars) (material : Material) (value : Chars)
    → ((m : Material) → kind ≡ some m → name m ≡ before)
    → named (with_kind kind before after) ≡ some (material, value)
    → (name material ≡ before)
      × (after ≡ value)
      × (is_empty after ≡ false)
      × (refuses material after ≡ false)
unfolding named with_kind
with_kind-Names none before after material value sound h = absurd cc
with_kind-Names (some m) before after material value sound h =
    by_tests (is_empty after) (refuses m after) refl refl h
  where
    by_tests :
        (e r : Bool)
        → is_empty after ≡ e
        → refuses m after ≡ r
        → named (
            if e
            then err (no_material before)
            else if r
            then err (unusable m)
            else ok (present m after))
          ≡ some (material, value)
        → (name material ≡ before)
          × (after ≡ value)
          × (is_empty after ≡ false)
          × (refuses material after ≡ false)
    by_tests true r he hr k = absurd (unfold named in cc)
    by_tests false true he hr k = absurd (unfold named in cc)
    by_tests false false he hr k =
        let pair : (m, after) ≡ (material, value) = unfold named in some-injective k in
        let same : m ≡ material = ap (λ p. p.0) pair in
        (rw (← same) (sound m refl), ap (λ p. p.1) pair, he, rw (← same) hr)

with_split-Names :
    (stated : Chars) (split : Option (Chars × Chars)) (material : Material) (value : Chars)
    → split_once stated ≡ split
    → named (with_split stated split) ≡ some (material, value)
    → Names stated material value
unfolding with_split named
with_split-Names stated none material value e h = absurd cc
with_split-Names stated (some halves) material value e h =
    let k =
      with_kind-Names (find_kind halves.0) halves.0 halves.1 material value
        (find_kind_sound halves.0) h in
    (
      split_once-append stated halves.0 halves.1 e ∙ rw (k.0, k.1) refl,
      rw (← k.1) k.2,
      rw (← k.1) k.3,
    )

-- A stated value is read as a kind and its material exactly where it is the name of the kind, the
-- separator, and a material that is not empty and that the kind does not refuse.
pub parse_iff :
    (stated : Chars) (material : Material) (value : Chars)
    → (parse stated ≡ ok (present material value)) ↔ Names stated material value
parse_iff stated material value = (forth, λ h. rw h.0 (parse-stated material value h.1 h.2))
  where
    by_test :
        (b : Bool)
        → named (if b then ok absent else with_split stated (split_once stated))
          ≡ some (material, value)
        → Names stated material value
    by_test true k = absurd (unfold named in cc)
    by_test false k = with_split-Names stated (split_once stated) material value refl k

    forth : parse stated ≡ ok (present material value) → Names stated material value
    forth h = by_test (same_chars stated no_identity) (unfold parse named in ap named h)
