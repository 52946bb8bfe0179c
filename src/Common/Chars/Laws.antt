-- ===== src/Common/Chars/Laws.antt =====
-- What the string functions give back.
use Prim.Native.Nat.{◌<◌}
use mathlib.Core.Path.{◌≡◌, refl, ap, ◌∙◌}
use mathlib.Core.Bool.{Bool, true, false}
use mathlib.Core.Option.{Option, none, some}
use mathlib.Core.List.{[], ◌∷◌, ◌++◌, reverse, reverse-append, reverse-reverse}
use native.Mathlib.Omega.{arith}
use mathlib.Core.Logic.{inl, inr}
use mathlib.Core.Path.{sym}
use fidelity.Common.Tests.{◌==◌, if◌then◌else◌, Bool-cases, eq→==, ==→eq, lt→ltb}
use fidelity.Common.Lists.{◌>>=◌, All, some-injective, drop, length, drop-append-length}
use fidelity.Common.Chars.{
  Chars, same_chars, find, split_once_at, strip_prefix, strip_suffix, starts_with, ends_with,
  encode_utf8, as_bytes,
}

pub same_chars-eq : (cs ds : Chars) → same_chars cs ds ≡ true → cs ≡ ds
same_chars-eq [] [] h = refl
same_chars-eq [] (d ∷ ds) h = absurd (ground arith)
same_chars-eq (c ∷ cs) [] h = absurd (ground arith)
same_chars-eq (c ∷ cs) (d ∷ ds) h = ground (arith, ==→eq c d, same_chars-eq cs ds)

pub same_chars_refl : (cs : Chars) → same_chars cs cs ≡ true
same_chars_refl [] = refl
same_chars_refl (c ∷ cs) = ground (arith, eq→== c c refl, same_chars_refl cs)

pub strip_prefix-append : (prefix rest : Chars) → strip_prefix (prefix ++ rest) prefix ≡ some rest
unfolding strip_prefix
strip_prefix-append [] [] = refl
strip_prefix-append [] (c ∷ cs) = refl
strip_prefix-append (p ∷ ps) rest = rw (eq→== p p refl) (strip_prefix-append ps rest)

pub strip_suffix-append : (text suffix : Chars) → strip_suffix (text ++ suffix) suffix ≡ some text
unfolding strip_suffix
strip_suffix-append text suffix =
    rw
      (
        reverse-append text suffix,
        strip_prefix-append (reverse suffix) (reverse text),
        reverse-reverse text,
      )
      refl

pub starts_with-append : (prefix rest : Chars) → starts_with (prefix ++ rest) prefix ≡ true
unfolding starts_with
starts_with-append [] [] = refl
starts_with-append [] (c ∷ cs) = refl
starts_with-append (p ∷ ps) rest = rw (eq→== p p refl) (starts_with-append ps rest)

pub ends_with-append : (text suffix : Chars) → ends_with (text ++ suffix) suffix ≡ true
unfolding ends_with
ends_with-append text suffix =
    rw (reverse-append text suffix) (starts_with-append (reverse suffix) (reverse text))

-- What a prefix or a suffix that is found leaves.
pub strip_prefix_sound :
    (text prefix rest : Chars) → strip_prefix text prefix ≡ some rest → text ≡ prefix ++ rest
unfolding strip_prefix
strip_prefix_sound [] [] rest h = some-injective h
strip_prefix_sound (c ∷ cs) [] rest h = some-injective h
strip_prefix_sound [] (p ∷ ps) rest h = absurd cc
strip_prefix_sound (c ∷ cs) (p ∷ ps) rest h =
    ground (arith, ==→eq c p, strip_prefix_sound cs ps rest)

pub starts_with_sound :
    (text prefix : Chars)
    → starts_with text prefix ≡ true
    → (rest : Chars) × (text ≡ prefix ++ rest)
unfolding starts_with
starts_with_sound text [] h = (text, refl)
starts_with_sound [] (p ∷ ps) h = absurd cc
starts_with_sound (c ∷ cs) (p ∷ ps) h = elim (Bool-cases (c == p)) [
  | inl e ↦
      let tail = starts_with_sound cs ps (rw e at h) in (tail.0, rw (==→eq c p e, tail.1) refl)
  | inr e ↦ absurd (ground arith)
]

pub ends_with_sound :
    (text suffix : Chars)
    → ends_with text suffix ≡ true
    → (front : Chars) × (text ≡ front ++ suffix)
unfolding ends_with
ends_with_sound text suffix h =
    let (rest, e) = starts_with_sound (reverse text) (reverse suffix) h in
    (
      reverse rest,
      sym (reverse-reverse text)
          ∙ ap reverse e
          ∙ reverse-append (reverse suffix) rest
          ∙ ap (λ t. reverse rest ++ t) (reverse-reverse suffix),
    )

-- A text of ASCII is its own bytes.
pub as_bytes_ascii : (cs : Chars) → All (λ c. c < 128) cs → as_bytes cs ≡ cs
unfolding as_bytes encode_utf8
as_bytes_ascii [] h = refl
as_bytes_ascii (c ∷ cs) h = rw (lt→ltb c 128 h.0) (ap (λ t. c ∷ t) (as_bytes_ascii cs h.1))

-- What stands before and after an occurrence makes up the text.
pub find_sound :
    (text pattern : Chars) (halves : Chars × Chars)
    → find text pattern ≡ some halves
    → text ≡ halves.0 ++ halves.1
unfolding find
find_sound [] pattern halves h = elim (Bool-cases (starts_with [] pattern)) [
  | inl e ↦ let same = some-injective (rw e at h) in rw (← same) refl
  | inr e ↦ absurd (let k = rw e at h in cc)
]
find_sound (c ∷ cs) pattern halves h =
    by_test (starts_with (c ∷ cs) pattern) (find cs pattern) (find_sound cs pattern) h
  where
    by_test :
        (b : Bool) (o : Option (Chars × Chars))
        → ((k : Chars × Chars) → o ≡ some k → cs ≡ k.0 ++ k.1)
        → (let later : Option (Chars × Chars) = o >>= λ k. some (c ∷ k.0, k.1) in
            if b then some ([], c ∷ cs) else later)
          ≡ some halves
        → c ∷ cs ≡ halves.0 ++ halves.1
    by_test true o ih k = let same = some-injective k in rw (← same) refl
    by_test false none ih k = absurd cc
    by_test false (some found) ih k =
        let same = some-injective k in rw (← same) (ap (λ t. c ∷ t) (ih found refl))

pub find-starts_with :
    (text pattern : Chars) (halves : Chars × Chars)
    → find text pattern ≡ some halves
    → starts_with halves.1 pattern ≡ true
unfolding find
find-starts_with [] pattern halves h = elim (Bool-cases (starts_with [] pattern)) [
  | inl e ↦ let same = some-injective (rw e at h) in rw (← same) e
  | inr e ↦ absurd (let k = rw e at h in cc)
]
find-starts_with (c ∷ cs) pattern halves h =
    by_test (starts_with (c ∷ cs) pattern) refl (find cs pattern) (find-starts_with cs pattern) h
  where
    by_test :
        (b : Bool)
        → starts_with (c ∷ cs) pattern ≡ b
        → (o : Option (Chars × Chars))
        → ((k : Chars × Chars) → o ≡ some k → starts_with k.1 pattern ≡ true)
        → (let later : Option (Chars × Chars) = o >>= λ k. some (c ∷ k.0, k.1) in
            if b then some ([], c ∷ cs) else later)
          ≡ some halves
        → starts_with halves.1 pattern ≡ true
    by_test true e o ih k = let same = some-injective k in rw (← same) e
    by_test false e none ih k = absurd cc
    by_test false e (some found) ih k = let same = some-injective k in rw (← same) (ih found refl)

pub split_once_at_sound :
    (text pattern : Chars) (halves : Chars × Chars)
    → split_once_at text pattern ≡ some halves
    → text ≡ halves.0 ++ (pattern ++ halves.1)
unfolding split_once_at
split_once_at_sound text pattern halves h = by_find (find text pattern) refl h
  where
    by_find :
        (o : Option (Chars × Chars))
        → find text pattern ≡ o
        → (o >>= λ f. some (f.0, drop (length pattern) f.1)) ≡ some halves
        → text ≡ halves.0 ++ (pattern ++ halves.1)
    by_find none e k = absurd cc
    by_find (some f) e k =
        let same = some-injective k in
        let (rest, starts) = starts_with_sound f.1 pattern (find-starts_with text pattern f e) in
        let left : drop (length pattern) f.1 ≡ rest = rw starts (drop-append-length pattern rest) in
        rw (← same, left) (find_sound text pattern f e ∙ ap (λ t. f.0 ++ t) starts)
