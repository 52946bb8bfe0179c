-- ===== src/Cipher/Derivation/Laws.antt =====
-- Which inputs of the derivation differ, and which do not.
use fidelity.Common.{
  ℕ, ◌+◌, ◌*◌, ◌^◌, ◌≤◌, ◌<◌, ◌≡◌, refl, sym, ap, ◌∙◌, List, [], ◌++◌, length, take, drop,
  take-append-length, drop-append-length, get_or, arith, lt→ltb, le→ltb,
}
use fidelity.Cipher.Sha256.{sha256}
use fidelity.Cipher.Sha256.Length.{length-sha256}
use fidelity.Cipher.Derivation.{
  le_bytes_64, framed, salt_input, cap, reduced, key_input, derive_key,
}

-- The length that the first eight bytes say.
decoded : List ℕ → ℕ
decoded bytes =
    get_or bytes 0 0
    + get_or bytes 1 0 * 2 ^ 8
    + get_or bytes 2 0 * 2 ^ 16
    + get_or bytes 3 0 * 2 ^ 24
    + get_or bytes 4 0 * 2 ^ 32
    + get_or bytes 5 0 * 2 ^ 40
    + get_or bytes 6 0 * 2 ^ 48
    + get_or bytes 7 0 * 2 ^ 56

-- The part that a frame holds, and what follows it.
unframed : List ℕ → List ℕ × List ℕ
unframed bytes = (take (decoded bytes) (drop 8 bytes), drop (decoded bytes) (drop 8 bytes))

-- A part that a 64-bit length measures.
abbrev pub IsShort : List ℕ → Type 0
IsShort part = length part < 2 ^ 64

decoded-le_bytes_64 : (n : ℕ) (rest : List ℕ) → n < 2 ^ 64 → decoded (le_bytes_64 n ++ rest) ≡ n
unfolding decoded
decoded-le_bytes_64 n rest h = omega arith

unframed-framed :
    (part rest : List ℕ) → IsShort part → unframed (framed part ++ rest) ≡ (part, rest)
unfolding unframed framed
unframed-framed part rest h =
    rw
      (
        decoded-le_bytes_64 (length part) (part ++ rest) h,
        take-append-length part rest,
        drop-append-length part rest,
      )
      refl

framed_parts :
    (a b a' b' : List ℕ)
    → IsShort a
    → IsShort a'
    → framed a ++ b ≡ framed a' ++ b'
    → (a ≡ a') × (b ≡ b')
framed_parts a b a' b' ha ha' e =
    let pairs : (a, b) ≡ (a', b') =
      sym (unframed-framed a b ha) ∙ ap unframed e ∙ unframed-framed a' b' ha' in
    (ap (λ p. p.0) pairs, ap (λ p. p.1) pairs)

two_frames :
    (a b a' b' : List ℕ)
    → IsShort a
    → IsShort a'
    → IsShort b
    → IsShort b'
    → framed a ++ framed b ≡ framed a' ++ framed b'
    → (a ≡ a') × (b ≡ b')
two_frames a b a' b' ha ha' hb hb' e =
    let outer = framed_parts a (framed b) a' (framed b') ha ha' e in
    let inner : framed b ++ [] ≡ framed b' ++ [] = ap (λ t. t ++ []) outer.1 in
    (outer.0, (framed_parts b [] b' [] hb hb' inner).0)

-- Two pairs of a seed and a text, each shorter than 2^64 bytes, give one input only where both are equal.
pub salt_input-injective :
    (seed text seed' text' : List ℕ)
    → IsShort seed
    → IsShort text
    → IsShort seed'
    → IsShort text'
    → salt_input seed text ≡ salt_input seed' text'
    → (seed ≡ seed') × (text ≡ text')
unfolding salt_input
salt_input-injective seed text seed' text' hs ht hs' ht' e =
    two_frames seed text seed' text' hs hs' ht ht' e

reduced_short : (part : List ℕ) → length part ≤ cap → reduced part ≡ part
unfolding reduced
reduced_short part h = rw (le→ltb cap (length part) h) refl

-- Two pairs of a salt and an identity within the cap give one input of the key derivation only
-- where both are equal.
pub key_input-injective :
    (salt identity salt' identity' : List ℕ)
    → length salt ≤ cap
    → length identity ≤ cap
    → length salt' ≤ cap
    → length identity' ≤ cap
    → key_input salt identity ≡ key_input salt' identity'
    → (salt ≡ salt') × (identity ≡ identity')
unfolding key_input
key_input-injective salt identity salt' identity' hs hi hs' hi' e =
    two_frames salt identity salt' identity' (omega arith) (omega arith) (omega arith) (omega arith)
      (rw
        (
          reduced_short salt hs,
          reduced_short identity hi,
          reduced_short salt' hs',
          reduced_short identity' hi',
        )
        at e)

-- An identity longer than the cap derives, with any salt, the same key as the digest of that
-- identity.
pub derive_key-digest :
    (salt identity : List ℕ)
    → cap < length identity
    → derive_key salt identity ≡ derive_key salt (sha256 identity)
unfolding derive_key key_input
derive_key-digest salt identity long = rw (same_reduced identity long) refl
  where
    same_reduced : (part : List ℕ) → cap < length part → reduced part ≡ reduced (sha256 part)
    same_reduced part h = unfold reduced in rw (lt→ltb cap (length part) h, length-sha256 part) refl
