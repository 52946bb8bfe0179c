-- ===== src/Formats/Signing/Parts.antt =====
-- What the reader of a signing block answers stands in the block.
use fidelity.Common.{
  ℕ, zero, suc, ◌≡◌, ◌&&◌, not, Option, none, some, List, length, or_else, is_some, if◌then◌else◌,
  ltb, ◌==◌, Bool-cases, inl, inr,
}
use fidelity.Formats.Bytes.{checked_add, checked_sub, slice, read_u32, read_u64}
use fidelity.Formats.Parts.{
  IsPart, Within, nothing, just, within_some, Within-intro, bind-Within, IsPart-trans, slice-IsPart,
  IsPart-refl,
}
use fidelity.Formats.Signing.{
  element, certificate, Pair, pair_at, Schemes, take_pair, Walked, exhausted, refused, walked, walk,
  walk_block, prefer, signer_certificate, scheme_v2, scheme_v3, scheme_v31, max_block, footer_size,
}

element-IsPart : (bytes : List ℕ) (at : ℕ) → Within (λ part. IsPart part bytes) (element bytes at)
unfolding element
element-IsPart bytes at = bind-Within P (read_u32 bytes at) _ λ size _.
    bind-Within P (checked_add at 4) _
      λ start _. bind-Within P (checked_add start size) _ λ end _. slice-IsPart bytes start end
  where
    P : List ℕ → Type 0
    P part = IsPart part bytes

-- An element of a part is a part.
inner :
    (bytes outer : List ℕ) (at : ℕ) (part : List ℕ)
    → IsPart outer bytes
    → element outer at ≡ some part
    → IsPart part bytes
inner bytes outer at part h e =
    IsPart-trans part outer bytes
      (within_some (λ p. IsPart p outer) (element outer at) part (element-IsPart outer at) e) h

certificate-IsPart : (scheme : List ℕ) → Within (λ part. IsPart part scheme) (certificate scheme)
unfolding certificate
certificate-IsPart scheme = bind-Within P (element scheme 0) _ λ signers e.
    let h = inner scheme scheme 0 signers (IsPart-refl scheme) e in
    bind-Within P (element signers 0) _ λ signer e.
      let h = inner scheme signers 0 signer h e in
      bind-Within P (element signer 0) _ λ signed_data e.
        let h = inner scheme signer 0 signed_data h e in
        bind-Within P (element signed_data 0) _ λ digests _.
          bind-Within P (checked_add 4 (length digests)) _ λ after _.
            bind-Within P (element signed_data after) _ λ certificates e.
              let h = inner scheme signed_data after certificates h e in
              Within-intro P (element certificates 0) λ part e. inner scheme certificates 0 part h e
  where
    P : List ℕ → Type 0
    P part = IsPart part scheme

pair_at-IsPart : (block : List ℕ) (at : ℕ) → Within (λ p. IsPart p.value block) (pair_at block at)
unfolding pair_at
pair_at-IsPart block at = bind-Within P (read_u64 block at) _ λ size _.
    bind-Within P (checked_add at 8) _ λ identifier_at _.
      bind-Within P (read_u32 block identifier_at) _ λ identifier _.
        bind-Within P (checked_add at 12) _ λ start _.
          bind-Within P (checked_add at 8) _ λ end_size _.
            bind-Within P (checked_add end_size size) _ λ end _.
              bind-Within P (slice block start end) _ λ value e. just _ (
                within_some (λ v. IsPart v block) (slice block start end) value
                  (slice-IsPart block start end) e)
  where
    P : Pair → Type 0
    P p = IsPart p.value block

-- What a scheme has is a part of the block.
abbrev Sound : List ℕ → Schemes → Type 0
Sound block s = Within P s.v31 × Within P s.v3 × Within P s.v2
  where
    P : List ℕ → Type 0
    P part = IsPart part block

certificate-IsPart_outer :
    (block value : List ℕ)
    → IsPart value block
    → Within (λ part. IsPart part block) (certificate value)
certificate-IsPart_outer block value h =
    Within-intro (λ part. IsPart part block) (certificate value)
      λ part e.
        IsPart-trans part value block
          (within_some (λ p. IsPart p value) (certificate value) part (certificate-IsPart value) e)
          h

take_pair-Sound :
    (block : List ℕ) (p : Pair) (s : Schemes)
    → IsPart p.value block
    → Sound block s
    → Sound block (take_pair p s)
unfolding take_pair
take_pair-Sound block p s h (s31, s3, s2) =
    elim (Bool-cases (p.identifier == scheme_v31 && not (is_some s.v31))) [
      | inl e ↦ rw e (read, s3, s2)
      | inr e ↦ rw e (elim (Bool-cases (p.identifier == scheme_v3 && not (is_some s.v3))) [
        | inl e ↦ rw e (s31, read, s2)
        | inr e ↦ rw e (elim (Bool-cases (p.identifier == scheme_v2 && not (is_some s.v2))) [
          | inl e ↦ rw e (s31, s3, read)
          | inr e ↦ rw e (s31, s3, s2)
        ])
      ])
    ]
  where
    read : Within (λ part. IsPart part block) (certificate p.value)
    read = certificate-IsPart_outer block p.value h

abbrev SoundEnd : List ℕ → Walked → Type 0
SoundEnd block exhausted = Unit
SoundEnd block refused = Unit
SoundEnd block (walked s) = Sound block s

walk-SoundEnd :
    (fuel : ℕ) (block : List ℕ) (trailing at : ℕ) (s : Schemes)
    → Sound block s
    → SoundEnd block (walk fuel block trailing at s)
unfolding walk
walk-SoundEnd zero block trailing at s h = elim (Bool-cases (ltb at trailing)) [
  | inl e ↦ rw e tt
  | inr e ↦ rw e h
]
walk-SoundEnd (suc fuel) block trailing at s h =
    by_pair (pair_at block at) (pair_at-IsPart block at) λ p part.
      walk-SoundEnd fuel block trailing p.end (take_pair p s) (take_pair-Sound block p s part h)
  where
    by_pair :
        (o : Option Pair)
        → Within (λ p. IsPart p.value block) o
        → ((p : Pair)
            → IsPart p.value block
            → SoundEnd block (walk fuel block trailing p.end (take_pair p s)))
        → SoundEnd block (elim o [
          | none ↦ if ltb at trailing then refused else walked s
          | some p ↦
              if ltb at trailing then walk fuel block trailing p.end (take_pair p s) else walked s
        ])
    by_pair _ nothing ih = elim (Bool-cases (ltb at trailing)) [ inl e ↦ rw e tt | inr e ↦ rw e h ]
    by_pair _ (just p part) ih = elim (Bool-cases (ltb at trailing)) [
      | inl e ↦ rw e (ih p part)
      | inr e ↦ rw e h
    ]

or_else-Within :
    {A : Type 0} (P : A → Type 0) (o o' : Option A)
    → Within P o
    → Within P o'
    → Within P (or_else o o')
or_else-Within P _ o' nothing h = h
or_else-Within P _ o' (just a h) h' = just a h

prefer-IsPart :
    (block : List ℕ) (w : Walked) → SoundEnd block w → Within (λ part. IsPart part block) (prefer w)
unfolding prefer
prefer-IsPart block exhausted h = nothing
prefer-IsPart block refused h = nothing
prefer-IsPart block (walked s) (s31, s3, s2) =
    or_else-Within P s.v31 _ s31 (or_else-Within P s.v3 s.v2 s3 s2)
  where
    P : List ℕ → Type 0
    P part = IsPart part block

signer_certificate-Within :
    (block : List ℕ) → Within (λ part. IsPart part block) (signer_certificate block)
unfolding signer_certificate
signer_certificate-Within block = elim (Bool-cases (ltb max_block (length block))) [
  | inl e ↦ rw e nothing
  | inr e ↦ rw e (
      bind-Within P (checked_sub (length block) footer_size) _ λ trailing _.
        bind-Within P (read_u64 block 0) _ λ leading_size _.
          bind-Within P (read_u64 block trailing) _ λ trailing_size _.
            elim (Bool-cases (leading_size == trailing_size)) [
              | inl e ↦ rw e (
                  prefer-IsPart block (walk_block block trailing) (
                    unfold walk_block in
                    walk-SoundEnd (length block) block trailing 8 _ (nothing, nothing, nothing)))
              | inr e ↦ rw e nothing
            ])
]
  where
    P : List ℕ → Type 0
    P part = IsPart part block

-- The certificate that a signing block answers is a stretch of consecutive bytes of that block.
pub signer_certificate-IsPart :
    (block part : List ℕ) → signer_certificate block ≡ some part → IsPart part block
signer_certificate-IsPart block part e =
    within_some (λ p. IsPart p block) (signer_certificate block) part
      (signer_certificate-Within block) e
