-- ===== src/Formats/Signing/Walk.antt =====
-- The walk over the pairs ends, and prefers the newest scheme whatever the order of the pairs.
use fidelity.Common.{
  ℕ, zero, suc, ◌+◌, ◌≤◌, ◌<◌, ◌≡◌, refl, Option, none, some, List, [], ◌∷◌, length, or_else,
  if◌then◌else◌, ltb, ◌==◌, arith, Bool-cases, ◌⊎◌, inl, inr, ltb→lt, ltb→le, le→ltb, eq→==,
}
use fidelity.Formats.Bytes.{checked_sub, read_u64}
use fidelity.Formats.Signing.{
  certificate, scheme_v2, scheme_v3, scheme_v31, Pair, pair_at, Schemes, take_pair, Walked, refused,
  walked, walk, prefer, walk_block, signer_certificate, max_block, footer_size,
}

-- A pair ends inside the block, at least twelve bytes after it starts.
pair_at-end :
    (block : List ℕ) (at : ℕ) (p : Pair)
    → pair_at block at ≡ some p
    → (at + 12 ≤ p.end) × (p.end ≤ length block)
unfolding pair_at
pair_at-end block at p h = ground arith

-- The pairs from a place to the end of the walk.
pub data Pairs (block : List ℕ) (trailing : ℕ) : ℕ → List Pair → Type 0 where
  no_more : (at : ℕ) → trailing ≤ at → Pairs block trailing at []
  one_more :
      (at : ℕ) (p : Pair) (ps : List Pair)
      → at < trailing
      → pair_at block at ≡ some p
      → Pairs block trailing p.end ps
      → Pairs block trailing at (p ∷ ps)

-- A place that the walk reaches from another, where no pair can be read.
pub data Breaks (block : List ℕ) (trailing : ℕ) : ℕ → Type 0 where
  broken : (at : ℕ) → at < trailing → pair_at block at ≡ none → Breaks block trailing at
  further :
      (at : ℕ) (p : Pair)
      → at < trailing
      → pair_at block at ≡ some p
      → Breaks block trailing p.end
      → Breaks block trailing at

-- The first certificate that can be read out of the pairs of one scheme.
abbrev pub first_of : ℕ → List Pair → Option (List ℕ)
first_of scheme [] = none
first_of scheme (p ∷ ps) =
    let rest = first_of scheme ps in
    if p.identifier == scheme then or_else (certificate p.value) rest else rest

collected : List Pair → Schemes → Schemes
collected ps s = record {
  v31 = or_else s.v31 (first_of scheme_v31 ps);
  v3 = or_else s.v3 (first_of scheme_v3 ps);
  v2 = or_else s.v2 (first_of scheme_v2 ps);
}

collected-cons :
    (p : Pair) (ps : List Pair) (s : Schemes) → collected ps (take_pair p s) ≡ collected (p ∷ ps) s
unfolding collected take_pair
collected-cons p ps s = ground arith

collected_nil : (s : Schemes) → collected [] s ≡ s
unfolding collected
collected_nil s = ground arith

-- How a walk ends that has fuel enough.
data Ends (block : List ℕ) (trailing at : ℕ) (s : Schemes) : Walked → Type 0 where
  whole :
      (ps : List Pair)
      → Pairs block trailing at ps
      → Ends block trailing at s (walked (collected ps s))
  halted : Breaks block trailing at → Ends block trailing at s refused

done-Ends :
    (block : List ℕ) (trailing at : ℕ) (s : Schemes)
    → trailing ≤ at
    → Ends block trailing at s (walked s)
done-Ends block trailing at s h =
    let w : Ends block trailing at s (walked (collected [] s)) = whole [] (no_more at h) in
    rw (collected_nil s) at w

next-Ends :
    (block : List ℕ) (trailing at : ℕ) (p : Pair) (s : Schemes) (w : Walked)
    → at < trailing
    → pair_at block at ≡ some p
    → Ends block trailing p.end (take_pair p s) w
    → Ends block trailing at s w
next-Ends block trailing at p s _ lt e (whole ps pairs) =
    let w : Ends block trailing at s (walked (collected (p ∷ ps) s)) =
      whole (p ∷ ps) (one_more at p ps lt e pairs) in
    rw (← collected-cons p ps s) at w
next-Ends block trailing at p s _ lt e (halted breaks) = halted (further at p lt e breaks)

walk-Ends :
    (fuel : ℕ) (block : List ℕ) (trailing at : ℕ) (s : Schemes)
    → trailing ≤ fuel + at
    → Ends block trailing at s (walk fuel block trailing at s)
unfolding walk
walk-Ends zero block trailing at s enough =
    rw (le→ltb at trailing (omega arith)) (done-Ends block trailing at s (omega arith))
walk-Ends (suc fuel) block trailing at s enough =
    by_pair (pair_at block at) refl λ p far. walk-Ends fuel block trailing p.end (take_pair p s) far
  where
    by_pair :
        (o : Option Pair)
        → pair_at block at ≡ o
        → ((p : Pair)
            → trailing ≤ fuel + p.end
            → Ends block trailing p.end
                (take_pair p s)
                (walk fuel block trailing p.end (take_pair p s)))
        → Ends block trailing at s (elim o [
          | none ↦ if ltb at trailing then refused else walked s
          | some p ↦
              if ltb at trailing then walk fuel block trailing p.end (take_pair p s) else walked s
        ])
    by_pair none e ih = elim (Bool-cases (ltb at trailing)) [
      | inl lt ↦ rw lt (halted (broken at (ltb→lt _ _ lt) e))
      | inr ge ↦ rw ge (done-Ends block trailing at s (ltb→le _ _ ge))
    ]
    by_pair (some p) e ih = elim (Bool-cases (ltb at trailing)) [
      | inl lt ↦ rw lt (
          next-Ends block trailing at p s _ (ltb→lt _ _ lt) e
            (ih p (omega (arith, (pair_at-end block at p e).0))))
      | inr ge ↦ rw ge (done-Ends block trailing at s (ltb→le _ _ ge))
    ]

checked_sub-le : (a b c : ℕ) → checked_sub a b ≡ some c → c ≤ a
checked_sub-le a b c h = ground arith

abbrev none_yet : Schemes
none_yet = record { v31 = none; v3 = none; v2 = none }

-- For a block within the bound whose two sizes can be read and agree: either the pairs can be
-- read to the end, and the certificate is the first that can be read from a pair of scheme v3.1,
-- or else of v3, or else of v2, whatever the order of the schemes; or some pair that the walk
-- reaches cannot be read, and there is no certificate.
pub signer_certificate_lem :
    (block : List ℕ) (trailing size : ℕ)
    → length block ≤ max_block
    → checked_sub (length block) footer_size ≡ some trailing
    → read_u64 block 0 ≡ some size
    → read_u64 block trailing ≡ some size
    → ((ps : List Pair) × Pairs block trailing 8 ps
        × (signer_certificate block
            ≡ or_else
                (first_of scheme_v31 ps)
                (or_else (first_of scheme_v3 ps) (first_of scheme_v2 ps))))
      ⊎ (Breaks block trailing 8 × (signer_certificate block ≡ none))
unfolding signer_certificate
signer_certificate_lem block trailing size fits sub leading stated =
    rw (le→ltb max_block (length block) fits, sub, leading, stated, eq→== size size refl)
      (by_walk (walk_block block trailing) (
        unfold walk_block in
        walk-Ends (length block) block trailing 8 none_yet
          (omega (arith, checked_sub-le (length block) footer_size trailing sub))))
  where
    by_walk :
        (w : Walked)
        → Ends block trailing 8 none_yet w
        → ((ps : List Pair) × Pairs block trailing 8 ps
            × (prefer w
                ≡ or_else
                    (first_of scheme_v31 ps)
                    (or_else (first_of scheme_v3 ps) (first_of scheme_v2 ps))))
          ⊎ (Breaks block trailing 8 × (prefer w ≡ none))
    by_walk _ (whole ps pairs) = inl (ps, pairs, unfold prefer collected in refl)
    by_walk _ (halted breaks) = inr (breaks, unfold prefer in refl)
