-- ===== src/Engine/Worker/Schedule.antt =====
-- The jittered wait between two scans (crates/fidelity-engine/src/worker.rs).
use fidelity.Common.{
  ℕ, ◌+◌, ◌*◌, ◌/◌, ◌%◌, ◌^◌, ◌≤◌, ◌<◌, bit_xor, ◌≡◌, ◌∙◌, sym, ap, ◌≢◌, arith, ◌==◌, if◌then◌else◌,
  Bool-cases, ◌⊎◌, inl, inr,
}
use fidelity.Common.Bits.{zero-bit_xor, xor_twice, bit_xor-lt}

abbrev pub jitter_percent : ℕ
jitter_percent = 40

-- The xorshift on a 64-bit word.
shift_left : ℕ → ℕ → ℕ
shift_left k x = bit_xor x (x * 2 ^ k % 2 ^ 64)

shift_right : ℕ → ℕ → ℕ
shift_right k x = bit_xor x (x / 2 ^ k)

pub next_jitter : ℕ → ℕ
unfolding shift_left shift_right
next_jitter jitter = shift_left 17 (shift_right 7 (shift_left 13 jitter))

-- `next_wait`, in milliseconds: the new jitter, and the time to wait. The sum is a `Duration`,
-- which holds far more than a cycle and its jitter.
pub next_wait : ℕ → ℕ → ℕ × ℕ
next_wait cycle jitter =
    let jitter' = next_jitter jitter in
    let span = cycle / 100 * jitter_percent in
    (jitter', cycle + (if span == 0 then 0 else jitter' % span))

-- A wait is at least a cycle and at most two fifths longer, and strictly less than that for a
-- cycle of a tenth of a second or more.
pub next_wait_bounds :
    (cycle jitter : ℕ)
    → (cycle ≤ (next_wait cycle jitter).1)
      × (100 * (next_wait cycle jitter).1 ≤ 140 * cycle)
      × (100 ≤ cycle → 100 * (next_wait cycle jitter).1 < 140 * cycle)
unfolding next_wait
next_wait_bounds cycle jitter = elim (Bool-cases (cycle / 100 * jitter_percent == 0)) [
  | inl e ↦ rw e (omega arith, omega arith, λ h. omega arith)
  | inr e ↦
      let positive : 0 < cycle / 100 * jitter_percent = ground arith in
      rw e (omega arith, omega arith, λ h. omega arith)
]

xor_zero : (a b : ℕ) → bit_xor a b ≡ 0 → b ≡ a
xor_zero a b h = sym (zero-bit_xor b) ∙ ap (λ t. bit_xor t b) (sym h) ∙ xor_twice a b

-- A shift by less than the width, of a word that is not 0, leaves another word.
left_fixed : (x : ℕ) → x < 2 ^ 64 → (x * 2 ^ 13 % 2 ^ 64 ≡ x) ⊎ (x * 2 ^ 17 % 2 ^ 64 ≡ x) → x ≡ 0
left_fixed x h (inl e) = omega arith
left_fixed x h (inr e) = omega arith

right_fixed : (x : ℕ) → x / 2 ^ 7 ≡ x → x ≡ 0
right_fixed x e = omega arith

-- The xorshift of a 64-bit word that is not 0 is a 64-bit word that is not 0.
pub next_jitter_pos :
    (jitter : ℕ)
    → 0 < jitter
    → jitter < 2 ^ 64
    → (0 < next_jitter jitter) × (next_jitter jitter < 2 ^ 64)
unfolding next_jitter
next_jitter_pos jitter pos fits =
    let a = shift_left 13 jitter in
    let b = shift_right 7 a in
    let a_fits : a < 2 ^ 64 = bit_xor-lt 64 jitter _ fits (omega arith) in
    let b_fits : b < 2 ^ 64 = bit_xor-lt 64 a _ a_fits (omega arith) in
    let a_pos : a ≢ 0 =
      λ e. absurd (omega (arith, left_fixed jitter fits (inl (xor_zero jitter _ e)))) in
    let b_pos : b ≢ 0 = λ e. a_pos (right_fixed a (xor_zero a _ e)) in
    let c_pos : shift_left 17 b ≢ 0 = λ e. b_pos (left_fixed b b_fits (inr (xor_zero b _ e))) in
    (omega arith, bit_xor-lt 64 b _ b_fits (omega arith))
