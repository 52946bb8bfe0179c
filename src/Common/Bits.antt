-- ===== src/Common/Bits.antt =====
-- The binary operations of machine words, at variables: one equation for the lowest digit of
-- each, and what follows for a mask of one bit.
use Prim.Native.Nat.{digits, bitwise, differ, bit_and-bitwise, bit_or-bitwise, bit_xor-bitwise}
use Prim.Native.Nat.{ℕ, zero, suc, ◌+◌, ◌-◌, ◌*◌, ◌/◌, ◌%◌, ◌≤◌, ◌<◌, ◌^◌, min, max}
use Prim.Native.Nat.{bit_and, bit_or, bit_xor}
use mathlib.Core.Path.{◌≡◌, refl, ◌∙◌}
use native.Mathlib.Nat.{pow-suc, div-div-eq-div-mul}
use native.Mathlib.Omega.{arith}

-- The digit recursion spends one unit of fuel for each digit, so any two supplies agree.
module _ (rest : ℕ → ℕ) (digit : ℕ → ℕ → ℕ) where
  digits_enough : (k l a b : ℕ) → a ≤ k → a ≤ l → digits rest digit k a b ≡ digits rest digit l a b
  digits_enough (suc k) (suc l) (suc a) b hk hl =
      rw (digits_enough k l (suc a / 2) (b / 2) (omega arith) (omega arith))
  digits_enough zero zero a b hk hl = refl
  digits_enough zero (suc l) zero b hk hl = refl
  digits_enough (suc k) zero zero b hk hl = refl
  digits_enough (suc k) (suc l) zero b hk hl = refl
  digits_enough zero (suc l) (suc a) b hk hl = absurd (omega arith)
  digits_enough (suc k) zero (suc a) b hk hl = absurd (omega arith)

  digits_step :
      (a b : ℕ)
      → bitwise rest digit (suc a) b
        ≡ bitwise rest digit (suc a / 2) (b / 2) * 2 + digit (suc a % 2) (b % 2)
  digits_step a b =
      let h : suc a / 2 ≤ suc a / 2 = omega arith in
      omega (arith, digits_enough a (suc a / 2) (suc a / 2) (b / 2) (omega arith) h)

pub bit_and-step : (a b : ℕ) → bit_and a b ≡ bit_and (a / 2) (b / 2) * 2 + min (a % 2) (b % 2)
bit_and-step zero b = simp bit_and-bitwise (omega arith)
bit_and-step (suc a) b = simp bit_and-bitwise (digits_step (λ y. 0) min a b)

pub bit_or-step : (a b : ℕ) → bit_or a b ≡ bit_or (a / 2) (b / 2) * 2 + max (a % 2) (b % 2)
bit_or-step zero b = simp bit_or-bitwise (omega arith)
bit_or-step (suc a) b = simp bit_or-bitwise (digits_step (λ y. y) max a b)

pub bit_xor-step : (a b : ℕ) → bit_xor a b ≡ bit_xor (a / 2) (b / 2) * 2 + differ (a % 2) (b % 2)
bit_xor-step zero b = simp bit_xor-bitwise (omega arith)
bit_xor-step (suc a) b = simp bit_xor-bitwise (digits_step (λ y. y) differ a b)

pub zero-bit_xor : (b : ℕ) → bit_xor 0 b ≡ b
zero-bit_xor b = simp bit_xor-bitwise

-- A recursion on halves, by a bound on the first number.
zero_right : (n a : ℕ) → a ≤ n → (bit_and a 0 ≡ 0) × (bit_or a 0 ≡ a)
zero_right n zero h = (refl, refl)
zero_right zero (suc a) h = absurd (omega arith)
zero_right (suc n) (suc a) h =
    let (both, either) = zero_right n (suc a / 2) (omega arith) in
    (omega (arith, bit_and-step (suc a) 0, both), omega (arith, bit_or-step (suc a) 0, either))

bit_and-zero : (a : ℕ) → bit_and a 0 ≡ 0
bit_and-zero a = (zero_right a a (omega arith)).0

bit_or-zero : (a : ℕ) → bit_or a 0 ≡ a
bit_or-zero a = (zero_right a a (omega arith)).1

bit_and-double : (a p : ℕ) → bit_and a (2 * p) ≡ bit_and (a / 2) p * 2
bit_and-double a p = ground (arith, bit_and-step a (2 * p))

bit_or-double : (a p : ℕ) → bit_or a (2 * p) ≡ bit_or (a / 2) p * 2 + a % 2
bit_or-double a p = ground (arith, bit_or-step a (2 * p))

two-pow-suc : (k : ℕ) → 2 ^ suc k ≡ 2 * 2 ^ k
two-pow-suc k = omega (arith, pow-suc 2 k)

-- The digit of `a` at position `k`.
abbrev pub bit_at : ℕ → ℕ → ℕ
bit_at a k = a / 2 ^ k % 2

bit_at-suc : (a k : ℕ) → bit_at a (suc k) ≡ bit_at (a / 2) k
bit_at-suc a k = rw (two-pow-suc k) (rw div-div-eq-div-mul)

-- A mask of one bit selects that bit, and sets it.
pub bit_and_one_bit : (k a : ℕ) → bit_and a (2 ^ k) ≡ bit_at a k * 2 ^ k
bit_and_one_bit zero a = omega (arith, bit_and-step a 1, bit_and-zero (a / 2))
bit_and_one_bit (suc k) a =
    rw (bit_at-suc a k, two-pow-suc k)
      (omega (arith, bit_and-double a (2 ^ k), bit_and_one_bit k (a / 2)))

pub bit_or_one_bit : (k a : ℕ) → bit_or a (2 ^ k) ≡ a + (1 - bit_at a k) * 2 ^ k
bit_or_one_bit zero a = omega (arith, bit_or-step a 1, bit_or-zero (a / 2))
bit_or_one_bit (suc k) a =
    rw (bit_at-suc a k, two-pow-suc k)
      (omega (arith, bit_or-double a (2 ^ k), bit_or_one_bit k (a / 2)))

differ_twice : (a b : ℕ) → a < 2 → b < 2 → differ (differ a b) b ≡ a
differ_twice zero zero ha hb = refl
differ_twice zero (suc zero) ha hb = refl
differ_twice (suc zero) zero ha hb = refl
differ_twice (suc zero) (suc zero) ha hb = refl
differ_twice (suc (suc a)) b ha hb = absurd (omega arith)
differ_twice zero (suc (suc b)) ha hb = absurd (omega arith)
differ_twice (suc zero) (suc (suc b)) ha hb = absurd (omega arith)

differ-lt : (a b : ℕ) → a < 2 → b < 2 → differ a b < 2
differ-lt zero b ha hb = hb
differ-lt (suc zero) zero ha hb = omega arith
differ-lt (suc zero) (suc zero) ha hb = omega arith
differ-lt (suc zero) (suc (suc b)) ha hb = absurd (omega arith)
differ-lt (suc (suc a)) b ha hb = absurd (omega arith)

-- A second exclusive or with the same word undoes the first.
xor_twice_below : (n a b : ℕ) → a ≤ n → b ≤ n → bit_xor (bit_xor a b) b ≡ a
xor_twice_below zero zero zero ha hb = refl
xor_twice_below zero zero (suc b) ha hb = absurd (omega arith)
xor_twice_below zero (suc a) b ha hb = absurd (omega arith)
xor_twice_below (suc n) a b ha hb =
    let d : differ (a % 2) (b % 2) < 2 = differ-lt (a % 2) (b % 2) (omega arith) (omega arith) in
    let high : bit_xor a b / 2 ≡ bit_xor (a / 2) (b / 2) = omega (arith, bit_xor-step a b) in
    let low : bit_xor a b % 2 ≡ differ (a % 2) (b % 2) = omega (arith, bit_xor-step a b) in
    bit_xor-step (bit_xor a b) b
    ∙ rw (high, low)
        (omega (
          arith,
          xor_twice_below n (a / 2) (b / 2) (omega arith) (omega arith),
          differ_twice (a % 2) (b % 2) (omega arith) (omega arith),
        ))

pub xor_twice : (a b : ℕ) → bit_xor (bit_xor a b) b ≡ a
xor_twice a b = xor_twice_below (a + b) a b (omega arith) (omega arith)

-- The exclusive or of two words of `k` digits has `k` digits.
pub bit_xor-lt : (k a b : ℕ) → a < 2 ^ k → b < 2 ^ k → bit_xor a b < 2 ^ k
bit_xor-lt zero zero zero ha hb = omega arith
bit_xor-lt zero zero (suc b) ha hb = absurd (omega arith)
bit_xor-lt zero (suc a) b ha hb = absurd (omega arith)
bit_xor-lt (suc k) a b ha hb =
    let e : 2 ^ suc k ≡ 2 * 2 ^ k = two-pow-suc k in
    let d : differ (a % 2) (b % 2) < 2 = differ-lt (a % 2) (b % 2) (omega arith) (omega arith) in
    let h : bit_xor (a / 2) (b / 2) < 2 ^ k =
      bit_xor-lt k (a / 2) (b / 2) (omega arith) (omega arith) in
    omega (arith, bit_xor-step a b)

bit_or-twice : (a b : ℕ) → bit_or (a * 2) b ≡ bit_or a (b / 2) * 2 + b % 2
bit_or-twice a b =
    let half : a * 2 / 2 ≡ a = omega arith in bit_or-step (a * 2) b ∙ rw half (omega arith)

-- A digit of four bits, beside another.
pub bit_or-nibbles : (h l : ℕ) → l < 16 → bit_or (h * 16) l ≡ h * 16 + l
bit_or-nibbles h l small =
    let shifted : h * 16 ≡ h * 2 * 2 * 2 * 2 = omega arith in
    let gone : l / 2 / 2 / 2 / 2 ≡ 0 = omega arith in
    rw
      (
        shifted,
        bit_or-twice (h * 2 * 2 * 2) l,
        bit_or-twice (h * 2 * 2) (l / 2),
        bit_or-twice (h * 2) (l / 2 / 2),
        bit_or-twice h (l / 2 / 2 / 2),
        gone,
        bit_or-zero h,
      )
      (omega arith)
