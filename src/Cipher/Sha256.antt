-- ===== src/Cipher/Sha256.antt =====
-- SHA-256 (crates/fidelity-cipher/src/sha256.rs): 32-bit words, and bytes as lists of numbers.
pub mod Length
use mathlib.Core.List.{reverse, foldl}
use fidelity.Common.{
  ℕ, zero, suc, ◌+◌, ◌-◌, ◌*◌, ◌/◌, ◌%◌, ◌^◌, bit_and, bit_xor, List, [], ◌∷◌, ◌++◌, length, get_or,
  set, take, drop, replicate, if◌then◌else◌, ltb,
}

-- `K`
abbrev round_constants : List ℕ
round_constants =
    1116352408 ∷ 1899447441 ∷ 3049323471 ∷ 3921009573 ∷ 961987163 ∷ 1508970993 ∷ 2453635748
    ∷ 2870763221 ∷ 3624381080 ∷ 310598401 ∷ 607225278 ∷ 1426881987 ∷ 1925078388 ∷ 2162078206
    ∷ 2614888103 ∷ 3248222580 ∷ 3835390401 ∷ 4022224774 ∷ 264347078 ∷ 604807628 ∷ 770255983
    ∷ 1249150122 ∷ 1555081692 ∷ 1996064986 ∷ 2554220882 ∷ 2821834349 ∷ 2952996808 ∷ 3210313671
    ∷ 3336571891 ∷ 3584528711 ∷ 113926993 ∷ 338241895 ∷ 666307205 ∷ 773529912 ∷ 1294757372
    ∷ 1396182291 ∷ 1695183700 ∷ 1986661051 ∷ 2177026350 ∷ 2456956037 ∷ 2730485921 ∷ 2820302411
    ∷ 3259730800 ∷ 3345764771 ∷ 3516065817 ∷ 3600352804 ∷ 4094571909 ∷ 275423344 ∷ 430227734
    ∷ 506948616 ∷ 659060556 ∷ 883997877 ∷ 958139571 ∷ 1322822218 ∷ 1537002063 ∷ 1747873779
    ∷ 1955562222 ∷ 2024104815 ∷ 2227730452 ∷ 2361852424 ∷ 2428436474 ∷ 2756734187 ∷ 3204031479
    ∷ 3329325298 ∷ []

-- The eight working variables, by their names in the standard.
pub record Working : Type 0 where
  pub a : ℕ
  pub b : ℕ
  pub c : ℕ
  pub d : ℕ
  pub e : ℕ
  pub f : ℕ
  pub g : ℕ
  pub h : ℕ

-- `INITIAL`
abbrev initial : Working
initial = record {
  a = 1779033703;
  b = 3144134277;
  c = 1013904242;
  d = 2773480762;
  e = 1359893119;
  f = 2600822924;
  g = 528734635;
  h = 1541459225;
}

abbrev pub word : ℕ → ℕ
word n = n % 2 ^ 32

-- `u32::rotate_right` by `n`, for `n` below 32.
rotate_right : ℕ → ℕ → ℕ
rotate_right n x = x / 2 ^ n + word (x * 2 ^ (32 - n))

-- `u32::from_be_bytes` over each four bytes.
words_of : ℕ → List ℕ → List ℕ
words_of zero bytes = []
words_of (suc n) bytes =
    word (
      get_or bytes 0 0 * 2 ^ 24
      + get_or bytes 1 0 * 2 ^ 16
      + get_or bytes 2 0 * 2 ^ 8
      + get_or bytes 3 0)
    ∷ words_of n (drop 4 bytes)

-- `u32::to_be_bytes`.
pub be_bytes : ℕ → List ℕ
be_bytes w = w / 2 ^ 24 % 256 ∷ w / 2 ^ 16 % 256 ∷ w / 2 ^ 8 % 256 ∷ w % 256 ∷ []

-- The schedule, latest word first: `schedule[index - n]` is at place `n - 1`.
extend : ℕ → List ℕ → List ℕ
unfolding rotate_right
extend zero schedule = schedule
extend (suc n) schedule =
    let a = get_or schedule 14 0 in
    let b = get_or schedule 1 0 in
    let s0 = bit_xor (bit_xor (rotate_right 7 a) (rotate_right 18 a)) (a / 2 ^ 3) in
    let s1 = bit_xor (bit_xor (rotate_right 17 b) (rotate_right 19 b)) (b / 2 ^ 10) in
    extend n (word (get_or schedule 15 0 + s0 + get_or schedule 6 0 + s1) ∷ schedule)

-- One round, at its constant and its word of the schedule.
round : Working → ℕ → ℕ → Working
unfolding rotate_right
round w constant scheduled =
    let s1 = bit_xor (bit_xor (rotate_right 6 w.e) (rotate_right 11 w.e)) (rotate_right 25 w.e) in
    let choose = bit_xor (bit_and w.e w.f) (bit_and (2 ^ 32 - 1 - w.e) w.g) in
    let first = word (w.h + s1 + choose + constant + scheduled) in
    let s0 = bit_xor (bit_xor (rotate_right 2 w.a) (rotate_right 13 w.a)) (rotate_right 22 w.a) in
    let majority = bit_xor (bit_xor (bit_and w.a w.b) (bit_and w.a w.c)) (bit_and w.b w.c) in
    let second = word (s0 + majority) in
    record {
      a = word (first + second);
      b = w.a;
      c = w.b;
      d = w.c;
      e = word (w.d + first);
      f = w.e;
      g = w.f;
      h = w.g;
    }

rounds : List ℕ → List ℕ → Working → Working
unfolding round
rounds [] schedule w = w
rounds (constant ∷ constants) [] w = w
rounds (constant ∷ constants) (scheduled ∷ schedule) w =
    rounds constants schedule (round w constant scheduled)

added : Working → Working → Working
added s w = record {
  a = word (s.a + w.a);
  b = word (s.b + w.b);
  c = word (s.c + w.c);
  d = word (s.d + w.d);
  e = word (s.e + w.e);
  f = word (s.f + w.f);
  g = word (s.g + w.g);
  h = word (s.h + w.h);
}

pub compress : Working → List ℕ → Working
unfolding extend words_of rounds added
compress state block =
    added state (rounds round_constants (reverse (extend 48 (reverse (words_of 16 block)))) state)

-- The chunks of 64 bytes, and the state after them.
compress_chunks : ℕ → Working → List ℕ → Working
compress_chunks zero state message = state
compress_chunks (suc n) state message =
    compress_chunks n (compress state (take 64 message)) (drop 64 message)

-- `u64::to_be_bytes` of the length in bits, which wraps.
length_bytes : ℕ → List ℕ
length_bytes n = let bits = n * 8 % 2 ^ 64 in be_bytes (bits / 2 ^ 32) ++ be_bytes (bits % 2 ^ 32)

-- The last blocks: the tail, the bit `0x80`, zeros, and the length.
finish : Working → List ℕ → ℕ → Working
unfolding length_bytes
finish state tail size =
    let marked = tail ++ 128 ∷ [] in
    if ltb 64 (length tail + 1 + 8)
    then compress (compress state (marked ++ replicate (64 - length marked) 0))
        (replicate 56 0 ++ length_bytes size)
    else compress state (marked ++ (replicate (56 - length marked) 0 ++ length_bytes size))

digest_of : Working → List ℕ
digest_of w =
    be_bytes w.a
    ++ (be_bytes w.b
        ++ (be_bytes w.c
            ++ (be_bytes w.d
                ++ (be_bytes w.e ++ (be_bytes w.f ++ (be_bytes w.g ++ be_bytes w.h))))))

pub sha256 : List ℕ → List ℕ
unfolding compress_chunks finish digest_of
sha256 message =
    let chunks = length message / 64 in
    digest_of (
      finish (compress_chunks chunks initial message) (drop (chunks * 64) message) (length message))
