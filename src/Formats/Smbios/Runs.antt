-- ===== src/Formats/Smbios/Runs.antt =====
-- About the end of a run of strings (`run_end` of smbios/system.rs).
use mathlib.Core.List.{append_assoc, append-nil}
use fidelity.Common.{
  ℕ, suc, ◌+◌, ◌-◌, ◌≡◌, refl, sym, ap, ◌∙◌, false, some, List, [], ◌∷◌, ◌++◌, length, All, ◌==◌,
  arith, length-append, take-append-length, drop-append-length,
}
use fidelity.Formats.Bytes.{slice, slice-some}
use fidelity.Formats.Smbios.{returned, is_double_zero, run_step, run_end_from}

-- A string of a structure: not empty, and without a zero byte.
pub record IsString (s : List ℕ) : Type 0 where
  pub first : ℕ
  pub others : List ℕ
  pub parts : s ≡ first ∷ others
  pub no_zero : All (λ b. (b == 0) ≡ false) s

-- The strings with a zero byte behind each.
abbrev pub terminated : List (List ℕ) → List ℕ
terminated [] = []
terminated (s ∷ ss) = s ++ (0 ∷ terminated ss)

-- A run of strings, of which there is at least one.
abbrev pub run_of : List (List ℕ) → List ℕ
run_of ss = terminated ss ++ (0 ∷ [])

pub slice_middle :
    (front part rest : List ℕ) (n : ℕ)
    → length part ≡ n
    → slice (front ++ (part ++ rest)) (length front) (length front + n) ≡ some part
slice_middle front part rest n size =
    let whole = length-append front (part ++ rest) in
    let inner = length-append part rest in
    let width : length front + n - length front ≡ length part = omega arith in
    slice-some (front ++ (part ++ rest)) (length front) (length front + n) (omega arith)
      (omega arith)
    ∙ rw (width, drop-append-length front (part ++ rest), take-append-length part rest) refl

-- One step over a byte, where the pair at the cursor is no end.
run_end_from_step :
    (fuel : ℕ) (front : List ℕ) (b c : ℕ) (rest : List ℕ)
    → is_double_zero (b ∷ c ∷ []) ≡ false
    → run_end_from (suc fuel) (front ++ b ∷ c ∷ rest) (length front)
      ≡ run_end_from fuel ((front ++ b ∷ []) ++ c ∷ rest) (length (front ++ b ∷ []))
unfolding run_end_from run_step
run_end_from_step fuel front b c rest h =
    let again : front ++ b ∷ c ∷ rest ≡ (front ++ b ∷ []) ++ c ∷ rest =
      sym (append_assoc front (b ∷ []) (c ∷ rest)) in
    let place : suc (length front) ≡ length (front ++ b ∷ []) =
      omega (arith, length-append front (b ∷ [])) in
    rw (slice_middle front (b ∷ c ∷ []) rest 2 refl, h)
      (ap (λ t. run_end_from fuel t (suc (length front))) again
        ∙ ap (λ p. run_end_from fuel ((front ++ b ∷ []) ++ c ∷ rest) p) place)

pub run_end_from_end :
    (fuel : ℕ) (front rest : List ℕ)
    → run_end_from (suc fuel) (front ++ 0 ∷ 0 ∷ rest) (length front)
      ≡ returned (some (length front + 2))
unfolding run_end_from run_step
run_end_from_end fuel front rest = rw (slice_middle front (0 ∷ 0 ∷ []) rest 2 refl) refl

other_pair : (b c : ℕ) → (b == 0) ≡ false → is_double_zero (b ∷ c ∷ []) ≡ false
other_pair b c h = rw h refl

other_pair_second : (b c : ℕ) → (c == 0) ≡ false → is_double_zero (b ∷ c ∷ []) ≡ false
other_pair_second b c h = ground arith

-- The loop passes the bytes of a string.
run_end_from-string :
    (s : List ℕ) (fuel : ℕ) (front : List ℕ) (c : ℕ) (rest : List ℕ)
    → All (λ b. (b == 0) ≡ false) s
    → run_end_from (length s + fuel) (front ++ (s ++ c ∷ rest)) (length front)
      ≡ run_end_from fuel ((front ++ s) ++ c ∷ rest) (length (front ++ s))
run_end_from-string [] fuel front c rest h =
    simp append-nil (ap (λ n. run_end_from n (front ++ c ∷ rest) (length front)) (omega arith))
run_end_from-string (b ∷ []) fuel front c rest h =
    ap (λ n. run_end_from n (front ++ b ∷ c ∷ rest) (length front)) (omega arith)
    ∙ run_end_from_step fuel front b c rest (other_pair b c h.0)
run_end_from-string (b ∷ d ∷ s) fuel front c rest h =
    let more : suc (length (d ∷ s) + fuel) ≡ length (b ∷ d ∷ s) + fuel = omega arith in
    ap (λ n. run_end_from n (front ++ b ∷ d ∷ (s ++ c ∷ rest)) (length front)) (sym more)
    ∙ run_end_from_step (length (d ∷ s) + fuel) front b d (s ++ c ∷ rest) (other_pair b d h.0)
    ∙ run_end_from-string (d ∷ s) fuel (front ++ b ∷ []) c rest h.1
    ∙ ap (λ t. run_end_from fuel (t ++ c ∷ rest) (length t)) (append_assoc front (b ∷ []) (d ∷ s))

pub run_end_from-run_of :
    (s : List ℕ) (ss : List (List ℕ)) (fuel : ℕ) (front rest : List ℕ)
    → IsString s
    → All IsString ss
    → run_end_from
        (length (terminated (s ∷ ss)) + fuel)
        (front ++ (s ++ (0 ∷ (terminated ss ++ (0 ∷ rest)))))
        (length front)
      ≡ returned (some (length front + length (run_of (s ∷ ss))))
run_end_from-run_of s [] fuel front rest h hs =
    let size = length-append s (0 ∷ []) in
    let split : length s + suc fuel ≡ length (terminated (s ∷ [])) + fuel = omega (arith, size) in
    let whole = length-append (terminated (s ∷ [])) (0 ∷ []) in
    let end : length (front ++ s) + 2 ≡ length front + length (run_of (s ∷ [])) =
      omega (arith, size, whole, length-append front s) in
    ap (λ n. run_end_from n (front ++ (s ++ (0 ∷ 0 ∷ rest))) (length front)) (sym split)
    ∙ run_end_from-string s (suc fuel) front 0 (0 ∷ rest) h.no_zero
    ∙ run_end_from_end fuel (front ++ s) rest
    ∙ ap (λ e. returned (some e)) end
run_end_from-run_of s (t ∷ ss) fuel front rest h hs =
    let tail = terminated ss ++ (0 ∷ rest) in
    let more = length (terminated (t ∷ ss)) + fuel in
    let split : length s + suc more ≡ length (terminated (s ∷ t ∷ ss)) + fuel =
      omega (arith, length-append s (0 ∷ terminated (t ∷ ss))) in
    let text : terminated (t ∷ ss) ++ (0 ∷ rest) ≡ t ++ (0 ∷ tail) =
      append_assoc t (0 ∷ terminated ss) (0 ∷ rest) in
    let front' = (front ++ s) ++ 0 ∷ [] in
    let over : run_end_from (suc more) ((front ++ s) ++ (0 ∷ (t ++ (0 ∷ tail))))
          (length (front ++ s))
        ≡ run_end_from more (front' ++ (t ++ (0 ∷ tail))) (length front') =
      step_over (front ++ s) t more tail hs.0 in
    let end : length front' + length (run_of (t ∷ ss))
        ≡ length front + length (run_of (s ∷ t ∷ ss)) =
      omega (
        arith,
        length-append front s,
        length-append (front ++ s) (0 ∷ []),
        length-append (terminated (t ∷ ss)) (0 ∷ []),
        length-append (terminated (s ∷ t ∷ ss)) (0 ∷ []),
        length-append s (0 ∷ terminated (t ∷ ss)),
      ) in
    ap
      (λ n.
        run_end_from n (front ++ (s ++ (0 ∷ (terminated (t ∷ ss) ++ (0 ∷ rest))))) (length front))
      (sym split)
    ∙ run_end_from-string s (suc more) front 0 (terminated (t ∷ ss) ++ (0 ∷ rest)) h.no_zero
    ∙ ap (λ x. run_end_from (suc more) ((front ++ s) ++ (0 ∷ x)) (length (front ++ s))) text
    ∙ over
    ∙ run_end_from-run_of t ss fuel front' rest hs.0 hs.1
    ∙ ap (λ e. returned (some e)) end
  where
    step_over :
        (f t : List ℕ) (more : ℕ) (tail : List ℕ)
        → IsString t
        → run_end_from (suc more) (f ++ (0 ∷ (t ++ (0 ∷ tail)))) (length f)
          ≡ run_end_from more ((f ++ 0 ∷ []) ++ (t ++ (0 ∷ tail))) (length (f ++ 0 ∷ []))
    step_over f t more tail g =
        let first_no_zero = (rw g.parts at g.no_zero).0 in
        rw (g.parts) (
          run_end_from_step more f 0 g.first (g.others ++ (0 ∷ tail))
            (other_pair_second 0 g.first first_no_zero))
