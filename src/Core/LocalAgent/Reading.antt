-- ===== src/Core/LocalAgent/Reading.antt =====
-- About how the network cuts a response (capability/local_agent.rs).
use fidelity.Common.{
  ℕ, ◌-◌, ◌≤◌, ◌<◌, ◌≡◌, refl, sym, ap, ◌∙◌, true, false, List, [], ◌∷◌, ◌++◌, length, take,
  is_some, is_empty, if◌then◌else◌, arith, length-append, take_all, lt→ltb,
}
use mathlib.Core.List.{append_assoc, append-nil}
use fidelity.Common.Chars.{find}
use fidelity.Core.LocalAgent.{
  max_response_bytes, header_end, interrupted, IoError, Event, received, failed, response,
  read_error, read_loop,
}

-- Events that deliver bytes in pieces, with interruptions between them.
pub data Delivers : List Event → List ℕ → Type 0 where
  all_delivered : (events : List Event) → Delivers events []
  piece :
      (b : ℕ) (bytes : List ℕ) (events : List Event) (more : List ℕ)
      → Delivers events more
      → Delivers (received (b ∷ bytes) ∷ events) ((b ∷ bytes) ++ more)
  interruption :
      (error : IoError) (events : List Event) (more : List ℕ)
      → error.kind ≡ interrupted
      → Delivers events more
      → Delivers (failed error ∷ events) more

-- The end of the headers is the end of the bytes, and stands nowhere before it.
pub record EndsOnce (bytes : List ℕ) : Type 0 where
  pub ends : is_some (find bytes header_end) ≡ true
  pub only_there :
      (front back : List ℕ)
      → bytes ≡ front ++ back
      → is_empty back ≡ false
      → is_some (find front header_end) ≡ false

read_loop-Delivers :
    (events : List Event) (so_far more bytes : List ℕ)
    → Delivers events more
    → bytes ≡ so_far ++ more
    → is_empty more ≡ false
    → length bytes ≤ max_response_bytes
    → EndsOnce bytes
    → read_loop events so_far ≡ response bytes
unfolding read_loop
read_loop-Delivers events so_far [] bytes d e filled fits once = absurd cc
read_loop-Delivers _ so_far _ bytes (piece b chunk events more d) e filled fits once =
    let size = length-append so_far ((b ∷ chunk) ++ more) in
    let inner = length-append (b ∷ chunk) more in
    let whole = ap length e in
    let room : length so_far < max_response_bytes = omega (arith, size, whole) in
    let all_taken : take (max_response_bytes - length so_far) (b ∷ chunk) ≡ b ∷ chunk =
      take_all (max_response_bytes - length so_far) (b ∷ chunk)
        (omega (arith, size, inner, whole)) in
    let again : bytes ≡ (so_far ++ b ∷ chunk) ++ more =
      e ∙ sym (append_assoc so_far (b ∷ chunk) more) in
    rw (lt→ltb (length so_far) max_response_bytes room, all_taken)
      (by_rest more again
        (λ f. read_loop-Delivers events (so_far ++ b ∷ chunk) more bytes d again f fits once))
  where
    by_rest :
        (rest : List ℕ)
        → bytes ≡ (so_far ++ b ∷ chunk) ++ rest
        → (is_empty rest ≡ false → read_loop events (so_far ++ b ∷ chunk) ≡ response bytes)
        → (if is_some (find (so_far ++ b ∷ chunk) header_end)
            then response (so_far ++ b ∷ chunk)
            else read_loop events (so_far ++ b ∷ chunk))
          ≡ response bytes
    by_rest [] same ih =
        let eq : bytes ≡ so_far ++ b ∷ chunk = same ∙ append-nil (so_far ++ b ∷ chunk) in
        rw (← eq, once.ends) refl
    by_rest (c ∷ rest) same ih =
        rw (once.only_there (so_far ++ b ∷ chunk) (c ∷ rest) same refl) (ih refl)
read_loop-Delivers _ so_far (c ∷ more) bytes (interruption error events _ kind d) e filled fits
      once =
    let size = length-append so_far (c ∷ more) in
    let whole = ap length e in
    rw (lt→ltb (length so_far) max_response_bytes (omega (arith, size, whole))) (
      unfold read_error in
      rw kind (read_loop-Delivers events so_far (c ∷ more) bytes d e filled fits once))

-- A response of at most 1024 bytes whose headers end with its last byte, and nowhere before, is
-- read as it is, however it is cut into pieces and wherever the reading is interrupted.
pub read_loop_cut :
    (events : List Event) (bytes : List ℕ)
    → Delivers events bytes
    → length bytes ≤ max_response_bytes
    → EndsOnce bytes
    → read_loop events [] ≡ response bytes
read_loop_cut events [] d fits once = absurd (let e = once.ends in unfold find in cc)
read_loop_cut events (b ∷ bytes) d fits once =
    read_loop-Delivers events [] (b ∷ bytes) (b ∷ bytes) d refl refl fits once
