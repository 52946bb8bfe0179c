-- ===== src/Formats/Smbios/Joined.antt =====
-- The strings of a structure, and their split at the zero bytes.
use mathlib.Core.List.{append_assoc, append-nil}
use fidelity.Common.{ℕ, ◌≡◌, refl, sym, ap, ◌∙◌, false, List, [], ◌∷◌, ◌++◌, All, ◌==◌}
use fidelity.Common.Chars.{split_from}
use fidelity.Formats.Smbios.Runs.{IsString, terminated, run_of}

-- The strings with one zero byte between them.
abbrev pub joined : List ℕ → List (List ℕ) → List ℕ
joined s [] = s
joined s (t ∷ ss) = s ++ (0 ∷ joined t ss)

pub run_of-joined :
    (s : List ℕ) (ss : List (List ℕ)) → run_of (s ∷ ss) ≡ joined s ss ++ (0 ∷ 0 ∷ [])
run_of-joined s [] = append_assoc s (0 ∷ []) (0 ∷ [])
run_of-joined s (t ∷ ss) =
    append_assoc s (0 ∷ terminated (t ∷ ss)) (0 ∷ [])
    ∙ ap (λ x. s ++ (0 ∷ x)) (run_of-joined t ss)
    ∙ sym (append_assoc s (0 ∷ joined t ss) (0 ∷ 0 ∷ []))

split_from-string :
    (part s rest : List ℕ)
    → All (λ b. (b == 0) ≡ false) s
    → split_from 0 part (s ++ rest) ≡ split_from 0 (part ++ s) rest
unfolding split_from
split_from-string part [] rest h = ap (λ p. split_from 0 p rest) (sym (append-nil part))
split_from-string part (b ∷ s) rest h = rw h.0 (
    split_from-string (part ++ b ∷ []) s rest h.1
    ∙ ap (λ p. split_from 0 p rest) (append_assoc part (b ∷ []) s))

split_from_ended : (part rest : List ℕ) → split_from 0 part (0 ∷ rest) ≡ part ∷ split_from 0 [] rest
unfolding split_from
split_from_ended part rest = refl

pub split_from-joined :
    (s : List ℕ) (ss : List (List ℕ))
    → IsString s
    → All IsString ss
    → split_from 0 [] (joined s ss) ≡ s ∷ ss
split_from-joined s [] h hs =
    ap (split_from 0 []) (sym (append-nil s))
    ∙ split_from-string [] s [] h.no_zero
    ∙ unfold split_from in refl
split_from-joined s (t ∷ ss) h hs =
    split_from-string [] s (0 ∷ joined t ss) h.no_zero
    ∙ split_from_ended s (joined t ss)
    ∙ ap (λ x. s ∷ x) (split_from-joined t ss hs.0 hs.1)
