-- ===== src/Tests/Words.antt =====
-- The bounded text, at concrete bytes.
use fidelity.Common.{ℕ, List, [], ◌∷◌}
use fidelity.Types.Evidence.{bounded}
use fidelity.Types.Evidence.Bounds.{Bounds, bounded-Bounds}

-- `a`, and a character of two bytes that a cut at 2 would split.
abbrev split : List ℕ
split = 97 ∷ 195 ∷ 169 ∷ []

bounded-Bounds_example : Bounds 2 split (bounded 2 split)
bounded-Bounds_example = bounded-Bounds 2 split
