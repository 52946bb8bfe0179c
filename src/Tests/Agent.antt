-- ===== src/Tests/Agent.antt =====
-- The probe of local agents, on a response in two pieces.
use fidelity.Common.{
  ℕ, ◌≡◌, refl, ap, false, List, [], ◌∷◌, ◌++◌, length, length-append, arith, is_some, is_empty,
}
use fidelity.Common.Chars.{find, starts_with}
use fidelity.Core.LocalAgent.{
  header_end, interrupted, IoError, Event, received, failed, response, read_loop,
}
use fidelity.Core.LocalAgent.Reading.{
  Delivers, all_delivered, piece, interruption, EndsOnce, read_loop_cut,
}

-- The end of the headers alone.
abbrev sent : List ℕ
sent = 13 ∷ 10 ∷ 13 ∷ 10 ∷ []

short_of_the_end :
    (front back : List ℕ)
    → sent ≡ front ++ back
    → is_empty back ≡ false
    → is_some (find front header_end) ≡ false
unfolding find starts_with
short_of_the_end [] back e h = refl
short_of_the_end (a ∷ []) back e h = let ea : a ≡ 13 = cc in rw ea refl
short_of_the_end (a ∷ b ∷ []) back e h =
    let ea : a ≡ 13 = cc in let eb : b ≡ 10 = cc in rw (ea, eb) refl
short_of_the_end (a ∷ b ∷ c ∷ []) back e h =
    let ea : a ≡ 13 = cc in let eb : b ≡ 10 = cc in let ec : c ≡ 13 = cc in rw (ea, eb, ec) refl
short_of_the_end (a ∷ b ∷ c ∷ d ∷ front) [] e h = absurd cc
short_of_the_end (a ∷ b ∷ c ∷ d ∷ front) (x ∷ back) e h =
    absurd (omega (arith, ap length e, length-append front (x ∷ back)))

ends_once : EndsOnce sent
unfolding find starts_with
ends_once = record { ends = refl; only_there = short_of_the_end }

abbrev error : IoError
error = record { kind = interrupted; message = [] }

abbrev events : List Event
events = received (13 ∷ 10 ∷ 13 ∷ []) ∷ failed error ∷ received (10 ∷ []) ∷ received (1 ∷ []) ∷ []

events_deliver : Delivers events sent
events_deliver =
    piece 13 (10 ∷ 13 ∷ []) _ (10 ∷ [])
      (interruption error _ (10 ∷ []) refl (piece 10 [] _ [] (all_delivered _)))

read_loop_cut_example : read_loop events [] ≡ response sent
read_loop_cut_example = read_loop_cut events sent events_deliver (omega arith) ends_once
