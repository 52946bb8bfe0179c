-- ===== src/Formats/Smbios/Table.antt =====
-- About a firmware table that is written as its structures (smbios/system.rs).
use mathlib.Core.List.{append_assoc}
use fidelity.Common.{
  ℕ, zero, suc, ◌+◌, ◌-◌, ◌≤◌, ◌<◌, ◌≡◌, refl, sym, ap, ◌∙◌, Bool, true, false, Option, some, List,
  [], ◌∷◌, ◌++◌, length, All, get_elem?, ◌==◌, if◌then◌else◌, ◌>>=◌, arith, length-append, le→ltb,
}
use fidelity.Common.Chars.{Chars, split_at}
use fidelity.Common.Utf8.{from_utf8}
use fidelity.Formats.Bytes.{slice}
use fidelity.Formats.Smbios.{
  system_information_kind, end_of_table, header_bytes, SystemInformation, Looped, returned,
  run_end_from, run_end, string, stated, after_run, structure_step, system_from, system_information,
}
use fidelity.Formats.Smbios.Runs.{
  IsString, terminated, run_of, slice_middle, run_end_from_end, run_end_from-run_of,
}
use fidelity.Formats.Smbios.Joined.{joined, run_of-joined, split_from-joined}

-- A structure: its kind, its handle, the fields behind the header, and its strings.
pub record Structure : Type 0 where
  pub kind : ℕ
  pub handle_low : ℕ
  pub handle_high : ℕ
  pub fields : List ℕ
  pub strings : List (List ℕ)

-- A structure without strings has both zero bytes too.
abbrev pub run_area : List (List ℕ) → List ℕ
run_area [] = 0 ∷ 0 ∷ []
run_area (s ∷ ss) = run_of (s ∷ ss)

abbrev pub formatted : Structure → List ℕ
formatted s = s.kind ∷ (4 + length s.fields) ∷ s.handle_low ∷ s.handle_high ∷ s.fields

abbrev pub encode : Structure → List ℕ
encode s = formatted s ++ run_area s.strings

abbrev pub encode_all : List Structure → List ℕ
encode_all [] = []
encode_all (s ∷ ss) = encode s ++ encode_all ss

-- A structure that the reader passes.
pub record IsOther (s : Structure) : Type 0 where
  pub no_information : (s.kind == system_information_kind) ≡ false
  pub no_end : (s.kind == end_of_table) ≡ false
  pub are_strings : All IsString s.strings

run_end-run_area :
    (front : List ℕ) (strings : List (List ℕ)) (rest : List ℕ)
    → All IsString strings
    → run_end (front ++ (run_area strings ++ rest)) (length front)
      ≡ returned (some (length front + length (run_area strings)))
unfolding run_end
run_end-run_area front [] rest h = run_end_from_end _ front rest
run_end-run_area front (s ∷ ss) rest h =
    let text : run_area (s ∷ ss) ++ rest ≡ s ++ (0 ∷ (terminated ss ++ (0 ∷ rest))) =
      simp append_assoc in
    let size = length-append front (run_area (s ∷ ss) ++ rest) in
    let inner = length-append (run_area (s ∷ ss)) rest in
    let outer = length-append (terminated (s ∷ ss)) (0 ∷ []) in
    let spare = length front + 2 + length rest in
    let fuel : suc (length (front ++ (run_area (s ∷ ss) ++ rest)))
        ≡ length (terminated (s ∷ ss)) + spare =
      omega (arith, size, inner, outer) in
    ap (λ n. run_end_from n (front ++ (run_area (s ∷ ss) ++ rest)) (length front)) fuel
    ∙ ap (λ t. run_end_from (length (terminated (s ∷ ss)) + spare) (front ++ t) (length front)) text
    ∙ run_end_from-run_of s ss spare front rest h.0 h.1

-- What one round does with a structure.
system_from-encode :
    (fuel : ℕ) (front : List ℕ) (s : Structure) (rest : List ℕ)
    → (s.kind == end_of_table) ≡ false
    → All IsString s.strings
    → system_from (suc fuel) (front ++ (encode s ++ rest)) (length front) ≡ (
        if s.kind == system_information_kind
        then returned (
            stated
              (front ++ (encode s ++ rest))
              (length front)
              (length front + length (formatted s))
              (length front + length (encode s)))
        else system_from fuel (front ++ (encode s ++ rest)) (length front + length (encode s)))
unfolding system_from
system_from-encode fuel front s rest other strings =
    let header = s.kind ∷ (4 + length s.fields) ∷ s.handle_low ∷ s.handle_high ∷ [] in
    let read : slice (front ++ (encode s ++ rest)) (length front) (length front + header_bytes)
        ≡ some header =
      slice_middle front header ((s.fields ++ run_area s.strings) ++ rest) 4 refl in
    let moved : front ++ (encode s ++ rest)
        ≡ (front ++ formatted s) ++ (run_area s.strings ++ rest) =
      simp append_assoc in
    let start : length front + (4 + length s.fields) ≡ length (front ++ formatted s) =
      omega (arith, length-append front (formatted s)) in
    let end : length (front ++ formatted s) + length (run_area s.strings)
        ≡ length front + length (encode s) =
      omega (
        arith,
        length-append front (formatted s),
        length-append (formatted s) (run_area s.strings),
      ) in
    let ran : run_end (front ++ (encode s ++ rest)) (length front + (4 + length s.fields))
        ≡ returned (some (length front + length (encode s))) =
      ap (λ t. run_end t (length front + (4 + length s.fields))) moved
      ∙ ap (λ p. run_end ((front ++ formatted s) ++ (run_area s.strings ++ rest)) p) start
      ∙ run_end-run_area (front ++ formatted s) s.strings rest strings
      ∙ ap (λ e. returned (some e)) end in
    let size : length front + (4 + length s.fields) ≡ length front + length (formatted s) =
      omega arith in
    rw read (
      unfold structure_step in
      rw (other, le→ltb (4 + length s.fields) header_bytes (omega arith), ran)
        (unfold after_run in
          ap
            (λ p.
              if s.kind == system_information_kind
              then returned (
                  stated (front ++ (encode s ++ rest)) (length front) p
                    (length front + length (encode s)))
              else system_from fuel (front ++ (encode s ++ rest))
                  (length front + length (encode s)))
            size))

-- The text of a string by its number, counted from one.
abbrev pub text_of : List (List ℕ) → ℕ → Option Chars
text_of strings number =
    if number == 0 then some [] else get_elem? strings (number - 1) >>= from_utf8

-- What a structure states by the numbers of its maker and its product.
abbrev pub told : List (List ℕ) → ℕ → ℕ → Option SystemInformation
told strings maker product_number = do
  manufacturer ← text_of strings maker
  product ← text_of strings product_number
  some record { manufacturer = manufacturer; product = product }

-- A structure with the information of the system.
pub record IsInformation (s : Structure) (maker product_number : ℕ) : Type 0 where
  pub of_kind : s.kind ≡ system_information_kind
  pub more : List ℕ
  pub numbers : s.fields ≡ maker ∷ product_number ∷ more
  pub first : List ℕ
  pub others : List (List ℕ)
  pub strings : s.strings ≡ first ∷ others
  pub are_strings : All IsString (first ∷ others)

stated-told :
    (front rest : List ℕ) (s : Structure) (maker product_number : ℕ)
    (i : IsInformation s maker product_number)
    → stated
        (front ++ (encode s ++ rest))
        (length front)
        (length front + length (formatted s))
        (length front + length (encode s))
      ≡ told (i.first ∷ i.others) maker product_number
unfolding stated string split_at
stated-told front rest s maker product_number i =
    let text = joined i.first i.others in
    let run : run_area s.strings ≡ text ++ (0 ∷ 0 ∷ []) =
      rw i.strings (run_of-joined i.first i.others) in
    let fields : slice (front ++ (encode s ++ rest)) (length front)
          (length front + length (formatted s))
        ≡ some (formatted s) =
      ap (λ t. slice (front ++ t) (length front) (length front + length (formatted s)))
        (append_assoc (formatted s) (run_area s.strings) rest)
      ∙ slice_middle front (formatted s) (run_area s.strings ++ rest) (length (formatted s)) refl in
    let moved : front ++ (encode s ++ rest) ≡ (front ++ formatted s) ++ (text ++ (0 ∷ 0 ∷ rest)) =
      rw run (simp append_assoc) in
    let start : length front + length (formatted s) ≡ length (front ++ formatted s) =
      omega (arith, length-append front (formatted s)) in
    let end : length front + length (encode s) - 2 ≡ length (front ++ formatted s) + length text =
      omega (
        arith,
        ap length run,
        length-append text (0 ∷ 0 ∷ []),
        length-append front (formatted s),
        length-append (formatted s) (run_area s.strings),
      ) in
    let strings : slice (front ++ (encode s ++ rest)) (length front + length (formatted s))
          (length front + length (encode s) - 2)
        ≡ some text =
      rw (moved, start, end)
        (slice_middle (front ++ formatted s) text (0 ∷ 0 ∷ rest) (length text) refl) in
    let split = split_from-joined i.first i.others i.are_strings.0 i.are_strings.1 in
    rw (fields, strings) (rw i.numbers (rw split refl))

chosen : (b : Bool) (x y : Looped SystemInformation) → b ≡ true → (if b then x else y) ≡ x
chosen b x y e = rw e refl

passed : (b : Bool) (x y : Looped SystemInformation) → b ≡ false → (if b then x else y) ≡ y
passed b x y e = rw e refl

system_from-encode_all :
    (earlier : List Structure) (fuel : ℕ) (front : List ℕ) (s : Structure) (rest : List ℕ)
    (maker product_number : ℕ)
    → All IsOther earlier
    → (i : IsInformation s maker product_number) → length earlier < fuel
    → system_from fuel (front ++ (encode_all earlier ++ (encode s ++ rest))) (length front)
      ≡ returned (told (i.first ∷ i.others) maker product_number)
system_from-encode_all earlier zero front s rest maker product_number others i enough =
    absurd (omega arith)
system_from-encode_all [] (suc fuel) front s rest maker product_number others i enough =
    system_from-encode fuel front s rest (rw i.of_kind refl) (rw i.strings i.are_strings)
    ∙ chosen (s.kind == system_information_kind) _ _ (rw i.of_kind refl)
    ∙ ap returned (stated-told front rest s maker product_number i)
system_from-encode_all (e ∷ earlier) (suc fuel) front s rest maker product_number others i enough =
    let tail = encode_all earlier ++ (encode s ++ rest) in
    let text : front ++ (encode_all (e ∷ earlier) ++ (encode s ++ rest))
        ≡ front ++ (encode e ++ tail) =
      ap (λ t. front ++ t) (append_assoc (encode e) (encode_all earlier) (encode s ++ rest)) in
    let again : front ++ (encode e ++ tail) ≡ (front ++ encode e) ++ tail =
      sym (append_assoc front (encode e) tail) in
    let place : length front + length (encode e) ≡ length (front ++ encode e) =
      omega (arith, length-append front (encode e)) in
    ap (λ t. system_from (suc fuel) t (length front)) text
    ∙ system_from-encode fuel front e tail others.0.no_end others.0.are_strings
    ∙ passed (e.kind == system_information_kind) _ _ others.0.no_information
    ∙ ap (λ t. system_from fuel t (length front + length (encode e))) again
    ∙ ap (λ p. system_from fuel ((front ++ encode e) ++ tail) p) place
    ∙ system_from-encode_all earlier fuel (front ++ encode e) s rest maker product_number others.1 i
        (omega arith)

length-encode_all : (ss : List Structure) → length ss ≤ length (encode_all ss)
length-encode_all [] = omega arith
length-encode_all (s ∷ ss) = omega (
  arith,
  length-append (encode s) (encode_all ss),
  length-append (formatted s) (run_area s.strings),
  length-encode_all ss,
)

-- A firmware table that is written as some structures that are neither the end nor the
-- information of the system, then such information, then any bytes, is read as the maker and the
-- product that the numbers of the information name among its strings.
pub system_information-encode_all :
    (earlier : List Structure) (s : Structure) (rest : List ℕ) (maker product_number : ℕ)
    → All IsOther earlier
    → (i : IsInformation s maker product_number)
    → system_information (encode_all earlier ++ (encode s ++ rest))
      ≡ returned (told (i.first ∷ i.others) maker product_number)
unfolding system_information
system_information-encode_all earlier s rest maker product_number others i =
    system_from-encode_all earlier (suc (length (encode_all earlier ++ (encode s ++ rest)))) [] s
      rest maker product_number others i
      (omega
        (arith, length-encode_all earlier, length-append (encode_all earlier) (encode s ++ rest)))
