-- ===== src/Formats/Smbios/Ends.antt =====
-- About the end of the walk over a firmware table (smbios/system.rs).
use fidelity.Common.{
  ℕ, zero, suc, ◌+◌, ◌≤◌, ◌<◌, ◌≡◌, ◌≢◌, refl, ◌||◌, Option, none, some, List, length, get_or, ltb,
  ◌==◌, arith, Bool-cases, inl, inr,
}
use fidelity.Formats.Bytes.{slice}
use fidelity.Formats.Smbios.{
  system_information_kind, end_of_table, header_bytes, SystemInformation, Looped, exhausted,
  returned, is_double_zero, run_step, run_end_from, run_end, stated, after_run, structure_step,
  system_from, system_information,
}

slice_inside :
    (bytes : List ℕ) (at end : ℕ) (part : List ℕ)
    → slice bytes at end ≡ some part
    → end ≤ length bytes
slice_inside bytes at end part h = ground arith

-- A loop that did not run out of fuel, and whose answer meets a predicate.
abbrev Ended : {A : Type 0} → (A → Type 0) → Looped A → Type 0
Ended P exhausted = ⊥
Ended P (returned none) = Unit
Ended P (returned (some a)) = P a

-- The end of a run behind a cursor.
abbrev Behind : List ℕ → ℕ → ℕ → Type 0
Behind table cursor end = (cursor + 2 ≤ end) × (end ≤ length table)

run_end_from-Ended :
    (fuel : ℕ) (table : List ℕ) (cursor : ℕ)
    → length table < fuel + cursor
    → 0 < fuel
    → Ended (Behind table cursor) (run_end_from fuel table cursor)
unfolding run_end_from
run_end_from-Ended zero table cursor enough some_fuel = absurd (omega arith)
run_end_from-Ended (suc fuel) table cursor enough some_fuel =
    by_pair (slice table cursor (cursor + 2)) refl
      (λ more. run_end_from-Ended fuel table (suc cursor) (omega arith) more)
  where
    later : Looped ℕ
    later = run_end_from fuel table (suc cursor)

    weaker : (l : Looped ℕ) → Ended (Behind table (suc cursor)) l → Ended (Behind table cursor) l
    weaker exhausted h = h
    weaker (returned none) h = tt
    weaker (returned (some end)) h = omega arith

    by_pair :
        (o : Option (List ℕ))
        → slice table cursor (cursor + 2) ≡ o
        → (0 < fuel → Ended (Behind table (suc cursor)) later)
        → Ended (Behind table cursor) (run_step o cursor later)
    by_pair none e ih = unfold run_step in tt
    by_pair (some pair) e ih =
        let inside = slice_inside table cursor (cursor + 2) pair e in
        unfold run_step in
        elim (Bool-cases (is_double_zero pair)) [
          | inl z ↦ rw z (omega (arith, inside))
          | inr z ↦ rw z (weaker later (ih (omega (arith, inside))))
        ]

run_end-Ended : (table : List ℕ) (start : ℕ) → Ended (Behind table start) (run_end table start)
unfolding run_end
run_end-Ended table start =
    run_end_from-Ended (suc (length table)) table start (omega arith) (omega arith)

system_from-Ended :
    (fuel : ℕ) (table : List ℕ) (cursor : ℕ)
    → length table < fuel + cursor
    → 0 < fuel
    → Ended (λ i. Unit) (system_from fuel table cursor)
unfolding system_from
system_from-Ended zero table cursor enough some_fuel = absurd (omega arith)
system_from-Ended (suc fuel) table cursor enough some_fuel =
    by_header (slice table cursor (cursor + header_bytes))
      λ end further more. system_from-Ended fuel table end further more
  where
    next : ℕ → Looped SystemInformation
    next end = system_from fuel table end

    by_run :
        (kind start : ℕ) (l : Looped ℕ)
        → cursor ≤ start
        → Ended (Behind table start) l
        → ((end : ℕ) → length table < fuel + end → 0 < fuel → Ended (λ i. Unit) (next end))
        → Ended (λ i. Unit) (after_run table cursor kind start l next)
    by_run kind start exhausted later h ih = h
    by_run kind start (returned none) later h ih = unfold after_run in tt
    by_run kind start (returned (some end)) later h ih =
        unfold after_run in
        elim (Bool-cases (kind == system_information_kind)) [
          | inl e ↦ rw e (any_answer (stated table cursor start end))
          | inr e ↦ rw e (ih end (omega arith) (omega arith))
        ]
      where
        any_answer : (o : Option SystemInformation) → Ended (λ i. Unit) (returned o)
        any_answer none = tt
        any_answer (some i) = tt

    by_header :
        (o : Option (List ℕ))
        → ((end : ℕ) → length table < fuel + end → 0 < fuel → Ended (λ i. Unit) (next end))
        → Ended (λ i. Unit) (structure_step o table cursor next)
    by_header none ih = unfold structure_step in tt
    by_header (some header) ih =
        let kind = get_or header 0 0 in
        let formatted = get_or header 1 0 in
        let start = cursor + formatted in
        unfold structure_step in
        elim (Bool-cases (kind == end_of_table || ltb formatted header_bytes)) [
          | inl e ↦ rw e tt
          | inr e ↦
              rw e (
                by_run kind start (run_end table start) (omega arith) (run_end-Ended table start)
                  ih)
        ]

-- The walk over a firmware table ends, whatever its bytes are: the fuel that it has, by the
-- length of the table, is enough.
pub system_information-ne-exhausted : (table : List ℕ) → system_information table ≢ exhausted
unfolding system_information
system_information-ne-exhausted table h =
    rw h at (system_from-Ended (suc (length table)) table 0 (omega arith) (omega arith))
