-- ===== src/Formats/Elf/Slots.antt =====
-- About a table of relocations as a linker writes it (`jump_slots` of elf/mod.rs).
use mathlib.Core.List.{append_assoc, append-nil}
use fidelity.Common.{
  ℕ, zero, suc, ◌+◌, ◌*◌, ◌%◌, ◌^◌, ◌<◌, ◌≤◌, ◌≡◌, refl, sym, ap, ◌∙◌, bit_and, Bool, true, false,
  some, List, [], ◌∷◌, ◌++◌, length, take, All, arith, length-append, length-take, take_all,
  if◌then◌else◌, ltb, ◌==◌, ne→==, eq→==, le→ltb, lt→ltb, ltb→lt, ltb→le, Bool-cases, inl, inr,
}
use fidelity.Cipher.Derivation.{le_bytes_64}
use fidelity.Formats.Elf.{
  max_relocation_bytes, rela_entry_bytes, rounds_of, JumpSlots, take_relocation, slots_from,
  jump_slots,
}
use fidelity.Formats.Elf.Dynamic.{entry_at-le_bytes_64}

-- A relocation with an addend.
pub record Rela : Type 0 where
  pub offset : ℕ
  pub info : ℕ
  pub addend : ℕ

abbrev pub AreRelas : List Rela → Type 0
AreRelas = All (λ r. (r.offset < 2 ^ 64) × (r.info < 2 ^ 64))

abbrev pub relocation_table : List Rela → List ℕ
relocation_table [] = []
relocation_table (r ∷ rs) =
    le_bytes_64 r.offset ++ (le_bytes_64 r.info ++ (le_bytes_64 r.addend ++ relocation_table rs))

length-relocation_table : (rs : List Rela) → length (relocation_table rs) ≡ 24 * length rs
length-relocation_table [] = refl
length-relocation_table (r ∷ rs) = omega (arith, length-relocation_table rs)

-- The offsets of the relocations of one kind, in their order.
abbrev pub offsets_of : ℕ → List Rela → List ℕ
offsets_of jump_slot [] = []
offsets_of jump_slot (r ∷ rs) =
    let rest = offsets_of jump_slot rs in
    if bit_and r.info 0xffffffff == jump_slot then r.offset ∷ rest else rest

-- The first offsets, and whether there are more.
abbrev pub limited : ℕ → List ℕ → JumpSlots
limited limit offsets = record {
  offsets = take limit offsets;
  truncated = ltb limit (length offsets);
}

take-append_short : (n : ℕ) (xs ys : List ℕ) → n ≤ length xs → take n (xs ++ ys) ≡ take n xs
take-append_short zero xs ys h = refl
take-append_short (suc n) [] ys h = absurd (omega arith)
take-append_short (suc n) (x ∷ xs) ys h = ap (λ t. x ∷ t) (take-append_short n xs ys (omega arith))

take_relocation-limited :
    (jump_slot limit offset info : ℕ) (found : List ℕ)
    → (bit_and info 0xffffffff == jump_slot) ≡ true
    → take_relocation jump_slot limit (offset, info) (limited limit found)
      ≡ limited limit (found ++ offset ∷ [])
unfolding take_relocation
take_relocation-limited jump_slot limit offset info found e =
    elim (Bool-cases (ltb (length found) limit)) [
      | inl room ↦
          let lt = ltb→lt (length found) limit room in
          let all_found : take limit found ≡ found = take_all limit found (omega arith) in
          let longer = length-append found (offset ∷ []) in
          let all : take limit (found ++ offset ∷ []) ≡ found ++ offset ∷ [] =
            take_all limit (found ++ offset ∷ []) (omega (arith, longer)) in
          rw
            (
              e,
              all_found,
              ne→== (length found) limit (λ same. absurd (omega arith)),
              all,
              le→ltb limit (length found) (omega arith),
              le→ltb limit (length (found ++ offset ∷ [])) (omega (arith, longer)),
            )
            refl
      | inr full ↦
          let le = ltb→le (length found) limit full in
          let longer = length-append found (offset ∷ []) in
          rw
            (
              e,
              eq→== (length (take limit found)) limit (omega (arith, length-take limit found)),
              take-append_short limit found (offset ∷ []) le,
              lt→ltb limit (length (found ++ offset ∷ [])) (omega (arith, longer)),
            )
            refl
    ]

slots_from-relocation_table :
    (jump_slot limit rounds : ℕ) (front : List ℕ) (rs : List Rela) (found : List ℕ)
    → AreRelas rs
    → length front + 24 * length rs < 2 ^ 64
    → rounds ≡ length rs
    → slots_from jump_slot limit rounds
        (front ++ relocation_table rs)
        (length front)
        (limited limit found)
      ≡ some (limited limit (found ++ offsets_of jump_slot rs))
unfolding slots_from
slots_from-relocation_table jump_slot limit zero front [] found w short e = simp append-nil
slots_from-relocation_table jump_slot limit zero front (r ∷ rs) found w short e =
    absurd (omega arith)
slots_from-relocation_table jump_slot limit (suc rounds) front [] found w short e =
    absurd (omega arith)
slots_from-relocation_table jump_slot limit (suc rounds) front (r ∷ rs) found w short e =
    let table = relocation_table rs in
    let size = length-relocation_table rs in
    let here =
      entry_at-le_bytes_64 front r.offset r.info (le_bytes_64 r.addend ++ table) w.0.0 w.0.1
        (omega (arith, length-append (le_bytes_64 r.addend) table, size)) in
    let entry = le_bytes_64 r.offset ++ (le_bytes_64 r.info ++ le_bytes_64 r.addend) in
    let again : front ++ relocation_table (r ∷ rs) ≡ (front ++ entry) ++ table =
      sym (append_assoc front entry table) in
    let place : length front + rela_entry_bytes ≡ length (front ++ entry) =
      omega (arith, length-append front entry) in
    rw here (
      ap
        (λ b.
          slots_from jump_slot limit rounds b (length front + rela_entry_bytes)
            (take_relocation jump_slot limit (r.offset, r.info) (limited limit found)))
        again
      ∙ ap
          (λ p.
            slots_from jump_slot limit rounds ((front ++ entry) ++ table) p
              (take_relocation jump_slot limit (r.offset, r.info) (limited limit found)))
          place
      ∙ by_kind (bit_and r.info 0xffffffff == jump_slot) refl (front ++ entry) (λ f.
        slots_from-relocation_table jump_slot limit rounds (front ++ entry) rs f w.1
          (omega (arith, place)) (omega arith)))
  where
    by_kind :
        (b : Bool)
        → (bit_and r.info 0xffffffff == jump_slot) ≡ b
        → (front' : List ℕ)
        → ((f : List ℕ)
            → slots_from jump_slot limit rounds
                (front' ++ relocation_table rs)
                (length front')
                (limited limit f)
              ≡ some (limited limit (f ++ offsets_of jump_slot rs)))
        → slots_from jump_slot limit rounds
            (front' ++ relocation_table rs)
            (length front')
            (take_relocation jump_slot limit (r.offset, r.info) (limited limit found))
          ≡ some (limited limit (found ++ offsets_of jump_slot (r ∷ rs)))
    by_kind true k front' ih =
        rw (take_relocation-limited jump_slot limit r.offset r.info found k) (
          ih (found ++ r.offset ∷ [])
          ∙ rw k (
              ap (λ l. some (limited limit l))
                (append_assoc found (r.offset ∷ []) (offsets_of jump_slot rs))))
    by_kind false k front' ih = rw k (unfold take_relocation in rw k (ih found))

-- A table of relocations whose offsets and kinds are 64-bit words, together at most four
-- mebibytes, is read as the offsets of the jump slots, in their order, up to the limit, and as
-- truncated exactly where there are more.
pub jump_slots-relocation_table :
    (rs : List Rela) (jump_slot limit : ℕ)
    → AreRelas rs
    → 24 * length rs ≤ max_relocation_bytes
    → jump_slots (relocation_table rs) jump_slot limit
      ≡ some (limited limit (offsets_of jump_slot rs))
unfolding jump_slots
jump_slots-relocation_table rs jump_slot limit w fits =
    let size = length-relocation_table rs in
    let bytes = relocation_table rs in
    let start : limited limit [] ≡ record { offsets = []; truncated = false } = empty limit in
    rw
      (
        le→ltb max_relocation_bytes (length bytes) (omega (arith, size)),
        eq→== (length bytes % rela_entry_bytes) 0 (omega (arith, size)),
        ← start,
      )
      (slots_from-relocation_table jump_slot limit (rounds_of (length bytes) rela_entry_bytes) [] rs
        [] w (omega arith) (omega (arith, size)))
  where
    empty : (n : ℕ) → limited n [] ≡ record { offsets = []; truncated = false }
    empty zero = refl
    empty (suc n) = rw (le→ltb (suc n) 0 (omega arith)) refl
