-- ===== src/Formats/Elf/Dynamic.antt =====
-- About a dynamic array as a linker writes it (`dynamic_table` of elf/mod.rs).
use mathlib.Core.List.{append_assoc}
use fidelity.Common.{
  ℕ, zero, suc, ◌+◌, ◌*◌, ◌^◌, ◌<◌, ◌≤◌, ◌≡◌, refl, sym, ap, ◌∙◌, bit_and, Bool, false, not, ◌&&◌,
  ◌||◌, Option, none, some, ◌≢◌, ◌⊎◌, List, [], ◌∷◌, ◌++◌, length, All, any, arith, length-append,
  if◌then◌else◌, ◌==◌, le→ltb,
}
use fidelity.Cipher.Derivation.{le_bytes_64}
use fidelity.Formats.Bytes.{read_u64, checked_add-some}
use fidelity.Formats.Words.{read_u64-le_bytes_64}
use fidelity.Formats.Elf.{
  max_dynamic_bytes, dynamic_entry_bytes, rounds_of, dt_jmprel, dt_pltrelsz, dt_pltrel,
  DynamicTable, Fields, no_fields, take_entry, finish, entry_at, dynamic_from, dynamic_table,
}

-- The bytes of entries of two words.
abbrev pub encode : List (ℕ × ℕ) → List ℕ
encode [] = []
encode ((tag, value) ∷ es) = le_bytes_64 tag ++ (le_bytes_64 value ++ encode es)

abbrev pub AreWords : List (ℕ × ℕ) → Type 0
AreWords = All (λ e. (e.0 < 2 ^ 64) × (e.1 < 2 ^ 64))

pub length-encode : (es : List (ℕ × ℕ)) → length (encode es) ≡ 16 * length es
length-encode [] = refl
length-encode ((tag, value) ∷ es) = omega (arith, length-encode es)

pub entry_at-le_bytes_64 :
    (front : List ℕ) (tag value : ℕ) (rest : List ℕ)
    → tag < 2 ^ 64
    → value < 2 ^ 64
    → length front + 16 + length rest < 2 ^ 64
    → entry_at (front ++ (le_bytes_64 tag ++ (le_bytes_64 value ++ rest))) (length front)
      ≡ some (tag, value)
unfolding entry_at
entry_at-le_bytes_64 front tag value rest ht hv short =
    let whole = length-append front (le_bytes_64 tag ++ (le_bytes_64 value ++ rest)) in
    let again : front ++ (le_bytes_64 tag ++ (le_bytes_64 value ++ rest))
        ≡ (front ++ le_bytes_64 tag) ++ (le_bytes_64 value ++ rest) =
      sym (append_assoc front (le_bytes_64 tag) (le_bytes_64 value ++ rest)) in
    let place : length front + 8 ≡ length (front ++ le_bytes_64 tag) =
      omega (arith, length-append front (le_bytes_64 tag)) in
    let second : read_u64 (front ++ (le_bytes_64 tag ++ (le_bytes_64 value ++ rest)))
          (length front + 8)
        ≡ some value =
      rw (again, place)
        (read_u64-le_bytes_64 (front ++ le_bytes_64 tag) value rest hv (
          omega (
            arith,
            length-append (front ++ le_bytes_64 tag) (le_bytes_64 value ++ rest),
            length-append front (le_bytes_64 tag),
          ))) in
    rw
      (
        read_u64-le_bytes_64 front tag (le_bytes_64 value ++ rest) ht (omega (arith, whole)),
        checked_add-some (length front) 8 (omega arith),
        second,
      )
      refl

-- The value of the last entry with a tag, or a default.
abbrev pub last_of : ℕ → ℕ → List (ℕ × ℕ) → ℕ
last_of tag default [] = default
last_of tag default (e ∷ es) = last_of tag (if e.0 == tag then e.1 else default) es

-- An entry that asks the loader to bind first.
abbrev pub binds : ℕ × ℕ → Bool
binds e =
    e.0 == 24
    || (e.0 == 30 && not (bit_and e.1 8 == 0))
    || (e.0 == 0x6ffffffb && not (bit_and e.1 1 == 0))

abbrev after : List (ℕ × ℕ) → Fields → Fields
after [] s = s
after (e ∷ es) s = after es (take_entry e.0 e.1 s)

abbrev read_as : List (ℕ × ℕ) → Fields → Fields
read_as es s = record {
  jump_relocations = last_of dt_jmprel s.jump_relocations es;
  jump_relocation_bytes = last_of dt_pltrelsz s.jump_relocation_bytes es;
  relocation_form = last_of dt_pltrel s.relocation_form es;
  bound = s.bound || any binds es;
}

read_as-cons :
    (e : ℕ × ℕ) (es : List (ℕ × ℕ)) (s : Fields)
    → read_as es (take_entry e.0 e.1 s) ≡ read_as (e ∷ es) s
unfolding take_entry
read_as-cons e es s = ground arith

after-read_as : (es : List (ℕ × ℕ)) (s : Fields) → after es s ≡ read_as es s
after-read_as [] s = ground arith
after-read_as (e ∷ es) s = after-read_as es (take_entry e.0 e.1 s) ∙ read_as-cons e es s

-- The array, with its end.
abbrev pub dynamic_array : List (ℕ × ℕ) → ℕ → List ℕ → List ℕ
dynamic_array es last rest = encode es ++ (le_bytes_64 0 ++ (le_bytes_64 last ++ rest))

dynamic_from-dynamic_array :
    (rounds : ℕ) (front : List ℕ) (es : List (ℕ × ℕ)) (last : ℕ) (rest : List ℕ) (s : Fields)
    → AreWords es
    → All (λ e. (e.0 == 0) ≡ false) es
    → last < 2 ^ 64
    → length front + 16 * length es + 16 + length rest < 2 ^ 64
    → length es < rounds
    → dynamic_from rounds (front ++ dynamic_array es last rest) (length front) s
      ≡ finish (after es s)
unfolding dynamic_from
dynamic_from-dynamic_array zero front es last rest s w n hl short more = absurd (omega arith)
dynamic_from-dynamic_array (suc rounds) front [] last rest s w n hl short more =
    rw (entry_at-le_bytes_64 front 0 last rest (omega arith) hl (omega arith)) refl
dynamic_from-dynamic_array (suc rounds) front ((tag, value) ∷ es) last rest s w n hl short more =
    let tail = dynamic_array es last rest in
    let size : length tail ≡ 16 * length es + 16 + length rest = omega (
      arith,
      length-append (encode es) (le_bytes_64 0 ++ (le_bytes_64 last ++ rest)),
      length-encode es,
    ) in
    let here = entry_at-le_bytes_64 front tag value tail w.0.0 w.0.1 (omega (arith, size)) in
    let front' = front ++ (le_bytes_64 tag ++ le_bytes_64 value) in
    let again : front ++ (le_bytes_64 tag ++ (le_bytes_64 value ++ tail)) ≡ front' ++ tail =
      sym (append_assoc front _ tail) in
    let place : length front + dynamic_entry_bytes ≡ length front' =
      omega (arith, length-append front (le_bytes_64 tag ++ le_bytes_64 value)) in
    let rest_of =
      dynamic_from-dynamic_array rounds front' es last rest (take_entry tag value s) w.1 n.1 hl
        (omega (arith, place)) (omega arith) in
    rw (here, n.0)
      (ap (λ b. dynamic_from rounds b (length front + dynamic_entry_bytes) (take_entry tag value s))
          again
        ∙ ap (λ p. dynamic_from rounds (front' ++ tail) p (take_entry tag value s)) place
        ∙ rest_of)

-- What the entries say: the jump table of tag 23 with its size of tag 2, where neither is absent or 0
-- and the form of tag 20 is 7, that with addends.
abbrev pub Said : List (ℕ × ℕ) → Option DynamicTable → Type 0
Said es (some table) =
    (last_of 23 0 es ≢ 0)
    × (last_of 2 0 es ≢ 0)
    × (last_of 20 0 es ≡ 7)
    × (table.jump_relocations ≡ last_of 23 0 es)
    × (table.jump_relocation_bytes ≡ last_of 2 0 es)
    × (table.bound ≡ any binds es)
Said es none = (last_of 23 0 es ≡ 0) ⊎ (last_of 2 0 es ≡ 0) ⊎ (last_of 20 0 es ≢ 7)

finish-Said : (es : List (ℕ × ℕ)) → Said es (finish (read_as es no_fields))
unfolding finish
finish-Said es = ground arith

-- An array of entries of two 64-bit words without the null tag, then a null entry and any bytes,
-- together at most a mebibyte, is read as a table exactly where the last value of tag 23 and that
-- of tag 2 are not 0 and that of tag 20 is 7, a tag that is absent counting as 0. The table has
-- the values of tags 23 and 2, and is bound exactly where some entry has tag 24, or tag 30 with
-- bit 3, or tag 0x6ffffffb with bit 0.
pub dynamic_table-dynamic_array :
    (es : List (ℕ × ℕ)) (last : ℕ) (rest : List ℕ)
    → AreWords es
    → All (λ e. (e.0 == 0) ≡ false) es
    → last < 2 ^ 64
    → 16 * length es + 16 + length rest ≤ max_dynamic_bytes
    → Said es (dynamic_table (dynamic_array es last rest))
unfolding dynamic_table
dynamic_table-dynamic_array es last rest w n hl fits =
    let bytes = dynamic_array es last rest in
    let size : length bytes ≡ 16 * length es + 16 + length rest = omega (
      arith,
      length-append (encode es) (le_bytes_64 0 ++ (le_bytes_64 last ++ rest)),
      length-encode es,
    ) in
    let enough : length es < rounds_of (length bytes) dynamic_entry_bytes = omega (arith, size) in
    rw (le→ltb max_dynamic_bytes (length bytes) (omega (arith, size))) (
      rw
        (
          dynamic_from-dynamic_array (rounds_of (length bytes) dynamic_entry_bytes) [] es last rest
              no_fields w n hl (omega arith) enough,
          after-read_as es no_fields,
        )
        (finish-Said es))
