-- ===== src/Probe/Linux/Mapped.antt =====
-- About the memory that the dispatch table is read from (sys/dispatch.rs of the Linux probe).
use fidelity.Common.{
  ℕ, suc, ◌+◌, ◌^◌, ◌<◌, ◌≡◌, refl, ap, Bool, true, false, Option, none, some, List, [], ◌∷◌, ◌≤◌,
  ◌++◌, length, any, ltb, ◌==◌, if◌then◌else◌, ◌>>=◌, arith, Bool-cases, inl, inr,
}
use fidelity.Formats.Bytes.{checked_add, le_number}
use fidelity.Formats.Elf.{max_dynamic_bytes, max_relocation_bytes, dynamic_table, jump_slots}
use fidelity.Core.Targets.{max_targets}
use fidelity.Probe.Linux.System.{Phdr, Image, System}
use fidelity.Probe.Linux.Loader.{
  pt_dynamic, main_image, maps_range, mapped_bytes, find_header, segment_bytes, target_at,
  targets_at, RawTargets, raw_targets,
}

-- A list has an element.
abbrev pub Has : List Phdr → Phdr → Type 0
Has headers header =
    (before : List Phdr) × (after : List Phdr) × (headers ≡ before ++ header ∷ after)

-- Another memory that is the same on every range inside one load segment of an image.
abbrev pub SameMapped : System → (ℕ → ℕ → List ℕ) → ℕ → List Phdr → Type 0
SameMapped system memory base headers =
    (header : Phdr) (address bytes : ℕ)
    → Has headers header
    → header.kind ≡ 1
    → base + header.vaddr + header.memsz < 2 ^ 64
    → base + header.vaddr ≤ address
    → address + bytes ≤ base + header.vaddr + header.memsz
    → memory address bytes ≡ system.memory address bytes

-- A segment that the guard accepts holds the range.
Holds : ℕ → ℕ → ℕ → Phdr → Type 0
Holds base address end header =
    (header.kind ≡ 1)
    × (base + header.vaddr + header.memsz < 2 ^ 64)
    × (base + header.vaddr ≤ address)
    × (end ≤ base + header.vaddr + header.memsz)

maps_range-Holds :
    (base address end : ℕ) (header : Phdr)
    → maps_range base address end header ≡ true
    → Holds base address end header
unfolding maps_range Holds
maps_range-Holds base address end header h = ground arith

any-Has :
    (p : Phdr → Bool) (headers : List Phdr)
    → any p headers ≡ true
    → (header : Phdr) × Has headers header × (p header ≡ true)
any-Has p [] h = absurd cc
any-Has p (header ∷ headers) h = elim (Bool-cases (p header)) [
  | inl e ↦ (header, ([], headers, refl), e)
  | inr e ↦
      let (found, (before, after, is), holds) = any-Has p headers (rw e at h) in
      (found, (header ∷ before, after, ap (λ hs. header ∷ hs) is), holds)
]

bind-same :
    {A B : Type 0} (o : Option A) (f g : A → Option B)
    → ((a : A) → o ≡ some a → f a ≡ g a)
    → (o >>= f) ≡ (o >>= g)
bind-same none f g h = refl
bind-same (some a) f g h = h a refl

chosen-same :
    {A : Type 0} (b : Bool) (x y z : A)
    → (b ≡ true → x ≡ y)
    → (if b then x else z) ≡ (if b then y else z)
chosen-same true x y z h = h refl
chosen-same false x y z h = refl

checked_add-sum : (a b c : ℕ) → checked_add a b ≡ some c → (c ≡ a + b) × (a + b < 2 ^ 64)
checked_add-sum a b c h = ground arith

module _ (system : System) (memory : ℕ → ℕ → List ℕ) (base : ℕ) (headers : List Phdr)
    (same : SameMapped system memory base headers) where
  abbrev other : System
  other = record system { memory = memory }

  inside_one :
      (address bytes : ℕ)
      → any (maps_range base address (address + bytes)) headers ≡ true
      → memory address bytes ≡ system.memory address bytes
  unfolding Holds
  inside_one address bytes h =
      let (header, has, accepted) = any-Has (maps_range base address (address + bytes)) headers h in
      let (loads, fits, low, high) =
        maps_range-Holds base address (address + bytes) header accepted in
      same header address bytes has loads fits low high

  mapped_bytes-same :
      (address bytes limit : ℕ)
      → mapped_bytes other address bytes base headers limit
        ≡ mapped_bytes system address bytes base headers limit
  unfolding mapped_bytes
  mapped_bytes-same address bytes limit = elim (Bool-cases (ltb limit bytes)) [
    | inl e ↦ rw e refl
    | inr e ↦ rw e (
        bind-same (checked_add address bytes) _ _ λ end added.
          let (sum, short) = checked_add-sum address bytes end added in
          chosen-same (any (maps_range base address end) headers) _ _ none
            λ inside. ap some (inside_one address bytes (rw sum at inside)))
  ]

  segment_bytes-same :
      (kind limit : ℕ)
      → segment_bytes other base headers kind limit ≡ segment_bytes system base headers kind limit
  unfolding segment_bytes
  segment_bytes-same kind limit = bind-same (find_header kind headers) _ _ λ header _.
      bind-same (checked_add base header.vaddr) _ _
        λ address _. mapped_bytes-same address header.memsz limit

  target_at-same :
      (offset : ℕ) → target_at other base headers offset ≡ target_at system base headers offset
  unfolding target_at
  target_at-same offset = bind-same (checked_add base offset) _ _ λ slot _.
      ap
        (λ o. o >>= λ word.
          if length word == 8 then some (record { slot = slot; value = le_number word }) else none)
        (mapped_bytes-same slot 8 8)

  targets_at-same :
      (offsets : List ℕ)
      → targets_at other base headers offsets ≡ targets_at system base headers offsets
  unfolding targets_at
  targets_at-same [] = refl
  targets_at-same (offset ∷ offsets) = rw (target_at-same offset, targets_at-same offsets) refl

-- The bytes of one image, from its headers on.
abbrev targets_of_image : System → ℕ → List Phdr → Option RawTargets
targets_of_image system base headers = do
  dynamic ← segment_bytes system base headers pt_dynamic max_dynamic_bytes
  table ← dynamic_table dynamic
  relocations ←
      mapped_bytes system table.jump_relocations table.jump_relocation_bytes base headers
        max_relocation_bytes
  slots ← jump_slots relocations system.jump_slot (suc max_targets)
  targets ← targets_at system base headers slots.offsets
  some (record { targets = targets; bound = table.bound })

targets_of_image-same :
    (system : System) (memory : ℕ → ℕ → List ℕ) (base : ℕ) (headers : List Phdr)
    → SameMapped system memory base headers
    → targets_of_image (record system { memory = memory }) base headers
      ≡ targets_of_image system base headers
targets_of_image-same system memory base headers same =
    rw (segment_bytes-same system memory base headers same pt_dynamic max_dynamic_bytes) (
      bind-same (segment_bytes system base headers pt_dynamic max_dynamic_bytes) _ _ λ dynamic _.
        bind-same (dynamic_table dynamic) _ _ λ table _.
          rw
            (mapped_bytes-same system memory base headers same table.jump_relocations
              table.jump_relocation_bytes max_relocation_bytes)
            (bind-same
              (mapped_bytes system table.jump_relocations table.jump_relocation_bytes base headers
                max_relocation_bytes)
              _ _
              λ relocations _.
                bind-same (jump_slots relocations system.jump_slot (suc max_targets)) _ _ λ slots _.
                  rw (targets_at-same system memory base headers same slots.offsets) refl))

-- The dispatch table of the main image depends on no memory but ranges that start and end inside
-- one of its load segments (kind 1), the segment ending below 2^64: another memory that is the
-- same on every such range gives the same table, or the same lack of one.
pub raw_targets-same :
    (system : System) (memory : ℕ → ℕ → List ℕ)
    → ((image : Image) (headers : List Phdr)
        → main_image system.images ≡ some image
        → image.headers ≡ some headers
        → SameMapped system memory image.base headers)
    → raw_targets (record system { memory = memory }) ≡ raw_targets system
unfolding raw_targets
raw_targets-same system memory same = bind-same (main_image system.images) _ _ λ image first.
    bind-same image.headers _ _ λ headers has.
      targets_of_image-same system memory image.base headers (same image headers first has)
