-- ===== src/Formats/Macho/Image/Standing.antt =====
-- The commands that the signature is read from (`signature_layout` of macho/image.rs).
use fidelity.Common.{
  ℕ, sym, ap, ◌∙◌, ◌+◌, ◌≤◌, ◌≡◌, true, Option, some, List, [], ◌∷◌, ◌++◌, get_elem?, ==→eq, arith,
  some-injective, bind_some,
}
use fidelity.Common.Chars.Laws.{starts_with_sound}
use fidelity.Formats.Bytes.{checked_add, slice, read_u32, read_u64}
use fidelity.Formats.Macho.Commands.{Command, command_at}
use fidelity.Formats.Macho.Image.{
  Linkedit, SignatureData, is_zero, is_linkedit, linkedit_name, linkedit_at, signature_at,
}

-- The places at which the commands start: each but the first at the end of another.
pub data Starts (commands : List ℕ) : ℕ → Type 0 where
  first : Starts commands 0
  next :
      (at : ℕ) (c : Command)
      → Starts commands at
      → command_at commands at ≡ some c
      → Starts commands c.end

-- A command of a kind, of at least some bytes, starts there.
abbrev pub StartsAs : List ℕ → ℕ → ℕ → ℕ → Type 0
StartsAs commands kind size at =
    Starts commands at
    × ((c : Command) × (command_at commands at ≡ some c) × (c.kind ≡ kind) × (size ≤ c.size))

-- A segment command with the name "__LINKEDIT" and a zero byte, and its three fields.
abbrev pub IsSegment : List ℕ → Linkedit → Type 0
IsSegment commands l =
    (at : ℕ) × StartsAs commands 0x19 72 at
    × ((rest : List ℕ) × (slice commands (at + 8) (at + 24)
          ≡ some (95 ∷ 95 ∷ 76 ∷ 73 ∷ 78 ∷ 75 ∷ 69 ∷ 68 ∷ 73 ∷ 84 ∷ 0 ∷ rest)))
    × (read_u64 commands (at + 24) ≡ some l.vmaddr)
    × (read_u64 commands (at + 40) ≡ some l.fileoff)
    × (read_u64 commands (at + 48) ≡ some l.filesize)

-- A signature command, and its two fields.
abbrev pub IsSignature : List ℕ → SignatureData → Type 0
IsSignature commands d =
    (at : ℕ) × StartsAs commands 0x1d 16 at
    × (read_u32 commands (at + 8) ≡ some d.dataoff)
    × (read_u32 commands (at + 12) ≡ some d.datasize)

zero_first :
    (tail : List ℕ) → is_zero (get_elem? tail 0) ≡ true → (rest : List ℕ) × (tail ≡ 0 ∷ rest)
unfolding is_zero
zero_first [] h = absurd cc
zero_first (byte ∷ rest) h = (rest, ap (λ b. b ∷ rest) (==→eq byte 0 h))

pub zero_byte :
    (name : List ℕ)
    → is_linkedit name ≡ true
    → (rest : List ℕ) × (name ≡ 95 ∷ 95 ∷ 76 ∷ 73 ∷ 78 ∷ 75 ∷ 69 ∷ 68 ∷ 73 ∷ 84 ∷ 0 ∷ rest)
unfolding is_linkedit
zero_byte name h =
    let (tail, is) = starts_with_sound name linkedit_name (ground arith) in
    let zero : is_zero (get_elem? name 10) ≡ true = ground arith in
    let zero' : is_zero (get_elem? tail 0) ≡ true =
      ap (λ (n : List ℕ). is_zero (get_elem? n 10)) (sym is) ∙ zero in
    let (rest, ends) = zero_first tail zero' in (rest, is ∙ ap (λ t. linkedit_name ++ t) ends)

pub sum_of : (a b c : ℕ) → checked_add a b ≡ some c → c ≡ a + b
sum_of a b c h = ground arith

read_as :
    (reader : ℕ → Option ℕ) (at offset place v w : ℕ)
    → checked_add at offset ≡ some place
    → reader place ≡ some v
    → v ≡ w
    → reader (at + offset) ≡ some w
read_as reader at offset place v w a r e =
    ap reader (sym (sum_of at offset place a)) ∙ r ∙ ap some e

module _ (commands : List ℕ) where
  pub linkedit_at-fields :
      (at : ℕ) (l : Linkedit)
      → linkedit_at commands at ≡ some l
      → (read_u64 commands (at + 24) ≡ some l.vmaddr)
        × (read_u64 commands (at + 40) ≡ some l.fileoff)
        × (read_u64 commands (at + 48) ≡ some l.filesize)
  unfolding linkedit_at
  linkedit_at-fields at l h =
      let (address_at, a, h1) = bind_some (checked_add at 24) _ l h in
      let (vmaddr, va, h2) = bind_some (read_u64 commands address_at) _ l h1 in
      let (offset_at, b, h3) = bind_some (checked_add at 40) _ l h2 in
      let (fileoff, vb, h4) = bind_some (read_u64 commands offset_at) _ l h3 in
      let (size_at, c, h5) = bind_some (checked_add at 48) _ l h4 in
      let (filesize, vc, h6) = bind_some (read_u64 commands size_at) _ l h5 in
      let same : record { vmaddr = vmaddr; fileoff = fileoff; filesize = filesize } ≡ l =
        some-injective h6 in
      (
        read_as (read_u64 commands) at 24 address_at vmaddr l.vmaddr a va
            (ap (λ (k : Linkedit). k.vmaddr) same),
        read_as (read_u64 commands) at 40 offset_at fileoff l.fileoff b vb
            (ap (λ (k : Linkedit). k.fileoff) same),
        read_as (read_u64 commands) at 48 size_at filesize l.filesize c vc
            (ap (λ (k : Linkedit). k.filesize) same),
      )

  pub signature_at-fields :
      (at : ℕ) (d : SignatureData)
      → signature_at commands at ≡ some d
      → (read_u32 commands (at + 8) ≡ some d.dataoff)
        × (read_u32 commands (at + 12) ≡ some d.datasize)
  unfolding signature_at
  signature_at-fields at d h =
      let (offset_at, a, h1) = bind_some (checked_add at 8) _ d h in
      let (dataoff, va, h2) = bind_some (read_u32 commands offset_at) _ d h1 in
      let (size_at, b, h3) = bind_some (checked_add at 12) _ d h2 in
      let (datasize, vb, h4) = bind_some (read_u32 commands size_at) _ d h3 in
      let same : record { dataoff = dataoff; datasize = datasize } ≡ d = some-injective h4 in
      (
        read_as (read_u32 commands) at 8 offset_at dataoff d.dataoff a va
            (ap (λ (k : SignatureData). k.dataoff) same),
        read_as (read_u32 commands) at 12 size_at datasize d.datasize b vb
            (ap (λ (k : SignatureData). k.datasize) same),
      )
