-- ===== src/Formats/Macho/Dispatch/Bounds.antt =====
-- About the pointer sections of a layout (macho/dispatch.rs).
use fidelity.Common.{
  ℕ, zero, suc, ◌≤◌, ◌≡◌, ◌≢◌, refl, Bool, true, false, not, ◌||◌, none, some, List, [], ◌∷◌, ◌++◌,
  length, length-append, All, All-append, bit_and, ltb, ◌==◌, if◌then◌else◌, ◌>>=◌, arith,
  some-injective, bind_some, ==→ne,
}
use fidelity.Formats.Bytes.{checked_add, checked_mul, read_u32}
use fidelity.Formats.Macho.Commands.{
  Command, command_at, max_command_bytes, segment_command_bytes, lc_segment_64,
}
use fidelity.Formats.Macho.Dispatch.{
  max_pointer_sections, section_bytes, lc_dyld_chained_fixups, section_type,
  s_non_lazy_symbol_pointers, PointerSection, DispatchLayout, pointer_section_at, push_section,
  take_section, sections_from, take_segment, take_command, commands_from, dispatch_layout,
}

-- At most 128 sections, each read somewhere in the commands.
abbrev pub Bounded : List ℕ → List PointerSection → Type 0
Bounded commands sections =
    (length sections ≤ max_pointer_sections)
    × All (λ s. (at : ℕ) × (pointer_section_at commands at ≡ some s)) sections

ne_le : (a b : ℕ) → a ≤ b → a ≢ b → suc a ≤ b
ne_le a b h n = ground arith

module _ (commands : List ℕ) where
  push_section-Bounded :
      (section : ℕ) (sections sections' : List PointerSection)
      → push_section commands section sections ≡ some sections'
      → Bounded commands sections
      → Bounded commands sections'
  unfolding push_section
  push_section-Bounded section sections sections' h (few, all_read) =
      by_test (length sections == max_pointer_sections) refl h
    where
      by_test :
          (b : Bool)
          → (length sections == max_pointer_sections) ≡ b
          → (if b
              then none
              else pointer_section_at commands section >>= λ s. some (sections ++ s ∷ []))
            ≡ some sections'
          → Bounded commands sections'
      by_test true e k = absurd cc
      by_test false e k =
          let (s, read, made) = bind_some (pointer_section_at commands section) _ sections' k in
          let same : sections ++ s ∷ [] ≡ sections' = some-injective made in
          let room = ==→ne (length sections) max_pointer_sections e in
          rw (← same) (
            omega (
              arith,
              length-append sections (s ∷ []),
              ne_le (length sections) max_pointer_sections few room,
            ),
            All-append (λ s. (at : ℕ) × (pointer_section_at commands at ≡ some s)) sections (s ∷ [])
                all_read ((section, read), tt),
          )

  take_section-Bounded :
      (at index : ℕ) (sections sections' : List PointerSection)
      → take_section commands at index sections ≡ some sections'
      → Bounded commands sections
      → Bounded commands sections'
  unfolding take_section
  take_section-Bounded at index sections sections' h good =
      let (first, _, h1) = bind_some (checked_add at segment_command_bytes) _ sections' h in
      let (offset, _, h2) = bind_some (checked_mul index section_bytes) _ sections' h1 in
      let (section, _, h3) = bind_some (checked_add first offset) _ sections' h2 in
      let (flags_at, _, h4) = bind_some (checked_add section 64) _ sections' h3 in
      let (flags, _, h5) = bind_some (read_u32 commands flags_at) _ sections' h4 in
      by_kind (bit_and flags section_type == s_non_lazy_symbol_pointers) section h5
    where
      by_kind :
          (b : Bool) (section : ℕ)
          → (if not b then some sections else push_section commands section sections)
            ≡ some sections'
          → Bounded commands sections'
      by_kind true section k = push_section-Bounded section sections sections' k good
      by_kind false section k = let same = some-injective k in rw (← same) good

  sections_from-Bounded :
      (left at index : ℕ) (sections sections' : List PointerSection)
      → sections_from left commands at index sections ≡ some sections'
      → Bounded commands sections
      → Bounded commands sections'
  unfolding sections_from
  sections_from-Bounded zero at index sections sections' h good =
      let same = some-injective h in rw (← same) good
  sections_from-Bounded (suc left) at index sections sections' h good =
      let (next, taken, rest) = bind_some (take_section commands at index sections) _ sections' h in
      sections_from-Bounded left at (suc index) next sections' rest
        (take_section-Bounded at index sections next taken good)

  take_segment-Bounded :
      (at : ℕ) (c : Command) (sections sections' : List PointerSection)
      → take_segment commands at c sections ≡ some sections'
      → Bounded commands sections
      → Bounded commands sections'
  unfolding take_segment
  take_segment-Bounded at c sections sections' h good =
      let (count_at, _, h1) = bind_some (checked_add at 64) _ sections' h in
      let (count, _, h2) =
        bind_some (if ltb c.size segment_command_bytes then none else read_u32 commands count_at) _
          sections' h1 in
      let (whole, _, h3) = bind_some (checked_mul count section_bytes) _ sections' h2 in
      let (required, _, h4) = bind_some (checked_add segment_command_bytes whole) _ sections' h3 in
      by_size (ltb c.size required) count h4
    where
      by_size :
          (b : Bool) (count : ℕ)
          → (if b then none else sections_from count commands at 0 sections) ≡ some sections'
          → Bounded commands sections'
      by_size true count k = absurd cc
      by_size false count k = sections_from-Bounded count at 0 sections sections' k good

  take_command-Bounded :
      (at : ℕ) (c : Command) (layout layout' : DispatchLayout)
      → take_command commands at c layout ≡ some layout'
      → Bounded commands layout.sections
      → Bounded commands layout'.sections
  unfolding take_command
  take_command-Bounded at c layout layout' h good = by_kind (c.kind == lc_segment_64) h
    where
      by_kind :
          (b : Bool)
          → (if b
              then (take_segment commands at c layout.sections >>= λ sections. some record {
                sections = sections;
                bound = layout.bound || c.kind == lc_dyld_chained_fixups;
              })
              else some record {
                sections = layout.sections;
                bound = layout.bound || c.kind == lc_dyld_chained_fixups;
              })
            ≡ some layout'
          → Bounded commands layout'.sections
      by_kind true k =
          let (sections, taken, made) =
            bind_some (take_segment commands at c layout.sections) _ layout' k in
          let same : record {
            sections = sections;
            bound = layout.bound || c.kind == lc_dyld_chained_fixups;
          }
              ≡ layout' =
            some-injective made in
          rw (← same) (take_segment-Bounded at c layout.sections sections taken good)
      by_kind false k = let same = some-injective k in rw (← same) good

  commands_from-Bounded :
      (left at : ℕ) (layout : DispatchLayout) (ended : ℕ × DispatchLayout)
      → commands_from left commands at layout ≡ some ended
      → Bounded commands layout.sections
      → Bounded commands ended.1.sections
  unfolding commands_from
  commands_from-Bounded zero at layout ended h good =
      let same = some-injective h in rw (← same) good
  commands_from-Bounded (suc left) at layout ended h good =
      let (c, _, h1) = bind_some (command_at commands at) _ ended h in
      let (next, taken, h2) = bind_some (take_command commands at c layout) _ ended h1 in
      commands_from-Bounded left c.end next ended h2
        (take_command-Bounded at c layout next taken good)

-- The answered pointer sections are at most 128, each of them read somewhere in the commands.
pub dispatch_layout-Bounded :
    (commands : List ℕ) (command_count : ℕ) (layout : DispatchLayout)
    → dispatch_layout commands command_count ≡ some layout
    → Bounded commands layout.sections
unfolding dispatch_layout
dispatch_layout-Bounded commands command_count layout h =
    by_size (ltb max_command_bytes (length commands)) h
  where
    start : DispatchLayout
    start = record { sections = []; bound = false }

    by_end :
        (b : Bool) (found : DispatchLayout)
        → (if not b then none else some found) ≡ some layout
        → Bounded commands found.sections
        → Bounded commands layout.sections
    by_end true found k good = let same = some-injective k in rw (← same) good
    by_end false found k good = absurd cc

    by_size :
        (b : Bool)
        → (if b
            then none
            else commands_from command_count commands 0 start >>= λ ended.
                if not (ended.0 == length commands) then none else some ended.1)
          ≡ some layout
        → Bounded commands layout.sections
    by_size true k = absurd cc
    by_size false k =
        let (ended, run, last) =
          bind_some (commands_from command_count commands 0 start) _ layout k in
        by_end (ended.0 == length commands) ended.1 last
          (commands_from-Bounded commands command_count 0 start ended run (omega arith, tt))
