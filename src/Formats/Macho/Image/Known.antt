-- ===== src/Formats/Macho/Image/Known.antt =====
-- What the loop over the load commands read stands in them (`signature_layout` of macho/image.rs).
use fidelity.Common.{
  ℕ, zero, suc, refl, sym, ap, ◌∙◌, ◌+◌, ◌≡◌, Bool, true, false, not, ◌&&◌, ◌||◌, none, some, List,
  is_some, leb, ◌==◌, if◌then◌else◌, ◌>>=◌, arith, some-injective, bind_some,
}
use fidelity.Formats.Bytes.{checked_add, slice}
use fidelity.Formats.Macho.Commands.{Command, command_at, lc_segment_64, segment_command_bytes}
use fidelity.Formats.Macho.Image.{
  Linkedit, SignatureData, Seen, is_linkedit, linkedit_at, signature_at, take_segment,
  take_signature, take_command, commands_from, lc_code_signature, signature_command_bytes,
}
use fidelity.Formats.Macho.Image.Standing.{
  Starts, next, StartsAs, IsSegment, IsSignature, zero_byte, sum_of, linkedit_at-fields,
  signature_at-fields,
}

module _ (commands : List ℕ) where
  -- What the loop read stands in the commands.
  abbrev pub Known : Seen → Type 0
  Known seen =
      ((l : Linkedit) → seen.linkedit ≡ some l → IsSegment commands l)
      × ((d : SignatureData) → seen.signature ≡ some d → IsSignature commands d)

  take_segment-Known :
      (at : ℕ) (seen seen' : Seen)
      → StartsAs commands 0x19 72 at
      → take_segment commands at seen ≡ some seen'
      → Known seen
      → Known seen'
  unfolding take_segment
  take_segment-Known at seen seen' starts h known =
      let (name_at, a, h1) = bind_some (checked_add at 8) _ seen' h in
      let (name_end, b, h2) = bind_some (checked_add at 24) _ seen' h1 in
      let (name, sliced, h3) = bind_some (slice commands name_at name_end) _ seen' h2 in
      let name_is : slice commands (at + 8) (at + 24) ≡ some name =
        ap (λ n. slice commands n (at + 24)) (sym (sum_of at 8 name_at a))
        ∙ ap (slice commands name_at) (sym (sum_of at 24 name_end b))
        ∙ sliced in
      by_tests name name_is (is_linkedit name) refl (is_some seen.linkedit) h3
    where
      by_tests :
          (name : List ℕ)
          → slice commands (at + 8) (at + 24) ≡ some name
          → (named : Bool) → is_linkedit name ≡ named
          → (old : Bool)
          → (if not named
              then some seen
              else if old
              then none
              else linkedit_at commands at >>= λ l. some (record seen { linkedit = some l }))
            ≡ some seen'
          → Known seen'
      by_tests name sliced false is old k = let same = some-injective k in rw (← same) known
      by_tests name sliced true is true k = absurd cc
      by_tests name sliced true is false k =
          let (l, read, made) = bind_some (linkedit_at commands at) _ seen' k in
          let same : record seen { linkedit = some l } ≡ seen' = some-injective made in
          let (rest, named) = zero_byte name is in
          let (a, b, c) = linkedit_at-fields commands at l read in
          let stands : IsSegment commands l =
            (at, starts, (rest, sliced ∙ ap some named), a, b, c) in
          rw (← same) ((λ l' e. let eq : l ≡ l' = some-injective e in rw (← eq) stands), known.1)

  take_signature-Known :
      (at : ℕ) (seen seen' : Seen)
      → StartsAs commands 0x1d 16 at
      → take_signature commands at seen ≡ some seen'
      → Known seen
      → Known seen'
  unfolding take_signature
  take_signature-Known at seen seen' starts h known = by_test (is_some seen.signature) h
    where
      by_test :
          (old : Bool)
          → (if old
              then none
              else signature_at commands at >>= λ d. some (record seen { signature = some d }))
            ≡ some seen'
          → Known seen'
      by_test true k = absurd cc
      by_test false k =
          let (d, read, made) = bind_some (signature_at commands at) _ seen' k in
          let same : record seen { signature = some d } ≡ seen' = some-injective made in
          let (a, b) = signature_at-fields commands at d read in
          let stands : IsSignature commands d = (at, starts, a, b) in
          rw (← same) (known.0, (λ d' e. let eq : d ≡ d' = some-injective e in rw (← eq) stands))

  take_command-Known :
      (at : ℕ) (c : Command) (seen seen' : Seen)
      → Starts commands at
      → command_at commands at ≡ some c
      → take_command commands at c seen ≡ some seen'
      → Known seen
      → Known seen'
  unfolding take_command
  take_command-Known at c seen seen' starts is h known =
      by_tests (c.kind == lc_segment_64 && leb segment_command_bytes c.size) refl
        (c.kind == lc_code_signature && leb signature_command_bytes c.size) refl
        (c.kind == lc_segment_64 || c.kind == lc_code_signature) h
    where
      by_tests :
          (segment : Bool)
          → (c.kind == lc_segment_64 && leb segment_command_bytes c.size) ≡ segment
          → (signature : Bool)
          → (c.kind == lc_code_signature && leb signature_command_bytes c.size) ≡ signature
          → (short : Bool)
          → (if segment
              then take_segment commands at seen
              else if signature
              then take_signature commands at seen
              else if short
              then none
              else some seen)
            ≡ some seen'
          → Known seen'
      by_tests true e signature f short k =
          take_segment-Known at seen seen' (starts, (c, is, ground arith, ground arith)) k known
      by_tests false e true f short k =
          take_signature-Known at seen seen' (starts, (c, is, ground arith, ground arith)) k known
      by_tests false e false f true k = absurd cc
      by_tests false e false f false k = let same = some-injective k in rw (← same) known

  pub commands_from-Known :
      (left at : ℕ) (seen : Seen) (ended : ℕ × Seen)
      → Starts commands at
      → commands_from left commands at seen ≡ some ended
      → Known seen
      → Known ended.1
  unfolding commands_from
  commands_from-Known zero at seen ended starts h known =
      let same = some-injective h in rw (← same) known
  commands_from-Known (suc left) at seen ended starts h known =
      let (c, is, h1) = bind_some (command_at commands at) _ ended h in
      let (seen', taken, h2) = bind_some (take_command commands at c seen) _ ended h1 in
      commands_from-Known left c.end seen' ended (next at c starts is) h2
        (take_command-Known at c seen seen' starts is taken known)
