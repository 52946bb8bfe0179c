-- ===== src/Formats/Macho/Signature/Within.antt =====
-- About where the entitlements stand (macho/signature.rs).
use fidelity.Common.{
  ℕ, zero, suc, ◌≡◌, Bool, true, false, not, Option, none, some, List, length, ltb, ◌==◌,
  if◌then◌else◌,
}
use fidelity.Formats.Bytes.{checked_add, slice}
use fidelity.Formats.Parts.{
  IsPart, Within, nothing, within_some, Within-intro, bind-Within, slice-IsPart, IsPart-trans,
}
use fidelity.Formats.Macho.Signature.{
  superblob_magic, entitlements_magic, entitlements_slot, header, max_signature, read_u32, blob_at,
  entry_of, slots_from, entitlements,
}

if-Within :
    {A : Type 0} (P : A → Type 0) (b : Bool) (x y : Option A)
    → Within P x
    → Within P y
    → Within P (if b then x else y)
if-Within P true x y hx hy = hx
if-Within P false x y hx hy = hy

blob_at-IsPart :
    (signature : List ℕ) (at : ℕ) → Within (λ p. IsPart p signature) (blob_at signature at)
unfolding blob_at
blob_at-IsPart signature at = bind-Within P (read_u32 signature at) _ λ magic _.
    bind-Within P (checked_add at 4) _ λ length_at _.
      bind-Within P
        (if not (magic == entitlements_magic) then none else read_u32 signature length_at) _
        λ size _.
          bind-Within P (checked_add at header) _ λ start _.
            bind-Within P (checked_add at size) _ λ end _. slice-IsPart signature start end
  where
    P : List ℕ → Type 0
    P p = IsPart p signature

slots_from-IsPart :
    (left : ℕ) (signature : List ℕ) (slot : ℕ)
    → Within (λ p. IsPart p signature) (slots_from left signature slot)
unfolding slots_from
slots_from-IsPart zero signature slot = nothing
slots_from-IsPart (suc left) signature slot = by_entry (slots_from-IsPart left signature (suc slot))
  where
    P : List ℕ → Type 0
    P p = IsPart p signature

    by_entry :
        Within P (slots_from left signature (suc slot))
        → Within P (slots_from (suc left) signature slot)
    by_entry later = bind-Within P (entry_of slot) _ λ entry _.
        bind-Within P (read_u32 signature entry) _ λ kind _.
          if-Within P (not (kind == entitlements_slot)) _ _ later (
            bind-Within P (checked_add entry 4) _ λ offset_at _.
              bind-Within P (read_u32 signature offset_at) _ λ at _. blob_at-IsPart signature at)

entitlements-Within : (bytes : List ℕ) → Within (λ p. IsPart p bytes) (entitlements bytes)
unfolding entitlements
entitlements-Within bytes = if-Within P (ltb max_signature (length bytes)) none _ nothing (
    bind-Within P (read_u32 bytes 0) _ λ magic _.
      bind-Within P (if not (magic == superblob_magic) then none else read_u32 bytes 4) _
        λ declared _. bind-Within P (slice bytes 0 declared) _ λ signature e.
          bind-Within P (read_u32 signature 8) _ λ count _.
            Within-intro P (slots_from count signature 0) λ part k.
              IsPart-trans part signature bytes
                (within_some (λ p. IsPart p signature) (slots_from count signature 0) part
                  (slots_from-IsPart count signature 0) k)
                (within_some P (slice bytes 0 declared) signature (slice-IsPart bytes 0 declared)
                  e))
  where
    P : List ℕ → Type 0
    P p = IsPart p bytes

-- The entitlements that are answered are a stretch of consecutive bytes of the signature.
pub entitlements-IsPart : (bytes part : List ℕ) → entitlements bytes ≡ some part → IsPart part bytes
entitlements-IsPart bytes part e =
    within_some (λ p. IsPart p bytes) (entitlements bytes) part (entitlements-Within bytes) e
