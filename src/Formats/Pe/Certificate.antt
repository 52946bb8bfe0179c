-- ===== src/Formats/Pe/Certificate.antt =====
-- About where the certificate table stands (pe/mod.rs).
use fidelity.Common.{ℕ, ◌≡◌, ◌||◌, none, some, List, ◌==◌, if◌then◌else◌}
use fidelity.Formats.Bytes.{checked_add}
use fidelity.Formats.Parts.{IsPart, Within, within_some, bind-Within, slice-IsPart}
use fidelity.Formats.Pe.{certificate_directory, optional_header, directory, certificate_table}

certificate_table-Within : (image : List ℕ) → Within (λ p. IsPart p image) (certificate_table image)
unfolding certificate_table
certificate_table-Within image = bind-Within P (optional_header image) _ λ optional _.
    bind-Within P (directory optional certificate_directory) _ λ entry _.
      bind-Within P (if entry.0 == 0 || entry.1 == 0 then none else checked_add entry.0 entry.1) _
        λ end _. slice-IsPart image entry.0 end
  where
    P : List ℕ → Type 0
    P p = IsPart p image

-- The certificate table that is answered is a stretch of consecutive bytes of the file.
pub certificate_table-IsPart :
    (image part : List ℕ) → certificate_table image ≡ some part → IsPart part image
certificate_table-IsPart image part e =
    within_some (λ p. IsPart p image) (certificate_table image) part
      (certificate_table-Within image) e
