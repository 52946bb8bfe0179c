-- ===== src/Formats/Smbios.antt =====
-- The firmware tables (crates/fidelity-formats/src/smbios): the strings of the system information, and
-- the names of virtual machine monitors.
pub mod Runs
pub mod Joined
pub mod Table
pub mod Ends
use fidelity.Common.{
  ℕ, zero, suc, ◌+◌, ◌-◌, Bool, true, false, ◌&&◌, ◌||◌, Option, none, some, List, [], ◌∷◌, length,
  any, find, get_elem?, get_or, ltb, ◌==◌, if◌then◌else◌, ◌>>=◌,
}
use fidelity.Common.Text.{literal}
use fidelity.Common.Chars.{Chars, starts_with, split_at}
use fidelity.Common.Utf8.{from_utf8}
use fidelity.Formats.Bytes.{checked_add, checked_sub, slice, same_bytes}

abbrev pub system_information_kind : ℕ
system_information_kind = 1

abbrev pub end_of_table : ℕ
end_of_table = 127

abbrev pub header_bytes : ℕ
header_bytes = 4

abbrev pub manufacturer_field : ℕ
manufacturer_field = 4

abbrev pub product_field : ℕ
product_field = 5

pub record SystemInformation : Type 0 where
  pub manufacturer : Chars
  pub product : Chars

-- How a loop on fuel ends.
pub data Looped (A : Type 0) : Type 0 where
  exhausted : Looped A
  returned : Option A → Looped A

abbrev pub is_double_zero : List ℕ → Bool
is_double_zero pair = same_bytes pair (0 ∷ 0 ∷ [])

run_step : Option (List ℕ) → ℕ → Looped ℕ → Looped ℕ
run_step none cursor later = returned none
run_step (some pair) cursor later =
    if is_double_zero pair then returned (some (cursor + 2)) else later

-- The loop of `run_end`. A cursor that is read stays inside the table, so that its length is fuel
-- enough.
unfoldable pub run_end_from : ℕ → List ℕ → ℕ → Looped ℕ
unfolding run_step
run_end_from zero table cursor = exhausted
run_end_from (suc fuel) table cursor =
    run_step (slice table cursor (cursor + 2)) cursor (run_end_from fuel table (suc cursor))

unfoldable pub run_end : List ℕ → ℕ → Looped ℕ
run_end table start = run_end_from (suc (length table)) table start

-- The number of a field selects a string, counted from one; zero is the empty text.
unfoldable pub string : List ℕ → ℕ → Option Chars
string strings number =
    if number == 0 then some [] else get_elem? (split_at strings 0) (number - 1) >>= from_utf8

-- What the structure states.
unfoldable pub stated : List ℕ → ℕ → ℕ → ℕ → Option SystemInformation
stated table cursor start end = do
  fields ← slice table cursor start
  strings ← slice table start (end - 2)
  manufacturer_number ← get_elem? fields manufacturer_field
  manufacturer ← string strings manufacturer_number
  product_number ← get_elem? fields product_field
  product ← string strings product_number
  some record { manufacturer = manufacturer; product = product }

after_run :
    List ℕ → ℕ → ℕ → ℕ → Looped ℕ → (ℕ → Looped SystemInformation) → Looped SystemInformation
after_run table cursor kind start exhausted next = exhausted
after_run table cursor kind start (returned none) next = returned none
after_run table cursor kind start (returned (some end)) next =
    if kind == system_information_kind then returned (stated table cursor start end) else next end

-- The body of the loop, from the header that was read.
structure_step :
    Option (List ℕ) → List ℕ → ℕ → (ℕ → Looped SystemInformation) → Looped SystemInformation
unfolding after_run
structure_step none table cursor next = returned none
structure_step (some header) table cursor next =
    let kind = get_or header 0 0 in
    let formatted = get_or header 1 0 in
    let start = cursor + formatted in
    if kind == end_of_table || ltb formatted header_bytes
    then returned none
    else after_run table cursor kind start (run_end table start) next

-- The loop over the structures: each takes at least six bytes of the table.
unfoldable pub system_from : ℕ → List ℕ → ℕ → Looped SystemInformation
unfolding structure_step
system_from zero table cursor = exhausted
system_from (suc fuel) table cursor =
    structure_step (slice table cursor (cursor + header_bytes)) table cursor
      λ end. system_from fuel table end

unfoldable pub system_information : List ℕ → Looped SystemInformation
system_information table = system_from (suc (length table)) table 0

-- The names that a monitor writes, each in ASCII.
abbrev pub monitors : List Chars
monitors =
    literal "Alibaba Cloud ECS"
    ∷ literal "Apple Virtualization"
    ∷ literal "BHYVE"
    ∷ literal "Bochs"
    ∷ literal "Google Compute Engine"
    ∷ literal "Hyper-V"
    ∷ literal "KVM"
    ∷ literal "KubeVirt"
    ∷ literal "OpenStack"
    ∷ literal "Parallels"
    ∷ literal "QEMU"
    ∷ literal "VMW"
    ∷ literal "VMware"
    ∷ literal "VirtualBox"
    ∷ literal "Xen"
    ∷ literal "innotek GmbH"
    ∷ []

unfoldable pub names_a_monitor : Chars → Chars → Option Chars
names_a_monitor manufacturer product =
    find (λ field. any (λ name. starts_with field name) monitors) (manufacturer ∷ product ∷ [])
