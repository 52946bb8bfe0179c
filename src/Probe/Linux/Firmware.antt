-- ===== src/Probe/Linux/Firmware.antt =====
-- The firmware fields and the paravirtual bus, and what they say of the machine
-- (crates/probe/fidelity-probe-linux/src/sys/dmi.rs and emulation.rs).
use fidelity.Common.{Bool, true, false, Option, none, some, ◌++◌, ltb}
use fidelity.Common.Text.{Text, literal}
use fidelity.Common.Chars.{Chars, trim, as_bytes}
use fidelity.Types.Evidence
use fidelity.Core.Facts
use fidelity.Core.Facts.{Observation, MachineHost, virtual_machine, hardware}
use fidelity.Formats.Smbios.{names_a_monitor}
use fidelity.Probe.Linux.System.{
  FileText, read, absent, broken, Listing, listed, no_directory, unlisted, System,
}

-- `io::Result`, whose error has a message.
pub data IoResult (A : Type 0) : Type 0 where
  ok : A → IoResult A
  err : Text → IoResult A

infixl 5 ◌>>=◌
abbrev pub ◌>>=◌ : {A B : Type 0} → IoResult A → (A → IoResult B) → IoResult B
ok a >>= f = f a
err message >>= f = err message

unfoldable pub read_field : FileText → IoResult (Option Chars)
read_field (read text) = ok (some (trim text))
read_field absent = ok none
read_field (broken message) = err message

pub record FirmwareIdentity : Type 0 where
  pub manufacturer : Chars
  pub product : Chars

both : Option Chars → Option Chars → Option FirmwareIdentity
both none product = none
both (some manufacturer) none = none
both (some manufacturer) (some product) =
    some (record { manufacturer = manufacturer; product = product })

unfoldable pub firmware_identity : System → IoResult (Option FirmwareIdentity)
unfolding both
firmware_identity system = do
  manufacturer ← read_field system.manufacturer
  product ← read_field system.product
  ok (both manufacturer product)

unfoldable pub holds_a_paravirtual_device : Listing → IoResult Bool
holds_a_paravirtual_device (listed entries) = ok (ltb 0 entries)
holds_a_paravirtual_device no_directory = ok false
holds_a_paravirtual_device (unlisted message) = err message

monitor_of : Option FirmwareIdentity → Option Chars
monitor_of none = none
monitor_of (some identity) = names_a_monitor identity.manufacturer identity.product

unfoldable pub named_monitor : System → IoResult (Option Chars)
unfolding monitor_of
named_monitor system = firmware_identity system >>= λ identity. ok (monitor_of identity)

abbrev pub firmware_failed : Text → Observation MachineHost
firmware_failed message =
    Facts.failed (Evidence.new (literal "the firmware read failed: " ++ message))

unfoldable pub by_bus : IoResult Bool → Observation MachineHost
by_bus (ok true) = Facts.fact (
    virtual_machine (
      Evidence.new
        (literal "the kernel holds a virtio device, which needs a monitor to answer it")))
by_bus (ok false) = Facts.fact hardware
by_bus (err message) = firmware_failed message

unfoldable pub by_monitor :
    IoResult (Option Chars) → Observation MachineHost → Observation MachineHost
by_monitor (ok (some field)) bus =
    Facts.fact
      (virtual_machine (Evidence.new (literal "the firmware names the machine " ++ as_bytes field)))
by_monitor (ok none) bus = bus
by_monitor (err message) bus = firmware_failed message

unfoldable pub machine_host : System → Observation MachineHost
unfolding by_bus by_monitor
machine_host system =
    by_monitor (named_monitor system) (by_bus (holds_a_paravirtual_device system.virtio))
