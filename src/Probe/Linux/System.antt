-- ===== src/Probe/Linux/System.antt =====
-- What the operating system answers to the Linux probe (crates/probe/fidelity-probe-linux/src/sys).
use fidelity.Common.{ℕ, Bool, Option, List}
use fidelity.Common.Text.{Text}
use fidelity.Common.Chars.{Chars}
use fidelity.Core.Facts.{Observation, LocalAgentState}

-- A file of text that may be absent, and may fail to be read with a message.
pub data FileText : Type 0 where
  read : Chars → FileText
  absent : FileText
  broken : Text → FileText

-- A directory: the number of its entries, or why there is none.
pub data Listing : Type 0 where
  listed : ℕ → Listing
  no_directory : Listing
  unlisted : Text → Listing

-- A program header, of which the probe reads four fields.
pub record Phdr : Type 0 where
  pub kind : ℕ
  pub vaddr : ℕ
  pub memsz : ℕ
  pub align : ℕ

-- An image of the loader, in the order in which it lists them. `headers` is `None` for a null pointer.
pub record Image : Type 0 where
  pub is_unnamed : Bool
  pub base : ℕ
  pub headers : Option (List Phdr)

-- `status`, `maps` and `exe` are the files of the process, where they open; `verity` is the algorithm
-- that the kernel reports, where it reports one; `memory` is a range of the own memory, of some length
-- at some address; `agent` is the answer of the loopback probe.
pub record System : Type 0 where
  pub status : Option Chars
  pub maps : Option Chars
  pub exe : Option (List ℕ)
  pub verity : Option ℕ
  pub manufacturer : FileText
  pub product : FileText
  pub virtio : Listing
  pub images : List Image
  pub memory : ℕ → ℕ → List ℕ
  pub jump_slot : ℕ
  pub agent : Observation LocalAgentState
