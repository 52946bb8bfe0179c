-- ===== src/Types/Interface.antt =====
-- What the host observed on its own window (crates/fidelity-types/src/interface.rs).
use Prim.Native.String.{String}

pub data UiObservation : Type 0 where
  overlay screen_capture : UiObservation

abbrev pub detail : UiObservation → String
detail overlay = "the host reports that another application drew over its window"
detail screen_capture = "the host reports that a recorder captured its window"
