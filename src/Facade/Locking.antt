-- ===== src/Facade/Locking.antt =====
-- The two latch words at the steps under the lock of the state: `Handle::deny_with` and
-- `Handle::snapshot` in crates/fidelity/src/handle.rs, the loop of `record` in
-- crates/fidelity-engine/src/worker.rs, and `latch` in crates/fidelity/src/lib.rs.
--
-- A writer takes the lock, and for each denial it updates the word of the process and then that
-- of the state. A check reads the word of the process at any time; a snapshot waits for the lock.
pub mod Explained
use fidelity.Common.{List, [], ◌∷◌}
use fidelity.Types.Category.{Category}
use fidelity.Types.Finding.{Detector, Outcome}
use fidelity.Engine.State.{State, record_outcome, latch_by_host}
use fidelity.Engine.State
use fidelity.Facade.Process.{Process, latch, mark_full_scan_complete}

pub data Lock : Type 0 where
  free held : Lock
  -- The process denies the category, and the state does not hold it yet.
  half_by_policy half_by_host : Category → Lock

pub record Moment : Type 0 where
  pub lock : Lock
  pub process : Process
  pub state : State

pub data LockStep : Moment → Moment → Type 0 where
  acquire :
      (p : Process) (s : State)
      → LockStep
          (record { lock = free; process = p; state = s })
          (record { lock = held; process = p; state = s })
  release :
      (p : Process) (s : State)
      → LockStep
          (record { lock = held; process = p; state = s })
          (record { lock = free; process = p; state = s })
  -- The outcome of a detector, by `record` or by the panic of a callback.
  record_under_lock :
      (p : Process) (s : State) (d : Detector) (o : Outcome)
      → LockStep
          (record { lock = held; process = p; state = s })
          (record { lock = held; process = p; state = (record_outcome s d o).0 })
  policy_latches_process :
      (p : Process) (s : State) (c : Category)
      → LockStep
          (record { lock = held; process = p; state = s })
          (record { lock = half_by_policy c; process = latch c p; state = s })
  policy_latches_state :
      (p : Process) (s : State) (c : Category)
      → LockStep
          (record { lock = half_by_policy c; process = p; state = s })
          (record { lock = held; process = p; state = State.latch s c })
  host_latches_process :
      (p : Process) (s : State) (c : Category)
      → LockStep
          (record { lock = held; process = p; state = s })
          (record { lock = half_by_host c; process = latch c p; state = s })
  host_latches_state :
      (p : Process) (s : State) (c : Category)
      → LockStep
          (record { lock = half_by_host c; process = p; state = s })
          (record { lock = held; process = p; state = latch_by_host s c })
  -- The worker marks the full scan without the lock.
  mark :
      (l : Lock) (p : Process) (s : State)
      → LockStep
          (record { lock = l; process = p; state = s })
          (record { lock = l; process = mark_full_scan_complete p; state = s })

pub data LockReaches : Moment → Moment → Type 0 where
  here : (m : Moment) → LockReaches m m
  there : (l m n : Moment) → LockStep l m → LockReaches m n → LockReaches l n
