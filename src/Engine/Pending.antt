-- ===== src/Engine/Pending.antt =====
-- The reports of the host that wait for the worker (crates/fidelity-engine/src/pending.rs).
pub mod Queue
use fidelity.Common.{
  ℕ, zero, suc, ◌+◌, Bool, true, false, Option, none, some, List, [], ◌∷◌, leb, if◌then◌else◌,
  replicate,
}
use fidelity.Common
use fidelity.Types.Finding.{Finding, Action}

abbrev pub Report : Type 0
Report = Finding × Action

abbrev pub most_reports : ℕ
most_reports = 16

pub record Reports : Type 0 where
  pub entries : List (Option Report)
  pub len : ℕ

pub new : Reports
new = record { entries = replicate most_reports none; len = 0 }

-- `self.entries[self.len]` is in range where the guard passed.
pub push : Reports → Report → Reports × Bool
push q report =
    if leb most_reports q.len
    then (q, false)
    else (record { entries = Common.set q.entries q.len (some report); len = q.len + 1 }, true)

-- `entry.take()` over the first `n` entries: the entries afterwards, and what was taken.
take_entries : ℕ → List (Option Report) → List (Option Report) × List Report
take_entries zero entries = (entries, [])
take_entries (suc n) [] = ([], [])
take_entries (suc n) (none ∷ entries) =
    let (left, taken) = take_entries n entries in (none ∷ left, taken)
take_entries (suc n) (some report ∷ entries) =
    let (left, taken) = take_entries n entries in (none ∷ left, report ∷ taken)

-- `Pending::take`
pub take : Reports → Reports × List Report
unfolding take_entries
take q =
    let (left, taken) = take_entries q.len q.entries in (record { entries = left; len = 0 }, taken)

-- `Pending::add`: the loop ends at the first report that finds no room.
pub add : Reports → List Report → Reports
add q [] = q
add q (report ∷ qualified) =
    let (q', pushed) = push q report in let rest = add q' qualified in if pushed then rest else q'
