-- ===== src/Engine/Policy.antt =====
-- The action and the threshold of each category (crates/fidelity-engine/src/policy.rs).
pub mod Laws
use fidelity.Common.{
  ℕ, Bool, true, false, ◌&&◌, not, Option, none, some, List, if◌then◌else◌, any, get_or, replicate,
}
use fidelity.Common
use fidelity.Types.Category.{Category, all_categories, index}
use fidelity.Types.Evidence.{is_detector_health}
use fidelity.Types.Finding.{
  SignalStrength, high, reaches, Action, report, callback, crash, same_action, Finding,
}

pub record Entry : Type 0 where
  pub chosen : Action
  pub bar : SignalStrength

abbrev pub default_entry : Entry
default_entry = record { chosen = report; bar = high }

-- `[Entry; Category::COUNT]`, one entry for each position.
pub record Policy : Type 0 where
  pub entries : List Entry

pub new : Policy
new = record { entries = replicate 6 default_entry }

pub set : Policy → Category → Action → SignalStrength → Policy
set p c a t = record { entries = Common.set p.entries (index c) (record { chosen = a; bar = t }) }

-- A position past the table would panic; the table has a position for each category.
pub entry : Policy → Category → Entry
entry p c = get_or p.entries (index c) default_entry

pub action : Policy → Category → Action
unfolding entry
action p c = (entry p c).chosen

pub threshold : Policy → Category → SignalStrength
unfolding entry
threshold p c = (entry p c).bar

unfoldable pub needs_callback : Policy → Bool
needs_callback p = any (λ c. same_action (action p c) callback) all_categories

unfoldable pub qualifying_action : Policy → Finding → Option Action
qualifying_action p f =
    if not (reaches f.strength (threshold p f.category))
    then none
    else if same_action (action p f.category) crash && is_detector_health f.evidence
    then some report
    else some (action p f.category)
