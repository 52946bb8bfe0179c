-- ===== src/Engine/Worker/Keeping.antt =====
-- Recording a scan changes the process by latches and the state by outcomes and latches alone.
use fidelity.Common.{Option, none, some, List, [], ◌∷◌}
use fidelity.Types.Category.{Category}
use fidelity.Types.Finding.{Detector, Action, report, deny, callback, crash, Finding, Outcome}
use fidelity.Engine.Policy.{Policy, qualifying_action}
use fidelity.Engine.State.{State, record_outcome, latch}
use fidelity.Engine.Worker.{Hooks, latch_denial, qualify, record_found, record_one, record_scans}

module _ {P : Type 0} (policy : Policy) (hooks : Hooks P) (Q : P × State → Type 0)
    (latched : (c : Category) (p : P) (s : State)
      → Q (p, s)
      → Q (hooks.latch_process c p, latch s c))
    (recorded : (d : Detector) (o : Outcome) (p : P) (s : State)
      → Q (p, s)
      → Q (p, (record_outcome s d o).0)) where
  latch_denial-keeps :
      (f : Finding) (a : Action) (ps : P × State) → Q ps → Q (latch_denial policy hooks f a ps)
  unfolding latch_denial
  latch_denial-keeps f report ps h = h
  latch_denial-keeps f callback ps h = h
  latch_denial-keeps f crash ps h = h
  latch_denial-keeps f deny ps h = latched f.category ps.0 ps.1 h

  record_found-keeps :
      (found? : Option Finding) (ps : P × State) → Q ps → Q (record_found policy hooks found? ps).0
  unfolding record_found qualify
  record_found-keeps none ps h = h
  record_found-keeps (some f) ps h = by_action (qualifying_action policy f)
    where
      by_action : (a : Option Action) → Q (qualify policy hooks f a ps).0
      by_action none = h
      by_action (some a) = latch_denial-keeps f a ps h

  -- What latches and outcomes keep, a scan keeps.
  pub record_scans-keeps :
      (scans : List (Detector × Outcome)) (ps : P × State)
      → Q ps
      → Q (record_scans policy hooks scans ps).0
  unfolding record_scans record_one
  record_scans-keeps [] ps h = h
  record_scans-keeps ((d, o) ∷ scans) ps h = record_scans-keeps scans _ (
      record_found-keeps (record_outcome ps.1 d o).1 (ps.0, (record_outcome ps.1 d o).0)
        (recorded d o ps.0 ps.1 h))
