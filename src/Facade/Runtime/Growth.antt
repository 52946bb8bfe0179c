-- ===== src/Facade/Runtime/Growth.antt =====
-- What holds of the words of the process and of the state together, and how they may change.
use fidelity.Common.{ℕ, ◌≡◌, refl, ◌∙◌, true, ◌||◌, Option, List, [], ◌∷◌, arith}
use fidelity.Types.Category.{Category, same_category}
use fidelity.Types.CategorySet.{contains}
use fidelity.Types.CategorySet.Laws.{contains-insert, IsPlain}
use fidelity.Types.Finding.{Detector, Outcome}
use fidelity.Engine.Policy.{Policy}
use fidelity.Engine.State.{State, record_outcome, latch_by_host}
use fidelity.Engine.State
use fidelity.Engine.State.Frame.{record_outcome-Recorded}
use fidelity.Engine.Worker.{record_scans, Shared}
use fidelity.Engine.Worker.Keeping.{record_scans-keeps}
use fidelity.Engine.Worker.Latching.{Agree}
use fidelity.Facade.Process.{
  Process, latch, latched_categories, facade_hooks, mark_full_scan_complete,
}
use fidelity.Facade.Process.Laws.{latched_in, latch-insert, latch-IsPlain}
use fidelity.Facade.Handle.{
  HandleCall, call_deny, call_report_ui_abuse, deny, report_ui_abuse, record_host_report, perform,
  perform_all,
}

-- The process denies what the state shows, and what the host latched is latched.
pub record Sound (ps : Process × State) : Type 0 where
  pub agree : Agree latched_in ps
  pub plain : IsPlain (latched_categories ps.0)
  pub hosted : (c : Category) → contains ps.1.host_latched c ≡ true → contains ps.1.latched c ≡ true

-- From one point to a later one: nothing unlatches, the full scan stays complete, and the slot
-- and the host's choice stay as they are.
pub record Grows (a b : Process × State) : Type 0 where
  pub sound : Sound a → Sound b
  pub latches : (c : Category) → latched_in a.0 c ≡ true → latched_in b.0 c ≡ true
  pub complete : a.0.full_scan_done ≡ true → b.0.full_scan_done ≡ true
  pub slot : b.0.running ≡ a.0.running
  pub choice : b.0.deny_until_full_scan ≡ a.0.deny_until_full_scan

pub Grows-refl : (a : Process × State) → Grows a a
Grows-refl a = record {
  sound = λ h. h;
  latches = λ c h. h;
  complete = λ h. h;
  slot = refl;
  choice = refl;
}

pub Grows-trans : (a b c : Process × State) → Grows a b → Grows b c → Grows a c
Grows-trans a b c ab bc = record {
  sound = λ h. bc.sound (ab.sound h);
  latches = λ d h. bc.latches d (ab.latches d h);
  complete = λ h. bc.complete (ab.complete h);
  slot = bc.slot ∙ ab.slot;
  choice = bc.choice ∙ ab.choice;
}

contains-latch :
    (c d : Category) (p : Process)
    → latched_in (latch c p) d ≡ (same_category c d || latched_in p d)
contains-latch c d p = rw (latch-insert c p) (contains-insert (latched_categories p) c d)

-- A latch of the policy, in the process and in the state.
latch-Grows : (c : Category) (p : Process) (s : State) → Grows (p, s) (latch c p, State.latch s c)
unfolding latch State.latch
latch-Grows c p s = record {
  sound = λ h. record {
    agree = λ d. contains-latch c d p ∙ rw (h.agree d, contains-insert s.latched c d) refl;
    plain = latch-IsPlain c p h.plain;
    hosted = λ d k. rw (contains-insert s.latched c d, h.hosted d k) (ground arith);
  };
  latches = λ d h. rw (contains-latch c d p, h) (ground arith);
  complete = λ h. h;
  slot = refl;
  choice = refl;
}

pub recorded-Grows :
    (d : Detector) (o : Outcome) (p : Process) (s : State)
    → Grows (p, s) (p, (record_outcome s d o).0)
recorded-Grows d o p s =
    let r = record_outcome-Recorded s d o in
    record {
      sound = λ h. record {
        agree = λ c. h.agree c ∙ rw r.latched refl;
        plain = h.plain;
        hosted = λ c k. rw r.latched (h.hosted c (rw (← r.host_latched) k));
      };
      latches = λ c h. h;
      complete = λ h. h;
      slot = refl;
      choice = refl;
    }

host_latch-Grows :
    (c : Category) (p : Process) (s : State) → Grows (p, s) (latch c p, latch_by_host s c)
unfolding latch latch_by_host
host_latch-Grows c p s = record {
  sound = λ h. record {
    agree = λ d. contains-latch c d p ∙ rw (h.agree d, contains-insert s.latched c d) refl;
    plain = latch-IsPlain c p h.plain;
    hosted = λ d k.
        rw (contains-insert s.latched c d)
          (ground (arith, contains-insert s.host_latched c d, h.hosted d));
  };
  latches = λ d h. rw (contains-latch c d p, h) (ground arith);
  complete = λ h. h;
  slot = refl;
  choice = refl;
}

pub mark-Grows : (p : Process) (s : State) → Grows (p, s) (mark_full_scan_complete p, s)
unfolding mark_full_scan_complete latched_categories
mark-Grows p s = record {
  sound = λ h. record { agree = h.agree; plain = h.plain; hosted = h.hosted };
  latches = λ c h. h;
  complete = λ h. refl;
  slot = refl;
  choice = refl;
}

-- A scan that is recorded grows the words.
pub record_scans-Grows :
    (policy : Policy) (scans : List (Detector × Outcome)) (ps : Process × State)
    → Grows ps (record_scans policy facade_hooks scans ps).0
unfolding facade_hooks
record_scans-Grows policy scans ps =
    record_scans-keeps policy facade_hooks (Grows ps)
      (λ c p s h. Grows-trans ps (p, s) _ h (latch-Grows c p s))
      (λ d o p s h. Grows-trans ps (p, s) _ h (recorded-Grows d o p s)) scans ps (Grows-refl ps)

-- The words of what the worker, the handle and the host share.
abbrev pub words : {H : Type 0} → Shared Process H → Process × State
words w = (w.process, w.state)

abbrev pub Grown : {H : Type 0} → Shared Process H → Shared Process H → Type 0
Grown w w' = Grows (words w) (words w')

module _ {H : Type 0} (policy : Policy) (clock : H → Option ℕ × H) where
  pub perform-Grown :
      (call : HandleCall) (w : Shared Process H) → Grown w (perform policy clock call w)
  unfolding perform deny report_ui_abuse record_host_report
  perform-Grown (call_deny c) w = host_latch-Grows c w.process w.state
  perform-Grown (call_report_ui_abuse o) w = record_scans-Grows policy _ (words w)

  pub perform_all-Grown :
      (calls : List HandleCall) (w : Shared Process H) → Grown w (perform_all policy clock calls w)
  unfolding perform_all
  perform_all-Grown [] w = Grows-refl (words w)
  perform_all-Grown (call ∷ calls) w =
      Grows-trans (words w) (words (perform policy clock call w)) _ (perform-Grown call w)
        (perform_all-Grown calls (perform policy clock call w))
