-- ===== src/Engine/Worker/Latching.antt =====
-- Which latches a scan sets: those of its denials, in the state and in the process alike.
use fidelity.Common.{
  ◌≡◌, refl, ap, ◌∙◌, Bool, true, false, ◌&&◌, ◌||◌, Option, none, some, List, [], ◌∷◌, ◌++◌, arith,
  any,
}
use fidelity.Types.Category.{Category, same_category}
use fidelity.Types.CategorySet.{contains}
use fidelity.Types.CategorySet.Laws.{contains-insert}
use fidelity.Types.Finding.{
  Detector, Action, report, deny, callback, crash, same_action, Finding, Outcome,
}
use fidelity.Engine.Policy.{Policy, qualifying_action}
use fidelity.Engine.State.{State, record_outcome, latch}
use fidelity.Engine.State.Frame.{record_outcome-Recorded}
use fidelity.Engine.Pending.{Report}
use fidelity.Engine.Worker.{Hooks, latch_denial, qualify, record_found, record_one, record_scans}

-- Some report of the list denies the category.
abbrev pub denies : Category → List Report → Bool
denies c = any (λ r. same_action r.1 deny && same_category r.0.category c)

denies-append :
    (c : Category) (xs ys : List Report) → denies c (xs ++ ys) ≡ (denies c xs || denies c ys)
denies-append c [] ys = refl
denies-append c (x ∷ xs) ys = ground (arith, denies-append c xs ys)

or_swap : (a b c : Bool) → (a || (b || c)) ≡ ((b || a) || c)
or_swap true true c = refl
or_swap true false c = refl
or_swap false true c = refl
or_swap false false c = refl

-- A latch word, read out of the process or out of the state: a denial adds its category to it,
-- and an outcome alone adds nothing.
record Reader {P : Type 0} (hooks : Hooks P) (read : P × State → Category → Bool) : Type 0 where
  adds :
      (f : Finding) (p : P) (s : State) (c : Category)
      → read (hooks.latch_process f.category p, latch s f.category) c
        ≡ (same_category f.category c || read (p, s) c)
  keeps :
      (p : P) (s : State) (d : Detector) (o : Outcome) (c : Category)
      → read (p, (record_outcome s d o).0) c ≡ read (p, s) c

module _ {P : Type 0} (policy : Policy) (hooks : Hooks P) (read : P × State → Category → Bool)
    (reader : Reader hooks read) where
  read-latch_denial :
      (f : Finding) (a : Action) (ps : P × State) (c : Category)
      → read (latch_denial policy hooks f a ps) c ≡ (denies c ((f, a) ∷ []) || read ps c)
  unfolding latch_denial
  read-latch_denial f report ps c = refl
  read-latch_denial f callback ps c = refl
  read-latch_denial f crash ps c = refl
  read-latch_denial f deny (p, s) c = ground (arith, reader.adds f p s c)

  read-record_found :
      (found? : Option Finding) (ps : P × State) (c : Category)
      → let r = record_found policy hooks found? ps in read r.0 c ≡ (denies c r.1 || read ps c)
  unfolding record_found qualify
  read-record_found none ps c = refl
  read-record_found (some f) ps c = by_action (qualifying_action policy f)
    where
      by_action :
          (a : Option Action)
          → let r = qualify policy hooks f a ps in read r.0 c ≡ (denies c r.1 || read ps c)
      by_action none = refl
      by_action (some a) = read-latch_denial f a ps c

  read-record_one :
      (d : Detector) (o : Outcome) (ps : P × State) (c : Category)
      → let r = record_one policy hooks d o ps in read r.0 c ≡ (denies c r.1 || read ps c)
  unfolding record_one
  read-record_one d o (p, s) c =
      read-record_found (record_outcome s d o).1 (p, (record_outcome s d o).0) c
      ∙ rw (reader.keeps p s d o c)

  read-record_scans :
      (scans : List (Detector × Outcome)) (ps : P × State) (c : Category)
      → let r = record_scans policy hooks scans ps in read r.0 c ≡ (denies c r.1 || read ps c)
  unfolding record_scans
  read-record_scans [] ps c = refl
  read-record_scans ((d, o) ∷ scans) ps c =
      let one = record_one policy hooks d o ps in
      let rest = record_scans policy hooks scans one.0 in
      read-record_scans scans one.0 c
      ∙ rw (read-record_one d o ps c, denies-append c one.1 rest.1)
          (or_swap (denies c rest.1) (denies c one.1) (read ps c))

module _ {P : Type 0} (policy : Policy) (hooks : Hooks P) where
  in_state : Reader hooks (λ ps c. contains ps.1.latched c)
  unfolding latch
  in_state = record {
    adds = λ f p s c. contains-insert s.latched f.category c;
    keeps = λ p s d o c. ap (λ l. contains l c) (record_outcome-Recorded s d o).latched;
  }

  -- After a scan is recorded, the state has latched a category exactly where it had before, or
  -- some report of the scan denies it.
  pub contains-record_scans :
      (scans : List (Detector × Outcome)) (ps : P × State) (c : Category)
      → let r = record_scans policy hooks scans ps in
        contains r.0.1.latched c ≡ (denies c r.1 || contains ps.1.latched c)
  contains-record_scans = read-record_scans policy hooks _ in_state

-- What the hooks of a process are for: they add a category to a latch word that can be read.
pub record Latches {P : Type 0} (hooks : Hooks P) (holds : P → Category → Bool) : Type 0 where
  pub latched :
      (c d : Category) (p : P)
      → holds (hooks.latch_process c p) d ≡ (same_category c d || holds p d)

-- The two latch words hold the same categories.
abbrev pub Agree : {P : Type 0} → (P → Category → Bool) → P × State → Type 0
Agree holds ps = (c : Category) → holds ps.0 c ≡ contains ps.1.latched c

module _ {P : Type 0} (policy : Policy) (hooks : Hooks P) (holds : P → Category → Bool)
    (latches : Latches hooks holds) where
  in_process : Reader hooks (λ ps c. holds ps.0 c)
  in_process = record {
    adds = λ f p s c. latches.latched f.category c p;
    keeps = λ p s d o c. refl;
  }

  pub holds-record_scans :
      (scans : List (Detector × Outcome)) (ps : P × State) (c : Category)
      → let r = record_scans policy hooks scans ps in holds r.0.0 c ≡ (denies c r.1 || holds ps.0 c)
  holds-record_scans = read-record_scans policy hooks _ in_process

  -- For hooks that latch a category of the process: recording the outcomes of a scan keeps the
  -- latches of the process equal to those of the state.
  pub record_scans-Agree :
      (scans : List (Detector × Outcome)) (ps : P × State)
      → Agree holds ps
      → Agree holds (record_scans policy hooks scans ps).0
  record_scans-Agree scans ps agree c =
      holds-record_scans scans ps c ∙ rw (agree c, contains-record_scans policy hooks scans ps c)
