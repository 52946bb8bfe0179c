-- ===== src/Facade/Process.antt =====
-- The words that the process shares (the statics of crates/fidelity/src/lib.rs), and the verdict
-- that a protected operation reads from them (crates/fidelity/src/handle.rs and error.rs).
--
-- Each word is an atomic, so each load, store and update is one step; the mutex of the wait keeps
-- its flag and `FULL_SCAN_DONE` together.
pub mod Laws
use fidelity.Common.{ℕ, Bool, true, false, not, ◌&&◌, ◌||◌, if◌then◌else◌, bit_or}
use fidelity.Types.Category.{Category}
use fidelity.Types.CategorySet
use fidelity.Types.CategorySet.{CategorySet}
use fidelity.Engine.Worker.{Hooks}

pub record Process : Type 0 where
  pub running : Bool
  pub latched_word : ℕ  -- u32
  pub full_scan_done : Bool
  pub full_scan_wait : Bool
  pub deny_until_full_scan : Bool

-- The statics of a process that started nothing.
abbrev pub idle : Process
idle = record {
  running = false;
  latched_word = 0;
  full_scan_done = false;
  full_scan_wait = false;
  deny_until_full_scan = false;
}

-- `compare_exchange(false, true)`: the word afterwards, and whether the exchange took place.
unfoldable pub claim_slot : Process → Process × Bool
claim_slot p = if p.running then (p, false) else (record p { running = true }, true)

unfoldable pub release_slot : Process → Process
release_slot p = record p { running = false }

unfoldable pub latched_categories : Process → CategorySet
latched_categories p = CategorySet.from_bits p.latched_word

-- `fetch_or` of the bits of the set that holds the category alone.
unfoldable pub latch : Category → Process → Process
latch c p = record p {
  latched_word = bit_or p.latched_word (CategorySet.insert CategorySet.empty c).0.bits;
}

unfoldable pub clear_latched : Process → Process
clear_latched p = record p { latched_word = 0 }

unfoldable pub set_deny_until_full_scan : Bool → Process → Process
set_deny_until_full_scan deny p = record p { deny_until_full_scan = deny }

unfoldable pub abandon_start : Process → Process
unfolding release_slot clear_latched set_deny_until_full_scan
abandon_start p = release_slot (record (clear_latched (set_deny_until_full_scan false p)) {
  full_scan_wait = false;
  full_scan_done = false;
})

unfoldable pub full_scan_complete : Process → Bool
full_scan_complete p = p.full_scan_done

unfoldable pub mark_full_scan_complete : Process → Process
mark_full_scan_complete p = record p { full_scan_wait = true; full_scan_done = true }

-- The wait, from the words that it starts with to those that it ends with: it does not wait where
-- the scan is complete, and otherwise it answers the flag of the mutex when the wait ends.
unfoldable pub wait_for_full_scan : Process → Process → Bool
unfolding full_scan_complete
wait_for_full_scan before after = if full_scan_complete before then true else after.full_scan_wait

unfoldable pub denies_until_full_scan : Process → Bool
denies_until_full_scan p = p.deny_until_full_scan

-- `HOOKS` of crates/fidelity/src/builder.rs.
unfoldable pub facade_hooks : Hooks Process
facade_hooks = record { latch_process = latch; full_scan_complete = mark_full_scan_complete }

pub data DenialReason : Type 0 where
  latched_reason incomplete_coverage_reason : DenialReason

pub record Denied : Type 0 where
  pub categories : CategorySet
  pub reason : DenialReason

unfoldable pub denied_latched : CategorySet → Denied
denied_latched categories = record { categories = categories; reason = latched_reason }

unfoldable pub denied_incomplete_coverage : Denied
denied_incomplete_coverage = record {
  categories = CategorySet.empty;
  reason = incomplete_coverage_reason;
}

pub data Verdict : Type 0 where
  allowed : Verdict
  denied : Denied → Verdict

-- `Handle::ensure_allowed`
unfoldable pub ensure_allowed : Process → Verdict
unfolding denied_latched denied_incomplete_coverage latched_categories full_scan_complete
    denies_until_full_scan
ensure_allowed p =
    let categories = latched_categories p in
    if not (CategorySet.is_empty categories)
    then denied (denied_latched categories)
    else if denies_until_full_scan p && not (full_scan_complete p)
    then denied denied_incomplete_coverage
    else allowed
