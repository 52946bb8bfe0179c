-- ===== src/Core/Regions.antt =====
-- The executable regions of the process, and what changed since a snapshot
-- (crates/fidelity-core/src/fact/baseline.rs).
pub mod Changes
use fidelity.Common.{
  ℕ, ◌-◌, Bool, true, false, not, ◌&&◌, ◌||◌, Option, none, some, List, ltb, leb, ◌==◌,
  if◌then◌else◌, length, take, keep,
}
use fidelity.Common.Sort.{sort}
use fidelity.Core.Sweep.{sweep}

pub record Region : Type 0 where
  pub start : ℕ  -- u64
  pub end : ℕ  -- u64
  pub writable : Bool

-- `saturating_sub`
abbrev pub bytes : Region → ℕ
bytes r = r.end - r.start

pub holds : Region → ℕ → Bool
holds r address = leb r.start address && ltb address r.end

-- The derived order: by start, then by end, then `false` before `true`.
pub region_le : Region → Region → Bool
region_le a b =
    ltb a.start b.start
    || (a.start == b.start
        && (ltb a.end b.end || (a.end == b.end && (not a.writable || b.writable))))

abbrev pub max_regions : ℕ
max_regions = 1024

pub record CodeRegions : Type 0 where
  pub regions : List Region
  pub truncated : Bool

pub new : List Region → CodeRegions
new regions =
    let sorted = sort region_le regions in
    record { regions = take max_regions sorted; truncated = ltb max_regions (length sorted) }

-- `earlier.regions.get(known).is_some_and(|candidate| candidate.end() <= region.start())`
abbrev pub ended_before : Region → Region → Bool
ended_before region candidate = leb candidate.end region.start

-- `!earlier.regions.get(known).is_some_and(|candidate| candidate.holds(region.start()))`
abbrev pub not_held : Region → Option Region → Bool
not_held region none = true
not_held region (some candidate) = not (holds candidate region.start)

pub added_since : CodeRegions → CodeRegions → List Region
added_since current earlier = sweep ended_before not_held current.regions earlier.regions

abbrev pub starts_before : Region → Region → Bool
starts_before region candidate = ltb candidate.start region.start

abbrev pub opened_at : Region → Option Region → Bool
opened_at region none = false
opened_at region (some candidate) = candidate.start == region.start && not candidate.writable

pub now_writable_since : CodeRegions → CodeRegions → List Region
now_writable_since current earlier =
    sweep starts_before opened_at (keep (λ (r : Region). r.writable) current.regions)
      earlier.regions
