-- ===== src/Core/Regions/Changes.antt =====
-- The two comparisons find exactly what a search of the whole earlier snapshot finds.
use fidelity.Common.{
  ℕ, ◌≤◌, ◌<◌, ◌≡◌, refl, Bool, true, false, not, none, some, List, [], ◌∷◌, arith, leb, ◌==◌,
  length, length-take, any, keep, find, All, Bool-cases, ◌⊎◌, inl, inr, leb→lt,
}
use fidelity.Common.Sort.{sort, Ordered, take-Ordered, keep-Ordered, TotalOrder, sort-Ordered}
use fidelity.Core.Keyed.{keyed-Sweeps}
use fidelity.Core.Sweep.{Sweeps, sweep-keep}
use fidelity.Core.Regions.{
  Region, holds, region_le, max_regions, new, ended_before, not_held, added_since,
  now_writable_since,
}

region_le-TotalOrder : TotalOrder region_le
unfolding region_le
region_le-TotalOrder = record { total = λ a b h. ground arith; trans = λ a b c h k. ground arith }

pub new-Ordered : (regions : List Region) → Ordered region_le (new regions).regions
unfolding new
new-Ordered regions =
    take-Ordered region_le max_regions (sort region_le regions)
      (sort-Ordered region_le region_le-TotalOrder regions)

-- A snapshot stays within its bound.
pub length-new : (regions : List Region) → length (new regions).regions ≤ max_regions
unfolding new
length-new regions = omega (arith, length-take max_regions (sort region_le regions))

region_le-start : (a b : Region) → region_le a b ≡ true → a.start ≤ b.start
unfolding region_le
region_le-start a b h = ground arith

abbrev held_by : List Region → ℕ → Bool
held_by regions address = any (λ r. holds r address) regions

held_by_later :
    (address : ℕ) (b : Region) (regions : List Region)
    → address < b.start
    → All (λ c. region_le b c ≡ true) regions
    → held_by regions address ≡ false
unfolding holds
held_by_later address b [] h above = refl
held_by_later address b (c ∷ regions) h above =
    ground (arith, region_le-start b c above.0, held_by_later address b regions h above.1)

added-Sweeps :
    Sweeps ended_before not_held region_le region_le (λ r regions. not (held_by regions r.start))
added-Sweeps = record {
  skip_mono = λ a a' b h k. ground (arith, region_le-start a a' h);
  found_skip = λ a b bs h. unfold holds in ground arith;
  found_none = λ a. refl;
  found_first = λ a b bs h above. first a b bs h above (Bool-cases (leb b.start a.start));
}
  where
    first :
        (a b : Region) (bs : List Region)
        → ended_before a b ≡ false
        → All (λ c. region_le b c ≡ true) bs
        → (leb b.start a.start ≡ true) ⊎ (leb b.start a.start ≡ false)
        → not (held_by (b ∷ bs) a.start) ≡ not_held a (some b)
    first a b bs h above (inl e) = unfold holds in ground arith
    first a b bs h above (inr e) =
        rw (held_by_later a.start b bs (leb→lt _ _ e) above) (ground arith)

-- The single sweep over two sorted snapshots finds exactly the regions whose first address no
-- region of the earlier snapshot holds, in address order.
pub added_since-keep :
    (current earlier : List Region)
    → added_since (new current) (new earlier)
      ≡ keep (λ r. not (any (λ c. holds c r.start) (new earlier).regions)) (new current).regions
unfolding added_since
added_since-keep current earlier =
    sweep-keep added-Sweeps (new current).regions (new earlier).regions (new-Ordered current)
      (new-Ordered earlier)

-- The single sweep finds exactly the writable regions for which the first region of the earlier
-- snapshot with the same start was not writable, in address order.
pub now_writable_since-keep :
    (current earlier : List Region)
    → now_writable_since (new current) (new earlier)
      ≡ keep
          (λ r. elim (find (λ (c : Region). c.start == r.start) (new earlier).regions) [
            | none ↦ false
            | some c ↦ not c.writable
          ])
          (keep (λ (r : Region). r.writable) (new current).regions)
unfolding now_writable_since
now_writable_since-keep current earlier =
    sweep-keep
      (keyed-Sweeps (λ (r : Region). r.start) (λ (c : Region). c.start) (λ r c. not c.writable)
        region_le region_le region_le-start region_le-start)
      (keep (λ (r : Region). r.writable) (new current).regions) (new earlier).regions
      (keep-Ordered region_le _ (new current).regions (new-Ordered current)) (new-Ordered earlier)
