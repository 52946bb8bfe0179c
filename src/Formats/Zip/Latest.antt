-- ===== src/Formats/Zip/Latest.antt =====
-- The search finds the last record whose comment reaches the end, and no decoy before it.
use mathlib.Core.Option
use fidelity.Common.{
  ℕ, zero, suc, ◌+◌, ◌-◌, ◌^◌, ◌≤◌, ◌<◌, ◌≡◌, refl, Bool, true, false, ◌&&◌, not, Option, none,
  some, List, length, take, drop, if◌then◌else◌, ◌==◌, ltb, ◌>>=◌, arith, le→leb, ltb→le, ne→==,
  Bool-cases, ◌⊎◌, inl, inr,
}
use fidelity.Formats.Bytes.{
  checked_add, same_bytes, read, read_u16, read_u32, checked_add-some, slice-some, read-some,
  number_at,
}
use fidelity.Formats.Zip.{
  end_magic, end_size, offset_field, comment_field, skip, answer, is_magic, or_none, or_skip, place,
  search, central_directory_offset,
}

-- A record stands at a place, and the comment that it states ends with the archive.
abbrev pub ends_at : List ℕ → ℕ → Bool
ends_at tail at =
    same_bytes (take 4 (drop at tail)) end_magic
    && (at + end_size + number_at 2 tail (at + comment_field) == length tail)

place-ends_at :
    (tail : List ℕ) (at : ℕ)
    → at + end_size ≤ length tail
    → length tail < 2 ^ 63
    → place tail at
      ≡ (if ends_at tail at then answer (some (number_at 4 tail (at + offset_field))) else skip)
unfolding place is_magic or_none or_skip read_u16 read_u32
place-ends_at tail at fits short =
    let size : at + 4 - at ≡ 4 = omega arith in
    rw
      (
        checked_add-some at 4 (omega arith),
        slice-some tail at (at + 4) (omega arith) (omega arith),
        size,
      )
      (by_magic (same_bytes (take 4 (drop at tail)) end_magic))
  where
    last_test :
        (comment : ℕ) (sum : Bool)
        → ltb (at + end_size + comment) (2 ^ 64) ≡ sum
        → (or_skip (if sum then some (at + end_size + comment) else none) λ ends.
            if not (ends == length tail)
            then skip
            else or_none (checked_add at offset_field) λ offset_at. answer (read 4 tail offset_at))
          ≡ (if at + end_size + comment == length tail
              then answer (some (number_at 4 tail (at + offset_field)))
              else skip)
    last_test comment false h =
        let beyond : (at + end_size + comment == length tail) ≡ false =
          ne→== _ _ λ e. absurd (omega (arith, ltb→le _ _ h)) in
        rw beyond (unfold or_skip in refl)
    last_test comment true h =
        unfold or_skip or_none in
        elim (Bool-cases (at + end_size + comment == length tail)) [
          | inl e ↦
              rw
                (
                  e,
                  checked_add-some at offset_field (omega arith),
                  read-some 4 tail (at + offset_field) (omega arith) (omega arith),
                )
                refl
          | inr e ↦ rw e refl
        ]

    by_magic :
        (m : Bool)
        → (if not m
            then skip
            else or_none (checked_add at comment_field) λ comment_at.
              or_skip (read 2 tail comment_at) λ comment.
                or_skip (checked_add at end_size >>= λ after. checked_add after comment) λ ends.
                  if not (ends == length tail)
                  then skip
                  else or_none
                      (checked_add at offset_field)
                      λ offset_at. answer (read 4 tail offset_at))
          ≡ (if m && (at + end_size + number_at 2 tail (at + comment_field) == length tail)
              then answer (some (number_at 4 tail (at + offset_field)))
              else skip)
    by_magic false = refl
    by_magic true =
        unfold or_none in
        rw (checked_add-some at comment_field (omega arith)) (
          unfold or_skip in
          rw
            (
              read-some 2 tail (at + comment_field) (omega arith) (omega arith),
              checked_add-some at end_size (omega arith),
            )
            (last_test (number_at 2 tail (at + comment_field)) _ refl))

-- The last place up to a bound that passes a test, or that there is none.
pub data Latest (test : ℕ → Bool) (n : ℕ) : Option ℕ → Type 0 where
  nowhere : ((k : ℕ) → k ≤ n → test k ≡ false) → Latest test n none
  at_place :
      (at : ℕ)
      → at ≤ n
      → test at ≡ true
      → ((k : ℕ) → at < k → k ≤ n → test k ≡ false)
      → Latest test n (some at)

abbrev pub offset_at : List ℕ → ℕ → ℕ
offset_at tail at = number_at 4 tail (at + offset_field)

-- What a search up to a place comes to.
record Searched (tail : List ℕ) (n : ℕ) (result : Option ℕ) : Type 0 where
  where_at : Option ℕ
  latest : Latest (ends_at tail) n where_at
  read_there : result ≡ Option.map (offset_at tail) where_at

none_below :
    (test : ℕ → Bool) (n : ℕ)
    → ((k : ℕ) → k ≤ n → test k ≡ false)
    → test (suc n) ≡ false
    → (k : ℕ) → k ≤ suc n
    → test k ≡ false
none_below test n h last k le = elim (split k n le) [ inl below ↦ h k below | inr e ↦ rw e last ]
  where
    split : (a b : ℕ) → a ≤ suc b → (a ≤ b) ⊎ (a ≡ suc b)
    split a b h = ground arith

later_none :
    (test : ℕ → Bool) (at n : ℕ)
    → ((k : ℕ) → at < k → k ≤ n → test k ≡ false)
    → test (suc n) ≡ false
    → (k : ℕ) → at < k
    → k ≤ suc n
    → test k ≡ false
later_none test at n h last k lt le = elim (split k n le) [
  | inl below ↦ h k lt below
  | inr e ↦ rw e last
]
  where
    split : (a b : ℕ) → a ≤ suc b → (a ≤ b) ⊎ (a ≡ suc b)
    split a b h = ground arith

extend-Latest :
    (test : ℕ → Bool) (n : ℕ) (o : Option ℕ)
    → Latest test n o
    → test (suc n) ≡ false
    → Latest test (suc n) o
extend-Latest test n _ (nowhere h) last = nowhere (none_below test n h last)
extend-Latest test n _ (at_place at le here later) last =
    at_place at (omega arith) here (later_none test at n later last)

search-Searched :
    (tail : List ℕ) (n : ℕ)
    → n + end_size ≤ length tail
    → length tail < 2 ^ 63
    → Searched tail n (search tail n)
unfolding search
search-Searched tail zero fits short =
    rw (search, place-ends_at tail 0 fits short)
      (elim (Bool-cases (ends_at tail 0)) [
        | inl e ↦ rw e (record {
          where_at = some 0;
          latest = at_place 0 (omega arith) e (λ k lt le. absurd (omega arith));
          read_there = refl;
        })
        | inr e ↦ rw e (record {
          where_at = none;
          latest = nowhere (λ k le. let z : k ≡ 0 = omega arith in rw z e);
          read_there = refl;
        })
      ])
search-Searched tail (suc n) fits short =
    let before = search-Searched tail n (omega arith) short in
    rw (search, place-ends_at tail (suc n) fits short)
      (elim (Bool-cases (ends_at tail (suc n))) [
        | inl e ↦ rw e (record {
          where_at = some (suc n);
          latest = at_place (suc n) (omega arith) e (λ k lt le. absurd (omega arith));
          read_there = refl;
        })
        | inr e ↦ rw e (record {
          where_at = before.where_at;
          latest = extend-Latest (ends_at tail) n before.where_at before.latest e;
          read_there = before.read_there;
        })
      ])

-- For a tail that is long enough for a record and shorter than 2^63 bytes: the search answers the
-- offset field at the last place where the magic number stands and the comment that is stated
-- there ends exactly with the tail, and nothing where there is no such place.
pub central_directory_offset-Latest :
    (tail : List ℕ)
    → end_size ≤ length tail
    → length tail < 2 ^ 63
    → (found : Option ℕ) × Latest (ends_at tail) (length tail - end_size) found
      × (central_directory_offset tail ≡ Option.map (offset_at tail) found)
unfolding central_directory_offset
central_directory_offset-Latest tail fits short =
    let searched = search-Searched tail (length tail - end_size) (omega arith) short in
    (
      searched.where_at,
      searched.latest,
      rw (le→leb end_size (length tail) fits) searched.read_there,
    )
