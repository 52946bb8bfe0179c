-- ===== src/Probe/Linux/Listed.antt =====
-- The ranges that the catalog takes from the images of the loader (sys/catalog.rs of the Linux probe).
use fidelity.Common.{
  ℕ, ◌+◌, ◌≤◌, ◌<◌, ◌≡◌, ◌≢◌, ◌↔◌, refl, sym, ap, ◌∙◌, false, Option, none, some, List, [], ◌∷◌,
  ◌++◌, length, is_empty, leb, if◌then◌else◌, ◌==◌, arith, Bool-cases, Option-cases, inl, inr,
  length-append, ==→eq, ne→==, eq→==, ==→ne, leb→lt, lt→leb,
}
use mathlib.Core.List.{append_assoc, append-nil}
use fidelity.Core.Regions.{max_regions}
use fidelity.Probe.Linux.System.{Phdr, Image}
use fidelity.Probe.Linux.Loader.{
  Catalog, ranges, invalid, pt_load, load_range, with_range, take_headers, take_ranges,
}

-- The ranges of the load headers of one image, in their order; every load header has one.
pub data HeaderRanges (base : ℕ) : List Phdr → List (ℕ × ℕ) → Type 0 where
  no_header : HeaderRanges base [] []
  load :
      (header : Phdr) (range : ℕ × ℕ) (headers : List Phdr) (found : List (ℕ × ℕ))
      → header.kind ≡ 1
      → load_range base header ≡ some range
      → HeaderRanges base headers found
      → HeaderRanges base (header ∷ headers) (range ∷ found)
  other :
      (header : Phdr) (headers : List Phdr) (found : List (ℕ × ℕ))
      → header.kind ≢ 1
      → HeaderRanges base headers found
      → HeaderRanges base (header ∷ headers) found

-- The ranges of the images, in the order of the loader; every image has headers.
pub data Listed : List Image → List (ℕ × ℕ) → Type 0 where
  no_image : Listed [] []
  with_headers :
      (image : Image) (header : Phdr) (headers : List Phdr) (found : List (ℕ × ℕ))
      (images : List Image) (more : List (ℕ × ℕ))
      → image.headers ≡ some (header ∷ headers)
      → HeaderRanges image.base (header ∷ headers) found
      → Listed images more
      → Listed (image ∷ images) (found ++ more)

pub ranges-injective : {a b : List (ℕ × ℕ)} → ranges a ≡ ranges b → a ≡ b
ranges-injective {a = a} e = ap (λ c. elim c [ ranges found ↦ found | invalid ↦ a ]) e

pushed : (found : List (ℕ × ℕ)) (range : ℕ × ℕ) → length (found ++ range ∷ []) ≡ length found + 1
pushed found range = length-append found (range ∷ [])

with_range-some :
    (o : Option (ℕ × ℕ)) (found : List (ℕ × ℕ)) (next : List (ℕ × ℕ) → Catalog) (all : List (ℕ × ℕ))
    → with_range o found next ≡ ranges all
    → (range : ℕ × ℕ) × (o ≡ some range)
      × (length found < max_regions)
      × (next (found ++ range ∷ []) ≡ ranges all)
unfolding with_range
with_range-some none found next all h = absurd cc
with_range-some (some range) found next all h = elim (Bool-cases (leb max_regions (length found))) [
  | inl full ↦ absurd (let k = rw full at h in cc)
  | inr room ↦ (range, refl, leb→lt max_regions (length found) room, rw room at h)
]

take_headers-HeaderRanges :
    (base : ℕ) (headers : List Phdr) (found : List (ℕ × ℕ)) (next : List (ℕ × ℕ) → Catalog)
    (all : List (ℕ × ℕ))
    → length found ≤ max_regions
    → take_headers base headers found next ≡ ranges all
    → (more : List (ℕ × ℕ)) × HeaderRanges base headers more
      × (length (found ++ more) ≤ max_regions)
      × (next (found ++ more) ≡ ranges all)
unfolding take_headers
take_headers-HeaderRanges base [] found next all room h =
    ([], no_header, rw (append-nil found) room, rw (append-nil found) h)
take_headers-HeaderRanges base (header ∷ headers) found next all room h =
    elim (Bool-cases (header.kind == pt_load)) [
      | inr e ↦
          let (more, listed, fits, goes) =
            take_headers-HeaderRanges base headers found next all room (rw e at h) in
          (more, other header headers more (==→ne header.kind 1 e) listed, fits, goes)
      | inl e ↦
          let loaded = rw e at h in
          let (range, is, free, going) =
            with_range-some (load_range base header) found
              (λ found'. take_headers base headers found' next) all loaded in
          let (more, listed, fits, goes) =
            take_headers-HeaderRanges base headers (found ++ range ∷ []) next all
              (omega (arith, pushed found range)) going in
          let again : (found ++ range ∷ []) ++ more ≡ found ++ range ∷ more =
            append_assoc found (range ∷ []) more in
          (
            range ∷ more,
            load header range headers more (==→eq header.kind 1 e) is listed,
            rw (← again) fits,
            rw (← again) goes,
          )
    ]

HeaderRanges-take_headers :
    (base : ℕ) (headers : List Phdr) (found more : List (ℕ × ℕ)) (next : List (ℕ × ℕ) → Catalog)
    → HeaderRanges base headers more
    → length (found ++ more) ≤ max_regions
    → take_headers base headers found next ≡ next (found ++ more)
unfolding take_headers with_range
HeaderRanges-take_headers base [] found [] next no_header fits = rw (append-nil found) refl
HeaderRanges-take_headers base [] found (range ∷ more) next listed fits = elim listed [ ]
HeaderRanges-take_headers base (header ∷ headers) found (range ∷ more) next
      (load header' range' headers' more' loads is listed) fits =
    let again : (found ++ range ∷ []) ++ more ≡ found ++ range ∷ more =
      append_assoc found (range ∷ []) more in
    let free : leb max_regions (length found) ≡ false =
      lt→leb max_regions (length found) (omega (arith, length-append found (range ∷ more))) in
    rw (eq→== header.kind 1 loads, is, free, ← again)
      (HeaderRanges-take_headers base headers (found ++ range ∷ []) more next listed
        (rw again fits))
HeaderRanges-take_headers base (header ∷ headers) found more next
      (other header' headers' more' skips listed) fits =
    rw (ne→== header.kind 1 skips)
      (HeaderRanges-take_headers base headers found more next listed fits)

of_headers :
    (image : Image) (images : List Image) (found all : List (ℕ × ℕ))
    → length found ≤ max_regions
    → (headers : List Phdr) → image.headers ≡ some headers
    → (if is_empty headers
        then invalid
        else take_headers image.base headers found (λ found'. take_ranges images found'))
      ≡ ranges all
    → ((found' all' : List (ℕ × ℕ))
        → length found' ≤ max_regions
        → take_ranges images found' ≡ ranges all'
        → (more : List (ℕ × ℕ)) × Listed images more
          × (found' ++ more ≡ all')
          × (length all' ≤ max_regions))
    → (more : List (ℕ × ℕ)) × Listed (image ∷ images) more
      × (found ++ more ≡ all)
      × (length all ≤ max_regions)
of_headers image images found all room [] has h rest = absurd cc
of_headers image images found all room (header ∷ headers) has h rest =
    let (here, listed, fits, goes) =
      take_headers-HeaderRanges image.base (header ∷ headers) found
        (λ found'. take_ranges images found') all room h in
    let (more, those, is, short) = rest (found ++ here) all fits goes in
    (
      here ++ more,
      with_headers image header headers here images more has listed those,
      sym (append_assoc found here more) ∙ is,
      short,
    )

take_ranges-Listed :
    (images : List Image) (found all : List (ℕ × ℕ))
    → length found ≤ max_regions
    → take_ranges images found ≡ ranges all
    → (more : List (ℕ × ℕ)) × Listed images more
      × (found ++ more ≡ all)
      × (length all ≤ max_regions)
unfolding take_ranges
take_ranges-Listed [] found all room h =
    let same : found ≡ all = ranges-injective h in
    ([], no_image, append-nil found ∙ same, rw (← same) room)
take_ranges-Listed (image ∷ images) found all room h = elim (Option-cases image.headers) [
  | inl null ↦ absurd (let k = rw null at h in cc)
  | inr got ↦
      let (headers, has) = got in
      of_headers image images found all room headers has (rw has at h) (take_ranges-Listed images)
]

Listed-take_ranges :
    (images : List Image) (found more : List (ℕ × ℕ))
    → Listed images more
    → length (found ++ more) ≤ max_regions
    → take_ranges images found ≡ ranges (found ++ more)
unfolding take_ranges
Listed-take_ranges [] found [] no_image fits = rw (append-nil found) refl
Listed-take_ranges [] found (range ∷ more) listed fits = elim listed [ ]
Listed-take_ranges (image ∷ images) found all
      (with_headers image' header headers here images' more has listed rest) fits =
    let again : (found ++ here) ++ more ≡ found ++ (here ++ more) = append_assoc found here more in
    rw (has, ← again)
      (HeaderRanges-take_headers image.base (header ∷ headers) found here
          (λ found'. take_ranges images found') listed
          (omega (arith, length-append (found ++ here) more, ap length again))
        ∙ Listed-take_ranges images (found ++ here) more rest (rw again fits))

-- The catalog has ranges exactly where they are those of the images, at most the bound of them.
pub take_ranges_iff :
    (images : List Image) (found : List (ℕ × ℕ))
    → (take_ranges images [] ≡ ranges found) ↔ (Listed images found × (length found ≤ 1024))
take_ranges_iff images found = (
  (λ h.
      let (more, listed, is, short) = take_ranges-Listed images [] found (omega arith) h in
      (rw (← is) listed, short)),
  (λ k. Listed-take_ranges images [] found k.0 k.1),
)
