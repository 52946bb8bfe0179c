-- ===== src/Formats/Procfs/Archive/Sound.antt =====
-- About the archive that is answered for a package (`package_archive` of procfs/maps.rs).
use fidelity.Common.{
  ◌≡◌, refl, ap, Bool, true, false, ◌&&◌, Option, none, some, List, [], ◌∷◌, ◌++◌, All, any,
  find_map, is_empty, if◌then◌else◌, ◌>>=◌, arith, Bool-cases, inl, inr,
}
use fidelity.Common.Chars.{Chars, strip_prefix, starts_with, ends_with, split_at, lines}
use fidelity.Common.Chars.Laws.{strip_prefix_sound, starts_with_sound, ends_with_sound}
use fidelity.Formats.Procfs.Archive.{
  installed, archive, path_of, starts_with_dash, names, accepted, package_archive,
}

-- The first element of a list that gives an answer, with those before it, which give none.
pub record First {A B : Type 0} (f : A → Option B) (xs : List A) (b : B) : Type 0 where
  pub before : List A
  pub here : A
  pub after : List A
  pub parts : xs ≡ before ++ here ∷ after
  pub none_before : All (λ x. f x ≡ none) before
  pub answers : f here ≡ some b

find_map-First :
    {A B : Type 0} (f : A → Option B) (xs : List A) (b : B) → find_map f xs ≡ some b → First f xs b
unfolding find_map
find_map-First f [] b h = absurd cc
find_map-First f (x ∷ xs) b h = by_answer (f x) refl h (λ k. find_map-First f xs b k)
  where
    by_answer :
        (o : Option _)
        → f x ≡ o
        → elim o [ none ↦ find_map f xs | some a ↦ some a ] ≡ some b
        → (find_map f xs ≡ some b → First f xs b)
        → First f (x ∷ xs) b
    by_answer none e k ih =
        let rest = ih k in
        record {
          before = x ∷ rest.before;
          here = rest.here;
          after = rest.after;
          parts = ap (λ t. x ∷ t) rest.parts;
          none_before = (e, rest.none_before);
          answers = rest.answers;
        }
    by_answer (some a) e k ih = record {
      before = [];
      here = x;
      after = xs;
      parts = refl;
      none_before = tt;
      answers = rw e k;
    }

-- A part of a path between two slashes, with those around it.
pub record Component (path : Chars) (component : Chars) : Type 0 where
  pub before : List Chars
  pub after : List Chars
  pub parts : split_at path b'/' ≡ before ++ component ∷ after

-- A path of the form `/data/app/…/<package>-…/….apk`.
pub record IsArchiveOf (wanted path : Chars) : Type 0 where
  pub below : Chars
  pub in_installed : path ≡ installed ++ below
  pub stem : Chars
  pub is_archive : path ≡ stem ++ archive
  pub random : Chars
  pub names_wanted : Component path (wanted ++ b'-' ∷ random)

-- An element that passes a test.
record Passing {A : Type 0} (test : A → Bool) (xs : List A) : Type 0 where
  before : List A
  here : A
  after : List A
  parts : xs ≡ before ++ here ∷ after
  passes : test here ≡ true

any-Passing : {A : Type 0} (test : A → Bool) (xs : List A) → any test xs ≡ true → Passing test xs
any-Passing test [] h = absurd cc
any-Passing test (x ∷ xs) h = elim (Bool-cases (test x)) [
  | inl e ↦ record { before = []; here = x; after = xs; parts = refl; passes = e }
  | inr e ↦
      let rest = any-Passing test xs (rw e at h) in
      record {
        before = x ∷ rest.before;
        here = rest.here;
        after = rest.after;
        parts = ap (λ t. x ∷ t) rest.parts;
        passes = rest.passes;
      }
]

dashed :
    (component wanted : Chars) (o : Option Chars)
    → strip_prefix component wanted ≡ o
    → starts_with_dash o ≡ true
    → (random : Chars) × (component ≡ wanted ++ b'-' ∷ random)
unfolding starts_with_dash
dashed component wanted none e h = absurd cc
dashed component wanted (some rest) e h =
    let (random, starts) = starts_with_sound rest (b'-' ∷ []) h in
    (random, rw (strip_prefix_sound component wanted rest e, starts) refl)

names-Component :
    (path wanted : Chars)
    → names path wanted ≡ true
    → (random : Chars) × Component path (wanted ++ b'-' ∷ random)
unfolding names
names-Component path wanted h =
    let found =
      any-Passing (λ component. starts_with_dash (strip_prefix component wanted))
        (split_at path b'/') h in
    let (random, e) = dashed found.here wanted (strip_prefix found.here wanted) refl found.passes in
    (random, record { before = found.before; after = found.after; parts = rw (← e) found.parts })

three :
    (a b c : Bool) (path : Chars) {path' : Chars}
    → (if a && b && c then some path else none) ≡ some path'
    → (a ≡ true) × (b ≡ true) × (c ≡ true) × (path ≡ path')
three a b c path h = ground arith

accepted-IsArchiveOf :
    (wanted path path' : Chars) → accepted wanted path ≡ some path' → IsArchiveOf wanted path'
unfolding accepted
accepted-IsArchiveOf wanted path path' h =
    let (a, b, c, same) =
      three (starts_with path installed) (ends_with path archive) (names path wanted) path h in
    let (below, under) = starts_with_sound path installed a in
    let (stem, ends) = ends_with_sound path archive b in
    let (random, component) = names-Component path wanted c in
    rw (← same) (record {
      below = below;
      in_installed = under;
      stem = stem;
      is_archive = ends;
      random = random;
      names_wanted = component;
    })

-- What the answer is: the path of the first line whose path is accepted.
pub record Answer (text wanted path : Chars) : Type 0 where
  pub asked : is_empty wanted ≡ false
  pub first : First (λ line. path_of line >>= λ p. accepted wanted p) (lines text) path
  pub live : path_of first.here ≡ some path
  pub right : IsArchiveOf wanted path

live_path :
    (wanted path : Chars) (o : Option Chars)
    → (o >>= λ p. accepted wanted p) ≡ some path
    → (o ≡ some path) × IsArchiveOf wanted path
live_path wanted path none h = absurd cc
live_path wanted path (some p) h = (
  unfold accepted in
      ap some ((three (starts_with p installed) (ends_with p archive) (names p wanted) p h).3),
  accepted-IsArchiveOf wanted p path h,
)

-- An archive that is answered for a package is the live path of the first line whose path is
-- accepted; the path starts in the directory of installed applications and ends like an archive,
-- and one of its components is the package, a dash and some suffix.
pub package_archive-Answer :
    (text wanted path : Chars) → package_archive text wanted ≡ some path → Answer text wanted path
unfolding package_archive
package_archive-Answer text wanted path h = elim (Bool-cases (is_empty wanted)) [
  | inl e ↦ absurd (let k = rw e at h in cc)
  | inr e ↦
      let first =
        find_map-First (λ line. path_of line >>= λ p. accepted wanted p) (lines text) path
          (rw e at h) in
      let (live, right) = live_path wanted path (path_of first.here) first.answers in
      record { asked = e; first = first; live = live; right = right }
]
