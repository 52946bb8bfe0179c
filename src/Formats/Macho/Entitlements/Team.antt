-- ===== src/Formats/Macho/Entitlements/Team.antt =====
-- About the search over the keys, and the team that it gives (macho/entitlements.rs).
use fidelity.Common.{
  ℕ, zero, suc, ◌<◌, ◌≡◌, ◌≢◌, refl, ap, Bool, true, false, not, ◌||◌, Option, none, some, List, [],
  ◌∷◌, ◌++◌, length, drop, length-drop, is_empty, ◌==◌, if◌then◌else◌, ◌>>=◌, arith, Bool-cases,
  inl, inr, ==→eq, length-append, some-injective, bind_some,
}
use fidelity.Common.Utf8.{from_utf8}
use fidelity.Common.Text.{literal}
use fidelity.Common.Chars.{Chars, same_chars, as_bytes, trim, find, split_once_at}
use fidelity.Common.Chars.Laws.{find_sound, split_once_at_sound}
use fidelity.Formats.Macho.Entitlements.{
  team_key, app_id_key, open_key, close_key, acceptable, Searched, exhausted, answer, next_key,
  string_value_from, string_value, or_missing, accepted, value_after, app_id_team, first_team,
  team_of, team_identifier, team_length,
}

next_key_shorter :
    (rest : Chars) (halves : Chars × Chars)
    → next_key rest ≡ some halves
    → length halves.1 < length rest
unfolding next_key literal
next_key_shorter rest halves h = by_find (find rest open_key) refl h
  where
    by_find :
        (o : Option (Chars × Chars))
        → find rest open_key ≡ o
        → (o >>= λ f. split_once_at (drop (length open_key) f.1) close_key) ≡ some halves
        → length halves.1 < length rest
    by_find none e k = absurd cc
    by_find (some f) e k =
        let whole = find_sound rest open_key f e in
        let split = split_once_at_sound (drop (length open_key) f.1) close_key halves k in
        omega (
          arith,
          ap length whole,
          ap length split,
          length-append f.0 f.1,
          length-append halves.0 (close_key ++ halves.1),
          length-append close_key halves.1,
          length-drop (length open_key) f.1,
        )

string_value_from-ne-exhausted :
    (fuel : ℕ) (rest key : Chars) → length rest < fuel → string_value_from fuel rest key ≢ exhausted
unfolding string_value_from
string_value_from-ne-exhausted zero rest key h k = absurd (omega arith)
string_value_from-ne-exhausted (suc fuel) rest key h k =
    by_key (next_key rest) refl
      (λ halves shorter. string_value_from-ne-exhausted fuel halves.1 key shorter) k
  where
    by_key :
        (o : Option (Chars × Chars))
        → next_key rest ≡ o
        → ((halves : Chars × Chars)
            → length halves.1 < fuel
            → string_value_from fuel halves.1 key ≢ exhausted)
        → elim o [
          | none ↦ answer none
          | some halves ↦
              let later = string_value_from fuel halves.1 key in
              if same_chars (trim halves.0) key then answer (value_after halves.1) else later
        ]
          ≢ exhausted
    by_key none e ih = λ k. absurd cc
    by_key (some halves) e ih = elim (Bool-cases (same_chars (trim halves.0) key)) [
      | inl same ↦ rw same (λ k. absurd cc)
      | inr other ↦ rw other (ih halves (omega (arith, next_key_shorter rest halves e)))
    ]

-- The search for a key ends.
pub string_value-ne-exhausted : (text key : Chars) → string_value text key ≢ exhausted
unfolding string_value
string_value-ne-exhausted text key =
    string_value_from-ne-exhausted (suc (length text)) text key (omega arith)

-- Where a team may come from.
pub data Source (text team : Chars) : Type 0 where
  stated : string_value text team_key ≡ answer (some team) → Source text team
  in_app_id :
      (bundle : Chars)
      → string_value text app_id_key ≡ answer (some (team ++ b'.' ∷ bundle))
      → is_empty bundle ≡ false
      → length (as_bytes team) ≡ team_length
      → Source text team

or_missing-some : (s : Searched) (v : Chars) → or_missing s ≡ some v → s ≡ answer (some v)
unfolding or_missing
or_missing-some exhausted v h = absurd cc
or_missing-some (answer o) v h = ap answer h

accepted-some :
    (team team' : Chars) → accepted team ≡ some team' → (team ≡ team') × (acceptable team ≡ true)
unfolding accepted
accepted-some team team' h = ground arith

app_id_team_sound :
    (app_id team : Chars)
    → app_id_team app_id ≡ some team
    → (bundle : Chars) × (app_id ≡ team ++ b'.' ∷ bundle)
      × (is_empty bundle ≡ false)
      × (length (as_bytes team) ≡ team_length)
      × (acceptable team ≡ true)
unfolding app_id_team
app_id_team_sound app_id team h =
    let (halves, split, h1) = bind_some (split_once_at app_id (b'.' ∷ [])) _ team h in
    let checks =
      tests (is_empty halves.1) (length (as_bytes halves.0) == team_length) (acceptable halves.0)
        halves.0 team h1 in
    let whole = split_once_at_sound app_id (b'.' ∷ []) halves split in
    (
      halves.1,
      rw (← checks.3) whole,
      checks.0,
      rw (← checks.3) (==→eq _ _ checks.1),
      rw (← checks.3) checks.2,
    )
  where
    tests :
        (e l a : Bool) (t t' : Chars)
        → (if e || not l || not a then none else some t) ≡ some t'
        → (e ≡ false) × (l ≡ true) × (a ≡ true) × (t ≡ t')
    tests e l a t t' k = ground arith

-- A team that is answered has the form of one, and the text states it under its own key or as the prefix of
-- the App ID.
pub team_identifier-Source :
    (plist : List ℕ) (text team : Chars)
    → from_utf8 plist ≡ some text
    → team_identifier plist ≡ some team
    → (acceptable team ≡ true) × Source text team
unfolding team_identifier team_of
team_identifier-Source plist text team decoded h =
    by_direct (or_missing (string_value text team_key) >>= accepted) refl (rw decoded at h)
  where
    by_direct :
        (o : Option Chars)
        → (or_missing (string_value text team_key) >>= accepted) ≡ o
        → first_team o (or_missing (string_value text app_id_key)) ≡ some team
        → (acceptable team ≡ true) × Source text team
    by_direct (some t) e k =
        let same : t ≡ team = unfold first_team in some-injective k in
        let (v, found, checked) =
          bind_some (or_missing (string_value text team_key)) accepted t e in
        let (eq, good) = accepted-some v t checked in
        rw (← same, ← eq) (good, stated (or_missing-some (string_value text team_key) v found))
    by_direct none e k =
        let (app_id, found, split) =
          bind_some (or_missing (string_value text app_id_key)) app_id_team team
            (unfold first_team in k) in
        let (bundle, whole, filled, size, good) = app_id_team_sound app_id team split in
        (
          good,
          in_app_id bundle
              (rw (← whole) (or_missing-some (string_value text app_id_key) app_id found)) filled
              size,
        )
