-- ===== src/Scripts/Changelog/Standard.antt =====
-- The sections that `check_sections` of scripts/lint_changelog.py accepts.
use cubrid_mcp_server.Common.{
  ℕ, ◌≡◌, ◌↔◌, refl, true, false, ◌<◌, Bool-cases, inl, inr, Option, none, some, List, [], ◌∷◌, All,
  All-map, arith,
}
use cubrid_mcp_server.Common.Text.{Text, is_in}
use cubrid_mcp_server.Common.Unicode.{Unicode, strip}
use cubrid_mcp_server.Config.{is_blank}
use cubrid_mcp_server.Scripts.Changelog.Sections.{
  allowed_sections, Section, SectionError, index, is_last, before_last, or_error, section_error,
  check_from, check_sections,
}

-- The place of a section in the standard order
abbrev pub place : Section → ℕ
place x = index x.0 allowed_sections

-- Every section stands behind all sections in front of it.
abbrev pub AreAscending : List Section → Type 0
AreAscending [] = Unit
AreAscending (x ∷ xs) = All (λ y. place x < place y) xs × AreAscending xs

abbrev IsBehind : Option (ℕ × Text) → Section → Type 0
IsBehind none x = Unit
IsBehind (some last) x = last.0 < place x

first-none :
    (e : Option SectionError) {rest : Option SectionError}
    → or_error e rest ≡ none
    → (e ≡ none) × (rest ≡ none)
first-none none h = (refl, h)
first-none (some e) h = cc

place-IsBehind :
    (title : Text) (last : Option (ℕ × Text)) (x : Section)
    → is_last (place x) last ≡ false
    → before_last title (place x) last ≡ none
    → IsBehind last x
unfolding is_last before_last
place-IsBehind title none x h k = tt
place-IsBehind title (some last) x h k = ground arith

IsBehind-place :
    (title : Text) (last : Option (ℕ × Text)) (x : Section)
    → IsBehind last x
    → (is_last (place x) last ≡ false) × (before_last title (place x) last ≡ none)
unfolding is_last before_last
IsBehind-place title none x h = (refl, refl)
IsBehind-place title (some last) x h = ground arith

IsBehind-trans :
    (last : Option (ℕ × Text)) (x : Section) (xs : List Section)
    → IsBehind last x
    → All (λ y. place x < place y) xs
    → All (IsBehind last) xs
IsBehind-trans none x xs h k = All-map _ _ (λ y b. tt) xs k
IsBehind-trans (some last) x xs h k = All-map _ _ (λ y b. omega (arith, h, b)) xs k

module _ (u : Unicode) (digit_value : ℕ → ℕ) where
  -- A standard title, and something in the body
  abbrev pub IsFilled : Section → Type 0
  IsFilled x = (is_in x.0 allowed_sections ≡ true) × (is_blank (strip u x.1) ≡ false)

  abbrev pub AreStandard : List Section → Type 0
  AreStandard xs = All IsFilled xs × AreAscending xs

  section_error-none :
      (last : Option (ℕ × Text)) (x : Section)
      → section_error u digit_value last x ≡ none
      → IsFilled x × IsBehind last x
  unfolding section_error
  section_error-none last x h = elim (Bool-cases (is_in x.0 allowed_sections)) [
    | inr unknown ↦ cc (rw unknown at h)
    | inl known ↦ elim (Bool-cases (is_blank (strip u x.1))) [
      | inl empty ↦ cc (rw (known, empty) at h)
      | inr filled ↦ elim (Bool-cases (is_last (place x) last)) [
        | inl again ↦ cc (rw (known, filled, again) at h)
        | inr other ↦
            ((known, filled), place-IsBehind x.0 last x other (rw (known, filled, other) at h))
      ]
    ]
  ]

  none-section_error :
      (last : Option (ℕ × Text)) (x : Section)
      → IsFilled x
      → IsBehind last x
      → section_error u digit_value last x ≡ none
  unfolding section_error
  none-section_error last x h b =
      let (other, behind) = IsBehind-place x.0 last x b in rw (h.0, h.1, other) behind

  check_from-AreStandard :
      (last : Option (ℕ × Text)) (xs : List Section)
      → check_from u digit_value last xs ≡ none
      → AreStandard xs × All (IsBehind last) xs
  unfolding check_from
  check_from-AreStandard last [] h = ((tt, tt), tt)
  check_from-AreStandard last (x ∷ xs) h =
      let (here, later) = first-none (section_error u digit_value last x) h in
      let (filled, behind) = section_error-none last x here in
      let ((all, ascending), above) = check_from-AreStandard (some (place x, x.0)) xs later in
      (((filled, all), (above, ascending)), (behind, IsBehind-trans last x xs behind above))

  AreStandard-check_from :
      (last : Option (ℕ × Text)) (xs : List Section)
      → AreStandard xs
      → All (IsBehind last) xs
      → check_from u digit_value last xs ≡ none
  unfolding check_from
  AreStandard-check_from last [] h b = refl
  AreStandard-check_from last (x ∷ xs) ((filled, all), (above, ascending)) (behind, later) =
      rw (none-section_error last x filled behind)
        (AreStandard-check_from (some (place x, x.0)) xs (all, ascending) above)

  pub check_sections_iff :
      (xs : List Section) → (check_sections u digit_value xs ≡ none) ↔ AreStandard xs
  unfolding check_sections
  check_sections_iff xs = (
    λ h. (check_from-AreStandard none xs h).0,
    λ h. AreStandard-check_from none xs h (All-map _ _ (λ x i. tt) xs h.0),
  )
