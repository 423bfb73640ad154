-- ===== src/Scripts/Changelog/Sections.antt =====
-- The policy of sections in scripts/lint_changelog.py.
use cubrid_mcp_server.Common.{
  ℕ, ◌+◌, ◌*◌, Bool, true, false, not, ◌&&◌, ◌||◌, ltb, ◌==◌, if◌then◌else◌, Option, none, some,
  List, [], ◌∷◌, any,
}
use cubrid_mcp_server.Common.Text.{Text, codes, text_eq, is_in, split_on}
use cubrid_mcp_server.Common.Unicode.{Unicode, strip}
use cubrid_mcp_server.Config.{is_blank}

unfoldable pub allowed_sections : List Text
allowed_sections =
    codes "Upgrade notes"
    ∷ codes "Added"
    ∷ codes "Changed"
    ∷ codes "Deprecated"
    ∷ codes "Removed"
    ∷ codes "Fixed"
    ∷ codes "Security"
    ∷ codes "Performance"
    ∷ codes "Documentation"
    ∷ codes "CI"
    ∷ codes "Tests"
    ∷ []

unfoldable pub unreleased : Text
unreleased = codes "Unreleased"

-- A title of a section and its body, and a name of a release and its sections
abbrev pub Section : Type 0
Section = Text × Text

abbrev pub Release : Type 0
Release = Text × List Section

-- The violations that `check_sections` returns
pub data SectionError : Type 0 where
  not_standard : Text → SectionError
  empty_section : Text → SectionError
  duplicate_section : Text → SectionError
  misplaced_section : Text → Text → SectionError

-- `ALLOWED_SECTIONS.index(title)`
unfoldable pub index : Text → List Text → ℕ
index title [] = 0
index title (x ∷ xs) = let rest = index title xs in if text_eq title x then 0 else 1 + rest

-- The tests of `index` against `last`, which is `none` for -1
unfoldable pub is_last : ℕ → Option (ℕ × Text) → Bool
is_last i none = false
is_last i (some last) = i == last.0

unfoldable pub before_last : Text → ℕ → Option (ℕ × Text) → Option SectionError
before_last title i none = none
before_last title i (some last) =
    if ltb i last.0 then some (misplaced_section title last.1) else none

abbrev pub or_error : Option SectionError → Option SectionError → Option SectionError
or_error none rest = rest
or_error (some e) rest = some e

unfoldable pub is_number : (ℕ → Bool) → Text → Bool
is_number digit s = not (is_blank s) && not (any (λ c. not (digit c)) s)

-- `int` of the decimal digits
unfoldable pub int_from : (ℕ → ℕ) → ℕ → Text → ℕ
int_from value n [] = n
int_from value n (c ∷ s) = int_from value (10 * n + value c) s

-- `> SECTION_POLICY_CUTOFF`
unfoldable pub above_cutoff : ℕ → ℕ → ℕ → Bool
above_cutoff a b c = ltb 0 a || (a == 0 && (ltb 4 b || (b == 4 && ltb 0 c)))

module _ (u : Unicode) (digit_value : ℕ → ℕ) where
  unfoldable pub numbers_applied : List Text → Bool
  numbers_applied (a ∷ b ∷ c ∷ []) =
      if is_number u.is_digit a && is_number u.is_digit b && is_number u.is_digit c
      then above_cutoff (int_from digit_value 0 a) (int_from digit_value 0 b)
          (int_from digit_value 0 c)
      else true
  numbers_applied _ = true

  unfoldable pub section_policy_applies : Text → Bool
  section_policy_applies name = numbers_applied (split_on b'.' name)

  -- The loop of `check_sections`
  unfoldable pub section_error : Option (ℕ × Text) → Section → Option SectionError
  section_error last (title, body) =
      if not (is_in title allowed_sections)
      then some (not_standard title)
      else if is_blank (strip u body)
      then some (empty_section title)
      else if is_last (index title allowed_sections) last
      then some (duplicate_section title)
      else before_last title (index title allowed_sections) last

  unfoldable pub check_from : Option (ℕ × Text) → List Section → Option SectionError
  check_from last [] = none
  check_from last (x ∷ xs) =
      or_error (section_error last x) (check_from (some (index x.0 allowed_sections, x.0)) xs)

  unfoldable pub check_sections : List Section → Option SectionError
  check_sections = check_from none
