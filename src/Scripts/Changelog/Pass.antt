-- ===== src/Scripts/Changelog/Pass.antt =====
-- The pass of scripts/lint_changelog.py over the lines of CHANGELOG.md.
use cubrid_mcp_server.Common.{
  ℕ, Bool, true, false, not, ◌&&◌, ◌==◌, if◌then◌else◌, Option, none, some, List, [], ◌∷◌, ◌++◌,
  any,
}
use cubrid_mcp_server.Common.Text.{Text, codes, text_eq, split_on}
use cubrid_mcp_server.Common.Unicode.{Unicode, strip}
use cubrid_mcp_server.Common.Result.{Result, ok, err, ◌>>=◌}
use cubrid_mcp_server.Scripts.Lines.{splitlines}
use cubrid_mcp_server.Scripts.Patterns.{strip_prefix}
use cubrid_mcp_server.Scripts.Changelog.Sections.{
  Section, Release, SectionError, section_policy_applies, check_sections,
}

pub data LintError : Type 0 where
  not_found : LintError
  header_in_fence : LintError
  duplicate_heading : Text → Text → LintError
  unclosed_fence : LintError
  bad_section : Text → SectionError → LintError
  no_versions : LintError
  first_section : Text → LintError
  many_unreleased : ℕ → LintError
  duplicate_version : Text → LintError
  out_of_order : Text → Text → LintError

-- The state of the pass over the lines
pub record Pass : Type 0 where
  pub section : Text
  pub seen_subsections : List (Text × Text)
  pub releases : List Release
  pub in_fence : Bool

abbrev pub has_prefix : Text → Text → Bool
has_prefix p s = elim (strip_prefix p s) [ none ↦ false | some rest ↦ true ]

-- `\S+` and `]`: the longest text without white space in front of a bracket
abbrev pub or_bracket : ℕ → Option Text → Option Text
or_bracket c (some t) = some (c ∷ t)
or_bracket c none = if c == b']' then some [] else none

abbrev pub unless_empty : Option Text → Option Text
unless_empty (some (c ∷ t)) = some (c ∷ t)
unless_empty _ = none

-- `releases[-1][1]`: a new section, or a line more of the body of the last
unfoldable pub add_to_body : Text → List Section → List Section
add_to_body line [] = []
add_to_body line ((title, body) ∷ []) = (title, body ++ (line ++ 10 ∷ [])) ∷ []
add_to_body line (x ∷ y ∷ sections) = x ∷ add_to_body line (y ∷ sections)

unfoldable pub add_line : Option Text → Text → Release → Release
add_line (some title) line (name, sections) = (name, sections ++ (title, []) ∷ [])
add_line none line (name, sections) = (name, add_to_body line sections)

unfoldable pub add_to_last : Option Text → Text → List Release → List Release
add_to_last heading line [] = []
add_to_last heading line (r ∷ []) = add_line heading line r ∷ []
add_to_last heading line (r ∷ r' ∷ rs) = r ∷ add_to_last heading line (r' ∷ rs)

-- `key in seen_subsections`, and the end of the body of the loop
unfoldable pub is_seen : Text → Text → List (Text × Text) → Bool
is_seen section heading seen = any (λ key. text_eq section key.0 && text_eq heading key.1) seen

module _ (u : Unicode) (digit_value : ℕ → ℕ) where
  -- `^## \[(\S+)\]` at the head of a text
  unfoldable pub before_bracket : Text → Option Text
  before_bracket [] = none
  before_bracket (c ∷ s) =
      let rest = before_bracket s in if u.is_space c then none else or_bracket c rest

  unfoldable pub bracketed : Option Text → Option Text
  bracketed none = none
  bracketed (some s) = unless_empty (before_bracket s)

  unfoldable pub header_name : Text → Option Text
  header_name line = bracketed (strip_prefix (codes "## [") line)

  -- `^###\s+(.+)$` on a line, stripped: a space and one character more at least
  unfoldable pub title_behind : Option Text → Option Text
  title_behind (some (c ∷ d ∷ s)) = if u.is_space c then some (strip u (d ∷ s)) else none
  title_behind _ = none

  unfoldable pub heading_title : Text → Option Text
  heading_title line = title_behind (strip_prefix (codes "###") line)

  -- `re.findall` with MULTILINE, where `^` is behind a line feed
  abbrev pub with_name : Option Text → List Text → List Text
  with_name none rest = rest
  with_name (some name) rest = name ∷ rest

  unfoldable pub names_of : List Text → List Text
  names_of [] = []
  names_of (line ∷ lines) = with_name (header_name line) (names_of lines)

  unfoldable pub headers_of : Text → List Text
  headers_of content = names_of (split_on 10 content)

  unfoldable pub subsection : Text → Pass → Result LintError Pass
  subsection line pass =
      if not (has_prefix (codes "### ") line && section_policy_applies u digit_value pass.section)
      then ok pass
      else if is_seen pass.section (strip u line) pass.seen_subsections
      then err (duplicate_heading (strip u line) pass.section)
      else ok
          (record pass { seen_subsections = (pass.section, strip u line) ∷ pass.seen_subsections })

  unfoldable pub fenced : Text → Pass → Result LintError Pass
  fenced line pass =
      if has_prefix (codes "```") line
      then ok (record pass { in_fence = not pass.in_fence })
      else if pass.in_fence
      then ok pass
      else subsection line pass

  unfoldable pub entered : Option Text → Text → Pass → Result LintError Pass
  entered (some name) line pass =
      ok (record pass { section = name; releases = pass.releases ++ (name, []) ∷ [] })
  entered none line pass = fenced line (record pass {
    releases = add_to_last (if pass.in_fence then none else heading_title line) line pass.releases;
  })

  unfoldable pub read_line : Text → Pass → Result LintError Pass
  read_line line pass =
      if pass.in_fence && has_prefix (codes "## [") line
      then err header_in_fence
      else entered (if pass.in_fence then none else header_name line) line pass

  unfoldable pub read_lines : List Text → Pass → Result LintError Pass
  read_lines [] pass = ok pass
  read_lines (line ∷ lines) pass = read_line line pass >>= read_lines lines

  unfoldable pub releases_of : Text → Result LintError (List Release)
  releases_of content =
      read_lines (splitlines content)
        (record { section = []; seen_subsections = []; releases = []; in_fence = false })
      >>= λ pass. if pass.in_fence then err unclosed_fence else ok pass.releases

  -- Rule 6
  abbrev pub if_error :
      Text → Option SectionError → Result LintError (Unit {0}) → Result LintError (Unit {0})
  if_error name none rest = rest
  if_error name (some e) rest = err (bad_section name e)

  unfoldable pub check_releases : List Release → Result LintError (Unit {0})
  check_releases [] = ok tt
  check_releases ((name, sections) ∷ rs) =
      if_error name
        (if section_policy_applies u digit_value name
          then check_sections u digit_value sections
          else none)
        (check_releases rs)
