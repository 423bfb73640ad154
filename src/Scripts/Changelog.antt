-- ===== src/Scripts/Changelog.antt =====
-- scripts/lint_changelog.py: what makes CHANGELOG.md a valid one. `packaging.version` is a parameter.
pub mod Sections
pub mod Pass
pub mod Standard
pub mod Descending
pub mod Valid
use cubrid_mcp_server.Common.{
  ℕ, ◌≡◌, ◌+◌, ◌*◌, Bool, true, false, not, ◌&&◌, ◌||◌, ltb, ◌==◌, if◌then◌else◌, Option, none,
  some, List, [], ◌∷◌, ◌++◌, any, length,
}
use cubrid_mcp_server.Common.Text.{Text, codes, text_eq, is_in, split_on}
use cubrid_mcp_server.Common.Unicode.{Unicode, strip}
use cubrid_mcp_server.Common.Result.{Result, ok, err, raise_if, ◌>>=◌, ◌>>◌}
use cubrid_mcp_server.Config.{is_blank}
use cubrid_mcp_server.Server.Identifiers.{keep}
use cubrid_mcp_server.Scripts.Changelog.Sections.{unreleased}
use cubrid_mcp_server.Scripts.Changelog.Pass.{
  LintError, not_found, no_versions, first_section, many_unreleased, duplicate_version,
  out_of_order, headers_of, releases_of, check_releases,
}

-- `packaging.version`: `Version(v)`, none for an InvalidVersion, and `>`, a total order
pub record Packaging : Type 1 where
  pub Version : Type 0
  pub parse : Text → Option Version
  pub is_greater : Version → Version → Bool
  pub greater_trans :
      (a b c : Version) → is_greater b a ≡ false → is_greater c b ≡ false → is_greater c a ≡ false

-- Rule 3
unfoldable pub repeated : List Text → List Text → Option Text
repeated seen [] = none
repeated seen (v ∷ vs) = let rest = repeated (v ∷ seen) vs in if is_in v seen then some v else rest

-- Rule 4, over the versions that can be parsed
module _ (p : Packaging) where
  unfoldable pub is_above : p.Version → Option (p.Version × Text) → Option Text
  is_above current none = none
  is_above current (some prev) = if p.is_greater current prev.0 then some prev.1 else none

  abbrev pub unless_above :
      Text → Option Text → Result LintError (Unit {0}) → Result LintError (Unit {0})
  unless_above v none rest = rest
  unless_above v (some prev) rest = err (out_of_order v prev)

  -- One round of the loop, with the rounds that follow
  abbrev pub order_round :
      Option (p.Version × Text)
      → Text
      → Option p.Version
      → (Option (p.Version × Text) → Result LintError (Unit {0}))
      → Result LintError (Unit {0})
  order_round prev v none rest = rest prev
  order_round prev v (some current) rest =
      unless_above v (is_above current prev) (rest (some (current, v)))

  unfoldable pub order_from : Option (p.Version × Text) → List Text → Result LintError (Unit {0})
  order_from prev [] = ok tt
  order_from prev (v ∷ vs) = order_round prev v (p.parse v) (λ prev'. order_from prev' vs)

-- Without `packaging` the order is not looked at.
unfoldable pub check_order : Option Packaging → List Text → Result LintError (Unit {0})
check_order none versions = ok tt
check_order (some p) versions = order_from p none versions

-- Rules 1 to 4
unfoldable pub unique_versions : Option Text → Result LintError (Unit {0})
unique_versions none = ok tt
unique_versions (some v) = err (duplicate_version v)

unfoldable pub released_versions : List Text → List Text
released_versions headers = keep (λ h. not (text_eq h unreleased)) headers

unfoldable pub count_unreleased : List Text → ℕ
count_unreleased [] = 0
count_unreleased (h ∷ hs) =
    let rest = count_unreleased hs in if text_eq h unreleased then 1 + rest else rest

unfoldable pub check_versions : Option Packaging → List Text → Result LintError (Unit {0})
check_versions p versions = unique_versions (repeated [] versions) >> check_order p versions

unfoldable pub check_headers : Option Packaging → List Text → Result LintError (Unit {0})
check_headers p [] = err no_versions
check_headers p (h ∷ hs) =
    raise_if (not (text_eq h unreleased)) (first_section h)
    >> raise_if (ltb 1 (count_unreleased (h ∷ hs))) (many_unreleased (count_unreleased (h ∷ hs)))
    >> check_versions p (released_versions (h ∷ hs))

unfoldable pub lint :
    Unicode → (ℕ → ℕ) → Option Packaging → Option Text → Result LintError (Unit {0})
lint u digit_value p none = err not_found
lint u digit_value p (some content) = releases_of u digit_value content >>= λ releases.
    check_releases u digit_value releases >> check_headers p (headers_of u digit_value content)

-- What `main` returns
unfoldable pub exit_status : Result LintError (Unit {0}) → ℕ
exit_status (ok done) = 0
exit_status (err e) = 1
