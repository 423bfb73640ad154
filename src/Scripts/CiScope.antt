-- ===== src/Scripts/CiScope.antt =====
-- scripts/ci_scope.py: which lanes of the tests a change runs.
pub mod Tiers
use cubrid_mcp_server.Common.{
  ℕ, Bool, true, false, not, ◌&&◌, ◌||◌, ◌==◌, if◌then◌else◌, List, [], ◌∷◌, ◌++◌, any, map,
}
use cubrid_mcp_server.Common.Text.{Text, codes, text_eq, is_in, join}
use cubrid_mcp_server.Common.Unicode.{Unicode, strip}
use cubrid_mcp_server.Config.{is_blank}
use cubrid_mcp_server.Config.Registry.{sorted}
use cubrid_mcp_server.Scripts.Lines.{splitlines}

-- `fnmatchcase` on patterns whose only wildcard is `*`, which any text matches
unfoldable pub any_suffix : (Text → Bool) → Text → Bool
any_suffix p [] = p []
any_suffix p (c ∷ s) = p (c ∷ s) || any_suffix p s

abbrev pub literal : ℕ → (Text → Bool) → Text → Bool
literal c p [] = false
literal c p (x ∷ s) = c == x && p s

unfoldable pub fnmatch : Text → Text → Bool
fnmatch [] s = is_blank s
fnmatch (c ∷ p) s =
    let star = any_suffix (fnmatch p) s in
    let exact = literal c (fnmatch p) s in if c == b'*' then star else exact

-- `_match`
unfoldable pub matches : Text → List Text → Bool
matches path patterns = any (λ pattern. fnmatch pattern path) patterns

unfoldable pub self_patterns : List Text
self_patterns =
    codes ".github/workflows/ci.yml"
    ∷ codes "scripts/ci_scope.py"
    ∷ codes "tests/test_ci_scope.py"
    ∷ []

unfoldable pub deps_patterns : List Text
deps_patterns = codes "pyproject.toml" ∷ []

unfoldable pub live_endpoint_patterns : List Text
live_endpoint_patterns =
    codes "cubrid_mcp_server/database.py"
    ∷ codes "cubrid_mcp_server/context.py"
    ∷ codes "tests/conftest.py"
    ∷ codes "tests/test_integration.py"
    ∷ []

unfoldable pub runtime_patterns : List Text
runtime_patterns = codes "cubrid_mcp_server/*" ∷ codes "tests/*" ∷ []

unfoldable pub live_tooling_patterns : List Text
live_tooling_patterns = codes "Makefile" ∷ codes "scripts/run_integration.py" ∷ []

unfoldable pub tooling_patterns : List Text
tooling_patterns =
    codes "scripts/*"
    ∷ codes "Makefile"
    ∷ codes "codecov.yml"
    ∷ codes ".gitignore"
    ∷ codes ".mcpb/*"
    ∷ codes "glama.json"
    ∷ codes ".github/dependabot.yml"
    ∷ codes ".github/workflows/*"
    ∷ codes "docs-tools/*"
    ∷ codes ".github/ISSUE_TEMPLATE/*"
    ∷ codes "demos/*"
    ∷ codes "THIRD_PARTY_LICENSES.md"
    ∷ codes "docs/overrides/*"
    ∷ codes "mkdocs.yml"
    ∷ codes "agent-evals/*"
    ∷ []

unfoldable pub docs_patterns : List Text
docs_patterns =
    codes "*.md" ∷ codes "docs/*" ∷ codes "LICENSE" ∷ codes "NOTICE" ∷ codes "llms.txt" ∷ []

unfoldable pub full_events : List Text
full_events = codes "push" ∷ codes "workflow_dispatch" ∷ codes "schedule" ∷ []

unfoldable pub representative_cubrid_events : List Text
representative_cubrid_events = codes "push" ∷ []

unfoldable pub pull_request : Text
pull_request = codes "pull_request"

-- The variables of `classify`
pub record Lanes : Type 0 where
  pub full : Bool
  pub unit : Bool
  pub lowest : Bool
  pub live : Bool
  pub py_endpoints : Bool
  pub cubrid_endpoints : Bool

-- The body of the `for`
unfoldable pub select_lanes : Text → Lanes → Lanes
select_lanes path lanes =
    if matches path self_patterns
    then record lanes { full = true }
    else if matches path deps_patterns
    then record lanes {
      unit = true;
      lowest = true;
      live = true;
      py_endpoints = true;
      cubrid_endpoints = true;
    }
    else if matches path live_endpoint_patterns
    then record lanes { unit = true; live = true; cubrid_endpoints = true }
    else if matches path runtime_patterns || matches path live_tooling_patterns
    then record lanes { unit = true; live = true }
    else if matches path tooling_patterns
    then record lanes { unit = true }
    else if matches path docs_patterns
    then lanes
    else record lanes { unit = true; live = true }

unfoldable pub select_all : List Text → Lanes → Lanes
select_all [] lanes = lanes
select_all (path ∷ paths) lanes = select_all paths (select_lanes path lanes)

-- A set of texts, as a list without repetitions
unfoldable pub unique_texts : List Text → List Text
unique_texts [] = []
unique_texts (x ∷ xs) = let rest = unique_texts xs in if is_in x rest then rest else x ∷ rest

-- `[p.strip() for p in paths if p.strip()]`
unfoldable pub stripped : Unicode → List Text → List Text
stripped u [] = []
stripped u (path ∷ paths) =
    let rest = stripped u paths in if is_blank (strip u path) then rest else strip u path ∷ rest

unfoldable pub files_of : Unicode → List Text → List Text
files_of u paths = sorted (unique_texts (stripped u paths))

abbrev pub no_files : List Text → Bool
no_files [] = true
no_files (path ∷ paths) = false

-- `full` in front of the loop
unfoldable pub starts_full : Text → List Text → Bool
starts_full event files =
    let full = is_in event full_events in
    full || (not (text_eq event pull_request) || no_files files)

unfoldable pub all_lanes : Text → Lanes → Lanes
all_lanes event lanes =
    if lanes.full
    then record lanes {
      unit = true;
      lowest = true;
      live = true;
      py_endpoints = true;
      cubrid_endpoints = not (is_in event representative_cubrid_events);
    }
    else lanes

unfoldable pub lanes_of : Text → List Text → Lanes
lanes_of event files = all_lanes event (
    select_all files (record {
      full = starts_full event files;
      unit = false;
      lowest = false;
      live = false;
      py_endpoints = false;
      cubrid_endpoints = false;
    }))

pub data Tier : Type 0 where
  full_tier pr_tier docs_tier : Tier

pub record Scope : Type 0 where
  pub tier : Tier
  pub unit : Bool
  pub python : List Text
  pub lowest : Bool
  pub live : Bool
  pub cubrid : List Text

unfoldable pub tier_of : Lanes → Tier
tier_of lanes =
    if lanes.full
    then full_tier
    else if lanes.unit || (lanes.live || lanes.lowest)
    then pr_tier
    else docs_tier

unfoldable pub python_endpoints : List Text
python_endpoints = codes "3.11" ∷ codes "3.12" ∷ codes "3.14" ∷ []

unfoldable pub cubrid_versions : List Text
cubrid_versions = codes "11.2" ∷ codes "11.4" ∷ []

unfoldable pub scope_of : Lanes → Scope
scope_of lanes = record {
  tier = tier_of lanes;
  unit = lanes.unit;
  python = if lanes.py_endpoints then python_endpoints else codes "3.12" ∷ [];
  lowest = lanes.lowest;
  live = lanes.live;
  cubrid = if lanes.cubrid_endpoints then cubrid_versions else codes "11.4" ∷ [];
}

unfoldable pub classify : Unicode → Text → List Text → Scope
classify u event paths = scope_of (lanes_of event (files_of u paths))

unfoldable pub tier_text : Tier → Text
tier_text full_tier = codes "full"
tier_text pr_tier = codes "pr"
tier_text docs_tier = codes "docs"

unfoldable pub flag_text : Bool → Text
flag_text true = codes "true"
flag_text false = codes "false"

-- `json.dumps` of a list of versions, which have nothing to escape
unfoldable pub json_list : List Text → Text
json_list versions =
    b'[' ∷ (join (codes ",") (map (λ v. b'"' ∷ (v ++ b'"' ∷ [])) versions) ++ b']' ∷ [])

unfoldable pub render_scope : Scope → Text
render_scope scope =
    join (codes "\n") (
      (codes "tier=" ++ tier_text scope.tier)
      ∷ (codes "unit=" ++ flag_text scope.unit)
      ∷ (codes "python=" ++ json_list scope.python)
      ∷ (codes "lowest=" ++ flag_text scope.lowest)
      ∷ (codes "live=" ++ flag_text scope.live)
      ∷ (codes "cubrid=" ++ json_list scope.cubrid)
      ∷ [])
    ++ codes "\n"

-- `main`, from the event and what stands on stdin to what it writes
unfoldable pub scope_outputs : Unicode → Text → Text → Text
scope_outputs u event stdin = render_scope (classify u event (splitlines stdin))
