-- ===== src/Config/Registry.antt =====
-- `ConnectionRegistry` of cubrid_mcp_server/config.py: the default connection and the named ones.
pub mod Named
use cubrid_mcp_server.Common.{
  ℕ, Bool, true, false, not, ◌&&◌, ◌||◌, ◌==◌, if◌then◌else◌, Option, none, some, List, [], ◌∷◌,
  ◌++◌, map,
}
use cubrid_mcp_server.Common.Text.{Text, codes, text_eq, is_in, split_on}
use cubrid_mcp_server.Common.Unicode.{Unicode, upper, strip, alpha_ascii, digit_ascii}
use cubrid_mcp_server.Common.Result.{Result, ok, err, ◌>>=◌, ◌>>◌, raise_if}
use cubrid_mcp_server.Safety.Statement.{text_ltb}
use cubrid_mcp_server.Config.{
  Floats, ConfigError, unknown_connection, invalid_name, duplicate_name, reserved_name, Env,
  default_connection, or_default, is_blank, Config, parse_config,
}

-- `_NAME_PATTERN.fullmatch(name)`
unfoldable pub all_name_chars : Text → Bool
all_name_chars [] = true
all_name_chars (c ∷ s) = (alpha_ascii c || digit_ascii c || c == b'_') && all_name_chars s

abbrev pub is_name_pattern : Text → Bool
is_name_pattern [] = false
is_name_pattern (c ∷ s) = all_name_chars (c ∷ s)

-- `sorted(names)`
abbrev pub insert : Text → List Text → List Text
insert x [] = x ∷ []
insert x (y ∷ ys) = let later = y ∷ insert x ys in if text_ltb y x then later else x ∷ y ∷ ys

unfoldable pub sorted : List Text → List Text
sorted [] = []
sorted (x ∷ xs) = insert x (sorted xs)

-- A mapping from names, in the order of insertion, and its lookup.
abbrev pub Named : Type 0 → Type 0
Named A = List (Text × A)

unfoldable pub names : {A : Type 0} → Named A → List Text
names [] = []
names (x ∷ xs) = x.0 ∷ names xs

unfoldable pub lookup : {A : Type 0} → Text → Named A → Option A
lookup name [] = none
lookup name (x ∷ xs) = let later = lookup name xs in if text_eq name x.0 then some x.1 else later

module _ (u : Unicode) (lower : Text → Text) (digit_value : ℕ → Option ℕ) (f : Floats) where
  -- `connection.strip().lower() if connection and connection.strip() else default`
  unfoldable pub chosen_name : Text → Option Text → Text
  chosen_name default none = default
  chosen_name default (some connection) =
      if is_blank (strip u connection) then default else lower (strip u connection)

  pub record Registry : Type 0 where
    pub configs : Named (Config u lower digit_value f)
    pub default_name : Text

  unfoldable pub found_or : {A : Type 0} → Text → List Text → Option A → Result ConfigError A
  found_or name available (some c) = ok c
  found_or name available none = err (unknown_connection name available)

  unfoldable pub config_for :
      Registry → Option Text → Result ConfigError (Config u lower digit_value f)
  config_for registry connection =
      found_or (chosen_name registry.default_name connection) (sorted (names registry.configs))
        (lookup (chosen_name registry.default_name connection) registry.configs)

  -- The `for` of `from_env`, over the stripped parts.
  unfoldable pub add_connections :
      Env
      → List Text
      → Named (Config u lower digit_value f)
      → Result ConfigError (Named (Config u lower digit_value f))
  add_connections source [] configs = ok configs
  add_connections source ([] ∷ rest) configs = add_connections source rest configs
  add_connections source ((c ∷ s) ∷ rest) configs = do
    raise_if (not (is_name_pattern (c ∷ s))) (invalid_name (c ∷ s))
    raise_if (text_eq (lower (c ∷ s)) default_connection) reserved_name
    raise_if (is_in (lower (c ∷ s)) (names configs)) (duplicate_name (c ∷ s))
    config ←
        parse_config u lower digit_value f source
          (codes "CUBRID_" ++ (upper u (c ∷ s) ++ codes "_"))
    add_connections source rest (configs ++ (lower (c ∷ s), config) ∷ [])

  unfoldable pub named_connections : Text → List Text
  named_connections [] = []
  named_connections (c ∷ s) = map (strip u) (split_on b',' (c ∷ s))

  unfoldable pub from_env : Env → Result ConfigError Registry
  from_env source = do
    config ← parse_config u lower digit_value f source (codes "CUBRID_")
    configs ←
        add_connections source
          (named_connections (strip u (or_default (source (codes "CUBRID_CONNECTIONS")) [])))
          ((default_connection, config) ∷ [])
    ok (record { configs = configs; default_name = default_connection })
