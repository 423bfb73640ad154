-- ===== src/Server/WriteMode.antt =====
-- `_write_mode_requested` of cubrid_mcp_server/server.py: whether `execute_write` is offered at all.
use cubrid_mcp_server.Common.{
  ℕ, ◌≡◌, refl, sym, Bool, false, not, ◌||◌, Option, List, [], ◌∷◌, ◌++◌, any, arith,
}
use cubrid_mcp_server.Common.Text.{Text, codes, text_eq, is_in}
use cubrid_mcp_server.Common.Unicode.{Unicode, upper, strip}
use cubrid_mcp_server.Common.Result.{
  Result, ok, err, raise_if, Ensures, Ensures-bind, Ensures-ok, Ensures-all,
}
use cubrid_mcp_server.Config.{
  Floats, ConfigError, reserved_name, invalid_name, duplicate_name, Env, default_connection,
  or_default, Config, parse_bool, parse_config,
}
use cubrid_mcp_server.Config.Valid.{IsParsed, parse_config-IsParsed}
use cubrid_mcp_server.Config.Registry.{
  is_name_pattern, Named, names, Registry, add_connections, named_connections, from_env,
}

-- `except ConfigError: continue`
abbrev pub enables : Result ConfigError Bool → Bool
enables (ok b) = b
enables (err e) = false

module _ (u : Unicode) (lower : Text → Text) (digit_value : ℕ → Option ℕ) (f : Floats) where
  -- The prefixes that the stripped parts of `CUBRID_CONNECTIONS` add.
  unfoldable pub write_prefixes : List Text → List Text
  write_prefixes [] = []
  write_prefixes ([] ∷ rest) = write_prefixes rest
  write_prefixes ((c ∷ s) ∷ rest) =
      (codes "CUBRID_" ++ (upper u (c ∷ s) ++ codes "_")) ∷ write_prefixes rest

  unfoldable pub is_write_prefix : Env → Text → Bool
  is_write_prefix env prefix = enables (
      parse_bool u lower digit_value f (or_default (env (prefix ++ codes "MCP_WRITE")) (codes "0"))
        (prefix ++ codes "MCP_WRITE"))

  unfoldable pub write_mode_requested : Env → Bool
  write_mode_requested env = any (is_write_prefix env) (
      codes "CUBRID_"
      ∷ write_prefixes (
          named_connections u lower digit_value f
            (strip u (or_default (env (codes "CUBRID_CONNECTIONS")) []))))

  abbrev is_writer : Text × Config u lower digit_value f → Bool
  is_writer x = x.1.write_enabled

  is_write_prefix-parsed :
      (env : Env) (prefix : Text) (c : Config u lower digit_value f)
      → IsParsed u lower digit_value f env prefix c
      → is_write_prefix env prefix ≡ c.write_enabled
  unfolding is_write_prefix
  is_write_prefix-parsed env prefix c h = rw h.1 refl

  any_writer-snoc :
      (configs : Named (Config u lower digit_value f)) (name : Text)
      (c : Config u lower digit_value f)
      → any is_writer (configs ++ (name, c) ∷ []) ≡ (any is_writer configs || c.write_enabled)
  any_writer-snoc [] name c = ground arith
  any_writer-snoc (x ∷ xs) name c = ground (arith, any_writer-snoc xs name c)

  -- The connections found so far and those that are still to come.
  IsOffered :
      Env
      → List Text
      → Named (Config u lower digit_value f)
      → Named (Config u lower digit_value f)
      → Type 0
  IsOffered env parts configs all =
      any is_writer all
      ≡ (any is_writer configs || any (is_write_prefix env) (write_prefixes parts))

  IsOffered-later :
      (env : Env) (c : ℕ) (s : Text) (rest : List Text)
      (configs : Named (Config u lower digit_value f)) (config : Config u lower digit_value f)
      (all : Named (Config u lower digit_value f))
      → IsParsed u lower digit_value f env
          (codes "CUBRID_" ++ (upper u (c ∷ s) ++ codes "_"))
          config
      → IsOffered env rest (configs ++ (lower (c ∷ s), config) ∷ []) all
      → IsOffered env ((c ∷ s) ∷ rest) configs all
  unfolding IsOffered write_prefixes
  IsOffered-later env c s rest configs config all parsed later = ground (
    arith,
    later,
    any_writer-snoc configs (lower (c ∷ s)) config,
    is_write_prefix-parsed env (codes "CUBRID_" ++ (upper u (c ∷ s) ++ codes "_")) config parsed,
  )

  add_connections-IsOffered :
      (env : Env) (parts : List Text) (configs : Named (Config u lower digit_value f))
      → Ensures
          (IsOffered env parts configs)
          (add_connections u lower digit_value f env parts configs)
  unfolding add_connections write_prefixes IsOffered
  add_connections-IsOffered env [] configs = Ensures-ok _ configs (ground arith)
  add_connections-IsOffered env ([] ∷ rest) configs = add_connections-IsOffered env rest configs
  add_connections-IsOffered env ((c ∷ s) ∷ rest) configs =
      Ensures-bind (λ t. Unit {0}) _
        (raise_if (not (is_name_pattern (c ∷ s))) (invalid_name (c ∷ s))) _ (Ensures-all _)
        (λ _ named.
          Ensures-bind (λ t. Unit {0}) _
            (raise_if (text_eq (lower (c ∷ s)) default_connection) reserved_name) _ (Ensures-all _)
            (λ _ free.
              Ensures-bind (λ t. Unit {0}) _
                (raise_if (is_in (lower (c ∷ s)) (names configs)) (duplicate_name (c ∷ s))) _
                (Ensures-all _)
                (λ _ new.
                  Ensures-bind _ _
                    (parse_config u lower digit_value f env
                      (codes "CUBRID_" ++ (upper u (c ∷ s) ++ codes "_")))
                    _ (parse_config-IsParsed u lower digit_value f env _)
                    (λ config parsed. record {
                      ensured = λ all e. IsOffered-later env c s rest configs config all parsed (
                          (add_connections-IsOffered env rest
                              (configs ++ (lower (c ∷ s), config) ∷ [])).ensured
                            all e);
                    }))))

  from_env-IsOffered :
      (env : Env)
      → Ensures
          (λ r. any is_writer r.configs ≡ write_mode_requested env)
          (from_env u lower digit_value f env)
  unfolding from_env write_mode_requested IsOffered
  from_env-IsOffered env =
      Ensures-bind _ _ (parse_config u lower digit_value f env (codes "CUBRID_")) _
        (parse_config-IsParsed u lower digit_value f env (codes "CUBRID_"))
        (λ config parsed.
          Ensures-bind _ _
            (add_connections u lower digit_value f env
              (named_connections u lower digit_value f
                (strip u (or_default (env (codes "CUBRID_CONNECTIONS")) [])))
              ((default_connection, config) ∷ []))
            _ (add_connections-IsOffered env _ _)
            (λ configs offered. Ensures-ok _ _ (
              ground (arith, offered, is_write_prefix-parsed env (codes "CUBRID_") config parsed))))

  -- When `from_env` returns, `_write_mode_requested` answers whether some connection, the default or
  -- a named one, has writes enabled: the scan of the write knobs agrees with the full parse.
  pub write_mode_requested_iff :
      (env : Env) (r : Registry u lower digit_value f)
      → from_env u lower digit_value f env ≡ ok r
      → write_mode_requested env ≡ any (λ x. x.1.write_enabled) r.configs
  write_mode_requested_iff env r e = sym ((from_env-IsOffered env).ensured r e)
