-- ===== src/Context/Lookups.antt =====
-- The lookups of cubrid_mcp_server/context.py by the name of a connection.
use cubrid_mcp_server.Common.{
  ℕ, ◌≡◌, refl, ap, true, false, Bool-cases, inl, inr, Option, none, some, [], ◌∷◌,
}
use cubrid_mcp_server.Common.Text.{Text, text_eq}
use cubrid_mcp_server.Common.Unicode.{Unicode, strip}
use cubrid_mcp_server.Common.Result.{ok, err}
use cubrid_mcp_server.Config.{Floats, Config, is_blank, unknown_connection}
use cubrid_mcp_server.Config.Registry.{
  Named, Registry, names, sorted, lookup, chosen_name, found_or, config_for,
}
use cubrid_mcp_server.Context.{
  no_config, new_database, item, new_databases, new_audits, context_of, validated, database_for,
  audit_for,
}

module _ (u : Unicode) (lower : Text → Text) (digit_value : ℕ → Option ℕ) (f : Floats)
    (W : Type 0) where
  databases-lookup :
      (name : Text) (w : W) (configs : Named (Config u lower digit_value f))
      (c : Config u lower digit_value f)
      → lookup name configs ≡ some c
      → lookup name (new_databases u lower digit_value f W w configs) ≡ some (new_database w c)
  unfolding lookup new_databases
  databases-lookup name w [] c e = cc
  databases-lookup name w (x ∷ rest) c e = elim (Bool-cases (text_eq name x.0)) [
    | inl same ↦
        let e' : some x.1 ≡ some c = rw same at e in
        let same_config : x.1 ≡ c = cc e' in
        rw same (ap (λ (z : Config u lower digit_value f). some (new_database w z)) same_config)
    | inr other ↦ rw other (databases-lookup name w rest c (rw other at e))
  ]

  audits-lookup :
      (name : Text) (configs : Named (Config u lower digit_value f))
      (c : Config u lower digit_value f)
      → lookup name configs ≡ some c
      → lookup name (new_audits u lower digit_value f W configs)
        ≡ some (record { enabled = c.audit_log; records = [] })
  unfolding lookup new_audits
  audits-lookup name [] c e = cc
  audits-lookup name (x ∷ rest) c e = elim (Bool-cases (text_eq name x.0)) [
    | inl same ↦
        let e' : some x.1 ≡ some c = rw same at e in
        let same_config : x.1 ≡ c = cc e' in
        rw same (
          ap
            (λ (z : Config u lower digit_value f).
              some (record { enabled = z.audit_log; records = [] }))
            same_config)
    | inr other ↦ rw other (audits-lookup name rest c (rw other at e))
  ]

  -- The connection that a client means: the default without a name, or with a blank one
  pub data IsMeant (default : Text) : Option Text → Text → Type 0 where
    no_name : IsMeant default none default
    blank_name :
        (connection : Text)
        → is_blank (strip u connection) ≡ true
        → IsMeant default (some connection) default
    named :
        (connection : Text)
        → is_blank (strip u connection) ≡ false
        → IsMeant default (some connection) (lower (strip u connection))

  IsMeant-chosen :
      (default : Text) (connection : Option Text) (name : Text)
      → IsMeant default connection name
      → chosen_name u lower digit_value f default connection ≡ name
  unfolding chosen_name
  IsMeant-chosen default _ _ no_name = refl
  IsMeant-chosen default _ _ (blank_name connection h) = rw h refl
  IsMeant-chosen default _ _ (named connection h) = rw h refl

  -- The answers of both lookups in the context of a registry, for the configuration of a name, if
  -- there is one
  abbrev pub AreAnswers :
      W
      → Registry u lower digit_value f
      → Option Text
      → Text
      → Option (Config u lower digit_value f)
      → Type 0
  AreAnswers w r connection name (some c) =
      (database_for u lower digit_value f W (context_of u lower digit_value f W w r) connection
        ≡ ok (new_database w c))
      × (audit_for u lower digit_value f W (context_of u lower digit_value f W w r) connection
          ≡ ok (record { enabled = c.audit_log; records = [] }))
  AreAnswers w r connection name none =
      (database_for u lower digit_value f W (context_of u lower digit_value f W w r) connection
        ≡ err (no_config (unknown_connection name (sorted (names r.configs)))))
      × (audit_for u lower digit_value f W (context_of u lower digit_value f W w r) connection
          ≡ err (no_config (unknown_connection name (sorted (names r.configs)))))

  answers :
      (w : W) (r : Registry u lower digit_value f) (connection : Option Text) (name : Text)
      (o : Option (Config u lower digit_value f))
      → chosen_name u lower digit_value f r.default_name connection ≡ name
      → lookup name r.configs ≡ o
      → AreAnswers w r connection name o
  unfolding database_for audit_for context_of validated item config_for found_or
  answers w r connection name (some c) is e = (
    rw (is, e, databases-lookup name w r.configs c e) refl,
    rw (is, e, audits-lookup name r.configs c e) refl,
  )
  answers w r connection name none is e = (rw (is, e) refl, rw (is, e) refl)

  -- In a new context, for the connection that a client means: when the registry has a configuration
  -- of that name, the database for it is a new one with that configuration and without a connection,
  -- and its audit logger is enabled exactly as that configuration says; otherwise both lookups raise
  -- that the connection is unknown, with the sorted names of the registry.
  pub context_of-lookups :
      (w : W) (r : Registry u lower digit_value f) (connection : Option Text) (name : Text)
      → IsMeant r.default_name connection name
      → AreAnswers w r connection name (lookup name r.configs)
  context_of-lookups w r connection name meant =
      answers w r connection name (lookup name r.configs)
        (IsMeant-chosen r.default_name connection name meant) refl
