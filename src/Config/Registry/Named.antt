-- ===== src/Config/Registry/Named.antt =====
-- What `ConnectionRegistry.from_env` of cubrid_mcp_server/config.py returns.
use cubrid_mcp_server.Common.{
  ℕ, ◌≡◌, refl, sym, ap, true, false, not, Bool-cases, or_false, inl, inr, Option, none, some, List,
  [], ◌∷◌, ◌++◌, All, All-append, arith,
}
use cubrid_mcp_server.Common.Text.{Text, codes, text_eq, text_eq_iff, is_in}
use cubrid_mcp_server.Common.Unicode.{Unicode, upper, strip}
use cubrid_mcp_server.Common.Result.{
  ok, raise_if, Ensures, Ensures-bind, Ensures-ok, Ensures-raise_if,
}
use cubrid_mcp_server.Config.{
  Floats, reserved_name, invalid_name, duplicate_name, Env, default_connection, or_default, Config,
  parse_config,
}
use cubrid_mcp_server.Config.Valid.{IsValid, parse_config-Ensures}
use cubrid_mcp_server.Config.Registry.{
  is_name_pattern, Named, names, lookup, Registry, chosen_name, found_or, config_for,
  add_connections, named_connections, from_env,
}

abbrev pub Distinct : List Text → Type 0
Distinct [] = Unit
Distinct (x ∷ xs) = (is_in x xs ≡ false) × Distinct xs

pub text_eq-sym : (a b : Text) → text_eq a b ≡ false → text_eq b a ≡ false
text_eq-sym a b h = elim (Bool-cases (text_eq b a)) [
  | inl same ↦ absurd (cc (h, (text_eq_iff a b).1 (sym ((text_eq_iff b a).0 same))))
  | inr other ↦ other
]

is_in-snoc :
    (x y : Text) (xs : List Text)
    → is_in x xs ≡ false
    → text_eq x y ≡ false
    → is_in x (xs ++ y ∷ []) ≡ false
unfolding is_in
is_in-snoc x y [] h e = rw e refl
is_in-snoc x y (z ∷ xs) h e =
    let (first, later) = or_false (text_eq x z) (is_in x xs) h in
    rw (first, is_in-snoc x y xs later e) refl

pub Distinct-snoc :
    (xs : List Text) (y : Text) → Distinct xs → is_in y xs ≡ false → Distinct (xs ++ y ∷ [])
unfolding is_in
Distinct-snoc [] y d h = (refl, tt)
Distinct-snoc (x ∷ xs) y d h =
    let (first, later) = or_false (text_eq y x) (is_in y xs) h in
    (is_in-snoc x y xs d.0 (text_eq-sym y x first), Distinct-snoc xs y d.1 later)

pub is_in-append : (x : Text) (xs ys : List Text) → is_in x xs ≡ true → is_in x (xs ++ ys) ≡ true
unfolding is_in
is_in-append x [] ys h = cc
is_in-append x (z ∷ xs) ys h = ground (arith, is_in-append x xs ys)

pub names-snoc :
    {A : Type 0} (xs : Named A) (n : Text) (a : A) → names (xs ++ (n, a) ∷ []) ≡ names xs ++ n ∷ []
unfolding names
names-snoc [] n a = refl
names-snoc (x ∷ xs) n a = ap (◌∷◌ x.0) (names-snoc xs n a)

module _ (u : Unicode) (lower : Text → Text) (digit_value : ℕ → Option ℕ) (f : Floats) where
  -- Distinct names, each with a valid configuration.
  pub record IsNamed (configs : Named (Config u lower digit_value f)) : Type 0 where
    pub distinct : Distinct (names configs)
    pub valid : All (λ x. IsValid u lower digit_value f x.1) configs
    pub defaulted : is_in default_connection (names configs) ≡ true

  snoc_named :
      (configs : Named (Config u lower digit_value f)) (name : Text)
      (config : Config u lower digit_value f)
      → IsNamed configs
      → is_in name (names configs) ≡ false
      → IsValid u lower digit_value f config
      → IsNamed (configs ++ (name, config) ∷ [])
  snoc_named configs name config h new valid = record {
    distinct =
        rw (names-snoc configs name config) (Distinct-snoc (names configs) name h.distinct new);
    valid = All-append _ configs ((name, config) ∷ []) h.valid (valid, tt);
    defaulted =
        rw (names-snoc configs name config)
          (is_in-append default_connection (names configs) (name ∷ []) h.defaulted);
  }

  lookup-there :
      (name : Text) (configs : Named (Config u lower digit_value f))
      → is_in name (names configs) ≡ true
      → (c : Config u lower digit_value f) × (lookup name configs ≡ some c)
  unfolding lookup is_in names
  lookup-there name [] h = cc
  lookup-there name (x ∷ xs) h = elim (Bool-cases (text_eq name x.0)) [
    | inl same ↦ (x.1, rw same refl)
    | inr other ↦ let (c, e) = lookup-there name xs (rw other at h) in (c, rw (other, e) refl)
  ]

  add_connections-Ensures :
      (source : Env) (parts : List Text) (configs : Named (Config u lower digit_value f))
      → IsNamed configs
      → Ensures IsNamed (add_connections u lower digit_value f source parts configs)
  unfolding add_connections
  add_connections-Ensures source [] configs h = Ensures-ok IsNamed configs h
  add_connections-Ensures source ([] ∷ rest) configs h =
      add_connections-Ensures source rest configs h
  add_connections-Ensures source ((c ∷ s) ∷ rest) configs h =
      Ensures-bind _ IsNamed (raise_if (not (is_name_pattern (c ∷ s))) (invalid_name (c ∷ s))) _
        (Ensures-raise_if _ _)
        (λ _ named.
          Ensures-bind _ IsNamed
            (raise_if (text_eq (lower (c ∷ s)) default_connection) reserved_name) _
            (Ensures-raise_if _ _)
            (λ _ free.
              Ensures-bind _ IsNamed
                (raise_if (is_in (lower (c ∷ s)) (names configs)) (duplicate_name (c ∷ s))) _
                (Ensures-raise_if _ _)
                (λ _ new.
                  Ensures-bind _ IsNamed
                    (parse_config u lower digit_value f source
                      (codes "CUBRID_" ++ (upper u (c ∷ s) ++ codes "_")))
                    _ (parse_config-Ensures u lower digit_value f source _)
                    (λ config valid.
                      add_connections-Ensures source rest (configs ++ (lower (c ∷ s), config) ∷ [])
                        (snoc_named configs (lower (c ∷ s)) config h new valid)))))

  IsSound : Registry u lower digit_value f → Type 0
  IsSound r = IsNamed r.configs × (r.default_name ≡ default_connection)

  from_env-Ensures : (source : Env) → Ensures IsSound (from_env u lower digit_value f source)
  unfolding from_env IsSound
  from_env-Ensures source =
      Ensures-bind _ IsSound (parse_config u lower digit_value f source (codes "CUBRID_")) _
        (parse_config-Ensures u lower digit_value f source _)
        (λ config valid.
          Ensures-bind _ IsSound
            (add_connections u lower digit_value f source
              (named_connections u lower digit_value f
                (strip u (or_default (source (codes "CUBRID_CONNECTIONS")) [])))
              ((default_connection, config) ∷ []))
            _
            (add_connections-Ensures source _ _ (record {
              distinct = unfold names is_in in (refl, tt);
              valid = (valid, tt);
              defaulted = unfold names is_in text_eq in refl;
            }))
            (λ configs named. Ensures-ok IsSound _ (named, refl)))

  -- When `from_env` returns, the names of the connections are distinct and `default` is one of them,
  -- each has a host, a user and a database that are not blank, a port from 1 to 65535 and positive
  -- limits and timeouts, and without a name `config_for` finds the default connection.
  pub from_env-IsNamed :
      (source : Env) (r : Registry u lower digit_value f)
      → from_env u lower digit_value f source ≡ ok r
      → IsNamed r.configs
        × ((c : Config u lower digit_value f) × (config_for u lower digit_value f r none ≡ ok c))
  unfolding IsSound config_for chosen_name found_or
  from_env-IsNamed source r e =
      let (named, default) = (from_env-Ensures source).ensured r e in
      let (c, there) = lookup-there default_connection r.configs named.defaulted in
      (named, (c, rw (default, there) refl))
