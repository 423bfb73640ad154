-- ===== src/Config/Valid.antt =====
-- What `_parse_config` of cubrid_mcp_server/config.py lets through.
use cubrid_mcp_server.Common.{
  ℕ, ◌≤◌, ◌≡◌, Bool, true, false, ◌&&◌, leb, leb→le, and_true, Bool-cases, inl, inr, Option, none,
  some, ◌++◌,
}
use cubrid_mcp_server.Common.Text.{Text, codes}
use cubrid_mcp_server.Common.Unicode.{Unicode, strip}
use cubrid_mcp_server.Common.Result.{
  ok, raise_if, Ensures, Ensures-self, Ensures-bind, Ensures-ok, Ensures-err, Ensures-raise_if,
  Ensures-all,
}
use cubrid_mcp_server.Value.{ℤ, pos, negsuc}
use cubrid_mcp_server.Config.Numbers.{python_int}
use cubrid_mcp_server.Config.{
  Floats, missing, Env, or_default, required, is_blank, to_int, positive, port_number, Config,
  to_float, parse_bool, parse_positive_int, parse_non_negative_int, parse_positive_float,
  parse_port, parse_config,
}

positive-Ensures : (key : Text) (n : ℤ) → Ensures (λ k. 1 ≤ k) (positive key n)
positive-Ensures key (negsuc n) = Ensures-err _ _
positive-Ensures key (pos n) = elim (Bool-cases (leb 1 n)) [
  | inl large ↦ rw large (Ensures-ok (λ k. 1 ≤ k) n (leb→le 1 n large))
  | inr small ↦ rw small (Ensures-err _ _)
]

port_number-Ensures :
    (key : Text) (n : ℤ) → Ensures (λ k. (1 ≤ k) × (k ≤ 65535)) (port_number key n)
port_number-Ensures key (negsuc n) = Ensures-err _ _
port_number-Ensures key (pos n) = elim (Bool-cases (leb 1 n && leb n 65535)) [
  | inl inside ↦
      let (low, high) = and_true (leb 1 n) (leb n 65535) inside in
      rw inside (Ensures-ok (λ k. (1 ≤ k) × (k ≤ 65535)) n (leb→le 1 n low, leb→le n 65535 high))
  | inr outside ↦ rw outside (Ensures-err _ _)
]

module _ (u : Unicode) (lower : Text → Text) (digit_value : ℕ → Option ℕ) (f : Floats) where
  -- The fields that a server needs are there, the port is a port and every limit is positive.
  pub record IsValid (c : Config u lower digit_value f) : Type 0 where
    pub host : is_blank (strip u c.host) ≡ false
    pub user : is_blank (strip u c.user) ≡ false
    pub database : is_blank (strip u c.database) ≡ false
    pub port : (1 ≤ c.port) × (c.port ≤ 65535)
    pub max_chars : 1 ≤ c.max_chars
    pub max_rows : 1 ≤ c.max_rows
    pub max_sql_length : 1 ≤ c.max_sql_length
    pub query_timeout : f.is_positive c.query_timeout ≡ true
    pub connect_timeout : f.is_positive c.connect_timeout ≡ true
    pub max_row_count_tables : 1 ≤ c.max_row_count_tables

  to_float-Ensures :
      (key : Text) (x : Option f.Float)
      → Ensures (λ y. f.is_positive y ≡ true) (to_float u lower digit_value f key x)
  to_float-Ensures key none = Ensures-err _ _
  to_float-Ensures key (some x) = elim (Bool-cases (f.is_positive x)) [
    | inl large ↦ rw large (Ensures-ok (λ y. f.is_positive y ≡ true) x large)
    | inr small ↦ rw small (Ensures-err _ _)
  ]

  parse_positive_int-Ensures :
      (source : Env) (key text : Text)
      → Ensures (λ k. 1 ≤ k) (parse_positive_int u lower digit_value f source key text)
  unfolding parse_positive_int
  parse_positive_int-Ensures source key text =
      Ensures-bind (λ n. Unit {0}) (λ k. 1 ≤ k)
        (to_int key (python_int u digit_value (or_default (source key) text))) (positive key)
        (Ensures-all (to_int key (python_int u digit_value (or_default (source key) text))))
        (λ n t. positive-Ensures key n)

  parse_positive_float-Ensures :
      (source : Env) (key text : Text)
      → Ensures
          (λ y. f.is_positive y ≡ true)
          (parse_positive_float u lower digit_value f source key text)
  unfolding parse_positive_float
  parse_positive_float-Ensures source key text =
      to_float-Ensures key (f.parse_float (or_default (source key) text))

  parse_port-Ensures :
      (source : Env) (key : Text)
      → Ensures (λ k. (1 ≤ k) × (k ≤ 65535)) (parse_port u lower digit_value f source key)
  unfolding parse_port
  parse_port-Ensures source key =
      Ensures-bind (λ n. Unit {0}) (λ k. (1 ≤ k) × (k ≤ 65535))
        (to_int key (python_int u digit_value (or_default (source key) (codes "33000"))))
        (port_number key)
        (Ensures-all
          (to_int key (python_int u digit_value (or_default (source key) (codes "33000")))))
        (λ n t. port_number-Ensures key n)

  all-IsValid :
      (c : Config u lower digit_value f)
      → is_blank (strip u c.host) ≡ false
      → is_blank (strip u c.user) ≡ false
      → is_blank (strip u c.database) ≡ false
      → (1 ≤ c.port) × (c.port ≤ 65535)
      → 1 ≤ c.max_chars
      → 1 ≤ c.max_rows
      → 1 ≤ c.max_sql_length
      → f.is_positive c.query_timeout ≡ true
      → f.is_positive c.connect_timeout ≡ true
      → 1 ≤ c.max_row_count_tables
      → IsValid c
  all-IsValid c host user database port chars rows sql query connect tables = record {
    host = host;
    user = user;
    database = database;
    port = port;
    max_chars = chars;
    max_rows = rows;
    max_sql_length = sql;
    query_timeout = query;
    connect_timeout = connect;
    max_row_count_tables = tables;
  }

  -- `MCP_WRITE` of the prefix reads as `b`.
  abbrev pub IsWriting : Env → Text → Bool → Type 0
  IsWriting source prefix b =
      parse_bool u lower digit_value f
        (or_default (source (prefix ++ codes "MCP_WRITE")) (codes "0"))
        (prefix ++ codes "MCP_WRITE")
      ≡ ok b

  abbrev pub IsParsed : Env → Text → Config u lower digit_value f → Type 0
  IsParsed source prefix c = IsValid c × IsWriting source prefix c.write_enabled

  pub parse_config-IsParsed :
      (source : Env) (prefix : Text)
      → Ensures (IsParsed source prefix) (parse_config u lower digit_value f source prefix)
  unfolding parse_config
  parse_config-IsParsed source prefix =
      Ensures-bind (λ n. Unit {0}) (IsParsed source prefix)
        (required (prefix ++ codes "HOST") (source (prefix ++ codes "HOST"))) _ (Ensures-all _)
        (λ host any_host.
          Ensures-bind (λ n. Unit {0}) (IsParsed source prefix)
            (required (prefix ++ codes "USER") (source (prefix ++ codes "USER"))) _ (Ensures-all _)
            (λ user any_user.
              Ensures-bind (λ n. Unit {0}) (IsParsed source prefix)
                (required (prefix ++ codes "PASSWORD") (source (prefix ++ codes "PASSWORD"))) _
                (Ensures-all _)
                (λ password any_password.
                  Ensures-bind (λ n. Unit {0}) (IsParsed source prefix)
                    (required (prefix ++ codes "DATABASE") (source (prefix ++ codes "DATABASE"))) _
                    (Ensures-all _)
                    (λ database any_database.
                      Ensures-bind _ (IsParsed source prefix)
                        (raise_if (is_blank (strip u host)) (missing (prefix ++ codes "HOST"))) _
                        (Ensures-raise_if _ _)
                        (λ no_host host_there.
                          Ensures-bind _ (IsParsed source prefix)
                            (raise_if (is_blank (strip u user)) (missing (prefix ++ codes "USER")))
                            _ (Ensures-raise_if _ _)
                            (λ no_user user_there.
                              Ensures-bind _ (IsParsed source prefix)
                                (raise_if (is_blank (strip u database))
                                  (missing (prefix ++ codes "DATABASE")))
                                _ (Ensures-raise_if _ _)
                                (λ no_database database_there.
                                  Ensures-bind _ (IsParsed source prefix)
                                    (parse_port u lower digit_value f source
                                      (prefix ++ codes "PORT"))
                                    _ (parse_port-Ensures source _)
                                    (λ port port_fits.
                                      Ensures-bind (λ n. Unit {0}) (IsParsed source prefix)
                                        (parse_bool u lower digit_value f
                                          (or_default (source (prefix ++ codes "MCP_READONLY"))
                                            (codes "1"))
                                          (prefix ++ codes "MCP_READONLY"))
                                        _ (Ensures-all _)
                                        (λ readonly any_readonly.
                                          Ensures-bind _ (IsParsed source prefix)
                                            (parse_positive_int u lower digit_value f source
                                              (prefix ++ codes "MCP_MAX_CHARS") (codes "4000"))
                                            _ (parse_positive_int-Ensures source _ _)
                                            (λ max_chars chars.
                                              Ensures-bind _ (IsParsed source prefix)
                                                (parse_positive_int u lower digit_value f source
                                                  (prefix ++ codes "MCP_MAX_ROWS") (codes "1000"))
                                                _ (parse_positive_int-Ensures source _ _)
                                                (λ max_rows rows.
                                                  Ensures-bind _ (IsParsed source prefix)
                                                    (parse_positive_int u lower digit_value f source
                                                      (prefix ++ codes "MCP_MAX_SQL_LENGTH")
                                                      (codes "65536"))
                                                    _ (parse_positive_int-Ensures source _ _)
                                                    (λ max_sql_length sql.
                                                      Ensures-bind _ (IsParsed source prefix)
                                                        (parse_positive_float u lower digit_value f
                                                          source
                                                          (prefix ++ codes "MCP_QUERY_TIMEOUT")
                                                          (codes "30"))
                                                        _ (parse_positive_float-Ensures source _ _)
                                                        (λ query_timeout query.
                                                          Ensures-bind _ (IsParsed source prefix)
                                                            (parse_positive_float u lower
                                                            digit_value f source
                                                            (prefix ++ codes "MCP_CONNECT_TIMEOUT")
                                                            (codes "10"))
                                                            _
                                                            (parse_positive_float-Ensures source _
                                                            _)
                                                            (λ connect_timeout connect.
                                                            Ensures-bind _ (IsParsed source prefix)
                                                            (parse_positive_int u lower digit_value
                                                            f source
                                                            (prefix
                                                            ++ codes "MCP_MAX_ROW_COUNT_TABLES")
                                                            (codes "50"))
                                                            _
                                                            (parse_positive_int-Ensures source _ _)
                                                            (λ max_row_count_tables tables.
                                                            Ensures-bind (λ n. Unit {0})
                                                            (IsParsed source prefix)
                                                            (parse_non_negative_int u lower
                                                            digit_value f source
                                                            (prefix
                                                            ++ codes "MCP_MAX_INLINE_BINARY_BYTES")
                                                            (codes "256"))
                                                            _ (Ensures-all _)
                                                            (λ max_inline any_max_inline.
                                                            Ensures-bind
                                                            (λ n. IsWriting source prefix n)
                                                            (IsParsed source prefix)
                                                            (parse_bool u lower digit_value f
                                                            (or_default
                                                            (source (prefix ++ codes "MCP_WRITE"))
                                                            (codes "0"))
                                                            (prefix ++ codes "MCP_WRITE"))
                                                            _ (Ensures-self _)
                                                            (λ write_enabled any_write_enabled.
                                                            Ensures-bind (λ n. Unit {0})
                                                            (IsParsed source prefix)
                                                            (parse_bool u lower digit_value f
                                                            (or_default
                                                            (source
                                                            (prefix ++ codes "MCP_AUDIT_LOG"))
                                                            (codes "0"))
                                                            (prefix ++ codes "MCP_AUDIT_LOG"))
                                                            _ (Ensures-all _)
                                                            (λ audit_log any_audit_log.
                                                            Ensures-ok (IsParsed source prefix) _ (
                                                            all-IsValid _ host_there user_there
                                                            database_there port_fits chars rows sql
                                                            query connect tables,
                                                            any_write_enabled,
                                                            )))))))))))))))))))

  pub parse_config-Ensures :
      (source : Env) (prefix : Text)
      → Ensures IsValid (parse_config u lower digit_value f source prefix)
  parse_config-Ensures source prefix = record {
    ensured = λ c e. ((parse_config-IsParsed source prefix).ensured c e).0;
  }
