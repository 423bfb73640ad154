-- ===== src/Config.antt =====
-- cubrid_mcp_server/config.py: the settings of the connections, read from the environment.
-- `str.lower`, the value of a decimal digit of any script and `float` are parameters.
pub mod Numbers
pub mod Valid
pub mod Registry
use cubrid_mcp_server.Common.{
  ℕ, Bool, true, false, not, ◌&&◌, ◌||◌, leb, if◌then◌else◌, Option, none, some, List, [], ◌∷◌,
  ◌++◌, map,
}
use cubrid_mcp_server.Common.Text.{Text, codes, text_eq, is_in, split_on}
use cubrid_mcp_server.Common.Unicode.{Unicode, upper, strip, alpha_ascii, digit_ascii}
use cubrid_mcp_server.Common.Result.{Result, ok, err, ◌>>=◌, ◌>>◌, raise_if}
use cubrid_mcp_server.Value.{ℤ, pos, negsuc}
use cubrid_mcp_server.Config.Numbers.{python_int}

-- `float` and `isfinite(value) and value > 0`
pub record Floats : Type 1 where
  pub Float : Type 0
  pub parse_float : Text → Option Float
  pub is_positive : Float → Bool

-- The `ConfigError`s.
pub data ConfigError : Type 0 where
  missing not_integer not_positive negative not_number not_boolean : Text → ConfigError
  bad_port : Text → ℤ → ConfigError
  unknown_connection : Text → List Text → ConfigError
  invalid_name duplicate_name : Text → ConfigError
  reserved_name : ConfigError

abbrev pub Env : Type 0
Env = Text → Option Text

abbrev pub default_connection : Text
default_connection = codes "default"

-- `source.get(key, default)`
abbrev pub or_default : Option Text → Text → Text
or_default none text = text
or_default (some value) text = value

-- `source[key]`
abbrev pub required : Text → Option Text → Result ConfigError Text
required key none = err (missing key)
required key (some value) = ok value

abbrev pub is_blank : Text → Bool
is_blank [] = true
is_blank (c ∷ s) = false

abbrev pub to_int : Text → Option ℤ → Result ConfigError ℤ
to_int key none = err (not_integer key)
to_int key (some n) = ok n

abbrev pub positive : Text → ℤ → Result ConfigError ℕ
positive key (pos n) = if leb 1 n then ok n else err (not_positive key)
positive key (negsuc n) = err (not_positive key)

abbrev pub non_negative : Text → ℤ → Result ConfigError ℕ
non_negative key (pos n) = ok n
non_negative key (negsuc n) = err (negative key)

abbrev pub port_number : Text → ℤ → Result ConfigError ℕ
port_number key (pos n) = if leb 1 n && leb n 65535 then ok n else err (bad_port key (pos n))
port_number key (negsuc n) = err (bad_port key (negsuc n))

abbrev pub to_bool : Text → Bool → Bool → Result ConfigError Bool
to_bool key true off = ok true
to_bool key false true = ok false
to_bool key false false = err (not_boolean key)

unfoldable pub true_words : List Text
true_words = codes "1" ∷ codes "true" ∷ codes "yes" ∷ codes "on" ∷ []

unfoldable pub false_words : List Text
false_words = codes "0" ∷ codes "false" ∷ codes "no" ∷ codes "off" ∷ []

module _ (u : Unicode) (lower : Text → Text) (digit_value : ℕ → Option ℕ) (f : Floats) where
  pub record Config : Type 0 where
    pub host : Text
    pub port : ℕ
    pub user : Text
    pub password : Text
    pub database : Text
    pub readonly : Bool
    pub max_chars : ℕ
    pub max_rows : ℕ
    pub max_sql_length : ℕ
    pub query_timeout : f.Float
    pub connect_timeout : f.Float
    pub max_row_count_tables : ℕ
    pub max_inline_binary_bytes : ℕ
    pub audit_log : Bool
    pub write_enabled : Bool

  abbrev pub to_float : Text → Option f.Float → Result ConfigError f.Float
  to_float key none = err (not_number key)
  to_float key (some x) = if f.is_positive x then ok x else err (not_positive key)

  unfoldable pub parse_bool : Text → Text → Result ConfigError Bool
  parse_bool value key =
      to_bool key (is_in (lower (strip u value)) true_words)
        (is_in (lower (strip u value)) false_words)

  unfoldable pub parse_positive_int : Env → Text → Text → Result ConfigError ℕ
  parse_positive_int source key text =
      to_int key (python_int u digit_value (or_default (source key) text)) >>= positive key

  unfoldable pub parse_non_negative_int : Env → Text → Text → Result ConfigError ℕ
  parse_non_negative_int source key text =
      to_int key (python_int u digit_value (or_default (source key) text)) >>= non_negative key

  unfoldable pub parse_positive_float : Env → Text → Text → Result ConfigError f.Float
  parse_positive_float source key text = to_float key (f.parse_float (or_default (source key) text))

  unfoldable pub parse_port : Env → Text → Result ConfigError ℕ
  parse_port source key =
      to_int key (python_int u digit_value (or_default (source key) (codes "33000")))
      >>= port_number key

  unfoldable pub parse_config : Env → Text → Result ConfigError Config
  parse_config source prefix = do
    host ← required (prefix ++ codes "HOST") (source (prefix ++ codes "HOST"))
    user ← required (prefix ++ codes "USER") (source (prefix ++ codes "USER"))
    password ← required (prefix ++ codes "PASSWORD") (source (prefix ++ codes "PASSWORD"))
    database ← required (prefix ++ codes "DATABASE") (source (prefix ++ codes "DATABASE"))
    raise_if (is_blank (strip u host)) (missing (prefix ++ codes "HOST"))
    raise_if (is_blank (strip u user)) (missing (prefix ++ codes "USER"))
    raise_if (is_blank (strip u database)) (missing (prefix ++ codes "DATABASE"))
    port ← parse_port source (prefix ++ codes "PORT")
    readonly ←
        parse_bool (or_default (source (prefix ++ codes "MCP_READONLY")) (codes "1"))
          (prefix ++ codes "MCP_READONLY")
    max_chars ← parse_positive_int source (prefix ++ codes "MCP_MAX_CHARS") (codes "4000")
    max_rows ← parse_positive_int source (prefix ++ codes "MCP_MAX_ROWS") (codes "1000")
    max_sql_length ←
        parse_positive_int source (prefix ++ codes "MCP_MAX_SQL_LENGTH") (codes "65536")
    query_timeout ← parse_positive_float source (prefix ++ codes "MCP_QUERY_TIMEOUT") (codes "30")
    connect_timeout ←
        parse_positive_float source (prefix ++ codes "MCP_CONNECT_TIMEOUT") (codes "10")
    tables ← parse_positive_int source (prefix ++ codes "MCP_MAX_ROW_COUNT_TABLES") (codes "50")
    bytes ←
        parse_non_negative_int source (prefix ++ codes "MCP_MAX_INLINE_BINARY_BYTES") (codes "256")
    write ←
        parse_bool (or_default (source (prefix ++ codes "MCP_WRITE")) (codes "0"))
          (prefix ++ codes "MCP_WRITE")
    audit ←
        parse_bool (or_default (source (prefix ++ codes "MCP_AUDIT_LOG")) (codes "0"))
          (prefix ++ codes "MCP_AUDIT_LOG")
    ok (record {
      host = host;
      port = port;
      user = user;
      password = password;
      database = database;
      readonly = readonly;
      max_chars = max_chars;
      max_rows = max_rows;
      max_sql_length = max_sql_length;
      query_timeout = query_timeout;
      connect_timeout = connect_timeout;
      max_row_count_tables = tables;
      max_inline_binary_bytes = bytes;
      audit_log = audit;
      write_enabled = write;
    })
