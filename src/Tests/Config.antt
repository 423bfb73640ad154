-- ===== src/Tests/Config.antt =====
-- cubrid_mcp_server/config.py and the lookups of context.py on a concrete environment.
use cubrid_mcp_server.Common.{
  ℕ, ◌-◌, ◌≡◌, refl, true, false, leb, if◌then◌else◌, Option, none, some, [], ◌∷◌, length,
}
use cubrid_mcp_server.Common.Text.{Text, codes, text_eq, is_in, add_first, split_on, lstrip, rstrip}
use cubrid_mcp_server.Common.Unicode.{ascii, digit_ascii, upper, strip}
use cubrid_mcp_server.Common.Result.{ok}
use cubrid_mcp_server.Config.{
  Floats, Env, default_connection, Config, true_words, false_words, parse_bool, parse_positive_int,
  parse_non_negative_int, parse_positive_float, parse_port, parse_config,
}
use cubrid_mcp_server.Config.Numbers.{number, digit_run, magnitude, signed, python_int}
use cubrid_mcp_server.Config.Registry.{
  Registry, all_name_chars, names, lookup, chosen_name, found_or, sorted, config_for,
  add_connections, named_connections, from_env,
}
use cubrid_mcp_server.Config.Registry.Named.{IsNamed, from_env-IsNamed}
use cubrid_mcp_server.Server.WriteMode.{write_mode_requested, write_mode_requested_iff}
use cubrid_mcp_server.Context.Lookups.{IsMeant, named, AreAnswers, context_of-lookups}

abbrev digit : ℕ → Option ℕ
digit c = if digit_ascii c then some (c - b'0') else none

abbrev same : Text → Text
same s = s

-- A timeout is known by the length of its text.
abbrev measured : Floats
measured = record { Float = ℕ; parse_float = λ s. some (length s); is_positive = λ n. leb 1 n }

abbrev env : Env
env key = lookup key (
    (codes "CUBRID_HOST", codes "db")
    ∷ (codes "CUBRID_USER", codes "dba")
    ∷ (codes "CUBRID_PASSWORD", [])
    ∷ (codes "CUBRID_DATABASE", codes "demodb")
    ∷ (codes "CUBRID_PORT", codes " 3_000 ")
    ∷ [])

abbrev demo : Config ascii same digit measured
demo = record {
  host = codes "db";
  port = 3000;
  user = codes "dba";
  password = [];
  database = codes "demodb";
  readonly = true;
  max_chars = 4000;
  max_rows = 1000;
  max_sql_length = 65536;
  query_timeout = 2;
  connect_timeout = 2;
  max_row_count_tables = 50;
  max_inline_binary_bytes = 256;
  audit_log = false;
  write_enabled = false;
}

abbrev demo_registry : Registry ascii same digit measured
demo_registry = record {
  configs = (default_connection, demo) ∷ [];
  default_name = default_connection;
}

reads_env : from_env ascii same digit measured env ≡ ok demo_registry
unfolding from_env add_connections named_connections parse_config parse_port parse_bool true_words
    false_words parse_positive_int parse_non_negative_int parse_positive_float number digit_run
    magnitude signed python_int lookup names text_eq is_in strip lstrip rstrip split_on add_first
    upper all_name_chars
reads_env = refl

finds_default :
    config_for ascii same digit measured demo_registry (some (codes " default ")) ≡ ok demo
unfolding config_for chosen_name found_or lookup names sorted text_eq strip lstrip rstrip
finds_default = refl

from_env-IsNamed_example :
    IsNamed ascii same digit measured demo_registry.configs
    × ((c : Config ascii same digit measured) × (config_for ascii same digit measured demo_registry
            none
          ≡ ok c))
from_env-IsNamed_example = from_env-IsNamed ascii same digit measured env demo_registry reads_env

spaced_name :
    IsMeant ascii same digit measured ℕ default_connection
      (some (codes " default "))
      (strip ascii (codes " default "))
unfolding strip lstrip rstrip
spaced_name = named (codes " default ") refl

context_of-lookups_example :
    AreAnswers ascii same digit measured ℕ 3 demo_registry
      (some (codes " default "))
      (strip ascii (codes " default "))
      (lookup (strip ascii (codes " default ")) demo_registry.configs)
context_of-lookups_example =
    context_of-lookups ascii same digit measured ℕ 3 demo_registry (some (codes " default "))
      (strip ascii (codes " default ")) spaced_name

-- The same server twice; only the second connection may write.
abbrev writing_env : Env
writing_env key = lookup key (
    (codes "CUBRID_HOST", codes "db")
    ∷ (codes "CUBRID_USER", codes "dba")
    ∷ (codes "CUBRID_PASSWORD", [])
    ∷ (codes "CUBRID_DATABASE", codes "demodb")
    ∷ (codes "CUBRID_PORT", codes "3000")
    ∷ (codes "CUBRID_CONNECTIONS", codes " rw, ")
    ∷ (codes "CUBRID_RW_HOST", codes "db")
    ∷ (codes "CUBRID_RW_USER", codes "dba")
    ∷ (codes "CUBRID_RW_PASSWORD", [])
    ∷ (codes "CUBRID_RW_DATABASE", codes "demodb")
    ∷ (codes "CUBRID_RW_PORT", codes "3000")
    ∷ (codes "CUBRID_RW_MCP_WRITE", codes "on")
    ∷ [])

abbrev writing_registry : Registry ascii same digit measured
writing_registry = record {
  configs = (default_connection, demo) ∷ (codes "rw", record demo { write_enabled = true }) ∷ [];
  default_name = default_connection;
}

reads_writing_env : from_env ascii same digit measured writing_env ≡ ok writing_registry
unfolding from_env add_connections named_connections parse_config parse_port parse_bool true_words
    false_words parse_positive_int parse_non_negative_int parse_positive_float number digit_run
    magnitude signed python_int lookup names text_eq is_in strip lstrip rstrip split_on add_first
    upper all_name_chars
reads_writing_env = refl

write_mode_requested_iff_example : write_mode_requested ascii same digit measured writing_env ≡ true
write_mode_requested_iff_example =
    write_mode_requested_iff ascii same digit measured writing_env writing_registry
      reads_writing_env
