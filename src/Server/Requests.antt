-- ===== src/Server/Requests.antt =====
-- The tools of cubrid_mcp_server/server.py that are offered without write mode, as the requests of a
-- client on one connection.
pub mod Schema
pub mod Reads
use cubrid_mcp_server.Common.{
  ℕ, ◌+◌, ◌≡◌, refl, ◌∙◌, Bool, true, false, Option, none, some, List, [], ◌∷◌, map,
}
use cubrid_mcp_server.Common.Text.{Text}
use cubrid_mcp_server.Common.Unicode.{Unicode, strip}
use cubrid_mcp_server.Common.Result.{Result, ok, err}
use cubrid_mcp_server.Value.{ℤ, Value, Row}
use cubrid_mcp_server.Config.{Floats, Config}
use cubrid_mcp_server.Config.Registry.{sorted}
use cubrid_mcp_server.Safety.Statement.{Statement}
use cubrid_mcp_server.Database.Exceptions.{Exc}
use cubrid_mcp_server.Database.Driver.{Driver, Db, Action, pure, ◌>>=◌}
use cubrid_mcp_server.Database.Statements.{
  fetch_all, fetch_many, health_check, owner_qualified_names, serial_attribute_column, traced_rows,
}
use cubrid_mcp_server.Database.Commits.{commits}
use cubrid_mcp_server.Database.Commits.Reads.{fetch_many-Keeps}
use cubrid_mcp_server.Database.Commits.Reads.Probes.{
  IsQuiet, bind-IsQuiet, pure-IsQuiet, fetch_all-IsQuiet, health_check-IsQuiet,
  owner_qualified_names-IsQuiet, serial_attribute_column-IsQuiet, traced_rows-IsQuiet,
}
use cubrid_mcp_server.Server.Identifiers.{Table, NameError, display, match_table, resolve_table}
use cubrid_mcp_server.Server.Counts.{
  Entry, TooMany, Counts, fetched_entry, count_matched, count_table, count_all, targets,
  with_counts, counted_targets, table_row_counts, qualified_name,
}
use cubrid_mcp_server.Server.Tools.{ToolError, Connection, query_gate, queried, execute_query}
use cubrid_mcp_server.Server.Explain.{explain_gate, cleaned, explain_behind, explain_query}
use cubrid_mcp_server.Server.Catalog.{
  owned_tables_sql, tables_sql, columns_sql, pk_columns_sql, indexes_sql, serials_sql, same_owner,
  owner_filter, hierarchy_columns, hierarchy_sql, computed, tables_query, user_tables,
  all_table_names, filtered, filter_table_names, schema_definitions, list_indexes, describe_table,
  on_table, unless_blank, with_table, schema_definitions_tool, list_indexes_tool,
  describe_table_tool, grouped_parents, hierarchy_of, list_class_hierarchy, list_serials,
}

pub data Request : Type 0 where
  all_tables serials health : Request
  filtering columns_of indexes_of describing querying explaining : Text → Request
  counting : Option (List Text) → Request
  hierarchy : Option Text → Request

module _ (u : Unicode) (lower : Text → Text) (digit_value : ℕ → Option ℕ) (f : Floats)
    (sqlparse : Text → List Statement) (int_of : Value → Result Text ℤ) (equals_one : Value → Bool)
    (text_or_empty : Value → Text) (config : Config u lower digit_value f) (d : Driver)
    (duration : ℕ) where
  -- A tool that is not audited
  abbrev pub on_db : {A : Type 0} → Action d.World A → Connection d.World → Connection d.World
  on_db m s = record s { db = (m s.db).1 }

  -- The connection after the tool has answered or raised
  unfoldable pub after : Request → Connection d.World → Connection d.World
  after all_tables s = on_db (all_table_names u lower config.user d) s
  after serials s = on_db (list_serials u lower config.user d equals_one) s
  after health s = on_db (health_check d) s
  after (filtering substring) s = on_db (filter_table_names u lower config.user d substring) s
  after (columns_of name) s = on_db (schema_definitions_tool u lower config.user d name) s
  after (indexes_of name) s = on_db (list_indexes_tool u lower config.user d name) s
  after (describing name) s = on_db (describe_table_tool u lower config.user d name) s
  after (counting requested) s =
      on_db (table_row_counts u lower int_of d config.max_row_count_tables config.user requested) s
  after (hierarchy name) s = on_db (list_class_hierarchy u lower config.user d name) s
  after (querying sql) s = (execute_query u lower digit_value f sqlparse config sql d duration s).1
  after (explaining sql) s =
      (explain_query u text_or_empty lower digit_value f sqlparse config d duration sql s).1

  unfoldable pub after_all : List Request → Connection d.World → Connection d.World
  after_all [] s = s
  after_all (r ∷ requests) s = after_all requests (after r s)
