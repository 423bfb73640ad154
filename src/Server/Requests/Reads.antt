-- ===== src/Server/Requests/Reads.antt =====
-- No tool of cubrid_mcp_server/server.py but `execute_write` commits.
use cubrid_mcp_server.Common.{ℕ, ◌≡◌, refl, ◌∙◌, Bool, Option, List, [], ◌∷◌}
use cubrid_mcp_server.Common.Text.{Text}
use cubrid_mcp_server.Common.Unicode.{Unicode}
use cubrid_mcp_server.Common.Result.{Result, ok, err}
use cubrid_mcp_server.Value.{ℤ, Value}
use cubrid_mcp_server.Config.{Floats, Config}
use cubrid_mcp_server.Safety.Statement.{Statement}
use cubrid_mcp_server.Database.Driver.{Driver}
use cubrid_mcp_server.Database.Commits.{commits}
use cubrid_mcp_server.Database.Commits.Reads.{fetch_many-Keeps}
use cubrid_mcp_server.Database.Commits.Reads.Probes.{
  IsQuiet, bind-IsQuiet, health_check-IsQuiet, traced_rows-IsQuiet,
}
use cubrid_mcp_server.Server.Tools.{ToolError, Connection, query_gate, queried, execute_query}
use cubrid_mcp_server.Server.Explain.{explain_gate, cleaned, explain_behind, explain_query}
use cubrid_mcp_server.Server.Counts.{table_row_counts}
use cubrid_mcp_server.Server.Catalog.{
  user_tables, schema_definitions_tool, list_indexes_tool, describe_table_tool,
}
use cubrid_mcp_server.Server.Requests.{
  Request, all_tables, serials, health, filtering, columns_of, indexes_of, describing, querying,
  explaining, counting, hierarchy, after, after_all,
}
use cubrid_mcp_server.Server.Requests.Schema.{
  all_table_names-IsQuiet, filter_table_names-IsQuiet, schema_definitions-IsQuiet,
  list_indexes-IsQuiet, describe_table-IsQuiet, with_table-IsQuiet, list_class_hierarchy-IsQuiet,
  list_serials-IsQuiet, user_tables-IsQuiet, count_known-IsQuiet,
}

module _ (u : Unicode) (lower : Text → Text) (digit_value : ℕ → Option ℕ) (f : Floats)
    (sqlparse : Text → List Statement) (int_of : Value → Result Text ℤ) (equals_one : Value → Bool)
    (text_or_empty : Value → Text) (config : Config u lower digit_value f) (d : Driver)
    (duration : ℕ) where
  table_row_counts-IsQuiet :
      (n : ℕ) (requested : Option (List Text))
      → IsQuiet d n
          (table_row_counts u lower int_of d config.max_row_count_tables config.user requested)
  unfolding table_row_counts
  table_row_counts-IsQuiet n requested =
      bind-IsQuiet d n (user_tables u lower config.user d) _
        (user_tables-IsQuiet u lower config.user d n)
        (λ known.
          count_known-IsQuiet u lower config.user d n int_of config.max_row_count_tables known
            requested)

  after-commits :
      (r : Request) (s : Connection d.World)
      → commits
          (after u lower digit_value f sqlparse int_of equals_one text_or_empty config d duration r
            s).db.log
        ≡ commits s.db.log
  unfolding after schema_definitions_tool list_indexes_tool describe_table_tool
  after-commits all_tables s =
      (all_table_names-IsQuiet u lower config.user d (commits s.db.log)).kept s.db refl
  after-commits serials s =
      (list_serials-IsQuiet u lower config.user d (commits s.db.log) equals_one).kept s.db refl
  after-commits health s = (health_check-IsQuiet d (commits s.db.log)).kept s.db refl
  after-commits (filtering substring) s =
      (filter_table_names-IsQuiet u lower config.user d (commits s.db.log) substring).kept s.db refl
  after-commits (columns_of name) s =
      (with_table-IsQuiet u lower config.user d (commits s.db.log) _ name _
          (λ table. schema_definitions-IsQuiet u lower config.user d (commits s.db.log) table)).kept
        s.db refl
  after-commits (indexes_of name) s =
      (with_table-IsQuiet u lower config.user d (commits s.db.log) _ name _
          (λ table. list_indexes-IsQuiet u lower config.user d (commits s.db.log) table)).kept
        s.db refl
  after-commits (describing name) s =
      (with_table-IsQuiet u lower config.user d (commits s.db.log) _ name _
          (λ table. describe_table-IsQuiet u lower config.user d (commits s.db.log) table)).kept
        s.db refl
  after-commits (counting requested) s =
      (table_row_counts-IsQuiet (commits s.db.log) requested).kept s.db refl
  after-commits (hierarchy name) s =
      (list_class_hierarchy-IsQuiet u lower config.user d (commits s.db.log) name).kept s.db refl
  after-commits (querying sql) s =
      unfold execute_query in ran (query_gate u lower digit_value f sqlparse config sql)
    where
      ran :
          (g : Result ToolError (Unit {0}))
          → commits (queried u lower digit_value f sqlparse config sql d duration g s).1.db.log
            ≡ commits s.db.log
      ran (err e) = refl
      ran (ok t) = fetch_many-Keeps d (commits s.db.log) _ sql [] _ s.db refl
  after-commits (explaining sql) s =
      unfold explain_query in
      ran (
        explain_gate u text_or_empty lower digit_value f sqlparse config
          (cleaned u text_or_empty sql))
    where
      ran :
          (g : Result ToolError (Unit {0}))
          → commits
              (explain_behind u text_or_empty lower digit_value f sqlparse config d duration sql g
                s).1.db.log
            ≡ commits s.db.log
      ran (err e) = refl
      ran (ok t) = (traced_rows-IsQuiet d (commits s.db.log) _).kept s.db refl

  -- Whatever the driver answers and raises, no sequence of requests to the tools other than
  -- `execute_write` commits anything.
  pub after_all-commits :
      (requests : List Request) (s : Connection d.World)
      → commits
          (after_all u lower digit_value f sqlparse int_of equals_one text_or_empty config d
            duration requests s).db.log
        ≡ commits s.db.log
  unfolding after_all
  after_all-commits [] s = refl
  after_all-commits (r ∷ requests) s =
      after_all-commits requests
        (after u lower digit_value f sqlparse int_of equals_one text_or_empty config d duration r s)
      ∙ after-commits r s
