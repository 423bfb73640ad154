-- ===== src/Server/Explain.antt =====
-- The tool `explain_query` of cubrid_mcp_server/server.py. `text_or_empty` is Python's
-- `str(value or "")` on a value of the driver.
pub mod Plans
use cubrid_mcp_server.Common.{
  ℕ, ◌-◌, Bool, true, false, not, ◌||◌, ltb, ◌==◌, if◌then◌else◌, Option, none, some, List, [], ◌∷◌,
  ◌++◌, length, take,
}
use cubrid_mcp_server.Common.Text.{Text, codes, text_eq, rstrip}
use cubrid_mcp_server.Common.Unicode.{Unicode, strip}
use cubrid_mcp_server.Common.Result.{Result, ok, err, ◌>>=◌, ◌>>◌, raise_if}
use cubrid_mcp_server.Value.{Value, Row}
use cubrid_mcp_server.Config.{Floats, Config, is_blank}
use cubrid_mcp_server.Safety.Errors.{UnsafeSqlError}
use cubrid_mcp_server.Safety.Statement.{Statement}
use cubrid_mcp_server.Safety.Checks.{statement_keyword, ensure_read_only}
use cubrid_mcp_server.Database.Exceptions.{Exc}
use cubrid_mcp_server.Database.Driver.{Driver}
use cubrid_mcp_server.Database.Statements.{traced_rows}
use cubrid_mcp_server.Audit.{Outcome, track}
use cubrid_mcp_server.Server.Tools.{
  ToolError, too_long, empty_statement, not_explainable, unsafe, failed, class_name, Connection,
  checked, no_outcome,
}

pub record Explanation : Type 0 where
  pub sql : Text
  pub plan : Text
  pub truncated : Bool

-- `keyword in {"SELECT", "WITH"}`
unfoldable pub is_explainable : Option Text → Bool
is_explainable none = false
is_explainable (some keyword) = text_eq keyword (codes "SELECT") || text_eq keyword (codes "WITH")

-- What `statement_keyword` raises goes on.
unfoldable pub explainable : Result UnsafeSqlError (Option Text) → Result ToolError (Unit {0})
explainable (ok keyword) = raise_if (not (is_explainable keyword)) not_explainable
explainable (err e) = err (unsafe e)

-- `plan[:max_chars - 1]`; with a limit of 0 it is `plan[:-1]`.
unfoldable pub cut_plan : ℕ → Text → Text
cut_plan max_chars plan =
    if max_chars == 0 then take (length plan - 1) plan else take (max_chars - 1) plan

module _ (u : Unicode) (text_or_empty : Value → Text) where
  -- `sql.strip().rstrip(";").strip()`
  unfoldable pub cleaned : Text → Text
  cleaned sql = strip u (rstrip (λ c. c == b';') (strip u sql))

  -- The plan in the rows of `SHOW TRACE`
  unfoldable pub plan_of : List Row → Text
  plan_of [] = []
  plan_of ([] ∷ rows) = []
  plan_of ((v ∷ vs) ∷ rows) = strip u (text_or_empty v)

  module _ (lower : Text → Text) (digit_value : ℕ → Option ℕ) (f : Floats)
      (sqlparse : Text → List Statement) (config : Config u lower digit_value f) where
    -- The tests in front of the database, on the cleaned statement.
    unfoldable pub explain_gate : Text → Result ToolError (Unit {0})
    explain_gate sql =
        raise_if (is_blank sql) empty_statement
        >> (raise_if (ltb config.max_sql_length (length sql)) too_long
            >> (explainable (statement_keyword u sqlparse sql)
                >> checked (ensure_read_only u sqlparse sql)))

    unfoldable pub explained : Text → Text → Explanation
    explained sql plan = record {
      sql = sql;
      plan =
          if ltb config.max_chars (length plan)
          then cut_plan config.max_chars plan ++ 8230 ∷ []
          else plan;
      truncated = ltb config.max_chars (length plan);
    }

    abbrev pub plan_outcome : Explanation → Outcome
    plan_outcome e = record { row_count = none; truncated = some e.truncated }

    unfoldable pub explanation_of :
        Text → Result Exc (List Row) → Result ToolError Explanation × Outcome
    explanation_of sql (err e) = (err (failed e), no_outcome)
    explanation_of sql (ok rows) = let e = explained sql (plan_of rows) in (ok e, plan_outcome e)

    module _ (d : Driver) (duration : ℕ) (sql : Text) where
      -- The block with its audit record, which is about the statement as it was given.
      abbrev pub explain_closed :
          Result ToolError Explanation × Outcome
          → Connection d.World
          → Result ToolError Explanation × Connection d.World
      explain_closed (r, outcome) s = (
        r,
        record s {
          audit = track u class_name (codes "explain_query") (some sql) duration outcome r s.audit;
        },
      )

      abbrev pub explain_behind :
          Result ToolError (Unit {0})
          → Connection d.World
          → Result ToolError Explanation × Connection d.World
      explain_behind (err e) s = explain_closed (err e, no_outcome) s
      explain_behind (ok t) s =
          let (rows, db) = traced_rows d (cleaned sql) s.db in
          explain_closed (explanation_of (cleaned sql) rows) (record s { db = db })

      unfoldable pub explain_query :
          Connection d.World → Result ToolError Explanation × Connection d.World
      explain_query s = explain_behind (explain_gate (cleaned sql)) s
