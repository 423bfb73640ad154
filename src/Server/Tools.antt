-- ===== src/Server/Tools.antt =====
-- The tools `execute_query` and `execute_write` of cubrid_mcp_server/server.py, for the connection
-- that the client selected. How long a call took is the parameter `duration`.
pub mod Gates
use cubrid_mcp_server.Common.{
  ℕ, ◌+◌, Bool, true, false, not, ◌||◌, ltb, if◌then◌else◌, Option, none, some, List, [], ◌∷◌, ◌++◌,
  length,
}
use cubrid_mcp_server.Common.Text.{Text, codes}
use cubrid_mcp_server.Common.Unicode.{Unicode}
use cubrid_mcp_server.Common.Result.{Result, ok, err, ◌>>=◌, ◌>>◌, raise_if}
use cubrid_mcp_server.Value.{ℤ, pos, Row}
use cubrid_mcp_server.Config.{Floats, Config}
use cubrid_mcp_server.Safety.Errors.{UnsafeSqlError, index_error}
use cubrid_mcp_server.Safety.Statement.{Statement}
use cubrid_mcp_server.Safety.Checks.{ensure_read_only, ensure_query_statement, ensure_write_allowed}
use cubrid_mcp_server.Database.Exceptions.{Exc, sanitize_error}
use cubrid_mcp_server.Database.Driver.{Driver, Db}
use cubrid_mcp_server.Database.Statements.{Fetched, fetch_many, execute_write}
use cubrid_mcp_server.Audit.{AuditLog, Outcome, track}
use cubrid_mcp_server.Server.Render.{Cell, Rendered, render_rows}

-- What a tool raises: a `ValueError` of its own, the error of a check, or that of the database.
-- `unfinished` stands for a loop cut off by its fuel.
pub data ToolError : Type 0 where
  too_long write_disabled empty_statement not_explainable unfinished : ToolError
  unsafe : UnsafeSqlError → ToolError
  failed : Exc → ToolError

-- `type(exc).__name__`
unfoldable pub class_name : ToolError → Text
class_name too_long = codes "ValueError"
class_name write_disabled = codes "ValueError"
class_name empty_statement = codes "ValueError"
class_name not_explainable = codes "ValueError"
class_name unfinished = []
class_name (unsafe index_error) = codes "IndexError"
class_name (unsafe e) = codes "UnsafeSQLError"
class_name (failed e) = sanitize_error e

pub record Answer : Type 0 where
  pub row_count : ℕ
  pub truncated : Bool
  pub rows : List (List Cell)

-- The database and the audit log of the connection.
pub record Connection (W : Type 0) : Type 0 where
  pub db : Db W
  pub audit : AuditLog

-- A check, as part of a tool.
unfoldable pub checked : Result UnsafeSqlError (Unit {0}) → Result ToolError (Unit {0})
checked (ok t) = ok tt
checked (err e) = err (unsafe e)

abbrev pub no_outcome : Outcome
no_outcome = record { row_count = none; truncated = none }

module _ (u : Unicode) (lower : Text → Text) (digit_value : ℕ → Option ℕ) (f : Floats) where
  module _ (sqlparse : Text → List Statement) (config : Config u lower digit_value f)
      (sql : Text) where
    -- The tests of `execute_query` in front of the database.
    unfoldable pub query_gate : Result ToolError (Unit {0})
    query_gate =
        raise_if (ltb config.max_sql_length (length sql)) too_long
        >> checked (
            if config.readonly
            then ensure_read_only u sqlparse sql
            else ensure_query_statement u sqlparse sql)

    -- The tests of `execute_write` in front of the database.
    unfoldable pub write_gate : Result ToolError (Unit {0})
    write_gate =
        raise_if (not config.write_enabled) write_disabled
        >> (raise_if (ltb config.max_sql_length (length sql)) too_long
            >> checked (ensure_write_allowed u sqlparse sql))

    module _ (d : Driver) (duration : ℕ) where
      abbrev pub answered : Bool → Rendered → Answer
      answered row_truncated rendered = record {
        row_count = length rendered.rows;
        truncated = rendered.truncated || row_truncated;
        rows = rendered.rows;
      }

      abbrev pub outcome_of : Answer → Outcome
      outcome_of a = record { row_count = some (pos a.row_count); truncated = some a.truncated }

      -- The `with` block of `execute_query` behind the fetch: the answer and the outcome.
      unfoldable pub answer_of : Result Exc Fetched → Result ToolError Answer × Outcome
      answer_of (err e) = (err (failed e), no_outcome)
      answer_of (ok none) = (err unfinished, no_outcome)
      answer_of (ok (some (rows, row_truncated))) =
          let a =
            answered row_truncated
              (render_rows rows config.max_chars config.max_inline_binary_bytes) in
          (ok a, outcome_of a)

      -- The block with its audit record.
      abbrev pub closed_block :
          {A : Type 0}
          → Text
          → Result ToolError A × Outcome
          → Db d.World
          → AuditLog
          → Result ToolError A × Connection d.World
      closed_block tool (r, outcome) db audit = (
        r,
        record { db = db; audit = track u class_name tool (some sql) duration outcome r audit },
      )

      abbrev pub queried :
          Result ToolError (Unit {0})
          → Connection d.World
          → Result ToolError Answer × Connection d.World
      queried (err e) s = closed_block (codes "execute_query") (err e, no_outcome) s.db s.audit
      queried (ok t) s =
          let (fetched, db) =
            fetch_many d (config.max_rows + 1) sql [] (some config.max_rows) s.db in
          closed_block (codes "execute_query") (answer_of fetched) db s.audit

      unfoldable pub execute_query :
          Connection d.World → Result ToolError Answer × Connection d.World
      execute_query s = queried query_gate s

      unfoldable pub affected_rows : Result Exc ℤ → Result ToolError ℤ × Outcome
      affected_rows (err e) = (err (failed e), no_outcome)
      affected_rows (ok n) = (ok n, record { row_count = some n; truncated = none })

      abbrev pub written :
          Result ToolError (Unit {0}) → Connection d.World → Result ToolError ℤ × Connection d.World
      written (err e) s = closed_block (codes "execute_write") (err e, no_outcome) s.db s.audit
      written (ok t) s =
          let (affected, db) = execute_write d sql [] s.db in
          closed_block (codes "execute_write") (affected_rows affected) db s.audit

      -- The tool of that name.
      unfoldable pub execute_write_tool :
          Connection d.World → Result ToolError ℤ × Connection d.World
      execute_write_tool s = written write_gate s
