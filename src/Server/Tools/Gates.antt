-- ===== src/Server/Tools/Gates.antt =====
-- What the tools of cubrid_mcp_server/server.py let through to the database.
use cubrid_mcp_server.Common.{
  ℕ, ◌≤◌, ◌≡◌, ◌≢◌, refl, ap, ◌∙◌, Bool, true, false, not, ltb, if◌then◌else◌, Option, none, some,
  List, [], length, arith,
}
use cubrid_mcp_server.Common.Text.{Text}
use cubrid_mcp_server.Common.Unicode.{Unicode}
use cubrid_mcp_server.Common.Result.{Result, ok, err, ◌>>◌, raise_if, bind-eq-ok, raise_if-eq-ok}
use cubrid_mcp_server.Config.{Floats, Config}
use cubrid_mcp_server.Safety.Errors.{UnsafeSqlError}
use cubrid_mcp_server.Safety.Statement.{Statement}
use cubrid_mcp_server.Safety.Checks.{ensure_read_only, ensure_query_statement}
use cubrid_mcp_server.Safety.Checks.ReadOnly.{IsReadOnly, ensure_read_only_iff}
use cubrid_mcp_server.Safety.Checks.Query.{IsQuery, ensure_query_statement_iff}
use cubrid_mcp_server.Safety.Checks.Write.{IsWrite, ensure_write_allowed_iff}
use cubrid_mcp_server.Database.Driver.{Driver}
use cubrid_mcp_server.Database.Exceptions.{Exc}
use cubrid_mcp_server.Database.Statements.{Fetched}
use cubrid_mcp_server.Database.Fetch.{fetch_many-ends}
use cubrid_mcp_server.Server.Tools.{
  ToolError, Connection, checked, query_gate, write_gate, queried, execute_query, answer_of,
  too_long, unfinished, written, execute_write_tool,
}

pub checked-ok : (r : Result UnsafeSqlError (Unit {0})) → checked r ≡ ok tt → r ≡ ok tt
unfolding checked
checked-ok (ok t) h = refl
checked-ok (err e) h = cc

module _ (u : Unicode) (lower : Text → Text) (digit_value : ℕ → Option ℕ) (f : Floats) where
  module _ (sqlparse : Text → List Statement) (config : Config u lower digit_value f)
      (sql : Text) where
    -- What `execute_query` may run: a text within the limit that passes the check of its mode.
    abbrev pub MayQuery : Type 0
    MayQuery =
        (length sql ≤ config.max_sql_length)
        × (if config.readonly then IsReadOnly u sqlparse sql else IsQuery u sqlparse sql)

    -- What `execute_write` may run.
    abbrev pub MayWrite : Type 0
    MayWrite =
        (config.write_enabled ≡ true)
        × (length sql ≤ config.max_sql_length)
        × IsWrite u sqlparse sql

    fits : ltb config.max_sql_length (length sql) ≡ false → length sql ≤ config.max_sql_length
    fits h = ground arith

    check_of_mode :
        (b : Bool)
        → (if b then ensure_read_only u sqlparse sql else ensure_query_statement u sqlparse sql)
          ≡ ok tt
        → if b then IsReadOnly u sqlparse sql else IsQuery u sqlparse sql
    check_of_mode true h = (ensure_read_only_iff u sqlparse sql).0 h
    check_of_mode false h = (ensure_query_statement_iff u sqlparse sql).0 h

    query_gate-MayQuery : query_gate u lower digit_value f sqlparse config sql ≡ ok tt → MayQuery
    unfolding query_gate
    query_gate-MayQuery h =
        let (_, short, h1) = bind-eq-ok (raise_if (ltb config.max_sql_length (length sql)) _) _ h in
        (fits (raise_if-eq-ok _ _ short), check_of_mode config.readonly (checked-ok _ h1))

    write_gate-MayWrite : write_gate u lower digit_value f sqlparse config sql ≡ ok tt → MayWrite
    unfolding write_gate
    write_gate-MayWrite h =
        let (_, on, h1) = bind-eq-ok (raise_if (not config.write_enabled) _) _ h in
        let (_, short, h2) =
          bind-eq-ok (raise_if (ltb config.max_sql_length (length sql)) _) _ h1 in
        (
          ground (arith, raise_if-eq-ok _ _ on),
          fits (raise_if-eq-ok _ _ short),
          (ensure_write_allowed_iff u sqlparse sql).0 (checked-ok _ h2),
        )

    module _ (d : Driver) (duration : ℕ) where
      -- Whatever the driver does: unless the text is within the limit and passes the check of the
      -- connection's mode, `execute_query` leaves the database as it is: no call reaches the driver.
      pub execute_query_untouched :
          (s : Connection d.World)
          → ¬ MayQuery
          → (execute_query u lower digit_value f sqlparse config sql d duration s).1.db ≡ s.db
      unfolding execute_query
      execute_query_untouched s denied =
          step (query_gate u lower digit_value f sqlparse config sql) refl
        where
          step :
              (g : Result ToolError (Unit {0}))
              → query_gate u lower digit_value f sqlparse config sql ≡ g
              → (queried u lower digit_value f sqlparse config sql d duration g s).1.db ≡ s.db
          step (err e) q = refl
          step (ok t) q = absurd (denied (query_gate-MayQuery q))

      -- Whatever the driver does: unless writes are enabled for the connection and the text is within
      -- the limit and one `INSERT`, `UPDATE` or `DELETE` statement, `execute_write` leaves the database
      -- as it is: no call reaches the driver.
      pub execute_write_untouched :
          (s : Connection d.World)
          → ¬ MayWrite
          → (execute_write_tool u lower digit_value f sqlparse config sql d duration s).1.db ≡ s.db
      unfolding execute_write_tool
      execute_write_untouched s denied =
          step (write_gate u lower digit_value f sqlparse config sql) refl
        where
          step :
              (g : Result ToolError (Unit {0}))
              → write_gate u lower digit_value f sqlparse config sql ≡ g
              → (written u lower digit_value f sqlparse config sql d duration g s).1.db ≡ s.db
          step (err e) q = refl
          step (ok t) q = absurd (denied (write_gate-MayWrite q))

      gate_finishes :
          (long : Bool) (r : Result UnsafeSqlError (Unit {0}))
          → (raise_if long too_long >> checked r) ≢ err unfinished
      unfolding checked
      gate_finishes true r e = cc
      gate_finishes false (ok t) e = cc
      gate_finishes false (err x) e = cc

      query_gate_finishes : query_gate u lower digit_value f sqlparse config sql ≢ err unfinished
      unfolding query_gate
      query_gate_finishes = gate_finishes (ltb config.max_sql_length (length sql)) _

      answer_finishes :
          (r : Result Exc Fetched)
          → r ≢ ok none
          → (answer_of u lower digit_value f sqlparse config sql d duration r).0 ≢ err unfinished
      unfolding answer_of
      answer_finishes (ok none) h e = h refl
      answer_finishes (ok (some (rows, more))) h e = cc
      answer_finishes (err x) h e = cc

      -- Whatever the driver answers, the loop over its batches ends within the fuel that
      -- `execute_query` gives it: the tool returns an answer or raises an error of the source.
      pub execute_query_finishes :
          (s : Connection d.World)
          → (execute_query u lower digit_value f sqlparse config sql d duration s).0
            ≢ err unfinished
      unfolding execute_query
      execute_query_finishes s = step (query_gate u lower digit_value f sqlparse config sql) refl
        where
          step :
              (g : Result ToolError (Unit {0}))
              → query_gate u lower digit_value f sqlparse config sql ≡ g
              → (queried u lower digit_value f sqlparse config sql d duration g s).0
                ≢ err unfinished
          step (err e) q h =
              let same : e ≡ unfinished = cc h in query_gate_finishes (q ∙ ap err same)
          step (ok t) q h = answer_finishes _ (fetch_many-ends d config.max_rows sql [] s.db) h
