-- ===== src/Safety/Errors.antt =====
-- `UnsafeSQLError` of cubrid_mcp_server/safety.py: one constructor for each message. `index_error`
-- is Python's `IndexError`, which no check means to raise.
use cubrid_mcp_server.Common.Text.{Text}

pub data Mode : Type 0 where
  read_only_mode execute_query_mode write_mode : Mode

pub data UnsafeSqlError : Type 0 where
  empty_sql ambiguous_backslash unterminated_quote no_leading_keyword index_error : UnsafeSqlError
  multi_statement : Mode → UnsafeSqlError
  not_permitted : Text → Mode → UnsafeSqlError
  changes_data : Text → Mode → UnsafeSqlError
