-- ===== src/Database/Exceptions.antt =====
-- The exceptions that reach cubrid_mcp_server/database.py, with their chains.
use cubrid_mcp_server.Common.{Bool, true, false, not, ◌&&◌, ◌||◌}
use cubrid_mcp_server.Common.Text.{Text, codes}

pub data ErrorClass : Type 0 where
  programming_error integrity_error data_error : ErrorClass
  operational_error interface_error internal_error driver_error : ErrorClass
  timeout_error no_result_set_error database_error query_timeout_error : ErrorClass
  other_error : Text → ErrorClass

-- An exception with no chain, one with a `__cause__`, and one with a `__context__` alone. A chain
-- that Python would find to be cyclic is cut where it returns to an exception already seen.
pub data Exc : Type 0 where
  raised : ErrorClass → Exc
  caused : ErrorClass → Exc → Exc
  during : ErrorClass → Exc → Exc

abbrev pub class_of : Exc → ErrorClass
class_of (raised c) = c
class_of (caused c _) = c
class_of (during c _) = c

-- `isinstance(exc, (socket.timeout, TimeoutError))`
abbrev is_timeout_class : ErrorClass → Bool
is_timeout_class timeout_error = true
is_timeout_class _ = false

unfoldable pub is_timeout : Exc → Bool
is_timeout (raised c) = is_timeout_class c
is_timeout (caused c e) = is_timeout_class c || is_timeout e
is_timeout (during c e) = is_timeout_class c || is_timeout e

-- `_SERVER_SQL_ERRORS`
unfoldable pub is_rejection : ErrorClass → Bool
is_rejection programming_error = true
is_rejection integrity_error = true
is_rejection data_error = true
is_rejection _ = false

unfoldable pub is_server_sql_error : Exc → Bool
unfolding is_rejection is_timeout
is_server_sql_error e = is_rejection (class_of e) && not (is_timeout e)

abbrev pub is_no_result_set : ErrorClass → Bool
is_no_result_set no_result_set_error = true
is_no_result_set _ = false

-- `isinstance(exc, DatabaseError)`, with its subclass `QueryTimeoutError`
abbrev pub is_database_error : ErrorClass → Bool
is_database_error database_error = true
is_database_error query_timeout_error = true
is_database_error _ = false

-- `exc.__cause__ is None or not _is_server_sql_error(exc.__cause__)` is the negation.
unfoldable pub rejected_by_server : Exc → Bool
unfolding is_server_sql_error
rejected_by_server (raised c) = false
rejected_by_server (caused c e) = is_server_sql_error e
rejected_by_server (during c e) = false

-- The class name, all that a client sees of an exception.
unfoldable pub sanitize_error : Exc → Text
sanitize_error e = elim (class_of e) [
  | programming_error ↦ codes "ProgrammingError"
  | integrity_error ↦ codes "IntegrityError"
  | data_error ↦ codes "DataError"
  | operational_error ↦ codes "OperationalError"
  | interface_error ↦ codes "InterfaceError"
  | internal_error ↦ codes "InternalError"
  | driver_error ↦ codes "DatabaseError"
  | timeout_error ↦ codes "TimeoutError"
  | no_result_set_error ↦ codes "NoResultSetError"
  | database_error ↦ codes "DatabaseError"
  | query_timeout_error ↦ codes "QueryTimeoutError"
  | other_error name ↦ name
]
