-- ===== src/Database/Session.antt =====
-- The connection of `Database` in cubrid_mcp_server/database.py: `connect`, `close`,
-- `_discard_connection`, `_rollback_or_discard`, `_safe_close_cursor`, `_timeout_error`, the context
-- managers `cursor`, `exclusive` and `trace_enabled`, and `_reset_trace_state`. Every action runs with
-- the lock held, so one runs at a time.
use cubrid_mcp_server.Common.{Bool, true, false, ◌&&◌, ◌==◌, if◌then◌else◌, Option, none, some, []}
use cubrid_mcp_server.Common.Text.{Text, codes}
use cubrid_mcp_server.Common.Result.{Result, ok, err}
use cubrid_mcp_server.Database.Exceptions.{
  Exc, caused, database_error, query_timeout_error, class_of, is_timeout, is_server_sql_error,
  is_no_result_set, is_database_error,
}
use cubrid_mcp_server.Database.Driver.{
  Conn, Cursor, Driver, Db, Action, connect, opening_cursor, executing, rolling_back, closing,
  closing_cursor, pure, raise, call, catch, ◌>>=◌, ◌>>◌,
}

unfoldable pub set_trace_on : Text
set_trace_on = codes "SET TRACE ON"

unfoldable pub set_trace_off : Text
set_trace_off = codes "SET TRACE OFF"

abbrev pub is_open : Option Cursor → Bool
is_open none = false
is_open (some k) = true

-- `self._connection is connection`
abbrev pub is_current : Option Conn → Conn → Bool
is_current none c = false
is_current (some c') c = c' == c

module _ (d : Driver) where
  -- `self._connection = pycubrid.connect(...)`, or `DatabaseError` from what it raised
  abbrev pub opened : Result Exc Conn × Db d.World → Result Exc Conn × Db d.World
  opened (ok c, s) = (ok c, record s { connection = some c })
  opened (err e, s) = (err (caused database_error e), s)

  abbrev pub reuse : Option Conn → Action d.World Conn
  reuse (some c) s = (ok c, s)
  reuse none s = opened (call connect d.connect s)

  unfoldable pub get_connection : Action d.World Conn
  get_connection s = reuse s.connection s

  abbrev pub forget : Db d.World → Db d.World
  forget s = record s { connection = none; serial_column = none; owner_names = none }

  -- `except Exception` of the close: its result is dropped
  abbrev pub close_old : Option Conn → Action d.World (Unit {0})
  close_old none s = (ok tt, s)
  close_old (some c) s = (ok tt, (call (closing c) (d.close c) s).1)

  unfoldable pub discard_connection : Action d.World (Unit {0})
  discard_connection s = close_old s.connection (forget s)

  -- `finally: self._connection = None`
  abbrev pub close_at_end : Option Conn → Action d.World (Unit {0})
  close_at_end none s = (ok tt, s)
  close_at_end (some c) s =
      let (r, s') = call (closing c) (d.close c) s in (r, record s' { connection = none })

  unfoldable pub close : Action d.World (Unit {0})
  close s = close_at_end s.connection (record s { serial_column = none; owner_names = none })

  unfoldable pub safe_close_cursor : Cursor → Action d.World (Unit {0})
  safe_close_cursor k s = (ok tt, (call closing_cursor (d.close_cursor k) s).1)

  unfoldable pub rollback_or_discard : Conn → Action d.World (Unit {0})
  rollback_or_discard c = catch (call (rolling_back c) (d.rollback c)) (λ _. discard_connection)

  -- `raise self._timeout_error(exc) from exc`
  unfoldable pub raise_timeout : {A : Type 0} → Exc → Action d.World A
  raise_timeout e = discard_connection >> raise (caused query_timeout_error e)

  -- `if cursor is not None: self._safe_close_cursor(cursor)`
  abbrev pub close_opened : Option Cursor → Action d.World (Unit {0})
  close_opened none = pure tt
  close_opened (some k) = safe_close_cursor k

  -- The `except` and `finally` clauses of `cursor`.
  unfoldable pub cursor_failed : {A : Type 0} → Conn → Option Cursor → Exc → Action d.World A
  cursor_failed c k e =
      if is_no_result_set (class_of e)
      then (rollback_or_discard c >> (close_opened k >> raise e))
      else if is_timeout e
      then raise_timeout e
      else ((if is_open k && is_server_sql_error e
            then rollback_or_discard c
            else discard_connection)
          >> (close_opened k >> raise (caused database_error e)))

  abbrev pub cursor_used :
      {A : Type 0} → Conn → Cursor → Result Exc A × Db d.World → Result Exc A × Db d.World
  cursor_used c k (ok a, s) = (safe_close_cursor k >> pure a) s
  cursor_used c k (err e, s) = cursor_failed c (some k) e s

  abbrev pub cursor_opened :
      {A : Type 0}
      → Conn
      → (Cursor → Action d.World A)
      → Result Exc Cursor × Db d.World
      → Result Exc A × Db d.World
  cursor_opened c body (ok k, s) = cursor_used c k (body k s)
  cursor_opened c body (err e, s) = cursor_failed c none e s

  -- `with self.cursor() as cursor: body`
  unfoldable pub with_cursor : {A : Type 0} → (Cursor → Action d.World A) → Action d.World A
  with_cursor body = do
    c ← get_connection
    λ s. cursor_opened c body (call (opening_cursor c) (d.open_cursor c) s)

  unfoldable pub exclusive_failed : {A : Type 0} → Bool → Conn → Exc → Action d.World A
  exclusive_failed rollback_on_sql_error c e s =
      if is_timeout e
      then raise_timeout e s
      else ((if is_server_sql_error e
              then (if rollback_on_sql_error && is_current s.connection c
                  then rollback_or_discard c
                  else pure tt)
              else discard_connection)
            >> raise (if is_database_error (class_of e) then e else caused database_error e))
          s

  -- `with self.exclusive(...) as connection: body`
  unfoldable pub exclusive : {A : Type 0} → Bool → (Conn → Action d.World A) → Action d.World A
  exclusive rollback_on_sql_error body = do
    c ← get_connection
    catch (body c) (exclusive_failed rollback_on_sql_error c)

  abbrev pub closing_after :
      {A : Type 0} → Cursor → Result Exc A × Db d.World → Result Exc A × Db d.World
  closing_after k (r, s) = (r, (safe_close_cursor k s).1)

  unfoldable pub reset_trace_state : Conn → Action d.World (Unit {0})
  reset_trace_state c =
      catch
        (do
          k ← call (opening_cursor c) (d.open_cursor c)
          λ s. closing_after k (call (executing set_trace_off) (d.execute k set_trace_off []) s)
          call (rolling_back c) (d.rollback c))
        (λ _. discard_connection)

  -- The `except` and `finally` clauses of `trace_enabled`.
  unfoldable pub trace_ended :
      {A : Type 0} → Conn → Cursor → Result Exc A × Db d.World → Result Exc A × Db d.World
  trace_ended c k (ok a, s) = (safe_close_cursor k >> (reset_trace_state c >> pure a)) s
  trace_ended c k (err e, s) =
      if is_timeout e
      then (err e, s)
      else (safe_close_cursor k >> (reset_trace_state c >> raise e)) s

  -- `with self.trace_enabled() as cursor: body`
  unfoldable pub trace_enabled : {A : Type 0} → (Cursor → Action d.World A) → Action d.World A
  trace_enabled body = exclusive false λ c. do
    k ← call (opening_cursor c) (d.open_cursor c)
    λ s. trace_ended c k ((call (executing set_trace_on) (d.execute k set_trace_on []) >> body k) s)
