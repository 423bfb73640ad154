-- ===== src/Database/Statements.antt =====
-- The statements of `Database` in cubrid_mcp_server/database.py: `fetch_all`, `fetch_many`,
-- `execute_write`, `health_check` and the two probes of the catalog.
use cubrid_mcp_server.Common.{
  ℕ, zero, suc, Bool, true, false, not, ◌&&◌, leb, if◌then◌else◌, Option, none, some, List, [], ◌∷◌,
  ◌++◌, length,
}
use cubrid_mcp_server.Common.Text.{Text, codes}
use cubrid_mcp_server.Common.Result.{Result, ok, err}
use cubrid_mcp_server.Value.{ℤ, Row}
use cubrid_mcp_server.Database.Exceptions.{
  Exc, raised, caused, no_result_set_error, database_error, class_of, is_timeout, is_database_error,
  rejected_by_server, sanitize_error,
}
use cubrid_mcp_server.Database.Driver.{
  Conn, Cursor, Driver, Db, Action, version, reading, opening_cursor, executing, committing, pure,
  raise, call, catch, ◌>>=◌, ◌>>◌,
}
use cubrid_mcp_server.Database.Session.{
  get_connection, discard_connection, rollback_or_discard, safe_close_cursor, raise_timeout,
  close_opened, with_cursor, is_current, trace_enabled,
}

pub data Health : Type 0 where
  healthy : Text → Health
  unhealthy : Text → Health

-- `max_rows is not None and len(rows) >= max_rows`
abbrev pub is_full : Option ℕ → List Row → Bool
is_full none rows = false
is_full (some n) rows = leb n (length rows)

-- The inner `for` of `fetch_many`: the rows so far, and whether one was left out.
unfoldable pub take_batch : Option ℕ → List Row → List Row → List Row × Bool
take_batch max_rows rows [] = (rows, false)
take_batch max_rows rows (row ∷ batch) =
    if is_full max_rows rows then (rows, true) else take_batch max_rows (rows ++ row ∷ []) batch

-- `self._SERIAL_ATTRIBUTE_COLUMNS`
unfoldable pub serial_attribute_columns : List Text
serial_attribute_columns = codes "att_name" ∷ codes "attr_name" ∷ []

unfoldable pub owner_probe : Text
owner_probe = codes "SELECT \"owner_name\" FROM db_attribute WHERE 1 = 0"

unfoldable pub serial_probe : Text → Text
serial_probe column = codes "SELECT \"" ++ (column ++ codes "\" FROM db_serial WHERE 1 = 0")

unfoldable pub show_trace : Text
show_trace = codes "SHOW TRACE"

-- The rows of `fetch_many` and whether it left some out; `none` is out of fuel.
abbrev pub Fetched : Type 0
Fetched = Option (List Row × Bool)

module _ (d : Driver) where
  unfoldable pub require_result_set : Cursor → Action d.World (Unit {0})
  require_result_set k = do
    present ← call reading (d.has_result_set k)
    if present then pure tt else raise (raised no_result_set_error)

  abbrev pub end_of : Option Conn → Action d.World (Unit {0})
  end_of none = pure tt
  end_of (some c) = rollback_or_discard d c

  unfoldable pub end_read_transaction : Action d.World (Unit {0})
  end_read_transaction s = end_of s.connection s

  unfoldable pub fetch_all : Text → Row → Action d.World (List Row)
  fetch_all sql params = do
    rows ← with_cursor d λ k. do
      call (executing sql) (d.execute k sql params)
      require_result_set k
      call reading (d.fetch_all k)
    end_read_transaction
    pure rows

  abbrev pub go_on : (List Row → Action d.World Fetched) → List Row × Bool → Action d.World Fetched
  go_on next (kept, true) = pure (some (kept, true))
  go_on next (kept, false) = next kept

  abbrev pub after_batch :
      (List Row → Action d.World Fetched) → Option ℕ → List Row → List Row → Action d.World Fetched
  after_batch next max_rows rows [] = pure (some (rows, false))
  after_batch next max_rows rows (row ∷ more) = go_on next (take_batch max_rows rows (row ∷ more))

  -- The `while` of `fetch_many`, on fuel. An empty batch ends it.
  unfoldable pub read_batches : ℕ → Option ℕ → Cursor → List Row → Action d.World Fetched
  read_batches zero max_rows k rows = pure none
  read_batches (suc fuel) max_rows k rows =
      call reading (d.fetch_many k 100) >>= after_batch (read_batches fuel max_rows k) max_rows rows

  unfoldable pub fetch_many : ℕ → Text → Row → Option ℕ → Action d.World Fetched
  fetch_many fuel sql params max_rows = do
    rows ← with_cursor d λ k. do
      call (executing sql) (d.execute k sql params)
      require_result_set k
      read_batches fuel max_rows k []
    end_read_transaction
    pure rows

  abbrev pub write_recovery : Conn → Option Cursor → Action d.World (Unit {0})
  write_recovery c none = discard_connection d
  write_recovery c (some k) = rollback_or_discard d c

  -- The `except` and `finally` clauses of `execute_write`.
  unfoldable pub write_failed : Conn → Option Cursor → Exc → Action d.World ℤ
  write_failed c k e =
      if is_timeout e
      then raise_timeout d e
      else (write_recovery c k >> (close_opened d k >> raise (caused database_error e)))

  abbrev pub write_ended : Conn → Cursor → Result Exc ℤ × Db d.World → Result Exc ℤ × Db d.World
  write_ended c k (ok n, s) = (safe_close_cursor d k >> pure n) s
  write_ended c k (err e, s) = write_failed c (some k) e s

  abbrev pub write_opened :
      Conn → Text → Row → Result Exc Cursor × Db d.World → Result Exc ℤ × Db d.World
  write_opened c sql params (ok k, s) = write_ended c k (
      (do
        call (executing sql) (d.execute k sql params)
        affected ← call reading (d.row_count k)
        call (committing c) (d.commit c)
        pure affected)
        s)
  write_opened c sql params (err e, s) = write_failed c none e s

  unfoldable pub execute_write : Text → Row → Action d.World ℤ
  execute_write sql params = do
    c ← get_connection d
    λ s. write_opened c sql params (call (opening_cursor c) (d.open_cursor c) s)

  unfoldable pub health_check : Action d.World Health
  health_check =
      catch (do c ← get_connection d; v ← call version (d.server_version c); pure (healthy v))
        (λ e. discard_connection d >> pure (unhealthy (sanitize_error e)))

  -- `fetch_all` of a probe: whether the server knows the column. Only its rejection answers no.
  abbrev pub probe_failed : Exc → Action d.World Bool
  probe_failed e =
      if is_database_error (class_of e) && rejected_by_server e then pure false else raise e

  unfoldable pub probe : Text → Action d.World Bool
  probe sql = catch (fetch_all sql [] >> pure true) probe_failed

  abbrev pub remember_owner : Conn → Bool → Db d.World → Db d.World
  remember_owner c found s =
      if is_current s.connection c then record s { owner_names = some found } else s

  abbrev pub probe_owner : Option Bool → Action d.World Bool
  probe_owner (some known) s = (ok known, s)
  probe_owner none s =
      (do
        c ← get_connection d
        found ← probe owner_probe
        λ s'. (ok found, remember_owner c found s'))
        s

  unfoldable pub owner_qualified_names : Action d.World Bool
  owner_qualified_names s = probe_owner s.owner_names s

  -- The `for` loop over the spellings.
  unfoldable pub try_columns : Conn → List Text → Action d.World Text
  try_columns c [] = raise (raised database_error)
  try_columns c (column ∷ rest) =
      let later = try_columns c rest in
      do
        found ← probe (serial_probe column)
        λ s.
            if not (is_current s.connection c)
            then raise (raised database_error) s
            else if found
            then (ok column, record s { serial_column = some column })
            else later s

  abbrev pub probe_serial : Option Text → Action d.World Text
  probe_serial (some column) s = (ok column, s)
  probe_serial none s = (do c ← get_connection d; try_columns c serial_attribute_columns) s

  unfoldable pub serial_attribute_column : Action d.World Text
  serial_attribute_column s = probe_serial s.serial_column s

  -- The block of `explain_query` in cubrid_mcp_server/server.py: the rows of `SHOW TRACE`.
  unfoldable pub traced_rows : Text → Action d.World (List Row)
  traced_rows sql = trace_enabled d λ k. do
    call (executing sql) (d.execute k sql [])
    call (executing show_trace) (d.execute k show_trace [])
    call reading (d.fetch_all k)
