-- ===== src/Database/Settled/Runs.antt =====
-- Any sequence of calls of the methods of `Database` that end what they start, from a new object. The
-- context managers `cursor` and `exclusive` leave that to the caller, and are not among them.
use cubrid_mcp_server.Common.{ℕ, refl, Option, none, List, [], ◌∷◌}
use cubrid_mcp_server.Common.Text.{Text}
use cubrid_mcp_server.Common.Result.{Result, ok, err}
use cubrid_mcp_server.Value.{Row}
use cubrid_mcp_server.Database.Exceptions.{Exc}
use cubrid_mcp_server.Database.Driver.{
  Conn, Cursor, Driver, Db, Action, executing, reading, call, continue, pure, ◌>>=◌,
}
use cubrid_mcp_server.Database.Session.{close, trace_enabled}
use cubrid_mcp_server.Database.Statements.{
  fetch_all, fetch_many, execute_write, health_check, owner_qualified_names,
  serial_attribute_column, traced_rows, show_trace,
}
use cubrid_mcp_server.Database.Settled.{IsSettled}
use cubrid_mcp_server.Database.Settled.Session.{Holds, Keeps}
use cubrid_mcp_server.Database.Settled.Trace.{trace_enabled-IsSettled}
use cubrid_mcp_server.Database.Settled.Statements.{fetch_all-IsSettled, fetch_many-IsSettled}
use cubrid_mcp_server.Database.Settled.Writes.{
  execute_write-IsSettled, close-IsSettled, health_check-IsSettled,
}
use cubrid_mcp_server.Database.Settled.Probes.{
  owner_qualified_names-IsSettled, serial_attribute_column-IsSettled,
}

-- A call of a cursor in a `with` block
pub data CursorCall : Type 0 where
  executing_sql : Text → Row → CursorCall
  reading_all reading_count asking_results : CursorCall
  reading_many : ℕ → CursorCall

-- `tracing` is the block of `explain_query`, `tracing_calls` any other block of `trace_enabled`.
pub data Operation : Type 0 where
  fetching : Text → Row → Operation
  fetching_many : ℕ → Text → Row → Option ℕ → Operation
  writing : Text → Row → Operation
  tracing : Text → Operation
  tracing_calls : List CursorCall → Operation
  checking_health probing_owner probing_serial closing_down : Operation

-- `Database(config)`
abbrev pub fresh : {W : Type 0} → W → Db W
fresh w = record {
  connection = none;
  serial_column = none;
  owner_names = none;
  world = w;
  log = [];
}

module _ (d : Driver) where
  unfoldable pub cursor_call : Cursor → CursorCall → Action d.World (Unit {0})
  cursor_call k (executing_sql sql params) = call (executing sql) (d.execute k sql params)
  cursor_call k reading_all = call reading (d.fetch_all k) >>= λ _. pure tt
  cursor_call k reading_count = call reading (d.row_count k) >>= λ _. pure tt
  cursor_call k asking_results = call reading (d.has_result_set k) >>= λ _. pure tt
  cursor_call k (reading_many n) = call reading (d.fetch_many k n) >>= λ _. pure tt

  unfoldable pub cursor_calls : List CursorCall → Cursor → Action d.World (Unit {0})
  cursor_calls [] k = pure tt
  cursor_calls (x ∷ xs) k = cursor_call k x >>= λ _. cursor_calls xs k

  -- The state after one method, whether it returns or raises.
  unfoldable pub run : Operation → Db d.World → Db d.World
  run (fetching sql params) s = (fetch_all d sql params s).1
  run (fetching_many fuel sql params max_rows) s = (fetch_many d fuel sql params max_rows s).1
  run (writing sql params) s = (execute_write d sql params s).1
  run (tracing sql) s = (traced_rows d sql s).1
  run (tracing_calls calls) s = (trace_enabled d (cursor_calls calls) s).1
  run checking_health s = (health_check d s).1
  run probing_owner s = (owner_qualified_names d s).1
  run probing_serial s = (serial_attribute_column d s).1
  run closing_down s = (close d s).1

  unfoldable pub run_all : List Operation → Db d.World → Db d.World
  run_all [] s = s
  run_all (op ∷ ops) s = run_all ops (run op s)

  continue-Holds :
      {A B : Type 0} (c : Conn) (x : Result Exc A × Db d.World) (m : Action d.World B)
      → Holds c x.1
      → Keeps d c m
      → Holds c (continue x (λ _. m)).1
  continue-Holds c (ok a, s) m p h = h s p
  continue-Holds c (err e, s) m p h = p

  cursor_call-Keeps : (c : Conn) (k : Cursor) (x : CursorCall) → Keeps d c (cursor_call k x)
  unfolding cursor_call
  cursor_call-Keeps c k (executing_sql sql params) s p = p
  cursor_call-Keeps c k reading_all s p = continue-Holds c _ (pure tt) p (λ s' p'. p')
  cursor_call-Keeps c k reading_count s p = continue-Holds c _ (pure tt) p (λ s' p'. p')
  cursor_call-Keeps c k asking_results s p = continue-Holds c _ (pure tt) p (λ s' p'. p')
  cursor_call-Keeps c k (reading_many n) s p = continue-Holds c _ (pure tt) p (λ s' p'. p')

  cursor_calls-Keeps :
      (c : Conn) (calls : List CursorCall) (k : Cursor) → Keeps d c (cursor_calls calls k)
  unfolding cursor_calls
  cursor_calls-Keeps c [] k s p = p
  cursor_calls-Keeps c (x ∷ xs) k s p =
      continue-Holds c (cursor_call k x s) (cursor_calls xs k) (cursor_call-Keeps c k x s p)
        (cursor_calls-Keeps c xs k)

  traced_rows-IsSettled :
      (sql : Text) (s : Db d.World) → IsSettled s → IsSettled (traced_rows d sql s).1
  unfolding traced_rows
  traced_rows-IsSettled sql s h =
      trace_enabled-IsSettled d (List Row) _ s
        (λ c k s1 p1. continue-Holds c (call (executing sql) (d.execute k sql []) s1) _ p1 (λ s2 p2.
          continue-Holds c (call (executing show_trace) (d.execute k show_trace []) s2) _ p2
            (λ s3 p3. p3)))
        h

  run-IsSettled : (op : Operation) (s : Db d.World) → IsSettled s → IsSettled (run op s)
  unfolding run
  run-IsSettled (fetching sql params) s h = fetch_all-IsSettled d sql params s h
  run-IsSettled (fetching_many fuel sql params max_rows) s h =
      fetch_many-IsSettled d fuel sql params max_rows s h
  run-IsSettled (writing sql params) s h = execute_write-IsSettled d sql params s h
  run-IsSettled (tracing sql) s h = traced_rows-IsSettled sql s h
  run-IsSettled (tracing_calls calls) s h =
      trace_enabled-IsSettled d (Unit {0}) (cursor_calls calls) s (λ c. cursor_calls-Keeps c calls)
        h
  run-IsSettled checking_health s h = health_check-IsSettled d s h
  run-IsSettled probing_owner s h = owner_qualified_names-IsSettled d s h
  run-IsSettled probing_serial s h = serial_attribute_column-IsSettled d s h
  run-IsSettled closing_down s h = close-IsSettled d s

  run_all_settles :
      (ops : List Operation) (s : Db d.World) → IsSettled s → IsSettled (run_all ops s)
  unfolding run_all
  run_all_settles [] s h = h
  run_all_settles (op ∷ ops) s h = run_all_settles ops (run op s) (run-IsSettled op s h)

  -- Whatever the driver answers, after any sequence of calls of `fetch_all`, `fetch_many`,
  -- `execute_write`, `health_check`, `close`, the two probes and `trace_enabled` around any calls of its
  -- cursor, from a new `Database`, whether each returned or raised: a connection that is kept has no
  -- statement since the last successful connect or the last successful commit or rollback of that
  -- connection, and without a connection no probe of the catalog is remembered.
  pub run_all-IsSettled : (ops : List Operation) (w : d.World) → IsSettled (run_all ops (fresh w))
  run_all-IsSettled ops w = run_all_settles ops (fresh w) (record { ended = refl; probes = refl })
