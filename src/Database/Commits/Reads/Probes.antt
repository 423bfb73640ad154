-- ===== src/Database/Commits/Reads/Probes.antt =====
-- The probes, the trace and the health check of cubrid_mcp_server/database.py commit nothing.
use cubrid_mcp_server.Common.{
  ℕ, ◌≡◌, refl, Bool, true, false, not, ◌&&◌, Bool-cases, inl, inr, if◌then◌else◌, Option, none,
  some, List, [], ◌∷◌,
}
use cubrid_mcp_server.Common.Text.{Text}
use cubrid_mcp_server.Common.Result.{Result, ok, err}
use cubrid_mcp_server.Value.{Row}
use cubrid_mcp_server.Database.Exceptions.{
  Exc, raised, caused, database_error, class_of, is_timeout, is_server_sql_error, is_database_error,
  rejected_by_server, sanitize_error,
}
use cubrid_mcp_server.Database.Driver.{
  Conn, Cursor, Driver, Db, Action, Call, Op, opening_cursor, executing, rolling_back, version,
  reading, call, pure, raise, catch, ◌>>=◌, ◌>>◌,
}
use cubrid_mcp_server.Database.Session.{
  get_connection, discard_connection, rollback_or_discard, safe_close_cursor, is_current,
  set_trace_on, set_trace_off, exclusive_failed, exclusive, closing_after, reset_trace_state,
  trace_ended, trace_enabled,
}
use cubrid_mcp_server.Database.Statements.{
  healthy, unhealthy, fetch_all, health_check, probe, remember_owner, probe_owner, owner_probe,
  owner_qualified_names, try_columns, serial_probe, probe_serial, serial_attribute_columns,
  serial_attribute_column, show_trace, traced_rows,
}
use cubrid_mcp_server.Database.Commits.{
  is_commit, Has, discard_connection-Has, rollback_or_discard-Has, get_connection-Has,
}
use cubrid_mcp_server.Database.Commits.Reads.{
  Keeps, then-Keeps, handled-Keeps, raise_timeout-Keeps, fetch_all-Keeps,
}

module _ (d : Driver) (n : ℕ) where
  -- An action that commits nothing, as a record.
  pub record IsQuiet {A : Type 0} (m : Action d.World A) : Type 0 where
    pub kept : Keeps d n m

  quiet : {A : Type 0} (m : Action d.World A) → Keeps d n m → IsQuiet m
  quiet m h = record { kept = h }

  pub bind-IsQuiet :
      {A B : Type 0} (m : Action d.World A) (f : A → Action d.World B)
      → IsQuiet m
      → ((a : A) → IsQuiet (f a))
      → IsQuiet (m >>= f)
  bind-IsQuiet m f h k = record { kept = then-Keeps d n m f h.kept (λ a. (k a).kept) }

  catch-IsQuiet :
      {A : Type 0} (m : Action d.World A) (f : Exc → Action d.World A)
      → IsQuiet m
      → ((e : Exc) → IsQuiet (f e))
      → IsQuiet (catch m f)
  catch-IsQuiet m f h k = record {
    kept = λ s p. handled-Keeps d n (m s) f (h.kept s p) (λ e. (k e).kept);
  }

  if-IsQuiet :
      {A : Type 0} (b : Bool) (m m' : Action d.World A)
      → IsQuiet m
      → IsQuiet m'
      → IsQuiet (if b then m else m')
  if-IsQuiet true m m' h h' = h
  if-IsQuiet false m m' h h' = h'

  pub pure-IsQuiet : {A : Type 0} (a : A) → IsQuiet (pure a)
  pure-IsQuiet a = record { kept = λ s p. p }

  raise-IsQuiet : {A : Type 0} (e : Exc) → IsQuiet {A = A} (raise e)
  raise-IsQuiet e = record { kept = λ s p. p }

  call-IsQuiet :
      {A : Type 0} (c : Call) (op : Op d.World A) → is_commit c ≡ false → IsQuiet (call c op)
  call-IsQuiet c op h = record { kept = λ s p. rw h p }

  connection-IsQuiet : IsQuiet (get_connection d)
  connection-IsQuiet = record { kept = get_connection-Has d n }

  discard-IsQuiet : IsQuiet (discard_connection d)
  discard-IsQuiet = record { kept = discard_connection-Has d n }

  pub fetch_all-IsQuiet : (sql : Text) (params : Row) → IsQuiet (fetch_all d sql params)
  fetch_all-IsQuiet sql params = record { kept = fetch_all-Keeps d n sql params }

  pub health_check-IsQuiet : IsQuiet (health_check d)
  unfolding health_check
  health_check-IsQuiet =
      catch-IsQuiet _ _
        (bind-IsQuiet (get_connection d) _ connection-IsQuiet (λ c.
          bind-IsQuiet (call version (d.server_version c)) _ (call-IsQuiet version _ refl)
            (λ v. pure-IsQuiet (healthy v))))
        (λ e.
          bind-IsQuiet (discard_connection d) _ discard-IsQuiet
            (λ t. pure-IsQuiet (unhealthy (sanitize_error e))))

  probe-IsQuiet : (sql : Text) → IsQuiet (probe d sql)
  unfolding probe
  probe-IsQuiet sql =
      catch-IsQuiet _ _
        (bind-IsQuiet (fetch_all d sql []) _ (fetch_all-IsQuiet sql []) (λ t. pure-IsQuiet true))
        (λ e.
          if-IsQuiet (is_database_error (class_of e) && rejected_by_server e) _ _
            (pure-IsQuiet false) (raise-IsQuiet e))

  remember_owner-Has :
      (c : Conn) (found : Bool) (s : Db d.World) → Has d n s → Has d n (remember_owner d c found s)
  remember_owner-Has c found s p = step (is_current s.connection c)
    where
      step : (b : Bool) → Has d n (if b then record s { owner_names = some found } else s)
      step true = p
      step false = p

  pub owner_qualified_names-IsQuiet : IsQuiet (owner_qualified_names d)
  unfolding owner_qualified_names
  owner_qualified_names-IsQuiet = record { kept = λ s p. (probed s.owner_names).kept s p }
    where
      probed : (known : Option Bool) → IsQuiet (probe_owner d known)
      probed (some known) = pure-IsQuiet known
      probed none = bind-IsQuiet (get_connection d) _ connection-IsQuiet (λ c.
          bind-IsQuiet (probe d owner_probe) _ (probe-IsQuiet owner_probe)
            (λ found. record { kept = λ s p. remember_owner-Has c found s p }))

  column_or :
      (c : Conn) (column : Text) (later : Action d.World Text) (s : Db d.World) (b b' : Bool)
      → Has d n s
      → Has d n (later s).1
      → Has d n
          (if b
            then raise {A = Text} (raised database_error) s
            else if b'
            then (ok column, record s { serial_column = some column })
            else later s).1
  column_or c column later s true b' p h = p
  column_or c column later s false true p h = p
  column_or c column later s false false p h = h

  try_columns-IsQuiet : (c : Conn) (columns : List Text) → IsQuiet (try_columns d c columns)
  unfolding try_columns
  try_columns-IsQuiet c [] = raise-IsQuiet (raised database_error)
  try_columns-IsQuiet c (column ∷ rest) =
      bind-IsQuiet (probe d (serial_probe column)) _ (probe-IsQuiet (serial_probe column)) (λ found.
        record {
          kept = λ s p.
              column_or c column (try_columns d c rest) s (not (is_current s.connection c)) found p
                ((try_columns-IsQuiet c rest).kept s p);
        })

  pub serial_attribute_column-IsQuiet : IsQuiet (serial_attribute_column d)
  unfolding serial_attribute_column
  serial_attribute_column-IsQuiet = record { kept = λ s p. (probed s.serial_column s p) }
    where
      probed : (known : Option Text) → Keeps d n (probe_serial d known)
      probed (some known) = λ s p. p
      probed none =
          (bind-IsQuiet (get_connection d) _ connection-IsQuiet
            (λ c. try_columns-IsQuiet c serial_attribute_columns)).kept

  exclusive_failed-Has :
      (A : Type 0) (b : Bool) (c : Conn) (e : Exc) (s : Db d.World)
      → Has d n s
      → Has d n (exclusive_failed d {A = A} b c e s).1
  unfolding exclusive_failed
  exclusive_failed-Has A b c e s p = elim (Bool-cases (is_timeout e)) [
    | inl late ↦ rw late (raise_timeout-Keeps d n A e s p)
    | inr other ↦ rw other (
        (bind-IsQuiet
            (if is_server_sql_error e
              then (if b && is_current s.connection c then rollback_or_discard d c else pure tt)
              else discard_connection d)
            _
            (if-IsQuiet (is_server_sql_error e) _ _
              (if-IsQuiet (b && is_current s.connection c) _ _
                (quiet (rollback_or_discard d c) (rollback_or_discard-Has d n c)) (pure-IsQuiet tt))
              discard-IsQuiet)
            (λ t.
              raise-IsQuiet {A = A}
                (if is_database_error (class_of e) then e else caused database_error e))).kept
          s p)
  ]

  exclusive-IsQuiet :
      (A : Type 0) (b : Bool) (body : Conn → Action d.World A)
      → ((c : Conn) → IsQuiet (body c))
      → IsQuiet (exclusive d b body)
  unfolding exclusive
  exclusive-IsQuiet A b body h = bind-IsQuiet (get_connection d) _ connection-IsQuiet (λ c.
      catch-IsQuiet (body c) _ (h c)
        (λ e. record { kept = λ s p. exclusive_failed-Has A b c e s p }))

  close_cursor-IsQuiet : (k : Cursor) → IsQuiet (safe_close_cursor d k)
  unfolding safe_close_cursor
  close_cursor-IsQuiet k = record { kept = λ s p. p }

  closing_after-Has :
      {A : Type 0} (k : Cursor) (x : Result Exc A × Db d.World)
      → Has d n x.1
      → Has d n (closing_after d k x).1
  closing_after-Has k (r, s) p = (close_cursor-IsQuiet k).kept s p

  reset_trace_state-IsQuiet : (c : Conn) → IsQuiet (reset_trace_state d c)
  unfolding reset_trace_state
  reset_trace_state-IsQuiet c =
      catch-IsQuiet _ _
        (bind-IsQuiet (call (opening_cursor c) (d.open_cursor c)) _
          (call-IsQuiet (opening_cursor c) _ refl)
          (λ k.
            bind-IsQuiet
              (λ s.
                closing_after d k (call (executing set_trace_off) (d.execute k set_trace_off []) s))
              _
              (record {
                kept = λ s p.
                    closing_after-Has k
                      (call (executing set_trace_off) (d.execute k set_trace_off []) s) p;
              })
              (λ t. call-IsQuiet (rolling_back c) (d.rollback c) refl)))
        (λ e. discard-IsQuiet)

  behind_reset :
      {A : Type 0} (c : Conn) (k : Cursor) (m : Action d.World A)
      → IsQuiet m
      → IsQuiet (safe_close_cursor d k >> (reset_trace_state d c >> m))
  behind_reset c k m h =
      bind-IsQuiet (safe_close_cursor d k) _ (close_cursor-IsQuiet k)
        (λ t. bind-IsQuiet (reset_trace_state d c) _ (reset_trace_state-IsQuiet c) (λ t'. h))

  trace_ended-Has :
      (A : Type 0) (c : Conn) (k : Cursor) (x : Result Exc A × Db d.World)
      → Has d n x.1
      → Has d n (trace_ended d c k x).1
  unfolding trace_ended
  trace_ended-Has A c k (ok a, s) p = (behind_reset c k (pure a) (pure-IsQuiet a)).kept s p
  trace_ended-Has A c k (err e, s) p = elim (Bool-cases (is_timeout e)) [
    | inl late ↦ rw late p
    | inr other ↦ rw other ((behind_reset c k (raise {A = A} e) (raise-IsQuiet e)).kept s p)
  ]

  pub traced_rows-IsQuiet : (sql : Text) → IsQuiet (traced_rows d sql)
  unfolding traced_rows trace_enabled
  traced_rows-IsQuiet sql = exclusive-IsQuiet (List Row) false _ (λ c.
      bind-IsQuiet (call (opening_cursor c) (d.open_cursor c)) _
        (call-IsQuiet (opening_cursor c) _ refl)
        (λ k. record { kept = λ s p. trace_ended-Has (List Row) c k _ ((traced k).kept s p) }))
    where
      traced :
          (k : Cursor)
          → IsQuiet (do
            call (executing set_trace_on) (d.execute k set_trace_on [])
            call (executing sql) (d.execute k sql [])
            call (executing show_trace) (d.execute k show_trace [])
            call reading (d.fetch_all k))
      traced k =
          bind-IsQuiet (call (executing set_trace_on) (d.execute k set_trace_on [])) _
            (call-IsQuiet (executing set_trace_on) _ refl)
            (λ t.
              bind-IsQuiet (call (executing sql) (d.execute k sql [])) _
                (call-IsQuiet (executing sql) _ refl)
                (λ t'.
                  bind-IsQuiet (call (executing show_trace) (d.execute k show_trace [])) _
                    (call-IsQuiet (executing show_trace) _ refl)
                    (λ t''. call-IsQuiet reading (d.fetch_all k) refl)))
