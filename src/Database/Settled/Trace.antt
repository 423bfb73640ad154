-- ===== src/Database/Settled/Trace.antt =====
-- `exclusive` as `trace_enabled` uses it, and `trace_enabled` itself, leave a settled state.
use cubrid_mcp_server.Common.{◌≡◌, refl, true, false, none, [], arith, Bool-cases, inl, inr}
use cubrid_mcp_server.Common.Result.{Result, ok, err, Result-cases}
use cubrid_mcp_server.Database.Exceptions.{Exc, is_timeout, is_server_sql_error}
use cubrid_mcp_server.Database.Driver.{
  Conn, Cursor, Driver, Db, Action, opening_cursor, executing, rolling_back, pure, raise, call,
  continue, handled, ◌>>◌, continue-ok,
}
use cubrid_mcp_server.Database.Session.{
  get_connection, discard_connection, safe_close_cursor, exclusive_failed, exclusive, closing_after,
  set_trace_on, set_trace_off, reset_trace_state, trace_ended, trace_enabled,
}
use cubrid_mcp_server.Database.Settled.{IsSettled}
use cubrid_mcp_server.Database.Settled.Session.{
  Holds, same_conn, Keeps, get_connection-Connected, discard-IsSettled, discard-ok,
  discard-Recovers, recover_then_raise, raise_timeout-IsSettled, continue-Connected,
}

module _ (d : Driver) where
  exclusive_failed-IsSettled :
      (A : Type 0) (c : Conn) (e : Exc) (s : Db d.World)
      → (is_server_sql_error e ≡ true → IsSettled s)
      → IsSettled (exclusive_failed d {A = A} false c e s).1
  unfolding exclusive_failed
  exclusive_failed-IsSettled A c e s h = elim (Bool-cases (is_timeout e)) [
    | inl t ↦ rw t (raise_timeout-IsSettled d A e s)
    | inr t ↦ elim (Bool-cases (is_server_sql_error e)) [
      | inl b ↦ rw (t, b) (h b)
      | inr b ↦
          rw (t, b) (recover_then_raise d A _ (discard_connection d) none s (discard-Recovers d s))
    ]
  ]

  -- Settled if it returned.
  abbrev Ends : {A : Type 0} → Result Exc A × Db d.World → Type 0
  Ends (ok a, s) = IsSettled s
  Ends (err e, s) = Unit

  continue-Ends :
      {A : Type 0} (c : Conn) (x : Result Exc A × Db d.World) (f : A → Action d.World (Unit {0}))
      → Holds c x.1
      → ((a : A) (s : Db d.World) → Holds c s → Ends (f a s))
      → Ends (continue x f)
  continue-Ends c (ok a, s) f p h = h a s p
  continue-Ends c (err e, s) f p h = tt

  or_discarded-IsSettled :
      (x : Result Exc (Unit {0}) × Db d.World)
      → Ends x
      → IsSettled (handled x (λ _. discard_connection d)).1
  or_discarded-IsSettled (ok a, s) h = h
  or_discarded-IsSettled (err e, s) h = discard-IsSettled d s

  or_discarded-ok :
      (x : Result Exc (Unit {0}) × Db d.World) → (handled x (λ _. discard_connection d)).0 ≡ ok tt
  or_discarded-ok (ok a, s) = refl
  or_discarded-ok (err e, s) = discard-ok d s

  rollback-Ends :
      (c : Conn) (s : Db d.World) → Holds c s → Ends (call (rolling_back c) (d.rollback c) s)
  rollback-Ends c s p = elim (Result-cases (d.rollback c s.world).0) [
    | inl (a, e) ↦ rw e (record { ended = rw (p, same_conn c) refl; probes = rw p refl })
    | inr (x, e) ↦ rw e tt
  ]

  reset_trace_state-IsSettled :
      (c : Conn) (s : Db d.World) → Holds c s → IsSettled (reset_trace_state d c s).1
  unfolding reset_trace_state safe_close_cursor
  reset_trace_state-IsSettled c s p = or_discarded-IsSettled _ (
      continue-Ends c (call (opening_cursor c) (d.open_cursor c) s) _ p (λ k s1 p1.
        continue-Ends c
          (closing_after d k (call (executing set_trace_off) (d.execute k set_trace_off []) s1)) _
          p1 (λ _ s2 p2. rollback-Ends c s2 p2)))

  reset_trace_state-ok : (c : Conn) (s : Db d.World) → (reset_trace_state d c s).0 ≡ ok tt
  unfolding reset_trace_state
  reset_trace_state-ok c s = or_discarded-ok _

  server_error_no_timeout : (e : Exc) → is_server_sql_error e ≡ true → is_timeout e ≡ false
  unfolding is_server_sql_error
  server_error_no_timeout e h = ground arith

  continue-Holds :
      {A : Type 0} (c : Conn) (x : Result Exc (Unit {0}) × Db d.World) (m : Action d.World A)
      → Holds c x.1
      → Keeps d c m
      → Holds c (continue x (λ _. m)).1
  continue-Holds c (ok a, s) m p h = h s p
  continue-Holds c (err e, s) m p h = p

  -- Settled, but after a timeout the dead connection is still to be dropped.
  abbrev TraceLeft : {A : Type 0} → Result Exc A × Db d.World → Type 0
  TraceLeft (ok a, s) = IsSettled s
  TraceLeft (err e, s) = is_timeout e ≡ false → IsSettled s

  reset_then :
      (A : Type 0) (c : Conn) (f : Action d.World A) (s : Db d.World)
      → Holds c s
      → ((s' : Db d.World) → IsSettled s' → TraceLeft (f s'))
      → TraceLeft ((reset_trace_state d c >> f) s)
  reset_then A c f s p h =
      rw (continue-ok (reset_trace_state d c s) (λ _. f) (reset_trace_state-ok c s))
        (h (reset_trace_state d c s).1 (reset_trace_state-IsSettled c s p))

  trace_ended-TraceLeft :
      (A : Type 0) (c : Conn) (k : Cursor) (x : Result Exc A × Db d.World)
      → Holds c x.1
      → TraceLeft (trace_ended d c k x)
  unfolding trace_ended safe_close_cursor
  trace_ended-TraceLeft A c k (ok a, s) p = reset_then A c (pure a) _ p (λ s' h. h)
  trace_ended-TraceLeft A c k (err e, s) p = elim (Bool-cases (is_timeout e)) [
    | inl t ↦ rw t (λ f. cc)
    | inr t ↦ rw t (reset_then A c (raise e) _ p (λ s' h _. h))
  ]

  left-IsSettled :
      (A : Type 0) (c : Conn) (x : Result Exc A × Db d.World)
      → TraceLeft x
      → IsSettled (handled x (exclusive_failed d false c)).1
  left-IsSettled A c (ok a, s) h = h
  left-IsSettled A c (err e, s) h =
      exclusive_failed-IsSettled A c e s (λ b. h (server_error_no_timeout e b))

  traced-TraceLeft :
      (A : Type 0) (c : Conn) (body : Cursor → Action d.World A)
      (x : Result Exc Cursor × Db d.World)
      → ((k : Cursor) → Keeps d c (body k))
      → Holds c x.1
      → IsSettled x.1
      → TraceLeft (
          continue x λ k s.
            trace_ended d c k
              ((call (executing set_trace_on) (d.execute k set_trace_on []) >> body k) s))
  traced-TraceLeft A c body (ok k, s) keeps p h =
      trace_ended-TraceLeft A c k _ (continue-Holds c _ (body k) p (keeps k))
  traced-TraceLeft A c body (err e, s) keeps p h = λ _. h

  -- After `trace_enabled`, however its block ends, the state is settled.
  pub trace_enabled-IsSettled :
      (A : Type 0) (body : Cursor → Action d.World A) (s : Db d.World)
      → ((c : Conn) (k : Cursor) → Keeps d c (body k))
      → IsSettled s
      → IsSettled (trace_enabled d body s).1
  unfolding trace_enabled exclusive
  trace_enabled-IsSettled A body s keeps h =
      continue-Connected d (get_connection d s) _ (get_connection-Connected d s h) (λ c s' h'.
        left-IsSettled A c _ (
          traced-TraceLeft A c body (call (opening_cursor c) (d.open_cursor c) s') (keeps c) h'.0
            (record { ended = h'.1.ended; probes = h'.1.probes })))
