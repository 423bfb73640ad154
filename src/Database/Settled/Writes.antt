-- ===== src/Database/Settled/Writes.antt =====
-- `execute_write`, `health_check`, `close` and the probes leave a settled state.
use cubrid_mcp_server.Common.{◌≡◌, refl, Option, none, some, Bool-cases, inl, inr}
use cubrid_mcp_server.Common.Text.{Text}
use cubrid_mcp_server.Common.Result.{Result, ok, err, Result-cases}
use cubrid_mcp_server.Value.{ℤ, Row}
use cubrid_mcp_server.Database.Exceptions.{Exc, caused, database_error, is_timeout, sanitize_error}
use cubrid_mcp_server.Database.Driver.{
  Conn, Cursor, Driver, Db, Action, reading, version, opening_cursor, executing, committing, pure,
  call, continue, handled, ◌>>=◌, ◌>>◌, continue-ok,
}
use cubrid_mcp_server.Database.Session.{
  get_connection, discard_connection, close, close_at_end, safe_close_cursor,
}
use cubrid_mcp_server.Database.Statements.{
  write_recovery, healthy, unhealthy, Health, write_failed, write_ended, write_opened,
  execute_write, health_check,
}
use cubrid_mcp_server.Database.Settled.{IsSettled}
use cubrid_mcp_server.Database.Settled.Session.{
  Holds, same_conn, Connected, get_connection-Connected, discard-IsSettled, discard-ok,
  discard-Recovers, recover_then_raise, raise_timeout-IsSettled, rollback-Recovers,
  continue-Connected, Recovers,
}

module _ (d : Driver) where
  write_failed-IsSettled :
      (c : Conn) (k : Option Cursor) (e : Exc) (s : Db d.World)
      → Holds c s
      → IsSettled (write_failed d c k e s).1
  unfolding write_failed
  write_failed-IsSettled c k e s p = elim (Bool-cases (is_timeout e)) [
    | inl t ↦ rw t (raise_timeout-IsSettled d ℤ e s)
    | inr t ↦
        rw t
          (recover_then_raise d ℤ (caused database_error e) (write_recovery d c k) k s (recovery k))
  ]
    where
      recovery : (k : Option Cursor) → Recovers d (write_recovery d c k) s
      recovery none = discard-Recovers d s
      recovery (some k) = rollback-Recovers d c s p

  -- Settled if it returned, and the connection in place if it raised.
  abbrev Committed : Conn → Result Exc ℤ × Db d.World → Type 0
  Committed c (ok n, s) = IsSettled s
  Committed c (err e, s) = Holds c s

  write_ended-IsSettled :
      (c : Conn) (k : Cursor) (x : Result Exc ℤ × Db d.World)
      → Committed c x
      → IsSettled (write_ended d c k x).1
  unfolding safe_close_cursor
  write_ended-IsSettled c k (ok n, s) h = record { ended = h.ended; probes = h.probes }
  write_ended-IsSettled c k (err e, s) h = write_failed-IsSettled c (some k) e s h

  continue-Committed :
      {A : Type 0} (c : Conn) (x : Result Exc A × Db d.World) (f : A → Action d.World ℤ)
      → Holds c x.1
      → ((a : A) (s : Db d.World) → Holds c s → Committed c (f a s))
      → Committed c (continue x f)
  continue-Committed c (ok a, s) f p h = h a s p
  continue-Committed c (err e, s) f p h = p

  commit-Committed :
      (c : Conn) (n : ℤ) (s : Db d.World)
      → Holds c s
      → Committed c ((call (committing c) (d.commit c) >>= λ _. pure n) s)
  commit-Committed c n s p = elim (Result-cases (d.commit c s.world).0) [
    | inl (a, e) ↦ rw e (record { ended = rw (p, same_conn c) refl; probes = rw p refl })
    | inr (x, e) ↦ rw e p
  ]

  write_opened-IsSettled :
      (c : Conn) (sql : Text) (params : Row) (x : Result Exc Cursor × Db d.World)
      → Holds c x.1
      → IsSettled (write_opened d c sql params x).1
  write_opened-IsSettled c sql params (ok k, s) p = write_ended-IsSettled c k _ (
      continue-Committed c (call (executing sql) (d.execute k sql params) s) _ p (λ _ s1 p1.
        continue-Committed c (call reading (d.row_count k) s1) _ p1
          (λ n s2 p2. commit-Committed c n s2 p2)))
  write_opened-IsSettled c sql params (err e, s) p = write_failed-IsSettled c none e s p

  pub execute_write-IsSettled :
      (sql : Text) (params : Row) (s : Db d.World)
      → IsSettled s
      → IsSettled (execute_write d sql params s).1
  unfolding execute_write
  execute_write-IsSettled sql params s h =
      continue-Connected d (get_connection d s) _ (get_connection-Connected d s h) (λ c s' h'.
        write_opened-IsSettled c sql params (call (opening_cursor c) (d.open_cursor c) s') h'.0)

  close_at_end-IsSettled :
      (o : Option Conn) (s : Db d.World)
      → s.connection ≡ o
      → s.serial_column ≡ none
      → s.owner_names ≡ none
      → IsSettled (close_at_end d o s).1
  close_at_end-IsSettled none s e a b = record { ended = rw e refl; probes = rw (e, a, b) refl }
  close_at_end-IsSettled (some c) s e a b = record { ended = refl; probes = rw (a, b) refl }

  pub close-IsSettled : (s : Db d.World) → IsSettled (close d s).1
  unfolding close
  close-IsSettled s = close_at_end-IsSettled s.connection _ refl refl refl

  abbrev Healthy : Result Exc Health × Db d.World → Type 0
  Healthy (ok v, s) = IsSettled s
  Healthy (err e, s) = Unit

  unhealthy_settles :
      (x : Result Exc Health × Db d.World)
      → Healthy x
      → IsSettled (handled x (λ e. discard_connection d >> pure (unhealthy (sanitize_error e)))).1
  unhealthy_settles (ok v, s) h = h
  unhealthy_settles (err e, s) h =
      rw
        (continue-ok (discard_connection d s) (λ _. pure (unhealthy (sanitize_error e)))
          (discard-ok d s))
        (discard-IsSettled d s)

  version-Healthy :
      (x : Result Exc Conn × Db d.World)
      → Connected d x
      → Healthy (continue x λ c. call version (d.server_version c) >>= λ v. pure (healthy v))
  version-Healthy (ok c, s) h = elim (Result-cases (d.server_version c s.world).0) [
    | inl (v, e) ↦ rw e (record { ended = h.1.ended; probes = h.1.probes })
    | inr (x, e) ↦ rw e tt
  ]
  version-Healthy (err e, s) h = tt

  pub health_check-IsSettled : (s : Db d.World) → IsSettled s → IsSettled (health_check d s).1
  unfolding health_check
  health_check-IsSettled s h =
      unhealthy_settles _ (version-Healthy (get_connection d s) (get_connection-Connected d s h))
