-- ===== src/Database/Commits/Reads.antt =====
-- The methods of cubrid_mcp_server/database.py that never commit.
pub mod Probes
use cubrid_mcp_server.Common.{
  ℕ, zero, suc, ◌≡◌, refl, Bool, true, false, ◌&&◌, if◌then◌else◌, Option, none, some, List, [],
  ◌∷◌,
}
use cubrid_mcp_server.Common.Text.{Text}
use cubrid_mcp_server.Common.Result.{Result, ok, err}
use cubrid_mcp_server.Value.{Row}
use cubrid_mcp_server.Database.Exceptions.{
  Exc, caused, database_error, class_of, is_timeout, is_no_result_set, is_server_sql_error,
}
use cubrid_mcp_server.Database.Driver.{
  Conn, Cursor, Driver, Db, Action, opening_cursor, executing, reading, call, handled, raise, ◌>>=◌,
  ◌>>◌,
}
use cubrid_mcp_server.Database.Session.{
  get_connection, discard_connection, rollback_or_discard, safe_close_cursor, close_opened,
  raise_timeout, is_open, cursor_failed, cursor_used, cursor_opened, with_cursor,
}
use cubrid_mcp_server.Database.Statements.{
  Fetched, take_batch, require_result_set, end_of, end_read_transaction, fetch_all, go_on,
  after_batch, read_batches, fetch_many,
}
use cubrid_mcp_server.Database.Commits.{
  commits, Has, continue-Has, discard_connection-Has, rollback_or_discard-Has, close_opened-Has,
  get_connection-Has,
}

module _ (d : Driver) (n : ℕ) where
  -- An action that commits nothing.
  abbrev pub Keeps : {A : Type 0} → Action d.World A → Type 0
  Keeps m = (s : Db d.World) → Has d n s → Has d n (m s).1

  pub then-Keeps :
      {A B : Type 0} (m : Action d.World A) (f : A → Action d.World B)
      → Keeps m
      → ((a : A) → Keeps (f a))
      → Keeps (m >>= f)
  then-Keeps m f h k s p = continue-Has d n (m s) f (h s p) (λ a s' p'. k a s' p')

  pub handled-Keeps :
      {A : Type 0} (x : Result Exc A × Db d.World) (f : Exc → Action d.World A)
      → Has d n x.1
      → ((e : Exc) → Keeps (f e))
      → Has d n (handled x f).1
  handled-Keeps (ok a, s) f h k = h
  handled-Keeps (err e, s) f h k = k e s h

  pub if-Keeps :
      {A : Type 0} (b : Bool) (m m' : Action d.World A)
      → Keeps m
      → Keeps m'
      → Keeps (if b then m else m')
  if-Keeps true m m' h h' = h
  if-Keeps false m m' h h' = h'

  pub raise_timeout-Keeps : (A : Type 0) (e : Exc) → Keeps (raise_timeout d {A = A} e)
  unfolding raise_timeout
  raise_timeout-Keeps A e =
      then-Keeps (discard_connection d) _ (discard_connection-Has d n) (λ t s p. p)

  close_then_raise :
      (A : Type 0) (k : Option Cursor) (e : Exc) → Keeps (close_opened d k >> raise {A = A} e)
  close_then_raise A k e = then-Keeps (close_opened d k) _ (close_opened-Has d n k) (λ t s p. p)

  cursor_failed-Keeps :
      (A : Type 0) (c : Conn) (k : Option Cursor) (e : Exc) → Keeps (cursor_failed d {A = A} c k e)
  unfolding cursor_failed
  cursor_failed-Keeps A c k e =
      if-Keeps (is_no_result_set (class_of e)) _ _
        (then-Keeps (rollback_or_discard d c) _ (rollback_or_discard-Has d n c)
          (λ t. close_then_raise A k e))
        (if-Keeps (is_timeout e) _ _ (raise_timeout-Keeps A e) (λ s p.
          continue-Has d n
            ((if is_open k && is_server_sql_error e
                then rollback_or_discard d c
                else discard_connection d)
              s)
            _
            (if-Keeps (is_open k && is_server_sql_error e) (rollback_or_discard d c)
              (discard_connection d) (rollback_or_discard-Has d n c) (discard_connection-Has d n) s
              p)
            (λ t s' p'. close_then_raise A k (caused database_error e) s' p')))

  with_cursor-Keeps :
      (A : Type 0) (body : Cursor → Action d.World A)
      → ((k : Cursor) → Keeps (body k))
      → Keeps (with_cursor d body)
  unfolding with_cursor safe_close_cursor
  with_cursor-Keeps A body h =
      then-Keeps (get_connection d) _ (get_connection-Has d n)
        (λ c s p. opened_keeps c (call (opening_cursor c) (d.open_cursor c) s) p)
    where
      used_keeps :
          (c : Conn) (k : Cursor) (x : Result Exc A × Db d.World)
          → Has d n x.1
          → Has d n (cursor_used d c k x).1
      used_keeps c k (ok a, s) p = p
      used_keeps c k (err e, s) p = cursor_failed-Keeps A c (some k) e s p

      opened_keeps :
          (c : Conn) (x : Result Exc Cursor × Db d.World)
          → Has d n x.1
          → Has d n (cursor_opened d c body x).1
      opened_keeps c (ok k, s) p = used_keeps c k (body k s) (h k s p)
      opened_keeps c (err e, s) p = cursor_failed-Keeps A c none e s p

  require_result_set-Keeps : (k : Cursor) → Keeps (require_result_set d k)
  unfolding require_result_set
  require_result_set-Keeps k =
      then-Keeps (call reading (d.has_result_set k)) _ (λ s p. p)
        (λ present. if-Keeps present _ _ (λ s p. p) (λ s p. p))

  end_read_transaction-Keeps : Keeps (end_read_transaction d)
  unfolding end_read_transaction
  end_read_transaction-Keeps s p = ended s.connection
    where
      ended : (c : Option Conn) → Has d n (end_of d c s).1
      ended none = p
      ended (some c) = rollback_or_discard-Has d n c s p

  pub fetch_all-Keeps : (sql : Text) (params : Row) → Keeps (fetch_all d sql params)
  unfolding fetch_all
  fetch_all-Keeps sql params =
      then-Keeps (with_cursor d _) _
        (with_cursor-Keeps (List Row) _ (λ k.
          then-Keeps (call (executing sql) (d.execute k sql params)) _ (λ s p. p)
            (λ t.
              then-Keeps (require_result_set d k) _ (require_result_set-Keeps k) (λ t' s p. p))))
        (λ rows. then-Keeps (end_read_transaction d) _ end_read_transaction-Keeps (λ t s p. p))

  read_batches-Keeps :
      (fuel : ℕ) (max_rows : Option ℕ) (k : Cursor) (rows : List Row)
      → Keeps (read_batches d fuel max_rows k rows)
  unfolding read_batches
  read_batches-Keeps zero max_rows k rows = λ s p. p
  read_batches-Keeps (suc fuel) max_rows k rows =
      then-Keeps (call reading (d.fetch_many k 100)) _ (λ s p. p)
        (after (λ kept. read_batches-Keeps fuel max_rows k kept))
    where
      gone_on :
          (x : List Row × Bool)
          → ((kept : List Row) → Keeps (read_batches d fuel max_rows k kept))
          → Keeps (go_on d (read_batches d fuel max_rows k) x)
      gone_on (kept, true) h s p = p
      gone_on (kept, false) h s p = h kept s p

      after :
          ((kept : List Row) → Keeps (read_batches d fuel max_rows k kept))
          → (batch : List Row)
          → Keeps (after_batch d (read_batches d fuel max_rows k) max_rows rows batch)
      after h [] s p = p
      after h (row ∷ more) s p = gone_on (take_batch max_rows rows (row ∷ more)) h s p

  pub fetch_many-Keeps :
      (fuel : ℕ) (sql : Text) (params : Row) (max_rows : Option ℕ)
      → Keeps (fetch_many d fuel sql params max_rows)
  unfolding fetch_many
  fetch_many-Keeps fuel sql params max_rows =
      then-Keeps (with_cursor d _) _
        (with_cursor-Keeps Fetched _ (λ k.
          then-Keeps (call (executing sql) (d.execute k sql params)) _ (λ s p. p)
            (λ t.
              then-Keeps (require_result_set d k) _ (require_result_set-Keeps k)
                (λ t'. read_batches-Keeps fuel max_rows k []))))
        (λ rows. then-Keeps (end_read_transaction d) _ end_read_transaction-Keeps (λ t s p. p))

-- Whatever the driver answers and raises, no call of `fetch_all` or `fetch_many` commits anything,
-- whether it returns or raises.
fetch-commits :
    (d : Driver) (fuel : ℕ) (sql : Text) (params : Row) (max_rows : Option ℕ) (s : Db d.World)
    → (commits (fetch_all d sql params s).1.log ≡ commits s.log)
      × (commits (fetch_many d fuel sql params max_rows s).1.log ≡ commits s.log)
fetch-commits d fuel sql params max_rows s = (
  fetch_all-Keeps d (commits s.log) sql params s refl,
  fetch_many-Keeps d (commits s.log) fuel sql params max_rows s refl,
)
