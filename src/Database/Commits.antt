-- ===== src/Database/Commits.antt =====
-- When `execute_write` of cubrid_mcp_server/database.py commits.
pub mod Reads
use cubrid_mcp_server.Common.{
  ℕ, suc, ◌+◌, ◌≡◌, refl, Bool, true, false, ◌&&◌, if◌then◌else◌, Option, none, some, List, [], ◌∷◌,
  arith,
}
use cubrid_mcp_server.Common.Text.{Text}
use cubrid_mcp_server.Common.Result.{Result, ok, err}
use cubrid_mcp_server.Value.{ℤ, Row}
use cubrid_mcp_server.Database.Exceptions.{
  Exc, caused, database_error, query_timeout_error, is_timeout,
}
use cubrid_mcp_server.Database.Driver.{
  Conn, Cursor, Driver, Db, Action, Call, Event, connect, opening_cursor, executing, reading,
  committing, rolling_back, call, continue, handled, pure, raise,
}
use cubrid_mcp_server.Database.Session.{
  get_connection, reuse, opened, discard_connection, close_old, rollback_or_discard,
  safe_close_cursor, close_opened, raise_timeout,
}
use cubrid_mcp_server.Database.Statements.{
  write_recovery, write_failed, write_ended, write_opened, execute_write,
}

abbrev pub is_commit : Call → Bool
is_commit (committing c) = true
is_commit _ = false

-- The commits that succeeded.
abbrev pub commits : List Event → ℕ
commits [] = 0
commits (e ∷ log) = if is_commit e.call && e.succeeded then suc (commits log) else commits log

-- 1 for an action that returned, 0 for one that raised.
abbrev pub returned {ℓ} : {A : Type ℓ} → Result Exc A → ℕ
returned (ok a) = 1
returned (err e) = 0

module _ (d : Driver) (n : ℕ) where
  abbrev pub Has : Db d.World → Type 0
  Has s = commits s.log ≡ n

  abbrev Ends : {A : Type 0} → Result Exc A × Db d.World → Type 0
  Ends x = commits x.1.log ≡ returned x.0 + n

  continue-Ends :
      {A B : Type 0} (x : Result Exc A × Db d.World) (f : A → Action d.World B)
      → Has x.1
      → ((a : A) (s : Db d.World) → Has s → Ends (f a s))
      → Ends (continue x f)
  continue-Ends (ok a, s) f h k = k a s h
  continue-Ends (err e, s) f h k = omega (arith, h)

  pub continue-Has :
      {A B : Type 0} (x : Result Exc A × Db d.World) (f : A → Action d.World B)
      → Has x.1
      → ((a : A) (s : Db d.World) → Has s → Has (f a s).1)
      → Has (continue x f).1
  continue-Has (ok a, s) f h k = k a s h
  continue-Has (err e, s) f h k = h

  pub discard_connection-Has : (s : Db d.World) → Has s → Has (discard_connection d s).1
  unfolding discard_connection
  discard_connection-Has s h = old s.connection
    where
      old :
          (c : Option Conn)
          → Has
              (close_old d c
                (record s { connection = none; serial_column = none; owner_names = none })).1
      old none = h
      old (some c) = h

  pub rollback_or_discard-Has :
      (c : Conn) (s : Db d.World) → Has s → Has (rollback_or_discard d c s).1
  unfolding rollback_or_discard
  rollback_or_discard-Has c s h = after (call (rolling_back c) (d.rollback c) s) h
    where
      after :
          (x : Result Exc (Unit {0}) × Db d.World)
          → Has x.1
          → Has (handled x (λ e. discard_connection d)).1
      after (ok t, s') h' = h'
      after (err e, s') h' = discard_connection-Has s' h'

  -- What raises behind actions that commit nothing.
  raises-Ends :
      {A : Type 0} (B : Type 0) (x : Result Exc A × Db d.World) (e : Exc)
      → Has x.1
      → Ends (continue x (λ a. raise {A = B} e))
  raises-Ends B x e h = continue-Ends x _ h (λ a s h'. omega (arith, h'))

  write_recovery-Has :
      (c : Conn) (k : Option Cursor) (s : Db d.World) → Has s → Has (write_recovery d c k s).1
  write_recovery-Has c none s h = discard_connection-Has s h
  write_recovery-Has c (some k) s h = rollback_or_discard-Has c s h

  pub close_opened-Has : (k : Option Cursor) (s : Db d.World) → Has s → Has (close_opened d k s).1
  unfolding safe_close_cursor
  close_opened-Has none s h = h
  close_opened-Has (some k) s h = h

  if-Ends :
      {A : Type 0} (b : Bool) (m m' : Action d.World A) (s : Db d.World)
      → Ends (m s)
      → Ends (m' s)
      → Ends ((if b then m else m') s)
  if-Ends true m m' s h h' = h
  if-Ends false m m' s h h' = h'

  write_failed-Ends :
      (c : Conn) (k : Option Cursor) (e : Exc) (s : Db d.World)
      → Has s
      → Ends (write_failed d c k e s)
  unfolding write_failed raise_timeout
  write_failed-Ends c k e s h =
      if-Ends (is_timeout e) _ _ s
        (raises-Ends ℤ (discard_connection d s) (caused query_timeout_error e)
          (discard_connection-Has s h))
        (continue-Ends (write_recovery d c k s) _ (write_recovery-Has c k s h) (λ t s' h'.
          raises-Ends ℤ (close_opened d k s') (caused database_error e) (close_opened-Has k s' h')))

  write_ended-Ends :
      (c : Conn) (k : Cursor) (x : Result Exc ℤ × Db d.World) → Ends x → Ends (write_ended d c k x)
  unfolding safe_close_cursor
  write_ended-Ends c k (ok a, s) h = h
  write_ended-Ends c k (err e, s) h = write_failed-Ends c (some k) e s (omega (arith, h))

  commit-Ends :
      (c : Conn) (affected : ℤ) (s : Db d.World)
      → Has s
      → Ends (continue (call (committing c) (d.commit c) s) (λ t. pure affected))
  commit-Ends c affected s h = after (d.commit c s.world).0 (d.commit c s.world).1
    where
      after :
          (r : Result Exc (Unit {0})) (w : d.World)
          → Ends (continue (call (committing c) (λ w'. (r, w)) s) (λ t. pure affected))
      after (ok t) w = omega (arith, h)
      after (err e) w = omega (arith, h)

  write_opened-Ends :
      (c : Conn) (sql : Text) (params : Row) (x : Result Exc Cursor × Db d.World)
      → Has x.1
      → Ends (write_opened d c sql params x)
  write_opened-Ends c sql params (err e, s) h = write_failed-Ends c none e s h
  write_opened-Ends c sql params (ok k, s) h = write_ended-Ends c k _ (
      continue-Ends (call (executing sql) (d.execute k sql params) s) _ h (λ t s1 h1.
        continue-Ends (call reading (d.row_count k) s1) _ h1
          (λ affected s2 h2. commit-Ends c affected s2 h2)))

  pub get_connection-Has : (s : Db d.World) → Has s → Has (get_connection d s).1
  unfolding get_connection
  get_connection-Has s h = reused s.connection
    where
      after : (x : Result Exc Conn × Db d.World) → Has x.1 → Has (opened d x).1
      after (ok c, s') h' = h'
      after (err e, s') h' = h'

      reused : (c : Option Conn) → Has (reuse d c s).1
      reused (some c) = h
      reused none = after (call connect d.connect s) h

-- Whatever the driver answers and raises: a call of `execute_write` that returns has made exactly one
-- commit that succeeded, and one that raises has made none.
pub execute_write-commits :
    (d : Driver) (sql : Text) (params : Row) (s : Db d.World)
    → commits (execute_write d sql params s).1.log
      ≡ returned (execute_write d sql params s).0 + commits s.log
unfolding execute_write
execute_write-commits d sql params s =
    continue-Ends d (commits s.log) (get_connection d s) _
      (get_connection-Has d (commits s.log) s refl)
      (λ c s1 h1.
        write_opened-Ends d (commits s.log) c sql params
          (call (opening_cursor c) (d.open_cursor c) s1) h1)
