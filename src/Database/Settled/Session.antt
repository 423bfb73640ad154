-- ===== src/Database/Settled/Session.antt =====
-- `connect`, the recovery paths and the context managers leave a settled state.
use cubrid_mcp_server.Common.{
  ◌≡◌, ◌==◌, refl, Bool, true, false, if◌then◌else◌, Option, none, some, arith, Bool-cases, inl,
  inr,
}
use cubrid_mcp_server.Common.Result.{Result, ok, err, Result-cases}
use cubrid_mcp_server.Database.Exceptions.{
  Exc, caused, database_error, query_timeout_error, class_of, is_timeout, is_no_result_set,
}
use cubrid_mcp_server.Database.Driver.{
  Conn, Cursor, Driver, Db, Action, opening_cursor, raise, call, continue, ◌>>◌, continue-ok,
}
use cubrid_mcp_server.Database.Session.{
  reuse, get_connection, cursor_used, cursor_opened, discard_connection, safe_close_cursor,
  rollback_or_discard, raise_timeout, close_opened, cursor_failed, with_cursor,
}
use cubrid_mcp_server.Database.Settled.{cached, IsSettled}

-- Between two statements the connection is still the one that runs them.
abbrev pub Holds : {W : Type 0} → Conn → Db W → Type 0
Holds c s = s.connection ≡ some c

-- Without a connection nothing is remembered.
abbrev pub Probes : {W : Type 0} → Db W → Type 0
Probes s = cached s.connection s.serial_column s.owner_names ≡ true

Holds-Probes : {W : Type 0} (c : Conn) (s : Db W) → Holds c s → Probes s
Holds-Probes c s p = rw p refl

-- A commit or a rollback of a connection is one of the connection that is kept.
pub same_conn : (c : Conn) → (c == c) ≡ true
same_conn c = ground arith

module _ (d : Driver) where
  discard-connection : (s : Db d.World) → (discard_connection d s).1.connection ≡ none
  unfolding discard_connection
  discard-connection s = ground arith

  pub discard-IsSettled : (s : Db d.World) → IsSettled (discard_connection d s).1
  unfolding discard_connection
  discard-IsSettled s = ground arith

  rollback_or_discard-IsSettled :
      (c : Conn) (s : Db d.World) → Holds c s → IsSettled (rollback_or_discard d c s).1
  unfolding rollback_or_discard
  rollback_or_discard-IsSettled c s p = elim (Result-cases (d.rollback c s.world).0) [
    | inl (a, e) ↦
        rw (e, rollback_or_discard)
          (record { ended = rw (p, same_conn c) refl; probes = rw p refl })
    | inr (x, e) ↦ rw (e, rollback_or_discard) (discard-IsSettled _)
  ]

  pub discard-ok : (s : Db d.World) → (discard_connection d s).0 ≡ ok tt
  unfolding discard_connection
  discard-ok s = ground arith

  pub rollback_or_discard-ok : (c : Conn) (s : Db d.World) → (rollback_or_discard d c s).0 ≡ ok tt
  unfolding rollback_or_discard
  rollback_or_discard-ok c s = elim (Result-cases (d.rollback c s.world).0) [
    | inl (a, e) ↦ rw (e, rollback_or_discard) refl
    | inr (x, e) ↦ rw (e, rollback_or_discard) (discard-ok _)
  ]

  safe_close_cursor-IsSettled :
      (k : Cursor) (s : Db d.World) → IsSettled s → IsSettled (safe_close_cursor d k s).1
  unfolding safe_close_cursor
  safe_close_cursor-IsSettled k s h = record { ended = h.ended; probes = h.probes }

  -- An action that always returns and leaves a settled state, before the cursor is closed and an
  -- exception is raised.
  pub record Recovers (m : Action d.World (Unit {0})) (s : Db d.World) : Type 0 where
    pub returns : (m s).0 ≡ ok tt
    pub settles : IsSettled (m s).1

  pub discard-Recovers : (s : Db d.World) → Recovers (discard_connection d) s
  discard-Recovers s = record { returns = discard-ok s; settles = discard-IsSettled s }

  pub rollback-Recovers :
      (c : Conn) (s : Db d.World) → Holds c s → Recovers (rollback_or_discard d c) s
  rollback-Recovers c s p = record {
    returns = rollback_or_discard-ok c s;
    settles = rollback_or_discard-IsSettled c s p;
  }

  -- The two ways to recover, by a test.
  Recovers-if :
      (b : Bool) (c : Conn) (s : Db d.World)
      → Holds c s
      → Recovers (if b then rollback_or_discard d c else discard_connection d) s
  Recovers-if true c s p = rollback-Recovers c s p
  Recovers-if false c s p = discard-Recovers s

  module _ (A : Type 0) (e : Exc) where
    close_then_raise-IsSettled :
        (k : Option Cursor) (s : Db d.World)
        → IsSettled s
        → IsSettled ((close_opened d k >> raise {A = A} e) s).1
    unfolding safe_close_cursor
    close_then_raise-IsSettled none s h = h
    close_then_raise-IsSettled (some k) s h = record { ended = h.ended; probes = h.probes }

    pub recover_then_raise :
        (m : Action d.World (Unit {0})) (k : Option Cursor) (s : Db d.World)
        → Recovers m s
        → IsSettled ((m >> (close_opened d k >> raise {A = A} e)) s).1
    recover_then_raise m k s r =
        rw (continue-ok (m s) (λ _. close_opened d k >> raise {A = A} e) r.returns)
          (close_then_raise-IsSettled k (m s).1 r.settles)

  pub raise_timeout-IsSettled :
      (A : Type 0) (e : Exc) (s : Db d.World) → IsSettled (raise_timeout d {A = A} e s).1
  unfolding raise_timeout
  raise_timeout-IsSettled A e s =
      recover_then_raise A (caused query_timeout_error e) (discard_connection d) none s
        (discard-Recovers s)

  pub cursor_failed-IsSettled :
      (A : Type 0) (c : Conn) (k : Option Cursor) (e : Exc) (s : Db d.World)
      → Holds c s
      → IsSettled (cursor_failed d {A = A} c k e s).1
  unfolding cursor_failed
  cursor_failed-IsSettled A c k e s p = elim (Bool-cases (is_no_result_set (class_of e))) [
    | inl b ↦ rw b (recover_then_raise A e (rollback_or_discard d c) k s (rollback-Recovers c s p))
    | inr b ↦ elim (Bool-cases (is_timeout e)) [
      | inl t ↦ rw (b, t) (raise_timeout-IsSettled A e s)
      | inr t ↦
          rw (b, t) (recover_then_raise A (caused database_error e) _ k s (Recovers-if _ c s p))
    ]
  ]

  -- What an action may leave: a settled state if it raised, and the probes intact if it returned.
  abbrev pub Leaves : {A : Type 0} → Result Exc A × Db d.World → Type 0
  Leaves (ok a, s) = Probes s
  Leaves (err e, s) = IsSettled s

  pub settled-Leaves : {A : Type 0} (x : Result Exc A × Db d.World) → IsSettled x.1 → Leaves x
  settled-Leaves (ok a, s) h = h.probes
  settled-Leaves (err e, s) h = h

  -- A connection is at hand, or the state is settled.
  abbrev pub Connected : Result Exc Conn × Db d.World → Type 0
  Connected (ok c, s) = (s.connection ≡ some c) × IsSettled s
  Connected (err e, s) = IsSettled s

  reuse-Connected :
      (o : Option Conn) (s : Db d.World) → s.connection ≡ o → IsSettled s → Connected (reuse d o s)
  reuse-Connected (some c) s e h = (e, h)
  reuse-Connected none s e h = elim (Result-cases (d.connect s.world).0) [
    | inl (c, made) ↦ rw made (refl, record { ended = refl; probes = refl })
    | inr (x, failed) ↦ rw failed (record { ended = rw e refl; probes = h.probes })
  ]

  pub get_connection-Connected : (s : Db d.World) → IsSettled s → Connected (get_connection d s)
  unfolding get_connection
  get_connection-Connected s h = reuse-Connected s.connection s refl h

  pub continue-Connected :
      {A : Type 0} (x : Result Exc Conn × Db d.World) (f : Conn → Action d.World A)
      → Connected x
      → ((c : Conn) (s : Db d.World) → (s.connection ≡ some c) × IsSettled s → IsSettled (f c s).1)
      → IsSettled (continue x f).1
  continue-Connected (ok c, s) f h k = k c s h
  continue-Connected (err e, s) f h k = h

  continue-Leaves :
      {A : Type 0} (x : Result Exc Conn × Db d.World) (f : Conn → Action d.World A)
      → Connected x
      → ((c : Conn) (s : Db d.World) → (s.connection ≡ some c) × IsSettled s → Leaves (f c s))
      → Leaves (continue x f)
  continue-Leaves (ok c, s) f h k = k c s h
  continue-Leaves (err e, s) f h k = h

  -- The body of a `with` block leaves the connection in place.
  abbrev pub Keeps : {A : Type 0} → Conn → Action d.World A → Type 0
  Keeps c m = (s : Db d.World) → Holds c s → Holds c (m s).1

  cursor_used-Leaves :
      (A : Type 0) (c : Conn) (k : Cursor) (x : Result Exc A × Db d.World)
      → Holds c x.1
      → Leaves (cursor_used d c k x)
  unfolding safe_close_cursor
  cursor_used-Leaves A c k (ok a, s) p = Holds-Probes c s p
  cursor_used-Leaves A c k (err e, s) p =
      settled-Leaves _ (cursor_failed-IsSettled A c (some k) e s p)

  cursor_opened-Leaves :
      (A : Type 0) (c : Conn) (body : Cursor → Action d.World A)
      (x : Result Exc Cursor × Db d.World)
      → ((k : Cursor) → Keeps c (body k))
      → Holds c x.1
      → Leaves (cursor_opened d c body x)
  cursor_opened-Leaves A c body (ok k, s) keeps p =
      cursor_used-Leaves A c k (body k s) (keeps k s p)
  cursor_opened-Leaves A c body (err e, s) keeps p =
      settled-Leaves _ (cursor_failed-IsSettled A c none e s p)

  pub with_cursor-Leaves :
      {A : Type 0} (body : Cursor → Action d.World A) (s : Db d.World)
      → ((c : Conn) (k : Cursor) → Keeps c (body k))
      → IsSettled s
      → Leaves (with_cursor d body s)
  unfolding with_cursor
  with_cursor-Leaves {A} body s keeps h =
      continue-Leaves (get_connection d s) _ (get_connection-Connected s h) (λ c s' h'.
        cursor_opened-Leaves A c body (call (opening_cursor c) (d.open_cursor c) s') (keeps c) h'.0)

  pub end_read : (c : Conn) (s : Db d.World) → Holds c s → IsSettled (rollback_or_discard d c s).1
  end_read c s p = rollback_or_discard-IsSettled c s p
