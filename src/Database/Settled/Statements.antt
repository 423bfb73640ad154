-- ===== src/Database/Settled/Statements.antt =====
-- `fetch_all` and `fetch_many` leave a settled state, whatever the driver answers.
use cubrid_mcp_server.Common.{
  ℕ, zero, suc, ◌≡◌, refl, Bool, true, false, if◌then◌else◌, Option, none, some, List, [], ◌∷◌,
}
use cubrid_mcp_server.Common.Text.{Text}
use cubrid_mcp_server.Common.Result.{Result, ok, err}
use cubrid_mcp_server.Value.{Row}
use cubrid_mcp_server.Database.Exceptions.{Exc}
use cubrid_mcp_server.Database.Driver.{
  Conn, Cursor, Driver, Db, Action, reading, executing, pure, raise, call, continue, ◌>>◌,
  continue-ok,
}
use cubrid_mcp_server.Database.Statements.{
  take_batch, require_result_set, end_of, end_read_transaction, fetch_all, Fetched, go_on,
  after_batch, read_batches, fetch_many,
}
use cubrid_mcp_server.Database.Settled.{IsSettled}
use cubrid_mcp_server.Database.Settled.Session.{
  Holds, Probes, Leaves, Keeps, with_cursor-Leaves, end_read, rollback_or_discard-ok,
}

module _ (d : Driver) (c : Conn) where
  continue-Holds :
      {A B : Type 0} (x : Result Exc A × Db d.World) (f : A → Action d.World B)
      → Holds c x.1
      → ((a : A) → Keeps d c (f a))
      → Holds c (continue x f).1
  continue-Holds (ok a, s) f p h = h a s p
  continue-Holds (err e, s) f p h = p

  if-Keeps :
      {A : Type 0} (b : Bool) (m n : Action d.World A)
      → Keeps d c m
      → Keeps d c n
      → Keeps d c (if b then m else n)
  if-Keeps true m n hm hn = hm
  if-Keeps false m n hm hn = hn

  require_result_set-Keeps : (k : Cursor) → Keeps d c (require_result_set d k)
  unfolding require_result_set
  require_result_set-Keeps k s p =
      continue-Holds (call reading (d.has_result_set k) s) _ p
        (λ b. if-Keeps b (pure tt) (raise _) (λ s' p'. p') (λ s' p'. p'))

  go_on-Keeps :
      (next : List Row → Action d.World Fetched) (r : List Row × Bool)
      → ((rows : List Row) → Keeps d c (next rows))
      → Keeps d c (go_on d next r)
  go_on-Keeps next (kept, true) h s p = p
  go_on-Keeps next (kept, false) h s p = h kept s p

  after_batch-Keeps :
      (next : List Row → Action d.World Fetched) (max_rows : Option ℕ) (rows batch : List Row)
      → ((rows : List Row) → Keeps d c (next rows))
      → Keeps d c (after_batch d next max_rows rows batch)
  after_batch-Keeps next max_rows rows [] h s p = p
  after_batch-Keeps next max_rows rows (row ∷ more) h s p =
      go_on-Keeps next (take_batch max_rows rows (row ∷ more)) h s p

  read_batches-Keeps :
      (fuel : ℕ) (max_rows : Option ℕ) (k : Cursor) (rows : List Row)
      → Keeps d c (read_batches d fuel max_rows k rows)
  unfolding read_batches
  read_batches-Keeps zero max_rows k rows s p = p
  read_batches-Keeps (suc fuel) max_rows k rows s p =
      continue-Holds (call reading (d.fetch_many k 100) s)
        (after_batch d (read_batches d fuel max_rows k) max_rows rows) p
        (λ batch.
          after_batch-Keeps (read_batches d fuel max_rows k) max_rows rows batch
            (read_batches-Keeps fuel max_rows k))

module _ (d : Driver) where
  end_of-IsSettled :
      (o : Option Conn) (s : Db d.World) → s.connection ≡ o → Probes s → IsSettled (end_of d o s).1
  end_of-IsSettled none s e p = record { ended = rw e refl; probes = p }
  end_of-IsSettled (some c) s e p = end_read d c s e

  end_of-ok : (o : Option Conn) (s : Db d.World) → (end_of d o s).0 ≡ ok tt
  end_of-ok none s = refl
  end_of-ok (some c) s = rollback_or_discard-ok d c s

  -- What `fetch_all` and `fetch_many` do behind their `with` block.
  ended-IsSettled :
      {A : Type 0} (x : Result Exc A × Db d.World)
      → Leaves d x
      → IsSettled (continue x λ a. end_read_transaction d >> pure a).1
  unfolding end_read_transaction
  ended-IsSettled (ok a, s) h =
      rw (continue-ok (end_of d s.connection s) (λ _. pure a) (end_of-ok s.connection s))
        (end_of-IsSettled s.connection s refl h)
  ended-IsSettled (err e, s) h = h

  pub fetch_all-IsSettled :
      (sql : Text) (params : Row) (s : Db d.World)
      → IsSettled s
      → IsSettled (fetch_all d sql params s).1
  unfolding fetch_all
  fetch_all-IsSettled sql params s h = ended-IsSettled _ (
      with_cursor-Leaves d _ s
        (λ c k s1 p1.
          continue-Holds d c (call (executing sql) (d.execute k sql params) s1) _ p1 (λ _ s2 p2.
            continue-Holds d c (require_result_set d k s2) _ (require_result_set-Keeps d c k s2 p2)
              (λ _ s3 p3. p3)))
        h)

  pub fetch_many-IsSettled :
      (fuel : ℕ) (sql : Text) (params : Row) (max_rows : Option ℕ) (s : Db d.World)
      → IsSettled s
      → IsSettled (fetch_many d fuel sql params max_rows s).1
  unfolding fetch_many
  fetch_many-IsSettled fuel sql params max_rows s h = ended-IsSettled _ (
      with_cursor-Leaves d _ s
        (λ c k s1 p1.
          continue-Holds d c (call (executing sql) (d.execute k sql params) s1) _ p1 (λ _ s2 p2.
            continue-Holds d c (require_result_set d k s2) _ (require_result_set-Keeps d c k s2 p2)
              (λ _. read_batches-Keeps d c fuel max_rows k [])))
        h)
