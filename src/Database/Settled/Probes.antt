-- ===== src/Database/Settled/Probes.antt =====
-- The probes of the catalog leave a settled state.
use cubrid_mcp_server.Common.{
  ◌≡◌, refl, Bool, true, false, not, ◌&&◌, if◌then◌else◌, Option, none, some, List, [], ◌∷◌,
  Bool-cases, inl, inr,
}
use cubrid_mcp_server.Common.Text.{Text}
use cubrid_mcp_server.Common.Result.{Result, ok, err}
use cubrid_mcp_server.Database.Exceptions.{
  Exc, raised, database_error, class_of, is_database_error, rejected_by_server,
}
use cubrid_mcp_server.Database.Driver.{Conn, Driver, Db, Action, pure, raise, continue, handled}
use cubrid_mcp_server.Database.Session.{get_connection, is_current}
use cubrid_mcp_server.Database.Statements.{
  serial_probe, owner_probe, serial_attribute_columns, fetch_all, probe_failed, probe,
  remember_owner, probe_owner, owner_qualified_names, try_columns, probe_serial,
  serial_attribute_column,
}
use cubrid_mcp_server.Database.Settled.{cached, IsSettled}
use cubrid_mcp_server.Database.Settled.Session.{Connected, get_connection-Connected}
use cubrid_mcp_server.Database.Settled.Statements.{fetch_all-IsSettled}

-- What is remembered for the current connection is not left behind by it.
current_cached :
    (o : Option Conn) (c : Conn) (serial : Option Text) (owner : Option Bool)
    → is_current o c ≡ true
    → cached o serial owner ≡ true
current_cached none c serial owner h = cc
current_cached (some c') c serial owner h = refl

module _ (d : Driver) where
  probe_failed-IsSettled :
      (x : Result Exc Bool × Db d.World) → IsSettled x.1 → IsSettled (handled x (probe_failed d)).1
  probe_failed-IsSettled (ok b, s) h = h
  probe_failed-IsSettled (err e, s) h =
      elim (Bool-cases (is_database_error (class_of e) && rejected_by_server e)) [
        | inl b ↦ rw b h
        | inr b ↦ rw b h
      ]

  known-IsSettled :
      {A B : Type 0} (x : Result Exc A × Db d.World) (b : B)
      → IsSettled x.1
      → IsSettled (continue x λ _. pure b).1
  known-IsSettled (ok a, s) b h = h
  known-IsSettled (err e, s) b h = h

  probe-IsSettled : (sql : Text) (s : Db d.World) → IsSettled s → IsSettled (probe d sql s).1
  unfolding probe
  probe-IsSettled sql s h =
      probe_failed-IsSettled _
        (known-IsSettled (fetch_all d sql [] s) true (fetch_all-IsSettled d sql [] s h))

  continue-IsSettled :
      {A B : Type 0} (x : Result Exc A × Db d.World) (f : A → Action d.World B)
      → IsSettled x.1
      → ((a : A) (s : Db d.World) → IsSettled s → IsSettled (f a s).1)
      → IsSettled (continue x f).1
  continue-IsSettled (ok a, s) f h k = k a s h
  continue-IsSettled (err e, s) f h k = h

  connected : (x : Result Exc Conn × Db d.World) → Connected d x → IsSettled x.1
  connected (ok c, s) h = h.1
  connected (err e, s) h = h

  remember_owner-IsSettled :
      (c : Conn) (found : Bool) (s : Db d.World)
      → IsSettled s
      → IsSettled (remember_owner d c found s)
  remember_owner-IsSettled c found s h = elim (Bool-cases (is_current s.connection c)) [
    | inl b ↦ rw b (record {
      ended = h.ended;
      probes = current_cached s.connection c s.serial_column (some found) b;
    })
    | inr b ↦ rw b h
  ]

  probe_owner-IsSettled :
      (o : Option Bool) (s : Db d.World) → IsSettled s → IsSettled (probe_owner d o s).1
  probe_owner-IsSettled (some known) s h = h
  probe_owner-IsSettled none s h =
      continue-IsSettled (get_connection d s) _ (connected _ (get_connection-Connected d s h))
        (λ c s1 h1.
          continue-IsSettled (probe d owner_probe s1) _ (probe-IsSettled owner_probe s1 h1)
            (λ found s2 h2. remember_owner-IsSettled c found s2 h2))

  pub owner_qualified_names-IsSettled :
      (s : Db d.World) → IsSettled s → IsSettled (owner_qualified_names d s).1
  unfolding owner_qualified_names
  owner_qualified_names-IsSettled s h = probe_owner-IsSettled s.owner_names s h

  column_found-IsSettled :
      (c : Conn) (found : Bool) (column : Text) (later : Action d.World Text) (s : Db d.World)
      → IsSettled s
      → IsSettled (later s).1
      → IsSettled
          (if not (is_current s.connection c)
            then raise (raised database_error) s
            else if found
            then (ok column, record s { serial_column = some column })
            else later s).1
  column_found-IsSettled c found column later s h k =
      elim (Bool-cases (is_current s.connection c)) [ inr b ↦ rw b h | inl b ↦ rw b (kept found b) ]
    where
      kept :
          (found : Bool)
          → is_current s.connection c ≡ true
          → IsSettled
              (if found then (ok column, record s { serial_column = some column }) else later s).1
      kept true b = record {
        ended = h.ended;
        probes = current_cached s.connection c (some column) s.owner_names b;
      }
      kept false b = k

  try_columns-IsSettled :
      (c : Conn) (columns : List Text) (s : Db d.World)
      → IsSettled s
      → IsSettled (try_columns d c columns s).1
  unfolding try_columns
  try_columns-IsSettled c [] s h = h
  try_columns-IsSettled c (column ∷ rest) s h =
      continue-IsSettled (probe d (serial_probe column) s) _
        (probe-IsSettled (serial_probe column) s h)
        (λ found s1 h1.
          column_found-IsSettled c found column (try_columns d c rest) s1 h1
            (try_columns-IsSettled c rest s1 h1))

  probe_serial-IsSettled :
      (o : Option Text) (s : Db d.World) → IsSettled s → IsSettled (probe_serial d o s).1
  probe_serial-IsSettled (some column) s h = h
  probe_serial-IsSettled none s h =
      continue-IsSettled (get_connection d s) _ (connected _ (get_connection-Connected d s h))
        (λ c s1 h1. try_columns-IsSettled c serial_attribute_columns s1 h1)

  pub serial_attribute_column-IsSettled :
      (s : Db d.World) → IsSettled s → IsSettled (serial_attribute_column d s).1
  unfolding serial_attribute_column
  serial_attribute_column-IsSettled s h = probe_serial-IsSettled s.serial_column s h
