-- ===== src/Tests/Context.antt =====
-- `AppContext.close` of cubrid_mcp_server/context.py on two connections.
use cubrid_mcp_server.Common.{ℕ, ◌≡◌, refl, Bool, true, Option, none, some, [], ◌∷◌, All}
use cubrid_mcp_server.Common.Text.{codes}
use cubrid_mcp_server.Common.Result.{ok, err}
use cubrid_mcp_server.Value.{pos}
use cubrid_mcp_server.Database.Exceptions.{raised, operational_error}
use cubrid_mcp_server.Database.Driver.{Driver}
use cubrid_mcp_server.Database.Session.{close}
use cubrid_mcp_server.Config.Registry.{Named, names}
use cubrid_mcp_server.Context.{Database, close_each, close_all}
use cubrid_mcp_server.Context.Closing.{IsClosed, EndsAll, close_all-IsClosed}

-- No connection closes without an error.
abbrev broken : Driver
broken = record {
  World = Unit {0};
  connect = λ w. (ok 7, w);
  open_cursor = λ c w. (ok 1, w);
  execute = λ k sql params w. (ok tt, w);
  row_count = λ k w. (ok (pos 1), w);
  has_result_set = λ k w. (ok true, w);
  fetch_all = λ k w. (ok [], w);
  fetch_many = λ k size w. (ok [], w);
  close_cursor = λ k w. (ok tt, w);
  commit = λ c w. (ok tt, w);
  rollback = λ c w. (ok tt, w);
  close = λ c w. (err (raised operational_error), w);
  server_version = λ c w. (ok (codes "11.4"), w);
}

abbrev at_connection : Option ℕ → Option Bool → Database (Unit {0}) (Unit {0})
at_connection c owner = record {
  config = tt;
  state = record {
    connection = c;
    serial_column = none;
    owner_names = owner;
    world = tt;
    log = [];
  };
}

abbrev opened : Named (Database (Unit {0}) (Unit {0}))
opened =
    (codes "default", at_connection (some 1) (some true))
    ∷ (codes "other", at_connection (some 2) none)
    ∷ []

close_all-IsClosed_example :
    EndsAll (Unit {0}) broken opened (close_all (Unit {0}) broken opened).0
    × All (λ x. IsClosed (Unit {0}) broken x.1.state) (close_all (Unit {0}) broken opened).1
    × (names (close_all (Unit {0}) broken opened).1 ≡ names opened)
close_all-IsClosed_example = close_all-IsClosed (Unit {0}) broken opened

-- The first of the two errors is raised.
raises : (close_all (Unit {0}) broken opened).0 ≡ err (raised operational_error)
unfolding close_all close_each close
raises = refl
