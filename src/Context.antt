-- ===== src/Context.antt =====
-- `AppContext` of cubrid_mcp_server/context.py: the databases and audit loggers of the connections.
pub mod Closing
pub mod Lookups
use cubrid_mcp_server.Common.{Bool, true, false, Option, none, some, List, [], ◌∷◌, ◌++◌}
use cubrid_mcp_server.Common.Text.{Text, text_eq}
use cubrid_mcp_server.Common.Result.{Result, ok, err}
use cubrid_mcp_server.Database.Exceptions.{Exc}
use cubrid_mcp_server.Database.Driver.{Driver, Db}
use cubrid_mcp_server.Database.Session.{close}
use cubrid_mcp_server.Common.{ℕ}
use cubrid_mcp_server.Common.Unicode.{Unicode}
use cubrid_mcp_server.Config.{Floats, Config, ConfigError}
use cubrid_mcp_server.Config.Registry.{Named, Registry, lookup, chosen_name, config_for}
use cubrid_mcp_server.Audit.{AuditLog}

-- `Database`: the configuration that it was made with, and its state
pub record Database (C W : Type 0) : Type 0 where
  pub config : C
  pub state : Db W

-- `Database(config)`
abbrev pub new_database : {C W : Type 0} → W → C → Database C W
new_database w c = record {
  config = c;
  state = record {
    connection = none;
    serial_column = none;
    owner_names = none;
    world = w;
    log = [];
  };
}

module _ (C : Type 0) (d : Driver) where
  -- `first_error` after one more close.
  abbrev pub first_of : {A : Type 0} → Option Exc → Result Exc A → Option Exc
  first_of (some e) r = some e
  first_of none (ok a) = none
  first_of none (err e) = some e

  abbrev pub with_rest :
      Text
      → Database C d.World
      → Option Exc × Named (Database C d.World)
      → Option Exc × Named (Database C d.World)
  with_rest name database (e, rest) = (e, (name, database) ∷ rest)

  -- The `for` of `close`: the first error, and the databases afterwards.
  unfoldable pub close_each :
      Option Exc → Named (Database C d.World) → Option Exc × Named (Database C d.World)
  close_each first [] = (first, [])
  close_each first (x ∷ rest) =
      let (r, db) = close d x.1.state in
      with_rest x.0 (record x.1 { state = db }) (close_each (first_of first r) rest)

  -- `if first_error is not None: raise first_error`
  abbrev pub raised_first :
      Option Exc × Named (Database C d.World) → Result Exc (Unit {0}) × Named (Database C d.World)
  raised_first (none, rest) = (ok tt, rest)
  raised_first (some e, rest) = (err e, rest)

  unfoldable pub close_all :
      Named (Database C d.World) → Result Exc (Unit {0}) × Named (Database C d.World)
  close_all databases = raised_first (close_each none databases)

-- What a lookup raises; `key_error` is Python's, of a name that the registry has and a mapping has not.
pub data LookupError : Type 0 where
  no_config : ConfigError → LookupError
  key_error : Text → LookupError

unfoldable pub item : {A : Type 0} → Text → Option A → Result LookupError A
item name (some a) = ok a
item name none = err (key_error name)

module _ (u : Unicode) (lower : Text → Text) (digit_value : ℕ → Option ℕ) (f : Floats)
    (W : Type 0) where
  pub record AppContext : Type 0 where
    pub registry : Registry u lower digit_value f
    pub databases : Named (Database (Config u lower digit_value f) W)
    pub audits : Named AuditLog

  -- `{name: Database(config) for ...}` and `{name: AuditLogger(config.audit_log) for ...}`
  unfoldable pub new_databases :
      W → Named (Config u lower digit_value f) → Named (Database (Config u lower digit_value f) W)
  new_databases w [] = []
  new_databases w (x ∷ rest) = (x.0, new_database w x.1) ∷ new_databases w rest

  unfoldable pub new_audits : Named (Config u lower digit_value f) → Named AuditLog
  new_audits [] = []
  new_audits (x ∷ rest) = (x.0, record { enabled = x.1.audit_log; records = [] }) ∷ new_audits rest

  -- `AppContext.from_env`, behind `ConnectionRegistry.from_env`.
  unfoldable pub context_of : W → Registry u lower digit_value f → AppContext
  context_of w registry = record {
    registry = registry;
    databases = new_databases w registry.configs;
    audits = new_audits registry.configs;
  }

  -- `self.registry.config_for(connection)`, then the item of the mapping.
  unfoldable pub validated :
      {A B : Type 0} → Result ConfigError B → Result LookupError A → Result LookupError A
  validated (err e) found = err (no_config e)
  validated (ok c) found = found

  unfoldable pub database_for :
      AppContext → Option Text → Result LookupError (Database (Config u lower digit_value f) W)
  database_for context connection =
      let name = chosen_name u lower digit_value f context.registry.default_name connection in
      validated (config_for u lower digit_value f context.registry connection)
        (item name (lookup name context.databases))

  unfoldable pub audit_for : AppContext → Option Text → Result LookupError AuditLog
  audit_for context connection =
      let name = chosen_name u lower digit_value f context.registry.default_name connection in
      validated (config_for u lower digit_value f context.registry connection)
        (item name (lookup name context.audits))
