-- ===== src/Database/Settled.antt =====
-- The state that a method of `Database` (cubrid_mcp_server/database.py) leaves, but for `cursor` and
-- `exclusive`, which leave the transaction to their caller: a connection that is kept carries no open
-- transaction, and what was probed is forgotten with the connection it was probed on.
pub mod Session
pub mod Trace
pub mod Writes
pub mod Probes
pub mod Runs
pub mod Statements
use cubrid_mcp_server.Common.{
  ℕ, ◌≡◌, Bool, true, false, not, ◌&&◌, Option, none, some, List, [], ◌∷◌,
}
use cubrid_mcp_server.Common.Text.{Text}
use cubrid_mcp_server.Database.Driver.{
  Conn, Db, Call, connect, executing, committing, rolling_back, Event,
}
use cubrid_mcp_server.Database.Session.{is_current}

-- Whether a statement has run since the last connect that succeeded, or the last commit or rollback
-- of the connection that is kept that did.
abbrev pub after_call : Option Conn → Call → Bool → Bool → Bool
after_call kept (executing sql) succeeded open_before = true
after_call kept (committing c) true open_before = not (is_current kept c) && open_before
after_call kept (rolling_back c) true open_before = not (is_current kept c) && open_before
after_call kept connect true open_before = false
after_call kept _ _ open_before = open_before

abbrev pub is_open : Option Conn → List Event → Bool
is_open kept [] = false
is_open kept (e ∷ es) = after_call kept e.call e.succeeded (is_open kept es)

abbrev pub is_none {ℓ} : {A : Type ℓ} → Option A → Bool
is_none none = true
is_none (some a) = false

abbrev pub quiet : Option Conn → Bool → Bool
quiet none open_now = true
quiet (some c) open_now = not open_now

abbrev pub cached : Option Conn → Option Text → Option Bool → Bool
cached none serial owner = is_none serial && is_none owner
cached (some c) serial owner = true

pub record IsSettled {W : Type 0} (s : Db W) : Type 0 where
  pub ended : quiet s.connection (is_open s.connection s.log) ≡ true
  pub probes : cached s.connection s.serial_column s.owner_names ≡ true
