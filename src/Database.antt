-- ===== src/Database.antt =====
-- cubrid_mcp_server/database.py: the one cached connection and the statements that run on it.
pub mod Exceptions
pub mod Driver
pub mod Session
pub mod Statements
pub mod Settled
pub mod Fetch
pub mod Commits
