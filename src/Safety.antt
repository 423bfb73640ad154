-- ===== src/Safety.antt =====
-- cubrid_mcp_server/safety.py: the SQL checks that stand before the database.
pub mod Errors
pub mod Lex
pub mod Render
pub mod Tokens
pub mod SideEffect
pub mod Statement
pub mod Checks
