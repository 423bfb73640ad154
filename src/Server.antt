-- ===== src/Server.antt =====
-- cubrid_mcp_server/server.py: what its tools return and send.
pub mod Render
pub mod Fence
pub mod Identifiers
pub mod Tools
pub mod Counts
pub mod WriteMode
pub mod Groups
pub mod Catalog
pub mod Explain
pub mod Requests
