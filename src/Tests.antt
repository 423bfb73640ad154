-- ===== src/Tests.antt =====
-- The models of cubrid_mcp_server run on concrete inputs.
mod Safety
mod Database
mod Server
mod Config
mod Audit
mod Tools
mod Scripts
mod Guard
mod Changelog
mod ReviewGate
mod Catalog
mod Context
