-- ===== src/Mcp.antt =====
-- The MCP server (src/mcp_server): tools that read the state, and audited tools that write it, each
-- behind a scope of the caller's token.
pub mod Auth
pub mod Audit
pub mod WriteTools
pub mod Queries
pub mod Server
mod Tests
