-- ===== src/Codegen.antt =====
-- pg/pg_mcp/src/codegen/: the generator that turns an MCP server's tools into SQL objects.
pub mod Sha256
pub mod Ident
pub mod Table
pub mod Types
pub mod Plan
