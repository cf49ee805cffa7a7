-- ===== src/Client.antt =====
-- pg/pg_mcp/src/client.rs: one MCP session over HTTP, its requests, and the paginated lists.
-- The HTTP agent, the server behind it, the interrupt flag and serde_json are the record `Env`;
-- `W` is what they keep between two calls. Request ids are natural numbers.
pub mod Wire
pub mod Session
pub mod Listing
pub mod Bounds
pub mod Recovery
pub mod Pages
pub mod Content
mod Tests
pub use Wire.*
pub use Session.*
pub use Listing.*
