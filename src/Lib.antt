-- ===== src/Lib.antt =====
-- Verification library of pg/pg_mcp, the PostgreSQL extension (Rust) that makes the tools, prompts and
-- resources of an MCP server readable from SQL.
--
-- The parts, and how they interact. A foreign scan or a SQL function of the extension opens a session
-- with the server (client.rs), which sends JSON-RPC requests over HTTP. The answer is a JSON body or an
-- event stream, which the reader of sse.rs follows up to the reply; every failure is an `McpError`
-- (errors.rs) with a SQLSTATE. The options of a server and of a user mapping (options.rs) say where the
-- server is and how to authenticate; session.rs keeps a session for each server and role. Lists are
-- paginated, and kept by server, role and kind for a while (cache.rs). Ten static tables (tables/mod.rs)
-- read the server: those of catalog.rs show its lists, those of readthrough.rs send one request for each
-- key that the planner's restrictions (quals.rs) allow, and tool_calls.rs calls a tool for each inserted
-- row, logs the call and can write it to an audit table. The generator (codegen/) plans, from the
-- definition of each tool, the names (ident.rs), the column types (types.rs) and the foreign table
-- (table.rs) of the tool; per_tool.rs answers scans of that table and inserts into it, with a plan made
-- anew from the tool's present definition.
--
-- Which file models what:
--   Base         the Booleans, texts, lists, decimal numbers and maps that the other files share
--   Json         serde_json's `Value`, over any type of numbers
--   Errors       pg/pg_mcp/src/errors.rs: `McpError`, `sqlstate`, `error_code`, `from_rpc`, …
--   Sse          pg/pg_mcp/src/sse.rs: `read_until_id_observed`, on a `Stream` of what the reads and the
--                clock give; Sse/Frames describes the frames of a stream on their own
--   Client       pg/pg_mcp/src/client.rs: Wire has `dispatch` and the answer's classification, Session
--                the methods of `McpSession` as functions of a state, Listing `list_all`, Content what is
--                read off a tool's result; Bounds, Recovery and Pages are proofs
--   Cache        pg/pg_mcp/src/cache.rs: the thread-local map, looked up, filled and dropped
--   Quals        pg/pg_mcp/src/quals.rs: `Qual::matches_json`, `restricted_values`, `is_supported`
--   Options      pg/pg_mcp/src/options.rs: `ServerOptions::parse`, `UserMappingOptions::parse`,
--                `split_qualified`, `is_loopback`; Accepted, Mapping and Qualified are proofs
--   Sessions     pg/pg_mcp/src/session.rs: `with_session`, the sessions that are kept between two calls
--   Import       pg/pg_mcp/src/import.rs: `validate_prefix`
--   Tables       pg/pg_mcp/src/tables/mod.rs: cells, rows and contexts; Specs has the ten table
--                specifications, Registry `REGISTRY` and `find`
--   Tables/Catalog      pg/pg_mcp/src/tables/catalog.rs: the rows, Filters `apply_post_filters`, Scope
--                `scoped_items`, Scan `fetch_list` and the scans, Cursor `RowsCursor`, Server the table
--                `server`; the other files are proofs
--   Tables/ToolCalls    pg/pg_mcp/src/tables/tool_calls.rs: the log and its scan, Insert the insert, Audit
--                `audit_append` and `validate_audit_shape`; the other files are proofs
--   Tables/ReadThrough  pg/pg_mcp/src/tables/readthrough.rs: `restricted` and the buffered cursor,
--                Resources, Prompts and Completions the three tables, Base64 `base64_decode`; the other
--                files are proofs
--   Tables/PerTool      pg/pg_mcp/src/tables/per_tool.rs: `json_to_cell`, Shape the arguments and the rows of
--                a result, Scan `resolve_tool`, `begin_scan` and the insert; the other files are proofs
--   Codegen      pg/pg_mcp/src/codegen/: Ident and Sha256 are ident.rs, Types is types.rs, Table is
--                table.rs (and `ColumnType` of tables/mod.rs), Plan is `plan_one` of mod.rs, Plan/Batch
--                `plan`
--
-- State is passed explicitly: a method of a session takes a `State` (the session and the world behind
-- it) and returns a result and the state it leaves, after an error too; the tables pass on the sessions,
-- the caches, the logs and the database in the same way. The HTTP agent, the server, the interrupt flag
-- and serde_json are the record `Env`; SPI is `Spi`; PostgreSQL's input functions are in `Reader`;
-- equality of documents is `Equality`; Rust's Unicode lower-casing is the parameter `to_lowercase`. What a
-- theorem needs of them is a hypothesis.
--
-- Bounds and fuel. Request ids, Oids and clock readings are natural numbers. The search for a free name
-- in `dedup` runs on fuel, one more than the names that are taken could use up; the theorem on `dedup`
-- shows that it is enough. The list of pages runs on the room that is left under `MAX_LIST_PAGES`,
-- which is the loop's own guard. All other loops are structural recursion. The 32-bit arithmetic
-- of SHA-256 keeps its wrap-around, and so do the casts to `i32` of row numbers. A panic of a byte slice
-- is `none`.
--
-- Not modelled: the planner and executor hooks of fdw.rs and the SQL entry points of api.rs, which are
-- bindings to PostgreSQL; the rest of import.rs and session.rs; the emission of functions and views and
-- the registry of codegen/. The times of sessions, the opaque `Debug` of `Bearer`, the connection pool and
-- the warnings that are only reported have no counterpart. A fetch of the catalog cache is a
-- function that does not enter the cache again: the fetches of the source only talk to the server. The
-- rest of the repository (the Elixir library in lib/, daemon/, fuse/) is not modelled.
pub mod Base
pub mod Codegen
pub mod Json
pub mod Errors
pub mod Sse
pub mod Client
pub mod Cache
pub mod Quals
pub mod Import
pub mod Options
pub mod Tables
pub mod Sessions
