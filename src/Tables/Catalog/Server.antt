-- ===== src/Tables/Catalog/Server.antt =====
-- pg/pg_mcp/src/tables/catalog.rs: the one row of the table `server`.
use elixir_mcp_lib.Base.{ℕ, Option, none, some, List, [], ◌∷◌, Text, codes, ◌>>=◌}
use elixir_mcp_lib.Json.{Value}
use elixir_mcp_lib.Errors.{McpResult, ok, err}
use elixir_mcp_lib.Cache.{Slice, Caches, get_or_fetch}
use elixir_mcp_lib.Options.{Mode, auto, generic, sql}
use elixir_mcp_lib.Client.Wire.{Env}
use elixir_mcp_lib.Client.Session.{McpSession, Transport, request, initialize_params}
use elixir_mcp_lib.Sessions.{Sessions, with_session}
use elixir_mcp_lib.Tables.{Cell, text, Row, empty_row, TableContext, ScanContext, effective_ttl_ms}
use elixir_mcp_lib.Tables.Catalog.{set_all, set, text_at, json_cell}
use elixir_mcp_lib.Tables.Catalog.Cursor.{RowsCursor, new}
use elixir_mcp_lib.Tables.Catalog.Scan.{Scan, beside_caches, map_ok}

unfoldable pub resolved_mode : Mode → Text
resolved_mode generic = codes "generic"
resolved_mode auto = codes "generic"
resolved_mode sql = codes "sql"

module _ {N S : Type 0} where
  -- `map(|result| vec![result])`
  abbrev pub one_result : McpResult (Value N) × S → McpResult (List (Value N)) × S
  one_result (ok result, s) = (ok (result ∷ []), s)
  one_result (err e, s) = (err e, s)

module _ {N F : Type 0} where
  -- `initialize.first().and_then(|result| text_at(result, "instructions"))`
  unfoldable pub instructions_of : List (Value N) → Option (Cell N F)
  unfolding text_at
  instructions_of [] = none
  instructions_of (result ∷ rest) = text_at result (codes "instructions")

  -- the columns that the session fills
  unfoldable pub handshake_cells : McpSession N → List (Text × Option (Cell N F))
  unfolding text_at
  handshake_cells session =
      (codes "protocol_version", some (text session.protocol_version))
      ∷ (codes "server_name", text_at session.server_info (codes "name"))
      ∷ (codes "server_version", text_at session.server_info (codes "version"))
      ∷ (codes "capabilities", json_cell (some session.capabilities))
      ∷ (codes "session_id", session.session_id >>= (λ sid. some (text sid)))
      ∷ []

  unfoldable pub identity_cells : TableContext → List (Text × Option (Cell N F))
  unfolding resolved_mode
  identity_cells ctx =
      (codes "name", some (text ctx.server_name))
      ∷ (codes "url", some (text ctx.resolved.options.url))
      ∷ (codes "mode", some (text (resolved_mode ctx.resolved.options.mode)))
      ∷ []

module _ {N F W : Type 0} (env : Env N W) (parse_u64 : Text → Option ℕ) (now later : ℕ) where
  -- the closure: the row with the session's columns, and the instructions of the `initialize` slice
  unfoldable pub describe_in :
      TableContext
      → Row N F
      → Transport
      → McpSession N
      → Sessions N
      → Caches (Value N) × W
      → McpResult (Row N F × Option (Cell N F)) × McpSession N × Sessions N × (Caches (Value N) × W)
  unfolding set handshake_cells get_or_fetch request instructions_of
  describe_in ctx row t session sessions (caches, w) =
      let (result, caches', s) =
        get_or_fetch
          (λ s. one_result (request env t (codes "initialize") (initialize_params env t) s)) now
          later ctx.resolved.key (effective_ttl_ms parse_u64 ctx) Slice.initialize caches
          (record { session = session; world = w }) in
      (
        map_ok (λ listed. (set_all ctx.spec row (handshake_cells session), instructions_of listed))
            result,
        s.session,
        sessions,
        (caches', s.world),
      )

  unfoldable pub server_scan :
      ScanContext N → Sessions N → Caches (Value N) → W → Scan N W (RowsCursor (Row N F))
  unfolding set identity_cells with_session describe_in new
  server_scan ctx sessions caches w =
      let row = set_all ctx.base.spec (empty_row N F ctx.base.spec) (identity_cells ctx.base) in
      let (result, sessions', stores) =
        with_session (beside_caches env) (describe_in ctx.base row) ctx.base.resolved sessions
          (caches, w) in
      (
        map_ok
            (λ (p : Row N F × Option (Cell N F)).
              new (set ctx.base.spec p.0 (codes "instructions") p.1 ∷ []))
            result,
        sessions',
        stores,
      )
