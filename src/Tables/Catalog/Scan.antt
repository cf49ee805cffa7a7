-- ===== src/Tables/Catalog/Scan.antt =====
-- pg/pg_mcp/src/tables/catalog.rs: a list fetched through the cache, and the scans of the six tables.
-- The world of `with_session` is the caches and the world of the requests; `now` and `later` are the
-- clock before and behind a fetch.
use elixir_mcp_lib.Base.{
  ℕ, Bool, true, false, Option, none, some, List, [], map, if◌then◌else◌, Text, codes, ℤ,
}
use elixir_mcp_lib.Json.{Value, object, end}
use elixir_mcp_lib.Errors.{McpError, method_not_found, McpResult, ok, err}
use elixir_mcp_lib.Quals.{Equality}
use elixir_mcp_lib.Cache.{
  Slice, tools, prompts, resources, resource_templates, Caches, drop_tools, get_or_fetch,
}
use elixir_mcp_lib.Client.Wire.{Env}
use elixir_mcp_lib.Client.Session.{McpSession, Transport}
use elixir_mcp_lib.Client.Listing.{list_all}
use elixir_mcp_lib.Client.Content.{take_tools_list_changed}
use elixir_mcp_lib.Sessions.{Sessions, with_session}
use elixir_mcp_lib.Tables.{Row, Numbers, TableContext, ScanContext, effective_ttl_ms, upstream}
use elixir_mcp_lib.Tables.Catalog.{
  tools_row, prompts_row, prompt_argument_rows, resources_row, resource_templates_row,
}
use elixir_mcp_lib.Tables.Registry.{tools_pushed, prompts_pushed, prompt_arguments_pushed}
use elixir_mcp_lib.Tables.Catalog.Filters.{apply_post_filters}
use elixir_mcp_lib.Tables.Catalog.Scope.{scoped_items}
use elixir_mcp_lib.Tables.Catalog.Cursor.{RowsCursor, new}

-- A scan's result, the sessions, the caches and the world that it leaves.
abbrev pub Scan : Type 0 → Type 0 → Type 0 → Type 0
Scan N W A = McpResult A × Sessions N × (Caches (Value N) × W)

module _ {N W : Type 0} where
  -- the same server and client, in a world that also holds the caches
  abbrev pub beside_caches : Env N W → Env N (Caches (Value N) × W)
  beside_caches env = record {
    decoder = env.decoder;
    of_ℕ = env.of_ℕ;
    client_version = env.client_version;
    check = λ w. env.check w.1;
    encode_error = env.encode_error;
    send = λ q w. let (outcome, w') = env.send q w.1 in (outcome, (w.0, w'));
  }

abbrev pub map_ok {ℓ κ} : {A : Type ℓ} {B : Type κ} → (A → B) → McpResult A → McpResult B
map_ok f (ok a) = ok (f a)
map_ok f (err e) = err e

-- `Err(McpError::MethodNotFound(_))`
abbrev pub is_method_not_found : McpError → Bool
is_method_not_found (method_not_found m) = true
is_method_not_found _ = false

module _ {N S : Type 0} where
  -- A method that the server has not is an empty list.
  unfoldable pub fail_open : McpResult (List (Value N)) × S → McpResult (List (Value N)) × S
  fail_open (ok listed, s) = (ok listed, s)
  fail_open (err e, s) = if is_method_not_found e then (ok [], s) else (err e, s)

module _ {N : Type 0} where
  unfoldable pub scoped : Option Text → List (Value N) → List (Value N)
  unfolding scoped_items
  scoped none listed = listed
  scoped (some u) listed = scoped_items u listed

module _ {N : Type 0} where
  -- `poll && take_tools_list_changed()`: whether the tools changed, and the session behind that
  unfoldable pub poll_changed : Bool → McpSession N → Bool × McpSession N
  unfolding take_tools_list_changed
  poll_changed true session = take_tools_list_changed session
  poll_changed false session = (false, session)

module _ {N W : Type 0} (env : Env N W) (parse_u64 : Text → Option ℕ) (now later : ℕ) where
  -- the closure that `fetch_list` runs in the session
  unfoldable pub fetch_in :
      TableContext
      → Slice
      → Text
      → Text
      → Bool
      → Transport
      → McpSession N
      → Sessions N
      → Caches (Value N) × W
      → McpResult (List (Value N)) × McpSession N × Sessions N × (Caches (Value N) × W)
  unfolding poll_changed drop_tools get_or_fetch fail_open list_all scoped
  fetch_in ctx slice method array_key poll t session sessions (caches, w) =
      let (changed, session') = poll_changed poll session in
      let caches' = if changed then (drop_tools ctx.resolved.key caches).1 else caches in
      let (result, caches'', s) =
        get_or_fetch (λ s. fail_open (list_all env t method array_key (object end) s)) now later
          ctx.resolved.key (effective_ttl_ms parse_u64 ctx) slice caches'
          (record { session = session'; world = w }) in
      (map_ok (scoped (upstream ctx)) result, s.session, sessions, (caches'', s.world))

  unfoldable pub fetch_list :
      TableContext
      → Slice
      → Text
      → Text
      → Bool
      → Sessions N
      → Caches (Value N)
      → W
      → Scan N W (List (Value N))
  unfolding with_session fetch_in
  fetch_list ctx slice method array_key poll sessions caches w =
      with_session (beside_caches env) (fetch_in ctx slice method array_key poll) ctx.resolved
        sessions (caches, w)

module _ {N F W : Type 0} (env : Env N W) (parse_u64 : Text → Option ℕ) (now later : ℕ)
    (eq : Equality N) (num : Numbers N F) where
  -- The rows of a list, restricted and put behind a cursor.
  unfoldable pub scan_list :
      ScanContext N
      → Slice
      → Text
      → Text
      → Bool
      → (List (Value N) → List (Row N F))
      → List Text
      → Sessions N
      → Caches (Value N)
      → W
      → Scan N W (RowsCursor (Row N F))
  unfolding fetch_list apply_post_filters new
  scan_list ctx slice method array_key poll rows pushed sessions caches w =
      let (result, sessions', stores) =
        fetch_list env parse_u64 now later ctx.base slice method array_key poll sessions caches w in
      (
        map_ok
            (λ listed. new (apply_post_filters eq num ctx.base.spec (rows listed) ctx.quals pushed))
            result,
        sessions',
        stores,
      )

  unfoldable pub tools_scan :
      ScanContext N → Sessions N → Caches (Value N) → W → Scan N W (RowsCursor (Row N F))
  unfolding scan_list tools_row
  tools_scan ctx =
      scan_list ctx tools (codes "tools/list") (codes "tools") true
        (map (tools_row N F ctx.base.spec)) tools_pushed

  unfoldable pub prompts_scan :
      ScanContext N → Sessions N → Caches (Value N) → W → Scan N W (RowsCursor (Row N F))
  unfolding scan_list prompts_row
  prompts_scan ctx =
      scan_list ctx prompts (codes "prompts/list") (codes "prompts") false
        (map (prompts_row N F ctx.base.spec)) prompts_pushed

  unfoldable pub prompt_arguments_scan :
      ScanContext N → Sessions N → Caches (Value N) → W → Scan N W (RowsCursor (Row N F))
  unfolding scan_list prompt_argument_rows
  prompt_arguments_scan ctx =
      scan_list ctx prompts (codes "prompts/list") (codes "prompts") false
        (prompt_argument_rows N F ctx.base.spec) prompt_arguments_pushed

  unfoldable pub list_scan :
      ScanContext N
      → Slice
      → Text
      → Text
      → (List (Value N) → List (Row N F))
      → Sessions N
      → Caches (Value N)
      → W
      → Scan N W (RowsCursor (Row N F))
  unfolding fetch_list new
  list_scan ctx slice method array_key rows sessions caches w =
      let (result, sessions', stores) =
        fetch_list env parse_u64 now later ctx.base slice method array_key false sessions caches
          w in
      (map_ok (λ listed. new (rows listed)) result, sessions', stores)

  unfoldable pub resources_scan :
      (N → Option ℤ)
      → ScanContext N
      → Sessions N
      → Caches (Value N)
      → W
      → Scan N W (RowsCursor (Row N F))
  unfolding list_scan resources_row
  resources_scan as_i64 ctx =
      list_scan ctx resources (codes "resources/list") (codes "resources")
        (map (resources_row N F as_i64 ctx.base.spec))

  unfoldable pub resource_templates_scan :
      ScanContext N → Sessions N → Caches (Value N) → W → Scan N W (RowsCursor (Row N F))
  unfolding list_scan resource_templates_row
  resource_templates_scan ctx =
      list_scan ctx resource_templates (codes "resources/templates/list")
        (codes "resourceTemplates") (map (resource_templates_row N F ctx.base.spec))
