-- ===== src/Tables/PerTool/Scan.antt =====
-- pg/pg_mcp/src/tables/per_tool.rs: a scan of the table of a tool, and an insert into it. The warning on
-- a changed tool list only reads the registry and is left out; `now` and `later` are the clock.
use elixir_mcp_lib.Base.{
  ℕ, Bool, false, Option, none, some, List, [], ◌∷◌, ◌++◌, if◌then◌else◌, Text, codes, text_eq,
}
use elixir_mcp_lib.Base.Assoc
use elixir_mcp_lib.Json.{Value, object, end, get, as_str}
use elixir_mcp_lib.Errors.{McpError, feature_not_supported, undefined_object, McpResult, ok, err}
use elixir_mcp_lib.Quals.{Equality}
use elixir_mcp_lib.Cache.{CacheKey, oids_key, tools, drop_tools, get_or_fetch}
use elixir_mcp_lib.Client.Wire.{Env}
use elixir_mcp_lib.Client.Session.{McpSession}
use elixir_mcp_lib.Sessions.{Sessions, with_session}
use elixir_mcp_lib.Codegen.Table.{PlannedTool}
use elixir_mcp_lib.Codegen.Plan.{read_only}
use elixir_mcp_lib.Codegen.Plan.Batch.{GenerationPlan, single_schema, plan}
use elixir_mcp_lib.Tables.{Row, Numbers}
use elixir_mcp_lib.Tables.Catalog.Filters.{filter}
use elixir_mcp_lib.Tables.ReadThrough.{request_in, list_in}
use elixir_mcp_lib.Tables.ToolCalls.Insert.{call_params}
use elixir_mcp_lib.Tables.PerTool.{
  PerToolContext, ToolState, Outcome, done, refused, thrown, from_result, Reader,
}
use elixir_mcp_lib.Tables.PerTool.Shape.{
  arguments_from_quals, arguments_from_row, shape_result, post_filter,
}

module _ {N W A B : Type 0} where
  -- `?` on a step that has changed the state
  unfoldable pub and_then :
      Outcome A × ToolState N W
      → (A → ToolState N W → Outcome B × ToolState N W)
      → Outcome B × ToolState N W
  and_then (done a, s) f = f a s
  and_then (refused e, s) f = (refused e, s)
  and_then (thrown, s) f = (thrown, s)

module _ {N : Type 0} where
  abbrev pub gate_error : PerToolContext N → McpError
  gate_error ctx = feature_not_supported (
      codes "tool \""
      ++ ctx.target.tool
      ++ codes "\" is not read-only; INSERT into "
      ++ ctx.table_qual
      ++ codes " instead (PRD-8 §4.2)")

  unfoldable pub check_gate : PerToolContext N → McpResult (Unit {0})
  check_gate ctx = if ctx.target.invoke_on_select then ok tt else err (gate_error ctx)

  -- the first tool of that name
  unfoldable pub find_tool : List (Value N) → Text → Option (Value N)
  find_tool [] name = none
  find_tool (t ∷ ts) name =
      let rest = find_tool ts name in
      elim (get t (codes "name")) [
        | none ↦ rest
        | some v ↦ elim (as_str v) [
          | none ↦ rest
          | some n ↦ if text_eq n name then some t else rest
        ]
      ]

  abbrev pub not_listed : PerToolContext N → McpError
  not_listed ctx = undefined_object (
      codes "tool \""
      ++ ctx.target.tool
      ++ codes "\" is not in server \""
      ++ ctx.server_name
      ++ codes "\"'s tools/list; the generated table "
      ++ ctx.table_qual
      ++ codes " is stale — re-run mcp.generate_functions")

  abbrev pub not_mappable : PerToolContext N → McpError
  not_mappable ctx = undefined_object (
      codes "tool \""
      ++ ctx.target.tool
      ++ codes "\" on server \""
      ++ ctx.server_name
      ++ codes "\" no longer has a mappable input schema; re-run mcp.generate_functions")

  -- the first tool of the plan; `none` is a panic of the planner
  abbrev pub first_planned :
      PerToolContext N → Option (McpResult GenerationPlan) → Outcome PlannedTool
  first_planned ctx none = thrown
  first_planned ctx (some (err e)) = refused e
  first_planned ctx (some (ok p)) = elim p.tools [
    | [] ↦ refused (not_mappable ctx)
    | t ∷ ts ↦ done t
  ]

  -- the cached session's flag
  abbrev flag_of : Option (McpSession N) → Bool
  flag_of none = false
  flag_of (some s) = s.tools_list_changed

  unfoldable pub tools_changed : CacheKey → Sessions N → Bool
  unfolding Assoc.find
  tools_changed key sessions = flag_of (Assoc.find sessions key)

  abbrev pub ttl_of : PerToolContext N → ℕ
  ttl_of ctx = elim ctx.target.cache_ttl_ms [
    | none ↦ ctx.resolved.options.cache_ttl_ms
    | some ttl ↦ ttl
  ]

module _ {N W : Type 0} (env : Env N W) (to_lowercase : Text → Text) (render : Value N → Text)
    (now later : ℕ) where
  -- the tool list, through the cache
  unfoldable pub listed_tools :
      PerToolContext N → ToolState N W → McpResult (List (Value N)) × ToolState N W
  unfolding get_or_fetch with_session list_in
  listed_tools ctx s =
      let (listed, caches, rest) =
        get_or_fetch
          (λ (st : Sessions N × W).
            let (answer, sessions, w) =
              with_session env (list_in env (codes "tools/list") (codes "tools") (object end))
                ctx.resolved st.0 st.1 in
            (answer, (sessions, w)))
          now later ctx.resolved.key (ttl_of ctx) tools s.caches (s.sessions, s.world) in
      (listed, record { sessions = rest.0; caches = caches; world = rest.1 })

  -- A change of the tools that was notified empties the cache.
  unfoldable pub drop_changed : CacheKey → ToolState N W → ToolState N W
  unfolding tools_changed drop_tools
  drop_changed key s =
      if tools_changed key s.sessions then record s { caches = (drop_tools key s.caches).1 } else s

  -- the plan of the tool's definition, on its own
  unfoldable pub planned_of : PerToolContext N → Option (Value N) → Outcome PlannedTool
  unfolding plan
  planned_of ctx none = refused (not_listed ctx)
  planned_of ctx (some def) =
      first_planned ctx
        (plan to_lowercase render (def ∷ []) (codes "pg_mcp_runtime") [] read_only single_schema)

  unfoldable pub resolve_tool :
      PerToolContext N → ToolState N W → Outcome PlannedTool × ToolState N W
  unfolding listed_tools drop_changed find_tool planned_of
  resolve_tool ctx s =
      let (listed, s1) = listed_tools ctx s in
      and_then (from_result listed, s1)
        λ items s2.
          (planned_of ctx (find_tool items ctx.target.tool), drop_changed ctx.resolved.key s2)

module _ {N F W : Type 0} (env : Env N W) (reader : Reader N F) where
  -- one `tools/call`
  unfoldable pub call :
      PerToolContext N → Text → Value N → ToolState N W → McpResult (Value N) × ToolState N W
  unfolding with_session request_in
  call ctx name arguments s =
      let (answer, sessions, w) =
        with_session env (request_in env (codes "tools/call") (call_params name arguments))
          ctx.resolved s.sessions s.world in
      (answer, record s { sessions = sessions; world = w })

  unfoldable pub invoke_and_shape :
      PerToolContext N
      → PlannedTool
      → Value N
      → ToolState N W
      → Outcome (List (Row N F)) × ToolState N W
  unfolding call shape_result
  invoke_and_shape ctx tool arguments s =
      let (answer, s1) = call ctx tool.tool_name arguments s in
      and_then (from_result answer, s1) λ result s2. (shape_result reader tool arguments result, s2)

  -- `rows.into_iter().next().unwrap_or_default()`
  abbrev pub first_or_empty : List (Row N F) → Row N F
  first_or_empty [] = []
  first_or_empty (row ∷ rows) = row

  unfoldable pub insert_tool_row :
      PerToolContext N
      → List (Text × Option (Value N))
      → PlannedTool
      → ToolState N W
      → Outcome (Row N F) × ToolState N W
  unfolding arguments_from_row invoke_and_shape
  insert_tool_row ctx supplied tool s =
      and_then (from_result (arguments_from_row tool supplied), s)
        λ fs s1.
          and_then (invoke_and_shape ctx tool (object fs) s1)
            λ rows s2. (done (first_or_empty rows), s2)

  module _ (eq : Equality N) (num : Numbers N F) where
    -- what a scan does with the planned tool
    unfoldable pub scan_tool :
        PerToolContext N → PlannedTool → ToolState N W → Outcome (List (Row N F)) × ToolState N W
    unfolding arguments_from_quals invoke_and_shape post_filter
    scan_tool ctx tool s =
        and_then (from_result (arguments_from_quals tool ctx.quals), s)
          λ fs s1.
            and_then (invoke_and_shape ctx tool (object fs) s1)
              λ rows s2. (done (filter (post_filter eq num tool ctx.quals) rows), s2)

module _ {N F W : Type 0} (env : Env N W) (to_lowercase : Text → Text) (render : Value N → Text)
    (reader : Reader N F) (now later : ℕ) where
  -- the insert of one row, whatever the gate says
  unfoldable pub insert_row :
      PerToolContext N
      → List (Text × Option (Value N))
      → ToolState N W
      → Outcome (Row N F) × ToolState N W
  unfolding resolve_tool insert_tool_row
  insert_row ctx supplied s =
      and_then (resolve_tool env to_lowercase render now later (record ctx { quals = [] }) s)
        (insert_tool_row env reader (record ctx { quals = [] }) supplied)

  unfoldable pub begin_scan :
      Equality N
      → Numbers N F
      → PerToolContext N
      → ToolState N W
      → Outcome (List (Row N F)) × ToolState N W
  unfolding check_gate resolve_tool scan_tool
  begin_scan eq num ctx s =
      and_then (from_result (check_gate ctx), s)
        λ u s1.
          and_then (resolve_tool env to_lowercase render now later ctx s1)
            (scan_tool env reader eq num ctx)
