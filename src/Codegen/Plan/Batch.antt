-- ===== src/Codegen/Plan/Batch.antt =====
-- pg/pg_mcp/src/codegen/mod.rs: the plan of a batch of tools.
-- The groups are kept in the order of their first tool; the source's hash map has them in any order,
-- and each group only fills its own places.
use elixir_mcp_lib.Base.{
  ℕ, zero, suc, Bool, true, false, ◌&&◌, not, Option, none, some, List, [], ◌∷◌, ◌++◌,
  if◌then◌else◌, Text, codes, text_eq, map, replicate, length, join, split_once, ◌>>=◌,
}
use elixir_mcp_lib.Json.{Value, get, as_str}
use elixir_mcp_lib.Errors.{invalid_option, McpResult, ok, err}
use elixir_mcp_lib.Codegen.Ident.{dedup}
use elixir_mcp_lib.Codegen.Table.{PlannedTool}
use elixir_mcp_lib.Codegen.Plan.{
  InvokeOnSelect, read_only, all_tools, no_tools, Planned, planned, skipped, panicked, plan_one,
}

pub data SchemaMode : Type 0 where
  single_schema per_upstream : SchemaMode

pub record GenerationPlan : Type 0 where
  pub tools : List PlannedTool
  pub skipped : List Text
  pub warnings : List Text

-- a tool, its target schema and the name it has there
pub record Routed (N : Type 0) : Type 0 where
  pub tool : Value N
  pub target : Text
  pub local : Text

abbrev unnamed_entry : Text
unnamed_entry = codes "skipped a tool entry with no usable name"

-- `<upstream>.<tool>`, where both parts are there
abbrev pub upstream_route : Text → Text → Option (Text × Text) → Text × Text
upstream_route schema name (some (u ∷ us, r ∷ rs)) = (u ∷ us, r ∷ rs)
upstream_route schema name (some (u ∷ us, [])) = (schema, name)
upstream_route schema name (some ([], rest)) = (schema, name)
upstream_route schema name none = (schema, name)

abbrev pub route : SchemaMode → Text → Text → Text × Text
route single_schema schema name = (schema, name)
route per_upstream schema name = upstream_route schema name (split_once name b'.')

module _ {N : Type 0} where
  abbrev pub name_or_none : Value N → Option Text
  name_or_none tool = get tool (codes "name") >>= as_str

  unfoldable pub tool_display_name : Value N → Text
  tool_display_name tool = elim (name_or_none tool) [ none ↦ codes "<unnamed>" | some n ↦ n ]

  -- one tool in front of what is routed, or a warning where it has no name
  abbrev pub route_one :
      SchemaMode
      → Text
      → Value N
      → Option Text
      → List (Routed N) × List Text
      → List (Routed N) × List Text
  route_one mode schema tool none (routed, warnings) = (routed, unnamed_entry ∷ warnings)
  route_one mode schema tool (some []) (routed, warnings) = (routed, unnamed_entry ∷ warnings)
  route_one mode schema tool (some (c ∷ cs)) (routed, warnings) =
      let (target, local) = route mode schema (c ∷ cs) in
      (record { tool = tool; target = target; local = local } ∷ routed, warnings)

  -- the first pass
  unfoldable pub route_all : SchemaMode → Text → List (Value N) → List (Routed N) × List Text
  route_all mode schema [] = ([], [])
  route_all mode schema (tool ∷ tools) =
      let rest = route_all mode schema tools in route_one mode schema tool (name_or_none tool) rest

-- `by_target.entry(target).or_default().push(i)`
abbrev pub push_index : List (Text × List ℕ) → Text → ℕ → List (Text × List ℕ)
push_index [] target i = (target, i ∷ []) ∷ []
push_index ((t, is) ∷ groups) target i =
    let rest = push_index groups target i in
    if text_eq t target then (t, is ++ i ∷ []) ∷ groups else (t, is) ∷ rest

module _ {N : Type 0} where
  unfoldable pub group_from : ℕ → List (Routed N) → List (Text × List ℕ) → List (Text × List ℕ)
  group_from i [] groups = groups
  group_from i (r ∷ routed) groups = group_from (suc i) routed (push_index groups r.target i)

  -- `routed[i].2`
  abbrev pub local_at : List (Routed N) → ℕ → Text
  local_at [] i = []
  local_at (r ∷ routed) zero = r.local
  local_at (r ∷ routed) (suc i) = local_at routed i

-- `sql_names[i] = sql`
abbrev pub put_name : List Text → ℕ → Text → List Text
put_name [] i s = []
put_name (n ∷ names) zero s = s ∷ names
put_name (n ∷ names) (suc i) s = n ∷ put_name names i s

unfoldable pub put_names : List Text → List ℕ → List (Text × Text) → List Text
put_names names (i ∷ is) ((original, s) ∷ pairs) = put_names (put_name names i s) is pairs
put_names names _ _ = names

module _ {N : Type 0} (to_lowercase : Text → Text) where
  -- collision resolution, group by group; `none` is a panic
  unfoldable pub name_groups :
      Text → List (Routed N) → List (Text × List ℕ) → List Text → Option (List Text)
  unfolding dedup put_names
  name_groups prefix routed [] names = some names
  name_groups prefix routed ((target, is) ∷ groups) names = do
    deduped ← dedup to_lowercase (map (local_at routed) is) prefix
    name_groups prefix routed groups (put_names names is deduped)

-- what the loop over the routed tools collects
pub record Emitted : Type 0 where
  pub tools : List PlannedTool
  pub skipped : List Text
  pub warnings : List Text
  pub promoted : List Text

abbrev no_emission : Emitted
no_emission = record { tools = []; skipped = []; warnings = []; promoted = [] }

-- `gate == InvokeOnSelect::All`
abbrev pub is_all : InvokeOnSelect → Bool
is_all read_only = false
is_all all_tools = true
is_all no_tools = false

abbrev pub emit_one : InvokeOnSelect → Text → Planned → Emitted → Option Emitted
emit_one gate name panicked rest = none
emit_one gate name (skipped reason) rest = some (record rest {
  skipped = name ∷ rest.skipped;
  warnings = (codes "skipped " ++ name ++ codes ": " ++ reason) ∷ rest.warnings;
})
emit_one gate name (planned p) rest = some (record rest {
  tools = p ∷ rest.tools;
  promoted = if is_all gate && not p.read_only then p.tool_name ∷ rest.promoted else rest.promoted;
})

module _ {N : Type 0} (to_lowercase : Text → Text) (render : Value N → Text) where
  unfoldable pub emit : InvokeOnSelect → List (Routed N) → List Text → Option Emitted
  unfolding plan_one tool_display_name
  emit gate (r ∷ routed) (sql ∷ names) = do
    rest ← emit gate routed names
    emit_one gate (tool_display_name r.tool)
        (plan_one to_lowercase render r.tool r.local sql r.target gate) rest
  emit gate _ _ = some no_emission

  abbrev pub promoted_warning : InvokeOnSelect → List Text → List Text
  promoted_warning gate [] = []
  promoted_warning gate (p ∷ ps) =
      if is_all gate
      then (codes
            "invoke_on_select 'all': the following tools are not declared read-only but their tables will invoke on SELECT: "
          ++ join (p ∷ ps) (codes ", "))
        ∷ []
      else []

  abbrev pub finished_plan : InvokeOnSelect → List Text → Emitted → GenerationPlan
  finished_plan gate unnamed e = record {
    tools = e.tools;
    skipped = e.skipped;
    warnings = unnamed ++ e.warnings ++ promoted_warning gate e.promoted;
  }

  -- the plan; `none` is a panic of `derive`
  unfoldable pub plan :
      List (Value N) → Text → Text → InvokeOnSelect → SchemaMode → Option (McpResult GenerationPlan)
  unfolding route_all group_from name_groups emit
  plan tools [] prefix gate mode =
      some (err (invalid_option (codes "the target schema name must not be empty")))
  plan tools (c ∷ schema) prefix gate mode =
      let (routed, unnamed) = route_all mode (c ∷ schema) tools in
      (do
        names ←
            name_groups to_lowercase prefix routed (group_from 0 routed [])
              (replicate (length routed) [])
        e ← emit gate routed names
        some (ok (finished_plan gate unnamed e)))
