-- ===== src/Tables/PerTool/Refused.antt =====
-- Scans that call no tool.
use elixir_mcp_lib.Base.{
  ◌⊎◌, In, in_head, in_tail, arith, ℕ, ◌≡◌, refl, ap, sym, ◌∙◌, Bool, true, false, ◌&&◌, Option,
  none, some, List, [], ◌∷◌, Text, codes, Bool-cases, Option-cases, inl, inr,
}
use elixir_mcp_lib.Json.{Value, Fields, end, insert_field}
use elixir_mcp_lib.Errors.{McpError, ok, err}
use elixir_mcp_lib.Quals.{Qual, Equality}
use elixir_mcp_lib.Tables.PerTool.Equalities.{IsEqualityOn, bound_value-none}
use elixir_mcp_lib.Client.Wire.{Env}
use elixir_mcp_lib.Codegen.Table.{Column, PlannedTool}
use elixir_mcp_lib.Tables.{Row, Numbers}
use elixir_mcp_lib.Tables.PerTool.{
  Outcome, done, refused, from_result, Reader, PerToolContext, ToolState,
}
use elixir_mcp_lib.Tables.PerTool.Shape.{bound_value, bind_arguments, arguments_from_quals, unbound}
use elixir_mcp_lib.Tables.PerTool.Scan.{
  and_then, gate_error, check_gate, resolve_tool, scan_tool, begin_scan,
}

module _ {N : Type 0} where
  -- whether a column that needs a value has one
  abbrev pub is_bound : Option (Value N) → Bool → Bool
  is_bound none true = false
  is_bound none false = true
  is_bound (some v) required = true

  abbrev pub all_bound : (Text → Option (Value N)) → List Column → Bool
  all_bound find [] = true
  all_bound find (c ∷ cs) = is_bound (find c.sql_name) c.required && all_bound find cs

  unbound_fails :
      (find : Text → Option (Value N)) (cs : List Column) (c : Column)
      → In c cs
      → c.required ≡ true
      → find c.sql_name ≡ none
      → all_bound find cs ≡ false
  unbound_fails find [] c m needed free = elim m [ ]
  unbound_fails find (_ ∷ cs) c in_head needed free = rw (free, needed) refl
  unbound_fails find (d ∷ cs) c (in_tail m) needed free =
      ground (arith, unbound_fails find cs c m needed free)

  -- Where a required column has no value, binding fails.
  bind_arguments_fails :
      (find : Text → Option (Value N)) (tool how : Text) (cs : List Column) (fs : Fields N)
      → all_bound find cs ≡ false
      → (e : McpError) × (bind_arguments find tool how cs fs ≡ err e)
  unfolding bind_arguments
  bind_arguments_fails find tool how [] fs h = cc
  bind_arguments_fails find tool how (c ∷ cs) fs h = elim (Option-cases (find c.sql_name)) [
    | inl free ↦ elim (Bool-cases c.required) [
      | inl needed ↦ (unbound c.sql_name tool how, rw (free, bind_arguments, needed) refl)
      | inr optional ↦
          let (e, fails) = bind_arguments_fails find tool how cs fs (rw (free, optional) at h) in
          (e, rw (free, bind_arguments, optional) fails)
    ]
    | inr (v, found) ↦
        let (e, fails) =
          bind_arguments_fails find tool how cs (insert_field fs c.property v) (rw found at h) in
        (e, rw (found, bind_arguments) fails)
  ]

module _ {N W A B : Type 0} where
  and_then-done :
      (a : A) (s : ToolState N W) (f : A → ToolState N W → Outcome B × ToolState N W)
      → and_then (done a, s) f ≡ f a s
  unfolding and_then
  and_then-done a s f = refl

  and_then-refused :
      (e : McpError) (s : ToolState N W) (f : A → ToolState N W → Outcome B × ToolState N W)
      → and_then (refused e, s) f ≡ (refused e, s)
  unfolding and_then
  and_then-refused e s f = refl

module _ {N : Type 0} (ctx : PerToolContext N) where
  gate_opened : ctx.target.invoke_on_select ≡ true → check_gate ctx ≡ ok tt
  unfolding check_gate
  gate_opened h = rw h refl

  gate_closed : ctx.target.invoke_on_select ≡ false → check_gate ctx ≡ err (gate_error ctx)
  unfolding check_gate
  gate_closed h = rw h refl

module _ {N F W : Type 0} (env : Env N W) (to_lowercase : Text → Text) (render : Value N → Text)
    (reader : Reader N F) (now later : ℕ) (eq : Equality N) (num : Numbers N F) where
  scan_tool-refused :
      (ctx : PerToolContext N) (tool : PlannedTool) (s : ToolState N W)
      → all_bound (bound_value ctx.quals) tool.inputs ≡ false
      → (e : McpError) × (scan_tool env reader eq num ctx tool s ≡ (refused e, s))
  unfolding scan_tool and_then arguments_from_quals
  scan_tool-refused ctx tool s h =
      let (e, fails) =
        bind_arguments_fails (bound_value ctx.quals) tool.tool_name
          (codes "as a WHERE equality qual") tool.inputs end h in
      (e, rw fails refl)

  resolve_and_scan :
      PerToolContext N → Unit {0} → ToolState N W → Outcome (List (Row N F)) × ToolState N W
  resolve_and_scan ctx u s =
      and_then (resolve_tool env to_lowercase render now later ctx s)
        (scan_tool env reader eq num ctx)

  -- What keeps a scan from calling its tool, with the state that it then leaves: the gate is closed; or
  -- the tool is resolved and one of its required inputs has no equality restriction on its column.
  abbrev pub Blocked : PerToolContext N → ToolState N W → ToolState N W → Type 0
  Blocked ctx s s' =
      ((ctx.target.invoke_on_select ≡ false) × (s' ≡ s))
      ⊎ ((tool : PlannedTool) × (c : Column) × (ctx.target.invoke_on_select ≡ true)
          × (resolve_tool env to_lowercase render now later ctx s ≡ (done tool, s'))
          × In c tool.inputs
          × (c.required ≡ true)
          × ((q : Qual N) → In q ctx.quals → IsEqualityOn c.sql_name q → ⊥))

  -- A scan whose gate is closed, or in which a required input has no equality restriction, is an error
  -- and calls no tool: behind a closed gate it leaves the sessions, the cache and the world as they
  -- were, else as the look-up of the tool's definition left them.
  pub begin_scan-refused :
      (ctx : PerToolContext N) (s s' : ToolState N W)
      → Blocked ctx s s'
      → (e : McpError) × (begin_scan env to_lowercase render reader now later eq num ctx s
          ≡ (refused e, s'))
  unfolding begin_scan resolve_and_scan
  begin_scan-refused ctx s s' (inl (closed, same)) = (
    gate_error ctx,
    ap (λ g. and_then (from_result g, s) (resolve_and_scan ctx)) (gate_closed ctx closed)
        ∙ and_then-refused (gate_error ctx) s (resolve_and_scan ctx)
        ∙ ap (λ t. (refused (gate_error ctx), t)) (sym same),
  )
  begin_scan-refused ctx s s' (inr (tool, c, opened, resolved, m, needed, apart)) =
      let (e, fails) = scan_tool-refused ctx tool s' (
        unbound_fails (bound_value ctx.quals) tool.inputs c m needed
          (bound_value-none ctx.quals c.sql_name apart)) in
      (
        e,
        ap (λ g. and_then (from_result g, s) (resolve_and_scan ctx)) (gate_opened ctx opened)
            ∙ and_then-done tt s (resolve_and_scan ctx)
            ∙ ap (λ m. and_then m (scan_tool env reader eq num ctx)) resolved
            ∙ and_then-done tool s' (scan_tool env reader eq num ctx)
            ∙ fails,
      )
