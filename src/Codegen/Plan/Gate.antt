-- ===== src/Codegen/Plan/Gate.antt =====
-- Which tools a plain SELECT may call.
use elixir_mcp_lib.Base.{
  ◌≡◌, refl, ap, arith, ◌↔◌, ◌⊎◌, Bool, true, Option, none, some, Text, false, codes, Option-cases,
  inl, inr, ◌>>=◌,
}
use elixir_mcp_lib.Errors.{ok}
use elixir_mcp_lib.Json.{Value, null, boolean, number, string, array, object, as_bool, get}
use elixir_mcp_lib.Codegen.Table.{PlannedTool}
use elixir_mcp_lib.Codegen.Plan.{
  InvokeOnSelect, read_only, all_tools, no_tools, parse_gate, as_str_gate, gate_opens,
  declared_read_only, Planned, planned, plan_with, plan_one,
}

-- Every setting of the gate is read back from its text.
pub parse_gate-as_str_gate : (gate : InvokeOnSelect) → parse_gate (as_str_gate gate) ≡ ok gate
unfolding parse_gate as_str_gate
parse_gate-as_str_gate read_only = refl
parse_gate-as_str_gate all_tools = refl
parse_gate-as_str_gate no_tools = refl

-- what a plan says of the gate
plan_of : Planned → Option (Bool × Bool)
plan_of (planned p) = some (p.read_only, p.invoke_on_select)
plan_of _ = none

gate_opens_iff :
    (gate : InvokeOnSelect) (declared : Bool)
    → (gate_opens gate declared ≡ true)
      ↔ ((gate ≡ all_tools) ⊎ ((gate ≡ read_only) × (declared ≡ true)))
unfolding gate_opens
gate_opens_iff read_only declared = ground arith
gate_opens_iff all_tools declared = ground arith
gate_opens_iff no_tools declared = ground arith

module _ {N : Type 0} where
  -- The tool's annotations say `readOnlyHint: true`.
  abbrev pub DeclaresReadOnly : Value N → Type 0
  DeclaresReadOnly tool =
      (a : Value N) × (get tool (codes "annotations") ≡ some a)
      × (get a (codes "readOnlyHint") ≡ some (boolean true))

  hint_iff :
      (o : Option (Value N))
      → (elim (o >>= as_bool) [ none ↦ false | some b ↦ b ] ≡ true) ↔ (o ≡ some (boolean true))
  hint_iff none = ground arith
  hint_iff (some (boolean true)) = ground arith
  hint_iff (some (boolean false)) = ground arith
  hint_iff (some null) = ground arith
  hint_iff (some (number n)) = ground arith
  hint_iff (some (string s)) = ground arith
  hint_iff (some (array vs)) = ground arith
  hint_iff (some (object fs)) = ground arith

  declared_read_only_iff :
      (tool : Value N) → (declared_read_only tool ≡ true) ↔ DeclaresReadOnly tool
  unfolding declared_read_only
  declared_read_only_iff tool = elim (Option-cases (get tool (codes "annotations"))) [
    | inl missing ↦ rw (missing, declared_read_only) ((λ h. cc), (λ h. absurd (none_not_some h.1)))
    | inr (a, found) ↦
        rw (found, declared_read_only)
          (
            (λ h. (a, refl, (hint_iff (get a (codes "readOnlyHint"))).0 h)),
            (λ h. (hint_iff (get a (codes "readOnlyHint"))).1 (rw (some_eq h.1) h.2)),
          )
  ]
    where
      none_not_some : {v : Value N} → ◌≡◌ {A = Option (Value N)} none (some v) → ⊥
      none_not_some h = cc

      some_eq : {v w : Value N} → ◌≡◌ {A = Option (Value N)} (some v) (some w) → v ≡ w
      some_eq h = cc

module _ {N : Type 0} (to_lowercase : Text → Text) (render : Value N → Text) where
  flags :
      (tool : Value N) (local_name sql_name target_schema : Text) (gate : InvokeOnSelect)
      (p : PlannedTool)
      → plan_one to_lowercase render tool local_name sql_name target_schema gate ≡ planned p
      → (p.invoke_on_select ≡ gate_opens gate (declared_read_only tool))
        × (p.read_only ≡ declared_read_only tool)
  unfolding plan_one plan_with plan_of
  flags tool local_name sql_name target_schema gate p h = ground (arith, ap plan_of h)

  -- A planned tool is called by a plain SELECT exactly when the gate is open to all tools, or is the
  -- default one and the server declares `readOnlyHint: true` for it; its flag is set exactly when the
  -- server declares that.
  pub invoke_on_select_iff :
      (tool : Value N) (local_name sql_name target_schema : Text) (gate : InvokeOnSelect)
      (p : PlannedTool)
      → plan_one to_lowercase render tool local_name sql_name target_schema gate ≡ planned p
      → ((p.invoke_on_select ≡ true)
          ↔ ((gate ≡ all_tools) ⊎ ((gate ≡ read_only) × DeclaresReadOnly tool)))
        × ((p.read_only ≡ true) ↔ DeclaresReadOnly tool)
  invoke_on_select_iff tool local_name sql_name target_schema gate p h =
      let (opened, declared) = flags tool local_name sql_name target_schema gate p h in
      let (to, from) = declared_read_only_iff tool in
      let (opens, shut) = gate_opens_iff gate (declared_read_only tool) in
      (rw opened ((λ e. by_gate (opens e)), (λ g. shut (of_gate g))), rw declared (to, from))
    where
      by_gate :
          (gate ≡ all_tools) ⊎ ((gate ≡ read_only) × (declared_read_only tool ≡ true))
          → (gate ≡ all_tools) ⊎ ((gate ≡ read_only) × DeclaresReadOnly tool)
      by_gate (inl a) = inl a
      by_gate (inr (a, d)) = inr (a, (declared_read_only_iff tool).0 d)

      of_gate :
          (gate ≡ all_tools) ⊎ ((gate ≡ read_only) × DeclaresReadOnly tool)
          → (gate ≡ all_tools) ⊎ ((gate ≡ read_only) × (declared_read_only tool ≡ true))
      of_gate (inl a) = inl a
      of_gate (inr (a, d)) = inr (a, (declared_read_only_iff tool).1 d)
