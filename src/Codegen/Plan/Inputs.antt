-- ===== src/Codegen/Plan/Inputs.antt =====
-- The input columns of a tool are the properties of its input schema.
use elixir_mcp_lib.Base.{
  ◌≡◌, refl, sym, ap, ◌∙◌, arith, Bool, Option, none, some, List, [], ◌∷◌, Text, contains, ◌>>=◌,
}
use mathlib.Core.Path.{subst}
use elixir_mcp_lib.Codegen.Plan.Columns.{column_name-IsDefined}
use elixir_mcp_lib.Json.{Value}
use elixir_mcp_lib.Codegen.Table.{Column, ColumnType, PlannedTool}
use elixir_mcp_lib.Codegen.Types.{required_set, properties, map_type}
use elixir_mcp_lib.Codegen.Plan.{
  InvokeOnSelect, Planned, planned, input_schema_of, plan_with, plan_one, input_columns,
}

-- what a column says of its property: its name, its type, and whether it is required
abbrev pub column_facts : List Column → List (Text × ColumnType × Bool)
column_facts [] = []
column_facts (c ∷ cs) = (c.property, c.pg_type, c.required) ∷ column_facts cs

module _ {N : Type 0} where
  abbrev pub property_facts : List Text → List (Text × Value N) → List (Text × ColumnType × Bool)
  property_facts required [] = []
  property_facts required ((name, schema) ∷ props) =
      (name, map_type schema, contains required name) ∷ property_facts required props

-- a result that is there, with a fact about it
abbrev Described : {B : Type 0} → (B → Type 0) → Option B → Type 0
Described {B} P o = (b : B) × (o ≡ some b) × P b

bind-Described :
    {A B : Type 0} (P : B → Type 0) (o : Option A) (f : A → Option B) (a : A)
    → o ≡ some a
    → Described P (f a)
    → Described P (o >>= f)
bind-Described P o f a e d = subst (λ (x : Option _). Described P (x >>= f)) (sym e) d

-- the inputs of a plan
inputs_of : Planned → Option (List Column)
inputs_of (planned p) = some p.inputs
inputs_of _ = none

module _ {N : Type 0} (to_lowercase : Text → Text) (render : Value N → Text) where
  input_columns_facts :
      (required seen : List Text) (props : List (Text × Value N))
      → Described
          (λ cs. column_facts cs ≡ property_facts required props)
          (input_columns to_lowercase render required seen props)
  unfolding input_columns
  input_columns_facts required seen [] = ([], refl, refl)
  input_columns_facts required seen ((name, schema) ∷ props) =
      let (sql, named) = column_name-IsDefined to_lowercase name in
      let (columns, run, facts) = input_columns_facts required (sql ∷ seen) props in
      bind-Described _ _ _ sql named (
        bind-Described _ _ _ columns run
          (_, refl, ap (λ l. (name, map_type schema, contains required name) ∷ l) facts))

  planned_inputs :
      (tool : Value N) (local_name sql_name target_schema : Text) (gate : InvokeOnSelect)
      (p : PlannedTool) (props : List (Text × Value N))
      → properties (input_schema_of tool) ≡ some props
      → plan_one to_lowercase render tool local_name sql_name target_schema gate ≡ planned p
      → input_columns to_lowercase render (required_set (input_schema_of tool)) [] props
        ≡ some p.inputs
  unfolding plan_one plan_with inputs_of
  planned_inputs tool local_name sql_name target_schema gate p props there h =
      ground (arith, there, ap inputs_of h)

  -- A planned tool has one input column for each property of its input schema, in published order,
  -- with the property's own type, required exactly where the schema's list of required names has it.
  pub plan_one_inputs :
      (tool : Value N) (local_name sql_name target_schema : Text) (gate : InvokeOnSelect)
      (p : PlannedTool) (props : List (Text × Value N))
      → properties (input_schema_of tool) ≡ some props
      → plan_one to_lowercase render tool local_name sql_name target_schema gate ≡ planned p
      → column_facts p.inputs ≡ property_facts (required_set (input_schema_of tool)) props
  plan_one_inputs tool local_name sql_name target_schema gate p props there h =
      let (columns, run, facts) =
        input_columns_facts (required_set (input_schema_of tool)) [] props in
      let kept = planned_inputs tool local_name sql_name target_schema gate p props there h in
      let same : columns ≡ p.inputs = cc (run, kept) in ap column_facts (sym same) ∙ facts
