-- ===== src/Codegen/Plan/Columns.antt =====
-- No property name makes the planner panic.
use mathlib.Core.Option
use elixir_mcp_lib.Base.{◌≡◌, refl, ap, Option, none, some, List, [], ◌∷◌, Text, codes, ◌>>=◌}
use elixir_mcp_lib.Json.{Value, get}
use elixir_mcp_lib.Codegen.Ident.{derive}
use elixir_mcp_lib.Codegen.Ident.Bounds.{IsFragment, derive-IsIdent}
use elixir_mcp_lib.Codegen.Table.{no_output, element_of, single, PlannedTool}
use elixir_mcp_lib.Codegen.Types.{properties, required_set}
use elixir_mcp_lib.Codegen.Plan.{
  InvokeOnSelect, or_underscore, column_name, input_columns, output_side, shape_of, only_array,
  properties_or_empty, analyze_output, input_schema_of, Planned, planned, skipped, panicked,
  plan_with, plan_one,
}

empty-IsFragment : IsFragment []
empty-IsFragment = record { chars = tt; head = refl }

-- the optional results that are there
abbrev pub IsDefined : {A : Type 0} → Option A → Type 0
IsDefined {A} o = (a : A) × (o ≡ some a)

map-IsDefined : {A B : Type 0} (f : A → B) (o : Option A) → IsDefined o → IsDefined (Option.map f o)
map-IsDefined f o (a, e) = (f a, ap (Option.map f) e)

bind-IsDefined :
    {A B : Type 0} (o : Option A) (f : A → Option B)
    → IsDefined o
    → ((a : A) → IsDefined (f a))
    → IsDefined (o >>= f)
bind-IsDefined none f (a, e) h = cc
bind-IsDefined (some a) f e h = h a

pub column_name-IsDefined :
    (to_lowercase : Text → Text) (property : Text) → IsDefined (column_name to_lowercase property)
unfolding column_name
column_name-IsDefined to_lowercase property =
    let (r, named, ident) = derive-IsIdent to_lowercase property [] empty-IsFragment in
    map-IsDefined or_underscore (derive to_lowercase property []) (r, named)

module _ {N : Type 0} (to_lowercase : Text → Text) (render : Value N → Text) where
  pub input_columns-IsDefined :
      (required seen : List Text) (props : List (Text × Value N))
      → IsDefined (input_columns to_lowercase render required seen props)
  unfolding input_columns
  input_columns-IsDefined required seen [] = ([], refl)
  input_columns-IsDefined required seen ((property, schema) ∷ rest) =
      bind-IsDefined _ _ (column_name-IsDefined to_lowercase property) λ sql.
        bind-IsDefined _ _ (input_columns-IsDefined required (sql ∷ seen) rest) λ columns. (_, refl)

  pub output_side-IsDefined :
      (props : List (Text × Value N)) → IsDefined (output_side to_lowercase render props)
  unfolding output_side
  output_side-IsDefined [] = ([], refl)
  output_side-IsDefined ((property, schema) ∷ rest) =
      bind-IsDefined _ _ (column_name-IsDefined to_lowercase property)
        λ sql. bind-IsDefined _ _ (output_side-IsDefined rest) λ columns. (_, refl)

  shape_of-IsDefined :
      (props : List (Text × Value N)) → IsDefined (shape_of to_lowercase render props)
  unfolding shape_of
  shape_of-IsDefined props = go (only_array props)
    where
      go :
          (o : Option (Text × Value N))
          → IsDefined (elim o [
            | some (property, items) ↦
                Option.map
                  (λ columns. element_of property columns)
                  (output_side to_lowercase render (properties_or_empty items))
            | none ↦ Option.map (λ columns. single columns) (output_side to_lowercase render props)
          ])
      go none = map-IsDefined (λ columns. single columns) _ (output_side-IsDefined props)
      go (some (property, items)) =
          map-IsDefined (λ columns. element_of property columns) _
            (output_side-IsDefined (properties_or_empty items))

  analyze_output-IsDefined :
      (schema : Option (Value N)) → IsDefined (analyze_output to_lowercase render schema)
  unfolding analyze_output
  analyze_output-IsDefined none = (no_output, refl)
  analyze_output-IsDefined (some schema) = go (properties schema)
    where
      go :
          (o : Option (List (Text × Value N)))
          → IsDefined
              (elim o [ none ↦ some (single []) | some props ↦ shape_of to_lowercase render props ])
      go none = (single [], refl)
      go (some props) = shape_of-IsDefined props

-- both parts of a plan are there
planned-IsDefined :
    {A B : Type 0} (a : Option A) (b : Option B) (f : A → B → PlannedTool)
    → IsDefined a
    → IsDefined b
    → (p : PlannedTool) × ◌≡◌ {A = Planned}
        (elim a [
          | none ↦ panicked
          | some x ↦ elim b [ none ↦ panicked | some y ↦ planned (f x y) ]
        ])
        (planned p)
planned-IsDefined (some x) (some y) f ha hb = (f x y, refl)
planned-IsDefined none b f (x, e) hb = cc
planned-IsDefined (some x) none f ha (y, e) = cc

-- A tool with input properties has a plan, one without is skipped.
abbrev pub IsAnswer : {A : Type 0} → Option A → Planned → Type 0
IsAnswer none r = (reason : Text) × (r ≡ skipped reason)
IsAnswer (some a) r = (p : PlannedTool) × (r ≡ planned p)

module _ {N : Type 0} (to_lowercase : Text → Text) (render : Value N → Text) where
  plan_with-planned :
      (tool : Value N) (local_name sql_name target_schema : Text) (gate : InvokeOnSelect)
      (input_schema : Value N) (props : List (Text × Value N))
      → (p : PlannedTool) × (plan_with to_lowercase render tool local_name sql_name target_schema
            gate input_schema props
          ≡ planned p)
  unfolding plan_with
  plan_with-planned tool local_name sql_name target_schema gate input_schema props =
      planned-IsDefined _ _ _
        (input_columns-IsDefined to_lowercase render (required_set input_schema) [] props)
        (analyze_output-IsDefined to_lowercase render (get tool (codes "outputSchema")))

  -- Planning, in a release build, ends without a panic on whatever a server declares for a tool: a tool whose input schema
  -- is an object with an object of properties is planned, and every other tool is skipped.
  pub plan_one_total :
      (tool : Value N) (local_name sql_name target_schema : Text) (gate : InvokeOnSelect)
      → IsAnswer
          (properties (input_schema_of tool))
          (plan_one to_lowercase render tool local_name sql_name target_schema gate)
  unfolding plan_one
  plan_one_total tool local_name sql_name target_schema gate =
      go (properties (input_schema_of tool))
    where
      go :
          (o : Option (List (Text × Value N)))
          → IsAnswer o (elim o [
            | none ↦
                skipped
                  (codes "inputSchema is not a JSON Schema object with properties (PRD-8 §4.2)")
            | some props ↦
                plan_with to_lowercase render tool local_name sql_name target_schema gate
                  (input_schema_of tool)
                  props
          ])
      go none = (_, refl)
      go (some props) =
          plan_with-planned tool local_name sql_name target_schema gate (input_schema_of tool) props
