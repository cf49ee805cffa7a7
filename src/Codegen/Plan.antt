-- ===== src/Codegen/Plan.antt =====
-- pg/pg_mcp/src/codegen/mod.rs: the plan of one tool, from its definition to its columns and
-- parameters, as a release build computes them: `debug_assert_eq!` is left out.
pub mod Gate
pub mod Columns
pub mod Inputs
pub mod Params
pub mod Batch
pub mod Counted
mod Tests
use mathlib.Core.Option
use elixir_mcp_lib.Base.{
  Bool, true, false, ◌&&◌, not, Option, none, some, List, [], ◌∷◌, ◌++◌, map, if◌then◌else◌, Text,
  codes, text_eq, contains, ◌>>=◌,
}
use elixir_mcp_lib.Json.{Value, null, string, object, get, as_str, as_bool}
use elixir_mcp_lib.Errors.{invalid_option, McpResult, ok, err}
use elixir_mcp_lib.Codegen.Sha256.{sha_suffix}
use elixir_mcp_lib.Codegen.Ident.{derive, underscore}
use elixir_mcp_lib.Codegen.Table.{Column, OutputShape, no_output, element_of, single, PlannedTool}
use elixir_mcp_lib.Codegen.Types.{
  map_type, required_list, required_set, properties, object_entries, enum_hint,
}

pub data InvokeOnSelect : Type 0 where
  read_only all_tools no_tools : InvokeOnSelect

-- `InvokeOnSelect::parse`
unfoldable pub parse_gate : Text → McpResult InvokeOnSelect
parse_gate raw =
    if text_eq raw (codes "read_only")
    then ok read_only
    else if text_eq raw (codes "all")
    then ok all_tools
    else if text_eq raw (codes "none")
    then ok no_tools
    else err (
        invalid_option (
          codes "invalid value for invoke_on_select: \""
          ++ raw
          ++ codes "\" (expected 'read_only', 'all' or 'none')"))

unfoldable pub as_str_gate : InvokeOnSelect → Text
as_str_gate read_only = codes "read_only"
as_str_gate all_tools = codes "all"
as_str_gate no_tools = codes "none"

-- the gate's answer for one tool
unfoldable pub gate_opens : InvokeOnSelect → Bool → Bool
gate_opens read_only declared = declared
gate_opens all_tools declared = true
gate_opens no_tools declared = false

abbrev or_underscore : Text → Text
or_underscore [] = underscore ∷ []
or_underscore (c ∷ s) = c ∷ s

module _ (to_lowercase : Text → Text) where
  -- the derived name of a property; one with no letter or digit is `_`
  unfoldable pub column_name : Text → Option Text
  column_name property = Option.map or_underscore (derive to_lowercase property [])

module _ {N : Type 0} where
  abbrev is_type : Value N → Text → Bool
  is_type v t = elim (get v (codes "type") >>= as_str) [ none ↦ false | some s ↦ text_eq s t ]

  unfoldable pub array_items_of_objects : Value N → Option (Value N)
  array_items_of_objects schema =
      if is_type schema (codes "array")
      then (do
        items ← get schema (codes "items")
        if is_type items (codes "object") then some items else none)
      else none

  -- `types::properties(items).unwrap_or_default()`
  abbrev pub properties_or_empty : Value N → List (Text × Value N)
  properties_or_empty v = elim (properties v) [ none ↦ [] | some ps ↦ ps ]

  abbrev pub only_array : List (Text × Value N) → Option (Text × Value N)
  only_array ((property, schema) ∷ []) =
      Option.map (λ items. (property, items)) (array_items_of_objects schema)
  only_array _ = none

module _ {N : Type 0} (to_lowercase : Text → Text) (render : Value N → Text) where
  -- the loop over the input properties; `seen` holds the derived names so far
  unfoldable pub input_columns :
      List Text → List Text → List (Text × Value N) → Option (List Column)
  unfolding column_name
  input_columns required seen [] = some []
  input_columns required seen ((property, schema) ∷ rest) = do
    sql ← column_name to_lowercase property
    columns ← input_columns required (sql ∷ seen) rest
    some (
        record {
          property = property;
          sql_name = if contains seen sql then sql ++ underscore ∷ sha_suffix property else sql;
          pg_type = map_type schema;
          required = contains required property;
          enum_hint = enum_hint render schema;
        }
        ∷ columns)

  -- the columns of an object's properties on the output side
  unfoldable pub output_side : List (Text × Value N) → Option (List Column)
  unfolding column_name
  output_side [] = some []
  output_side ((property, schema) ∷ rest) = do
    sql ← column_name to_lowercase property
    columns ← output_side rest
    some (
        record {
          property = property;
          sql_name = sql;
          pg_type = map_type schema;
          required = false;
          enum_hint = enum_hint render schema;
        }
        ∷ columns)

  unfoldable pub shape_of : List (Text × Value N) → Option OutputShape
  unfolding array_items_of_objects output_side
  shape_of props = elim (only_array props) [
    | some (property, items) ↦
        Option.map (λ columns. element_of property columns)
          (output_side (properties_or_empty items))
    | none ↦ Option.map (λ columns. single columns) (output_side props)
  ]

  unfoldable pub analyze_output : Option (Value N) → Option OutputShape
  unfolding shape_of
  analyze_output none = some no_output
  analyze_output (some schema) = elim (properties schema) [
    | none ↦ some (single [])
    | some props ↦ shape_of props
  ]

-- `inputs.iter().find(|c| c.property == name)`
unfoldable pub find_property : List Column → Text → Option Column
find_property [] name = none
find_property (c ∷ cs) name = if text_eq c.property name then some c else find_property cs name

unfoldable pub required_params : List Column → List Text → List Text
unfolding find_property
required_params inputs [] = []
required_params inputs (name ∷ names) =
    let rest = required_params inputs names in
    elim (find_property inputs name) [ none ↦ rest | some c ↦ c.sql_name ∷ rest ]

unfoldable pub optional_params : List Column → List Text
optional_params [] = []
optional_params (c ∷ cs) =
    let rest = optional_params cs in if c.required then rest else c.sql_name ∷ rest

module _ {N : Type 0} where
  -- `tool.get("inputSchema").cloned().unwrap_or(Value::Null)`
  abbrev pub input_schema_of : Value N → Value N
  input_schema_of tool = elim (get tool (codes "inputSchema")) [ none ↦ null | some s ↦ s ]

  unfoldable pub declared_read_only : Value N → Bool
  declared_read_only tool = elim (get tool (codes "annotations")) [
    | none ↦ false
    | some a ↦ elim (get a (codes "readOnlyHint") >>= as_bool) [ none ↦ false | some b ↦ b ]
  ]

-- Why a tool is not planned: its schema, or a panic of `derive`.
pub data Planned : Type 0 where
  planned : PlannedTool → Planned
  skipped : Text → Planned
  panicked : Planned

module _ {N : Type 0} (to_lowercase : Text → Text) (render : Value N → Text) where
  -- the plan for a tool whose input properties are these
  unfoldable pub plan_with :
      Value N → Text → Text → Text → InvokeOnSelect → Value N → List (Text × Value N) → Planned
  unfolding input_columns analyze_output required_params optional_params declared_read_only
      gate_opens
  plan_with tool local_name sql_name target_schema gate input_schema props =
      let required = required_set input_schema in
      let declared = declared_read_only tool in
      elim (input_columns to_lowercase render required [] props) [
        | none ↦ panicked
        | some inputs ↦
            elim (analyze_output to_lowercase render (get tool (codes "outputSchema"))) [
              | none ↦ panicked
              | some output ↦ planned (record {
                tool_name = elim (get tool (codes "name") >>= as_str) [
                  | none ↦ local_name
                  | some n ↦ n
                ];
                sql_name = sql_name;
                schema = target_schema;
                read_only = declared;
                invoke_on_select = gate_opens gate declared;
                inputs = inputs;
                output = output;
                params =
                    required_params inputs (required_list input_schema) ++ optional_params inputs;
                title = get tool (codes "title") >>= as_str;
                description = get tool (codes "description") >>= as_str;
              })
            ]
      ]

  unfoldable pub plan_one : Value N → Text → Text → Text → InvokeOnSelect → Planned
  unfolding plan_with
  plan_one tool local_name sql_name target_schema gate =
      let input_schema = input_schema_of tool in
      elim (properties input_schema) [
        | none ↦
            skipped (codes "inputSchema is not a JSON Schema object with properties (PRD-8 §4.2)")
        | some props ↦ plan_with tool local_name sql_name target_schema gate input_schema props
      ]
