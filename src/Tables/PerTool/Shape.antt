-- ===== src/Tables/PerTool/Shape.antt =====
-- pg/pg_mcp/src/tables/per_tool.rs: the arguments of a call, and the rows of its result.
use elixir_mcp_lib.Base.{
  ℕ, suc, ◌+◌, Bool, true, false, ◌&&◌, ◌||◌, Option, none, some, List, [], ◌∷◌, ◌++◌,
  if◌then◌else◌, Text, codes, text_eq, replicate, length,
}
use elixir_mcp_lib.Json.{Value, Fields, null, end, get, as_array, insert_field}
use elixir_mcp_lib.Errors.{McpError, invalid_params, McpResult, ok, err}
use elixir_mcp_lib.Client.Content.{is_error_result}
use elixir_mcp_lib.Quals.{Qual, Operator, equal, any_equal, Equality, matches_json}
use elixir_mcp_lib.Codegen.Table.{
  Column, OutputShape, no_output, element_of, single, PlannedTool, output_columns,
}
use elixir_mcp_lib.Tables.{Cell, Row, Numbers, as_json, json, bool, get_cell}
use elixir_mcp_lib.Tables.PerTool.{Outcome, done, refused, thrown, ◌>>=◌, Reader, json_to_cell}

-- `Operator::Equal`
abbrev pub is_equal : Operator → Bool
is_equal equal = true
is_equal any_equal = false

abbrev pub unbound : Text → Text → Text → McpError
unbound column tool how = invalid_params (
    codes "required argument \""
    ++ column
    ++ codes "\" of tool \""
    ++ tool
    ++ codes "\" must be supplied "
    ++ how
    ++ codes " (PRD-8 §4.2)")

module _ {N : Type 0} where
  -- the value of the first equality on the column
  unfoldable pub bound_value : List (Qual N) → Text → Option (Value N)
  bound_value [] column = none
  bound_value (q ∷ qs) column =
      let rest = bound_value qs column in
      if text_eq q.field column && is_equal q.operator then some q.value else rest

  -- what was supplied for a column of an inserted row
  abbrev pub supplied_value : List (Text × Option (Value N)) → Text → Option (Value N)
  supplied_value [] column = none
  supplied_value ((name, v) ∷ rest) column =
      if text_eq name column then v else supplied_value rest column

  -- The loop over the input columns: each takes its value from `find`; a required one must have one.
  unfoldable pub bind_arguments :
      (Text → Option (Value N)) → Text → Text → List Column → Fields N → McpResult (Fields N)
  bind_arguments find tool how [] arguments = ok arguments
  bind_arguments find tool how (c ∷ cs) arguments = elim (find c.sql_name) [
    | some v ↦ bind_arguments find tool how cs (insert_field arguments c.property v)
    | none ↦
        if c.required
        then err (unbound c.sql_name tool how)
        else bind_arguments find tool how cs arguments
  ]

  unfoldable pub arguments_from_quals : PlannedTool → List (Qual N) → McpResult (Fields N)
  unfolding bind_arguments bound_value
  arguments_from_quals tool quals =
      bind_arguments (bound_value quals) tool.tool_name (codes "as a WHERE equality qual")
        tool.inputs end

  unfoldable pub arguments_from_row :
      PlannedTool → List (Text × Option (Value N)) → McpResult (Fields N)
  unfolding bind_arguments
  arguments_from_row tool supplied =
      bind_arguments (supplied_value supplied) tool.tool_name (codes "on INSERT") tool.inputs end

module _ {N F : Type 0} (reader : Reader N F) where
  -- `.ok().flatten()`
  abbrev pub or_no_cell : Outcome (Option (Cell N F)) → Outcome (Option (Cell N F))
  or_no_cell (done c) = done c
  or_no_cell (refused e) = done none
  or_no_cell thrown = thrown

  abbrev pub cell_at : Option (Value N) → Column → Outcome (Option (Cell N F))
  cell_at none col = done none
  cell_at (some v) col = or_no_cell (json_to_cell reader v col.pg_type col.sql_name)

  -- the cells of the columns, off the properties of an object
  unfoldable pub cells_of : (Text → Option (Value N)) → List Column → Outcome (Row N F)
  unfolding json_to_cell
  cells_of find [] = done []
  cells_of find (col ∷ cols) = do
    c ← cell_at (find col.property) col
    cs ← cells_of find cols
    done (c ∷ cs)

  abbrev pub content_cell : Option (Value N) → Option (Cell N F)
  content_cell none = none
  content_cell (some v) = some (json v)

  -- The echo of the arguments, the outputs, the content and the flag.
  unfoldable pub shape_row :
      PlannedTool → Value N → Row N F → Bool → Option (Value N) → Outcome (Row N F)
  unfolding cells_of
  shape_row tool arguments outputs is_error content = do
    echo ← cells_of (get arguments) tool.inputs
    done (echo ++ outputs ++ content_cell content ∷ some (bool is_error) ∷ [])

  -- one row for each element
  unfoldable pub element_rows :
      PlannedTool
      → Value N
      → List Column
      → Option (Value N)
      → List (Value N)
      → Outcome (List (Row N F))
  unfolding cells_of shape_row
  element_rows tool arguments columns content [] = done []
  element_rows tool arguments columns content (element ∷ elements) = do
    cells ← cells_of (get element) columns
    row ← shape_row tool arguments cells false content
    rows ← element_rows tool arguments columns content elements
    done (row ∷ rows)

  abbrev pub one_row : Outcome (Row N F) → Outcome (List (Row N F))
  one_row row = row >>= λ r. done (r ∷ [])

  -- `s.get(key)` of what may be missing
  abbrev pub get_in : Option (Value N) → Text → Option (Value N)
  get_in none key = none
  get_in (some v) key = get v key

  abbrev pub elements_in : Option (Value N) → List (Value N)
  elements_in none = []
  elements_in (some v) = elim (as_array v) [ none ↦ [] | some vs ↦ vs ]

  abbrev pub null_outputs : PlannedTool → Row N F
  null_outputs tool = replicate (length (output_columns tool)) none

  -- Where there are no elements, one row without outputs.
  abbrev pub rows_of_elements :
      PlannedTool
      → Value N
      → List Column
      → Option (Value N)
      → List (Value N)
      → Outcome (List (Row N F))
  rows_of_elements tool arguments columns content [] =
      one_row (shape_row tool arguments (null_outputs tool) false content)
  rows_of_elements tool arguments columns content (element ∷ elements) =
      element_rows tool arguments columns content (element ∷ elements)

  -- the rows of a result that is no error, by the shape of the outputs
  unfoldable pub shaped :
      PlannedTool
      → Value N
      → Option (Value N)
      → Option (Value N)
      → OutputShape
      → Outcome (List (Row N F))
  unfolding element_rows shape_row cells_of output_columns
  shaped tool arguments content structured (element_of property columns) =
      rows_of_elements tool arguments columns content (elements_in (get_in structured property))
  shaped tool arguments content structured (single columns) = one_row (do
    cells ← cells_of (get_in structured) columns
    shape_row tool arguments cells false content)
  shaped tool arguments content structured no_output =
      one_row (shape_row tool arguments [] false content)

  -- what follows the request in `invoke_and_shape`
  unfoldable pub shape_result : PlannedTool → Value N → Value N → Outcome (List (Row N F))
  unfolding shaped shape_row output_columns is_error_result
  shape_result tool arguments result =
      let content = get result (codes "content") in
      if is_error_result result
      then one_row (shape_row tool arguments (null_outputs tool) true content)
      else shaped tool arguments content (get result (codes "structuredContent")) tool.output

abbrev pub has_name : List Column → Text → Bool
has_name [] name = false
has_name (c ∷ cs) name = text_eq c.sql_name name || has_name cs name

-- `position(|c| c.sql_name == name)`, counted from `at`
abbrev pub name_position : ℕ → List Column → Text → Option ℕ
name_position at [] name = none
name_position at (c ∷ cs) name =
    if text_eq c.sql_name name then some at else name_position (suc at) cs name

module _ {N F : Type 0} (eq : Equality N) (num : Numbers N F) where
  -- the place of the cell that a restriction is on
  abbrev pub place_of : PlannedTool → Text → Option ℕ
  place_of tool name =
      let width = length tool.inputs in
      let outputs = output_columns tool in
      elim (name_position width outputs name) [
        | some i ↦ some i
        | none ↦
            if text_eq name (codes "content")
            then some (width + length outputs)
            else if text_eq name (codes "is_error")
            then some (width + length outputs + 1)
            else none
      ]

  abbrev pub candidate_of : Option (Cell N F) → Value N
  candidate_of none = null
  candidate_of (some c) = as_json num c

  unfoldable pub row_passes : PlannedTool → Row N F → Qual N → Bool
  unfolding output_columns matches_json
  row_passes tool row q =
      if has_name tool.inputs q.field && is_equal q.operator
      then true
      else elim (place_of tool q.field) [
        | none ↦ true
        | some i ↦ matches_json eq q q.field (candidate_of (get_cell row i))
      ]

  unfoldable pub post_filter : PlannedTool → List (Qual N) → Row N F → Bool
  unfolding row_passes
  post_filter tool [] row = true
  post_filter tool (q ∷ qs) row = row_passes tool row q && post_filter tool qs row
