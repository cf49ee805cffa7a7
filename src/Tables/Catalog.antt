-- ===== src/Tables/Catalog.antt =====
-- pg/pg_mcp/src/tables/catalog.rs: the row that each item of a list becomes.
-- `as_i64` is serde_json's, a parameter.
pub mod Filters
pub mod Filtered
pub mod Scope
pub mod Dots
pub mod Scoped
pub mod Cursor
pub mod Scan
pub mod Fetched
pub mod Server
pub mod Conform
mod Tests
use elixir_mcp_lib.Base.{
  ℕ, suc, ◌-◌, Option, none, some, List, [], ◌∷◌, ◌++◌, Text, codes, ℤ, ◌>>=◌,
}
use elixir_mcp_lib.Json.{Value, get, as_str, as_bool, as_array, null}
use elixir_mcp_lib.Tables.{
  TableSpec, attno, Cell, text, json, bool, int4, int8, Row, empty_row, put, as_i32,
}

abbrev pub or_empty {ℓ} : {A : Type ℓ} → Option (List A) → List A
or_empty none = []
or_empty (some xs) = xs

module _ {N : Type 0} where
  -- `Value::as_i64` on a number
  abbrev pub value_as_i64 : (N → Option ℤ) → Value N → Option ℤ
  value_as_i64 as_i64 (Value.number n) = as_i64 n
  value_as_i64 as_i64 _ = none

  -- `.get("arguments").and_then(Value::as_array).unwrap_or(&[])`
  unfoldable pub arguments_of : Value N → List (Value N)
  arguments_of prompt = or_empty (get prompt (codes "arguments") >>= as_array)

module _ {N F : Type 0} where
  -- A column that the table has not is ignored.
  unfoldable pub set : TableSpec → Row N F → Text → Option (Cell N F) → Row N F
  set spec row column cell = elim (attno spec column) [
    | none ↦ row
    | some index ↦ put row (index - 1) cell
  ]

  -- the cells to set, in order, on an empty row
  abbrev pub set_all : TableSpec → Row N F → List (Text × Option (Cell N F)) → Row N F
  set_all spec row [] = row
  set_all spec row ((column, cell) ∷ cells) = set_all spec (set spec row column cell) cells

  unfoldable pub text_at : Value N → Text → Option (Cell N F)
  text_at item key = get item key >>= as_str >>= (λ s. some (text s))

  abbrev pub json_cell : Option (Value N) → Option (Cell N F)
  json_cell none = none
  json_cell (some null) = none
  json_cell (some v) = some (json v)

  unfoldable pub json_at : Value N → Text → Option (Cell N F)
  json_at item key = json_cell (get item key)

  unfoldable pub annotation : Value N → Text → Option (Cell N F)
  annotation item hint =
      get item (codes "annotations") >>= (λ a. get a hint) >>= as_bool >>= (λ b. some (bool b))

  unfoldable pub bool_at : Value N → Text → Option (Cell N F)
  bool_at item key = get item key >>= as_bool >>= (λ b. some (bool b))

  unfoldable pub int8_at : (N → Option ℤ) → Value N → Text → Option (Cell N F)
  int8_at as_i64 item key = get item key >>= value_as_i64 as_i64 >>= (λ i. some (int8 i))

module _ (N F : Type 0) where
  unfoldable pub tools_row : TableSpec → Value N → Row N F
  unfolding set text_at json_at annotation
  tools_row spec item = set_all spec (empty_row N F spec) (
      (codes "name", text_at item (codes "name"))
      ∷ (codes "title", text_at item (codes "title"))
      ∷ (codes "description", text_at item (codes "description"))
      ∷ (codes "input_schema", json_at item (codes "inputSchema"))
      ∷ (codes "output_schema", json_at item (codes "outputSchema"))
      ∷ (codes "annotations", json_at item (codes "annotations"))
      ∷ (codes "read_only", annotation item (codes "readOnlyHint"))
      ∷ (codes "destructive", annotation item (codes "destructiveHint"))
      ∷ (codes "idempotent", annotation item (codes "idempotentHint"))
      ∷ (codes "open_world", annotation item (codes "openWorldHint"))
      ∷ (codes "meta", json_at item (codes "_meta"))
      ∷ [])

  unfoldable pub prompts_row : TableSpec → Value N → Row N F
  unfolding set text_at json_at
  prompts_row spec item = set_all spec (empty_row N F spec) (
      (codes "name", text_at item (codes "name"))
      ∷ (codes "title", text_at item (codes "title"))
      ∷ (codes "description", text_at item (codes "description"))
      ∷ (codes "meta", json_at item (codes "_meta"))
      ∷ [])

  -- the row of one argument of a prompt
  unfoldable pub prompt_argument_row : TableSpec → Option Text → ℕ → Value N → Row N F
  unfolding set text_at bool_at
  prompt_argument_row spec prompt_name idx argument = set_all spec (empty_row N F spec) (
      (codes "prompt", prompt_name >>= (λ p. some (text p)))
      ∷ (codes "name", text_at argument (codes "name"))
      ∷ (codes "description", text_at argument (codes "description"))
      ∷ (codes "required", bool_at argument (codes "required"))
      ∷ (codes "idx", some (int4 (as_i32 idx)))
      ∷ [])

  unfoldable pub argument_rows : TableSpec → Option Text → ℕ → List (Value N) → List (Row N F)
  unfolding prompt_argument_row
  argument_rows spec prompt_name idx [] = []
  argument_rows spec prompt_name idx (a ∷ as') =
      prompt_argument_row spec prompt_name idx a ∷ argument_rows spec prompt_name (suc idx) as'

  unfoldable pub prompt_argument_rows : TableSpec → List (Value N) → List (Row N F)
  unfolding argument_rows arguments_of
  prompt_argument_rows spec [] = []
  prompt_argument_rows spec (p ∷ prompts) =
      argument_rows spec (get p (codes "name") >>= as_str) 0 (arguments_of p)
      ++ prompt_argument_rows spec prompts

  unfoldable pub resources_row : (N → Option ℤ) → TableSpec → Value N → Row N F
  unfolding set text_at json_at int8_at
  resources_row as_i64 spec item = set_all spec (empty_row N F spec) (
      (codes "uri", text_at item (codes "uri"))
      ∷ (codes "name", text_at item (codes "name"))
      ∷ (codes "title", text_at item (codes "title"))
      ∷ (codes "description", text_at item (codes "description"))
      ∷ (codes "mime_type", text_at item (codes "mimeType"))
      ∷ (codes "size", int8_at as_i64 item (codes "size"))
      ∷ (codes "annotations", json_at item (codes "annotations"))
      ∷ (codes "meta", json_at item (codes "_meta"))
      ∷ [])

  unfoldable pub resource_templates_row : TableSpec → Value N → Row N F
  unfolding set text_at json_at
  resource_templates_row spec item = set_all spec (empty_row N F spec) (
      (codes "uri_template", text_at item (codes "uriTemplate"))
      ∷ (codes "name", text_at item (codes "name"))
      ∷ (codes "title", text_at item (codes "title"))
      ∷ (codes "description", text_at item (codes "description"))
      ∷ (codes "mime_type", text_at item (codes "mimeType"))
      ∷ (codes "annotations", json_at item (codes "annotations"))
      ∷ (codes "meta", json_at item (codes "_meta"))
      ∷ [])
