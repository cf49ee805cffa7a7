-- ===== src/Tables/ReadThrough/Prompts.antt =====
-- pg/pg_mcp/src/tables/readthrough.rs: the table `prompt_messages`.
use elixir_mcp_lib.Base.{ℕ, suc, Option, none, some, List, [], ◌∷◌, ◌++◌, Text, codes}
use elixir_mcp_lib.Json.{Value, string, object, end, field, get, as_str, null}
use elixir_mcp_lib.Quals.{Equality}
use elixir_mcp_lib.Client.Wire.{Env}
use elixir_mcp_lib.Sessions.{params_object}
use elixir_mcp_lib.Tables.{TableSpec, Cell, text, json, int4, Row, empty_row, as_i32, ScanContext}
use elixir_mcp_lib.Tables.Catalog.{text_at, json_cell}
use elixir_mcp_lib.Tables.ReadThrough.{
  returned, raised, feature, Fetch, give, ◌>>=◌, restricted, array_at, put_all, ask, BufferedCursor,
  buffered,
}

abbrev pub prompt_required : Text
prompt_required = codes "mcp.prompt_messages requires a prompt = '...' qual (PRD-7 §4.5)"

module _ {N : Type 0} where
  -- `.cloned().unwrap_or(Value::Null)`
  abbrev pub or_null : Option (Value N) → Value N
  or_null none = null
  or_null (some v) = v

  unfoldable pub prompt_params : Text → Value N → Value N
  unfolding params_object
  prompt_params name arguments = object (
      field (codes "name") (string name)
        (field (codes "arguments") (params_object (some arguments)) end))

  -- one set of no arguments, where nothing restricts them
  abbrev pub argument_sets_of : Option (List (Value N)) → List (Value N)
  argument_sets_of none = object end ∷ []
  argument_sets_of (some values) = values

module _ {N F : Type 0} where
  unfoldable pub message_cells :
      Text → Value N → ℕ → Value N → Option (Cell N F) → List (Text × Option (Cell N F))
  unfolding text_at
  message_cells name arguments idx message description =
      let content = or_null (get message (codes "content")) in
      (codes "prompt", some (text name))
      ∷ (codes "arguments", some (json arguments))
      ∷ (codes "idx", some (int4 (as_i32 idx)))
      ∷ (codes "role", text_at message (codes "role"))
      ∷ (codes "content_type", text_at content (codes "type"))
      ∷ (codes "text", text_at content (codes "text"))
      ∷ (codes "content", json_cell (some content))
      ∷ (codes "description", description)
      ∷ []

  unfoldable pub message_rows :
      TableSpec → Text → Value N → Option (Cell N F) → ℕ → List (Value N) → List (Row N F)
  unfolding put_all message_cells
  message_rows spec name arguments description idx [] = []
  message_rows spec name arguments description idx (m ∷ messages) =
      put_all spec (empty_row N F spec) (message_cells name arguments idx m description)
      ∷ message_rows spec name arguments description (suc idx) messages

module _ {N F W : Type 0} (env : Env N W) (eq : Equality N) where
  -- the loop over the argument sets of one prompt
  unfoldable pub get_prompts : ScanContext N → Text → List (Value N) → Fetch N W (List (Row N F))
  unfolding ask prompt_params text_at array_at message_rows
  get_prompts ctx name [] s = (returned [], s)
  get_prompts ctx name (arguments ∷ sets) s =
      (do
        result ← ask env ctx.base.resolved (codes "prompts/get") (prompt_params name arguments)
        rest ← get_prompts ctx name sets
        give (
            returned (
              message_rows ctx.base.spec name arguments (text_at result (codes "description")) 0
                (array_at result (codes "messages"))
              ++ rest)))
        s

  -- the loop over the prompts; a value that is no text is passed over
  unfoldable pub read_prompts :
      ScanContext N → List (Value N) → List (Value N) → Fetch N W (List (Row N F))
  unfolding get_prompts
  read_prompts ctx sets [] s = (returned [], s)
  read_prompts ctx sets (prompt ∷ prompts) s = elim (as_str prompt) [
    | none ↦ read_prompts ctx sets prompts s
    | some name ↦
        (do
          rows ← get_prompts ctx name sets
          rest ← read_prompts ctx sets prompts
          give (returned (rows ++ rest)))
          s
  ]

  unfoldable pub prompt_messages_rows : ScanContext N → Fetch N W (List (Row N F))
  unfolding restricted feature read_prompts
  prompt_messages_rows ctx s = elim (restricted eq ctx.quals (codes "prompt")) [
    | none ↦ (raised (feature prompt_required (codes "prompts/get")), s)
    | some prompts ↦
        read_prompts ctx (argument_sets_of (restricted eq ctx.quals (codes "arguments"))) prompts s
  ]

  unfoldable pub prompt_messages_scan : ScanContext N → Fetch N W (BufferedCursor (Row N F))
  unfolding prompt_messages_rows buffered
  prompt_messages_scan ctx = do rows ← prompt_messages_rows ctx; give (returned (buffered rows))
