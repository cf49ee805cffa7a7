-- ===== src/Tables/Catalog/Conform.antt =====
-- The rows of the catalog tables have one cell for each column, of the column's type.
use elixir_mcp_lib.Base.{
  ℕ, suc, ◌≡◌, refl, Option, none, some, List, [], ◌∷◌, Text, codes, ℤ, ◌>>=◌, All, All-append,
}
use elixir_mcp_lib.Json.{Value, get, as_str, as_bool, null}
use elixir_mcp_lib.Codegen.Table.{ColumnType}
use elixir_mcp_lib.Tables.{ColumnSpec, Cell, Row}
use elixir_mcp_lib.Tables.Specs.{
  tools_spec, prompts_spec, prompt_arguments_spec, resources_spec, resource_templates_spec,
}
use elixir_mcp_lib.Tables.Catalog.{
  text_at, json_at, json_cell, annotation, bool_at, value_as_i64, int8_at, tools_row, prompts_row,
  prompt_argument_row, argument_rows, arguments_of, prompt_argument_rows, resources_row,
  resource_templates_row, set,
}

module _ {N F : Type 0} where
  abbrev pub type_of : Cell N F → ColumnType
  type_of (Cell.text s) = ColumnType.text
  type_of (Cell.json v) = ColumnType.jsonb
  type_of (Cell.bool b) = ColumnType.boolean
  type_of (Cell.int4 i) = ColumnType.int4
  type_of (Cell.int8 i) = ColumnType.int8
  type_of (Cell.bytea b) = ColumnType.bytea
  type_of (Cell.uuid b) = ColumnType.uuid
  type_of (Cell.timestamp_tz t) = ColumnType.timestamp_tz
  type_of (Cell.float8 f) = ColumnType.float8
  type_of (Cell.date d) = ColumnType.date

  -- NULL fits every column.
  abbrev pub Fits : ColumnType → Option (Cell N F) → Type 0
  Fits t none = Unit
  Fits t (some c) = type_of c ≡ t

  abbrev pub Conforms : List ColumnSpec → Row N F → Type 0
  Conforms [] [] = Unit
  Conforms [] (c ∷ cs) = ⊥
  Conforms (s ∷ ss) [] = ⊥
  Conforms (s ∷ ss) (c ∷ cs) = Fits s.pg_type c × Conforms ss cs

module _ (N F : Type 0) where
  pub Fits-some {ℓ} :
      {A : Type ℓ} (t : ColumnType) (f : A → Cell N F) (o : Option A)
      → ((a : A) → type_of (f a) ≡ t)
      → Fits t (o >>= λ a. some (f a))
  Fits-some t f none h = tt
  Fits-some t f (some a) h = h a

  pub Fits-text_at : (item : Value N) (key : Text) → Fits {F = F} ColumnType.text (text_at item key)
  unfolding text_at
  Fits-text_at item key = Fits-some ColumnType.text Cell.text (get item key >>= as_str) (λ s. refl)

  pub json_cell-Fits : (o : Option (Value N)) → Fits {F = F} ColumnType.jsonb (json_cell o)
  json_cell-Fits none = tt
  json_cell-Fits (some null) = tt
  json_cell-Fits (some (Value.boolean b)) = refl
  json_cell-Fits (some (Value.number n)) = refl
  json_cell-Fits (some (Value.string s)) = refl
  json_cell-Fits (some (Value.array vs)) = refl
  json_cell-Fits (some (Value.object fs)) = refl

  pub Fits-json_at :
      (item : Value N) (key : Text) → Fits {F = F} ColumnType.jsonb (json_at item key)
  unfolding json_at
  Fits-json_at item key = json_cell-Fits (get item key)

  Fits-annotation :
      (item : Value N) (hint : Text) → Fits {F = F} ColumnType.boolean (annotation item hint)
  unfolding annotation
  Fits-annotation item hint =
      Fits-some ColumnType.boolean Cell.bool
        (get item (codes "annotations") >>= (λ a. get a hint) >>= as_bool) (λ b. refl)

  Fits-bool_at : (item : Value N) (key : Text) → Fits {F = F} ColumnType.boolean (bool_at item key)
  unfolding bool_at
  Fits-bool_at item key =
      Fits-some ColumnType.boolean Cell.bool (get item key >>= as_bool) (λ b. refl)

  Fits-int8_at :
      (as_i64 : N → Option ℤ) (item : Value N) (key : Text)
      → Fits {F = F} ColumnType.int8 (int8_at as_i64 item key)
  unfolding int8_at
  Fits-int8_at as_i64 item key =
      Fits-some ColumnType.int8 Cell.int8 (get item key >>= value_as_i64 as_i64) (λ i. refl)

  tools_row-Conforms :
      (item : Value N) → Conforms tools_spec.columns (tools_row N F tools_spec item)
  unfolding tools_row tools_spec set
  tools_row-Conforms item = (
    Fits-text_at item (codes "name"),
    (
      Fits-text_at item (codes "title"),
      (
        Fits-text_at item (codes "description"),
        (
          Fits-json_at item (codes "inputSchema"),
          (
            Fits-json_at item (codes "outputSchema"),
            (
              Fits-json_at item (codes "annotations"),
              (
                Fits-annotation item (codes "readOnlyHint"),
                (
                  Fits-annotation item (codes "destructiveHint"),
                  (
                    Fits-annotation item (codes "idempotentHint"),
                    (
                      Fits-annotation item (codes "openWorldHint"),
                      (Fits-json_at item (codes "_meta"), tt),
                    ),
                  ),
                ),
              ),
            ),
          ),
        ),
      ),
    ),
  )

  prompts_row-Conforms :
      (item : Value N) → Conforms prompts_spec.columns (prompts_row N F prompts_spec item)
  unfolding prompts_row prompts_spec set
  prompts_row-Conforms item = (
    Fits-text_at item (codes "name"),
    (
      Fits-text_at item (codes "title"),
      (Fits-text_at item (codes "description"), (Fits-json_at item (codes "_meta"), tt)),
    ),
  )

  resources_row-Conforms :
      (as_i64 : N → Option ℤ) (item : Value N)
      → Conforms resources_spec.columns (resources_row N F as_i64 resources_spec item)
  unfolding resources_row resources_spec set
  resources_row-Conforms as_i64 item = (
    Fits-text_at item (codes "uri"),
    (
      Fits-text_at item (codes "name"),
      (
        Fits-text_at item (codes "title"),
        (
          Fits-text_at item (codes "description"),
          (
            Fits-text_at item (codes "mimeType"),
            (
              Fits-int8_at as_i64 item (codes "size"),
              (Fits-json_at item (codes "annotations"), (Fits-json_at item (codes "_meta"), tt)),
            ),
          ),
        ),
      ),
    ),
  )

  resource_templates_row-Conforms :
      (item : Value N)
      → Conforms resource_templates_spec.columns
          (resource_templates_row N F resource_templates_spec item)
  unfolding resource_templates_row resource_templates_spec set
  resource_templates_row-Conforms item = (
    Fits-text_at item (codes "uriTemplate"),
    (
      Fits-text_at item (codes "name"),
      (
        Fits-text_at item (codes "title"),
        (
          Fits-text_at item (codes "description"),
          (
            Fits-text_at item (codes "mimeType"),
            (Fits-json_at item (codes "annotations"), (Fits-json_at item (codes "_meta"), tt)),
          ),
        ),
      ),
    ),
  )

  argument_rows-Conforms :
      (prompt : Option Text) (idx : ℕ) (arguments : List (Value N))
      → All
          (Conforms prompt_arguments_spec.columns)
          (argument_rows N F prompt_arguments_spec prompt idx arguments)
  unfolding argument_rows prompt_argument_row prompt_arguments_spec set
  argument_rows-Conforms prompt idx [] = tt
  argument_rows-Conforms prompt idx (item ∷ rest) = (
    (
      Fits-some ColumnType.text Cell.text prompt (λ s. refl),
      (
        Fits-text_at item (codes "name"),
        (
          Fits-text_at item (codes "description"),
          (Fits-bool_at item (codes "required"), (refl, tt)),
        ),
      ),
    ),
    argument_rows-Conforms prompt (suc idx) rest,
  )

  prompt_argument_rows-Conforms :
      (prompts : List (Value N))
      → All
          (Conforms prompt_arguments_spec.columns)
          (prompt_argument_rows N F prompt_arguments_spec prompts)
  unfolding prompt_argument_rows
  prompt_argument_rows-Conforms [] = tt
  prompt_argument_rows-Conforms (p ∷ ps) =
      All-append (Conforms prompt_arguments_spec.columns)
        (argument_rows N F prompt_arguments_spec (get p (codes "name") >>= as_str) 0
          (arguments_of p))
        (prompt_argument_rows N F prompt_arguments_spec ps)
        (argument_rows-Conforms (get p (codes "name") >>= as_str) 0 (arguments_of p))
        (prompt_argument_rows-Conforms ps)

  -- Whatever a server lists, each row of the tables `tools`, `prompts`, `prompt_arguments`,
  -- `resources` and `resource_templates` has one cell for each column of its table, NULL or of the
  -- column's type.
  pub catalog_rows-Conform :
      (as_i64 : N → Option ℤ) (item : Value N) (prompts : List (Value N))
      → Conforms tools_spec.columns (tools_row N F tools_spec item)
        × Conforms prompts_spec.columns (prompts_row N F prompts_spec item)
        × All
            (Conforms prompt_arguments_spec.columns)
            (prompt_argument_rows N F prompt_arguments_spec prompts)
        × Conforms resources_spec.columns (resources_row N F as_i64 resources_spec item)
        × Conforms resource_templates_spec.columns
            (resource_templates_row N F resource_templates_spec item)
  catalog_rows-Conform as_i64 item prompts = (
    tools_row-Conforms item,
    prompts_row-Conforms item,
    prompt_argument_rows-Conforms prompts,
    resources_row-Conforms as_i64 item,
    resource_templates_row-Conforms item,
  )
