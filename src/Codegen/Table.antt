-- ===== src/Codegen/Table.antt =====
-- pg/pg_mcp/src/codegen/table.rs and the plan's record of codegen/mod.rs: quoting, names and the
-- options of the foreign table of one tool.
pub mod Quoting
pub mod Names
mod Tests
use elixir_mcp_lib.Base.{
  ℕ, Bool, true, false, Option, none, some, List, [], ◌∷◌, ◌++◌, map, if◌then◌else◌, ◌==◌, Text,
  codes, join, to_string,
}

-- `ColumnType` of tables/mod.rs
pub data ColumnType : Type 0 where
  text jsonb boolean int4 int8 bytea uuid timestamp_tz float8 date : ColumnType

unfoldable pub sql_name : ColumnType → Text
sql_name text = codes "text"
sql_name jsonb = codes "jsonb"
sql_name boolean = codes "boolean"
sql_name int4 = codes "integer"
sql_name int8 = codes "bigint"
sql_name bytea = codes "bytea"
sql_name uuid = codes "uuid"
sql_name timestamp_tz = codes "timestamptz"
sql_name float8 = codes "double precision"
sql_name date = codes "date"

pub record Column : Type 0 where
  pub property : Text
  pub sql_name : Text
  pub pg_type : ColumnType
  pub required : Bool
  pub enum_hint : Option Text

pub data OutputShape : Type 0 where
  no_output : OutputShape
  element_of : Text → List Column → OutputShape
  single : List Column → OutputShape

pub record PlannedTool : Type 0 where
  pub tool_name : Text
  pub sql_name : Text
  pub schema : Text
  pub read_only : Bool
  pub invoke_on_select : Bool
  pub inputs : List Column
  pub output : OutputShape
  pub params : List Text
  pub title : Option Text
  pub description : Option Text

abbrev pub columns_of : OutputShape → List Column
columns_of no_output = []
columns_of (element_of property columns) = columns
columns_of (single columns) = columns

unfoldable pub output_columns : PlannedTool → List Column
output_columns tool = columns_of tool.output

unfoldable pub table_columns : PlannedTool → List Column
unfolding output_columns
table_columns tool = tool.inputs ++ output_columns tool

unfoldable pub is_multi_row : PlannedTool → Bool
is_multi_row tool = elim tool.output [ element_of property columns ↦ true | _ ↦ false ]

-- `str::replace` of one character by itself, twice
unfoldable pub double : ℕ → Text → Text
double q [] = []
double q (c ∷ s) = let rest = double q s in if c == q then q ∷ q ∷ rest else c ∷ rest

unfoldable pub quote_ident : Text → Text
unfolding double
quote_ident name = b'"' ∷ (double b'"' name ++ b'"' ∷ [])

unfoldable pub quote_literal : Text → Text
unfolding double
quote_literal value = 39 ∷ (double 39 value ++ 39 ∷ [])

unfoldable pub table_name : PlannedTool → Text
table_name tool = codes "tool_" ++ tool.sql_name

unfoldable pub view_name : PlannedTool → Text
view_name tool = codes "v_tool_" ++ tool.sql_name

pub record ExtraOptions : Type 0 where
  pub upstream : Option Text
  pub cache_ttl_ms : Option ℕ

unfoldable pub table_options : PlannedTool → ExtraOptions → List (Text × Text)
table_options tool extra =
    (codes "tool", tool.tool_name)
    ∷ (codes "invoke_on_select", if tool.invoke_on_select then codes "true" else codes "false")
    ∷ (elim extra.upstream [ none ↦ [] | some u ↦ (codes "upstream", u) ∷ [] ]
        ++ elim extra.cache_ttl_ms [
          | none ↦ []
          | some ttl ↦ (codes "cache_ttl_ms", to_string ttl) ∷ []
        ])

unfoldable pub column_definition : Column → Text
unfolding quote_ident sql_name
column_definition col = codes "  " ++ quote_ident col.sql_name ++ codes " " ++ sql_name col.pg_type

unfoldable pub option_text : Text × Text → Text
unfolding quote_literal
option_text (k, v) = k ++ codes " " ++ quote_literal v

unfoldable pub create_table : Text → PlannedTool → ExtraOptions → Text
unfolding column_definition option_text table_columns table_options table_name quote_ident
create_table server_name tool extra =
    let columns =
      map column_definition (table_columns tool)
      ++ codes "  \"content\" jsonb" ∷ codes "  \"is_error\" boolean" ∷ [] in
    codes "CREATE FOREIGN TABLE "
    ++ quote_ident tool.schema
    ++ codes "."
    ++ quote_ident (table_name tool)
    ++ codes " (\n"
    ++ join columns (codes ",\n")
    ++ codes "\n) SERVER "
    ++ quote_ident server_name
    ++ codes " OPTIONS ("
    ++ join (map option_text (table_options tool extra)) (codes ", ")
    ++ codes ");"

-- `filter_map` over the columns that carry a hint
unfoldable pub comment_lines : Text → List Column → List Text
unfolding quote_ident quote_literal
comment_lines table [] = []
comment_lines table (col ∷ cols) =
    let rest = comment_lines table cols in
    elim col.enum_hint [
      | none ↦ rest
      | some hint ↦
          (codes "COMMENT ON COLUMN "
            ++ table
            ++ codes "."
            ++ quote_ident col.sql_name
            ++ codes " IS "
            ++ quote_literal hint
            ++ codes ";")
          ∷ rest
    ]

unfoldable pub column_comments : PlannedTool → List Text
unfolding comment_lines quote_ident table_name table_columns
column_comments tool =
    comment_lines (quote_ident tool.schema ++ codes "." ++ quote_ident (table_name tool))
      (table_columns tool)
