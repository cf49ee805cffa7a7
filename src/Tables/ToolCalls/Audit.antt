-- ===== src/Tables/ToolCalls/Audit.antt =====
-- pg/pg_mcp/src/tables/tool_calls.rs: the row of a completed call in the operator's audit table.
-- SPI and the reader of the column listing are the record `Spi`, over a database of the type `D`;
-- `print` is the print of a JSON document. White space between two words of a query is one space.
use elixir_mcp_lib.Base.{
  ℕ, Option, none, some, List, [], ◌∷◌, ◌++◌, if◌then◌else◌, ◌==◌, Text, codes, text_eq, split_once,
  int_to_string,
}
use elixir_mcp_lib.Json.{Value}
use elixir_mcp_lib.Errors.{McpError, internal, datatype_mismatch, McpResult, ok, err}
use elixir_mcp_lib.Errors.Results.{◌>>=◌, ◌>>◌}
use elixir_mcp_lib.Tables.{find_option}
use elixir_mcp_lib.Tables.ToolCalls.{CallRecord, uuid_hex}

pub data Answer {ℓ} (A : Type ℓ) : Type ℓ where
  answered : A → Answer A
  failed : Text → Answer A

pub record Spi (D : Type 0) : Type 0 where
  pub get_one : Text → D → Answer (Option Text)
  pub run : Text → D → Answer (Unit {0}) × D
  pub read_listing : Text → Answer (List (Text × Text))

-- `value.replace(c, with)`
abbrev pub replace : ℕ → Text → Text → Text
replace c with' [] = []
replace c with' (d ∷ s) = let rest = replace c with' s in if d == c then with' ++ rest else d ∷ rest

unfoldable pub sql_literal : Text → Text
sql_literal value = 39 ∷ replace 39 (39 ∷ 39 ∷ []) (replace 0 [] value) ++ 39 ∷ []

unfoldable pub sql_ident : Text → Text
sql_ident value = replace b'"' (b'"' ∷ b'"' ∷ []) value

module _ {N : Type 0} (print : Value N → Text) where
  unfoldable pub sql_jsonb : Value N → Text
  unfolding sql_literal
  sql_jsonb value = sql_literal (print value) ++ codes "::jsonb"

  unfoldable pub sql_jsonb_opt : Option (Value N) → Text
  unfolding sql_jsonb
  sql_jsonb_opt none = codes "NULL"
  sql_jsonb_opt (some v) = sql_jsonb v

-- the columns and types of an audit table
abbrev pub expected : List (Text × Text)
expected =
    (codes "id", codes "uuid")
    ∷ (codes "server", codes "text")
    ∷ (codes "role_name", codes "name")
    ∷ (codes "tool", codes "text")
    ∷ (codes "arguments", codes "jsonb")
    ∷ (codes "content", codes "jsonb")
    ∷ (codes "structured", codes "jsonb")
    ∷ (codes "is_error", codes "boolean")
    ∷ (codes "error", codes "jsonb")
    ∷ (codes "called_at", codes "timestamp with time zone")
    ∷ (codes "duration_ms", codes "integer")
    ∷ []

abbrev pub missing_column : Text → Text → Text → Text → McpError
missing_column schema table column want = datatype_mismatch (
    codes "audit table \""
    ++ (schema
        ++ (codes "."
            ++ (table
                ++ (codes "\" is missing column \""
                    ++ (column
                        ++ (codes "\" (expected "
                            ++ (want
                                ++ codes
                                    "); the extension never alters the table (PRD-7 §4.8)"))))))))

abbrev pub wrong_type : Text → Text → Text → Text → Text → McpError
wrong_type schema table column have want = datatype_mismatch (
    codes "audit table \""
    ++ (schema
        ++ (codes "."
            ++ (table
                ++ (codes "\" column \""
                    ++ (column
                        ++ (codes "\" is "
                            ++ (have
                                ++ (codes ", expected "
                                    ++ (want
                                        ++ codes
                                            "; the extension never alters the table (PRD-7 §4.8)"))))))))))

-- one column of the listing against what is expected
abbrev pub check_column : Text → Text → Text → Text → Option Text → McpResult (Unit {0})
check_column schema table column want none = err (missing_column schema table column want)
check_column schema table column want (some have) =
    if text_eq have want then ok tt else err (wrong_type schema table column have want)

unfoldable pub check_columns :
    Text → Text → List (Text × Text) → List (Text × Text) → McpResult (Unit {0})
check_columns schema table found [] = ok tt
check_columns schema table found ((column, want) ∷ rest) =
    check_column schema table column want (find_option found column)
    >> check_columns schema table found rest

abbrev pub from_spi {ℓ} : {A : Type ℓ} → Text → Answer A → McpResult A
from_spi what (answered a) = ok a
from_spi what (failed e) = err (internal (what ++ e))

abbrev pub no_table : Text → McpError
no_table name = datatype_mismatch (
    codes "audit table "
    ++ (name
        ++ codes
            " does not exist; the extension never creates it — create it with the shape from PRD-7 §4.8 (first column: id uuid)"))

abbrev pub lookup_failed : Text
lookup_failed = codes "audit lookup failed: "

unfoldable pub qualified : Text → Text → Text
unfolding sql_ident
qualified schema table = sql_ident schema ++ (codes "." ++ sql_ident table)

module _ {D : Type 0} (spi : Spi D) where
  abbrev pub listing_of : Option Text → McpResult (List (Text × Text))
  listing_of none = ok []
  listing_of (some raw) =
      from_spi (codes "audit column listing was not valid json: ") (spi.read_listing raw)

  abbrev pub regclass_query : Text → Text
  regclass_query name = codes "SELECT to_regclass('" ++ (name ++ codes "')::text")

  unfoldable pub listing_query : Text → Text → Text
  unfolding sql_literal
  listing_query schema table =
      codes
        "SELECT jsonb_object_agg(a.attname::text, format_type(a.atttypid, a.atttypmod)::text)::text FROM pg_attribute a JOIN pg_class c ON c.oid = a.attrelid JOIN pg_namespace n ON n.oid = c.relnamespace WHERE n.nspname = "
      ++ (sql_literal schema
          ++ (codes " AND c.relname = "
              ++ (sql_literal table ++ codes " AND a.attnum > 0 AND NOT a.attisdropped")))

  abbrev pub exists_or : Text → Option Text → McpResult (Unit {0})
  exists_or name none = err (no_table name)
  exists_or name (some oid) = ok tt

  unfoldable pub validate_audit_shape : Text → Text → D → McpResult (Unit {0})
  unfolding check_columns qualified listing_query
  validate_audit_shape schema table db = do
    exists ← from_spi lookup_failed (spi.get_one (regclass_query (qualified schema table)) db)
    exists_or (qualified schema table) exists
    listing ← from_spi lookup_failed (spi.get_one (listing_query schema table) db)
    found ← listing_of listing
    check_columns schema table found expected

module _ {N D : Type 0} (print : Value N → Text) (spi : Spi D) where
  unfoldable pub insert_statement : Text → Text → Text → CallRecord N → Text
  unfolding sql_ident uuid_hex sql_literal sql_jsonb sql_jsonb_opt
  insert_statement server_name schema table rec =
      codes "INSERT INTO \""
      ++ (sql_ident schema
          ++ (codes "\".\""
              ++ (sql_ident table
                  ++ (codes
                        "\" (id, server, role_name, tool, arguments, content, structured, is_error, error, called_at, duration_ms) VALUES ('"
                      ++ (uuid_hex rec.id
                          ++ (codes "'::uuid, "
                              ++ (sql_literal server_name
                                  ++ (codes ", current_user, "
                                      ++ (sql_literal rec.tool
                                          ++ (codes ", "
                                              ++ (sql_jsonb print rec.arguments
                                                  ++ (codes ", "
                                                      ++ (sql_jsonb_opt print rec.content
                                                          ++ (codes ", "
                                                            ++ (sql_jsonb_opt print rec.structured
                                                            ++ (codes ", "
                                                            ++ ((if rec.is_error
                                                            then codes "TRUE"
                                                            else codes "FALSE")
                                                            ++ (codes ", "
                                                            ++ (sql_jsonb_opt print rec.error
                                                            ++ (codes
                                                            ", '2000-01-01 00:00:00+00'::timestamptz + "
                                                            ++ (int_to_string rec.called_at
                                                            ++ (codes
                                                            " * interval '1 microsecond', "
                                                            ++ (int_to_string rec.duration_ms
                                                            ++ codes ")")))))))))))))))))))))))

  -- the write, behind the check
  unfoldable pub append_to :
      Text → Text → Text → Text → CallRecord N → McpResult (Unit {0}) → D → McpResult (Unit {0}) × D
  unfolding insert_statement
  append_to server_name target schema table rec (err e) db = (err e, db)
  append_to server_name target schema table rec (ok u) db =
      let (answer, db') = spi.run (insert_statement server_name schema table rec) db in
      (from_spi (codes "audit insert into \"" ++ (target ++ codes "\" failed: ")) answer, db')

  abbrev pub audit_parts :
      Text → Text → CallRecord N → Option (Text × Text) → D → McpResult (Unit {0}) × D
  audit_parts server_name target rec none db =
      (err (internal (codes "audit_table \"" ++ (target ++ codes "\" lost its qualification"))), db)
  audit_parts server_name target rec (some (schema, table)) db =
      append_to server_name target schema table rec (validate_audit_shape spi schema table db) db

  unfoldable pub audit_append : Option Text → Text → CallRecord N → D → McpResult (Unit {0}) × D
  unfolding validate_audit_shape append_to
  audit_append none server_name rec db = (ok tt, db)
  audit_append (some target) server_name rec db =
      audit_parts server_name target rec (split_once target b'.') db
