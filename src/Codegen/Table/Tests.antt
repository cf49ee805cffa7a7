-- ===== src/Codegen/Table/Tests.antt =====
-- Quoting of a name that holds quotes, and the names of a tool with a long name.
use elixir_mcp_lib.Base.{
  false, ◌+◌, ◌≡◌, refl, arith, none, some, [], ◌∷◌, ◌++◌, Text, codes, map, to_ascii_lowercase,
  len, slice_to,
}
use elixir_mcp_lib.Codegen.Sha256.{sha_suffix}
use elixir_mcp_lib.Codegen.Ident.{max_bytes, derive, derive_base}
use elixir_mcp_lib.Codegen.Table.{
  PlannedTool, no_output, table_name, view_name, quote_ident, quote_literal,
}
use elixir_mcp_lib.Codegen.Table.Quoting.{lex_ident, lex_quoted, lex-quote_ident, lex-quote_literal}
use elixir_mcp_lib.Codegen.Table.Names.{long_names_overflow}

-- `a"b`
abbrev hostile : Text
hostile = b'a' ∷ b'"' ∷ b'b' ∷ []

lex-quote_ident_example : lex_ident (quote_ident hostile ++ codes " (") ≡ some (hostile, codes " (")
unfolding len
lex-quote_ident_example =
    lex-quote_ident b'a' (b'"' ∷ b'b' ∷ []) (codes " (") (omega arith) (λ e. absurd (omega arith))

-- `it's`
abbrev its : Text
its = b'i' ∷ b't' ∷ 39 ∷ b's' ∷ []

lex-quote_literal_example : lex_quoted 39 (quote_literal its ++ codes ")") ≡ some (its, codes ")")
lex-quote_literal_example = lex-quote_literal its (codes ")") (λ e. absurd (omega arith))

abbrev ascii_lower : Text → Text
ascii_lower = map to_ascii_lowercase

abbrev long_name : Text
long_name = codes "abcdefghijklmnopqrstuvwxyz_abcdefghijklmnopqrstuvwxyz_abcdefghijklmnopqrstuvwxyz"

abbrev long_tool : Text → PlannedTool
long_tool sql = record {
  tool_name = long_name;
  sql_name = sql;
  schema = codes "mcp";
  read_only = false;
  invoke_on_select = false;
  inputs = [];
  output = no_output;
  params = [];
  title = none;
  description = none;
}

abbrev cut_name : Text
unfolding sha_suffix
cut_name = codes "abcdefghijklmnopqrstuvwxyz_abcdefghijklmnopqrstuvwxyz_a_" ++ sha_suffix long_name

long_names_overflow_example :
    (len (long_tool cut_name).sql_name ≡ max_bytes)
    × (len (table_name (long_tool cut_name)) ≡ max_bytes + 5)
    × (len (view_name (long_tool cut_name)) ≡ max_bytes + 7)
long_names_overflow_example =
    long_names_overflow ascii_lower long_name [] (long_tool cut_name)
      (record { chars = tt; head = refl }) (unfold derive_base len in omega arith)
      (unfold derive len slice_to sha_suffix in refl)
