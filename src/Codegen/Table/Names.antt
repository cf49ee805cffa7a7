-- ===== src/Codegen/Table/Names.antt =====
-- The relation names of a tool, and PostgreSQL's limit on them.
use elixir_mcp_lib.Base.{◌+◌, ◌<◌, ◌≡◌, arith, some, ◌++◌, Text, len, ap, sym, ◌∙◌}
use elixir_mcp_lib.Codegen.Ident.{max_bytes, derive, derive_base}
use elixir_mcp_lib.Codegen.Ident.Bounds.{IsFragment, derive_long}
use elixir_mcp_lib.Codegen.Table.{PlannedTool, table_name, view_name}

-- The prefixes of a tool's relation and of its view cost five and seven bytes.
len-relation_names :
    (tool : PlannedTool)
    → (len (table_name tool) ≡ len tool.sql_name + 5)
      × (len (view_name tool) ≡ len tool.sql_name + 7)
unfolding table_name view_name len
len-relation_names tool = (omega arith, omega arith)

-- Under a prefix of identifier characters that does not start with a digit, a tool whose name
-- is over 63 bytes behind the prefix gets an SQL name of exactly 63 bytes, so its table and its
-- view have names of 68 and 70 bytes.
pub long_names_overflow :
    (to_lowercase : Text → Text) (name prefix : Text) (tool : PlannedTool)
    → IsFragment prefix
    → max_bytes < len (prefix ++ derive_base to_lowercase name)
    → derive to_lowercase name prefix ≡ some tool.sql_name
    → (len tool.sql_name ≡ max_bytes)
      × (len (table_name tool) ≡ max_bytes + 5)
      × (len (view_name tool) ≡ max_bytes + 7)
long_names_overflow to_lowercase name prefix tool f long named =
    let (r, derived, full) = derive_long to_lowercase name prefix f long in
    let same : r ≡ tool.sql_name = cc in
    let exact : len tool.sql_name ≡ max_bytes = ap len (sym same) ∙ full in
    let both = len-relation_names tool in (exact, omega (arith, both.0), omega (arith, both.1))
