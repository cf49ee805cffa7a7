-- ===== src/Codegen/Types/Tests.antt =====
-- The type of a nullable date.
use elixir_mcp_lib.Base.{ℕ, ◌≡◌, refl, codes}
use elixir_mcp_lib.Json.{Fields, string, end, field}
use elixir_mcp_lib.Codegen.Table.{date}
use elixir_mcp_lib.Codegen.Types.{map_type}
use elixir_mcp_lib.Codegen.Types.Unions.{typed}

abbrev format_date : Fields ℕ
format_date = field (codes "format") (string (codes "date")) end

a_date : map_type (typed (string (codes "string")) format_date) ≡ date
unfolding map_type
a_date = refl
