-- ===== src/Import/Tests.antt =====
-- A prefix that is accepted.
use elixir_mcp_lib.Base.{
  ◌≡◌, refl, arith, List, [], ◌∷◌, some, Text, codes, map, All, to_ascii_lowercase, as_bytes,
}
use elixir_mcp_lib.Codegen.Ident.{dedup}
use elixir_mcp_lib.Codegen.Ident.Bounds.{IsIdent}
use elixir_mcp_lib.Codegen.Ident.Dedup.{originals, sql_names, Distinct}
use elixir_mcp_lib.Import.{validate_prefix}
use elixir_mcp_lib.Import.Prefix.{validated-dedup}

abbrev two_names : List Text
two_names = codes "a-b" ∷ codes "a.b" ∷ []

validated-dedup_example :
    (out : List (Text × Text)) × (dedup (map to_ascii_lowercase) two_names (codes "npl_")
      ≡ some out)
    × (originals out ≡ two_names)
    × All IsIdent (sql_names out)
    × Distinct (sql_names out)
unfolding validate_prefix as_bytes
validated-dedup_example =
    validated-dedup (map to_ascii_lowercase) two_names (codes "npl_") (codes "npl_") refl
      (omega arith)
