-- ===== src/Tables/ReadThrough/Completions.antt =====
-- pg/pg_mcp/src/tables/readthrough.rs: the table `completions`.
use elixir_mcp_lib.Base.{ℕ, suc, Option, none, some, List, [], ◌∷◌, ◌++◌, Text, codes, ℤ, ◌>>=◌}
use elixir_mcp_lib.Json.{Value, string, object, end, field, get, as_str}
use elixir_mcp_lib.Quals.{Qual, Equality}
use elixir_mcp_lib.Client.Wire.{Env}
use elixir_mcp_lib.Tables.{
  TableSpec, Cell, text, json, int4, Row, empty_row, as_i32, int_as_i32, ScanContext,
}
use elixir_mcp_lib.Tables.Catalog.{bool_at, value_as_i64}
use elixir_mcp_lib.Tables.ReadThrough.{
  CtxResult, returned, raised, feature, Fetch, give, behind, restricted, array_at, put_all, ask,
  BufferedCursor, buffered,
}
use elixir_mcp_lib.Tables.ReadThrough.Prompts.{or_null}

abbrev pub completion_required : List Text
completion_required = codes "ref" ∷ codes "argument_name" ∷ codes "argument_value" ∷ []

abbrev pub qual_required : Text → Text
qual_required column =
    codes "mcp.completions requires a " ++ (column ++ codes " = qual (PRD-7 §4.6)")

module _ {N : Type 0} (eq : Equality N) where
  -- what the quals allow each required column, or the error of the first that has none
  unfoldable pub restricted_columns : List (Qual N) → List Text → CtxResult (List (List (Value N)))
  unfolding restricted feature
  restricted_columns quals [] = returned []
  restricted_columns quals (column ∷ rest) =
      let later = restricted_columns quals rest in
      elim (restricted eq quals column) [
        | none ↦ raised (feature (qual_required column) (codes "completion/complete"))
        | some values ↦ elim later [
          | raised e ↦ raised e
          | returned cols ↦ returned (values ∷ cols)
        ]
      ]

module _ {N : Type 0} where
  unfoldable pub completion_params : Value N → Text → Text → Value N
  completion_params ref name value = object (
      field (codes "ref") ref (
        field (codes "argument")
          (object (field (codes "name") (string name) (field (codes "value") (string value) end)))
          end))

module _ {N F : Type 0} (as_i64 : N → Option ℤ) where
  unfoldable pub candidate_cells :
      Value N → Text → Text → Value N → ℕ → Value N → List (Text × Option (Cell N F))
  unfolding bool_at
  candidate_cells ref name value completion idx candidate =
      (codes "ref", some (json ref))
      ∷ (codes "argument_name", some (text name))
      ∷ (codes "argument_value", some (text value))
      ∷ (codes "value", as_str candidate >>= (λ t. some (text t)))
      ∷ (codes "idx", some (int4 (as_i32 idx)))
      ∷ (
        codes "total",
        get completion (codes "total")
            >>= value_as_i64 as_i64
            >>= (λ n. some (int4 (int_as_i32 n))),
      )
      ∷ (codes "has_more", bool_at completion (codes "hasMore"))
      ∷ []

  unfoldable pub candidate_rows :
      TableSpec → Value N → Text → Text → Value N → ℕ → List (Value N) → List (Row N F)
  unfolding put_all candidate_cells
  candidate_rows spec ref name value completion idx [] = []
  candidate_rows spec ref name value completion idx (c ∷ candidates) =
      put_all spec (empty_row N F spec) (candidate_cells ref name value completion idx c)
      ∷ candidate_rows spec ref name value completion (suc idx) candidates

module _ {N F W : Type 0} (env : Env N W) (eq : Equality N) (as_i64 : N → Option ℤ) where
  -- one request, for a name and a value that are texts
  unfoldable pub complete :
      ScanContext N → Value N → Option Text → Option Text → Fetch N W (List (Row N F))
  unfolding ask completion_params candidate_rows array_at
  complete ctx ref (some name) (some value) s =
      behind
        (ask env ctx.base.resolved (codes "completion/complete") (completion_params ref name value)
          s)
        λ result.
          let completion = or_null (get result (codes "completion")) in
          give (
            returned (
              candidate_rows as_i64 ctx.base.spec ref name value completion 0
                (array_at completion (codes "values"))))
  complete ctx ref (some name) none s = (returned [], s)
  complete ctx ref none value s = (returned [], s)

  -- a loop: its rounds one after the other, until one fails
  unfoldable pub each :
      (Value N → Fetch N W (List (Row N F))) → List (Value N) → Fetch N W (List (Row N F))
  each round [] s = (returned [], s)
  each round (v ∷ vs) s =
      behind (round v s) λ rows s'. behind (each round vs s') λ rest. give (returned (rows ++ rest))

  -- the three loops
  unfoldable pub complete_all : ScanContext N → List (List (Value N)) → Fetch N W (List (Row N F))
  unfolding complete each
  complete_all ctx (refs ∷ names ∷ values ∷ []) s =
      each
        (λ ref.
          each (λ name. each (λ value. complete ctx ref (as_str name) (as_str value)) values) names)
        refs s
  complete_all ctx _ s = (returned [], s)

  unfoldable pub completions_rows : ScanContext N → Fetch N W (List (Row N F))
  unfolding restricted_columns complete_all
  completions_rows ctx s =
      behind (restricted_columns eq ctx.quals completion_required, s) (complete_all ctx)

  unfoldable pub completions_scan : ScanContext N → Fetch N W (BufferedCursor (Row N F))
  unfolding completions_rows buffered
  completions_scan ctx s = behind (completions_rows ctx s) λ rows. give (returned (buffered rows))
