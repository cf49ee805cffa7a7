-- ===== src/Tables/Catalog/Filters.antt =====
-- pg/pg_mcp/src/tables/catalog.rs: the restrictions of a scan, applied to the rows that it fetched.
use elixir_mcp_lib.Base.{
  ◌-◌, Bool, true, ◌&&◌, Option, none, some, List, [], ◌∷◌, if◌then◌else◌, Text, contains, ◌>>=◌,
}
use elixir_mcp_lib.Json.{Value, null}
use elixir_mcp_lib.Quals.{Qual, Equality, is_supported, matches_json}
use elixir_mcp_lib.Tables.{TableSpec, attno, Cell, Numbers, as_json, Row, get_cell}

-- the elements that pass a test, in order
abbrev pub filter {ℓ} : {A : Type ℓ} → (A → Bool) → List A → List A
filter p [] = []
filter p (x ∷ xs) = let rest = filter p xs in if p x then x ∷ rest else rest

module _ {N F : Type 0} (eq : Equality N) (num : Numbers N F) where
  abbrev pub json_of : Option (Cell N F) → Value N
  json_of none = null
  json_of (some c) = as_json num c

  -- the cell that a restriction is about
  unfoldable pub restricted_cell : TableSpec → Row N F → Text → Value N
  unfolding as_json
  restricted_cell spec row field = json_of (attno spec field >>= (λ i. get_cell row (i - 1)))

  unfoldable pub satisfies : TableSpec → Row N F → Qual N → Bool
  unfolding restricted_cell matches_json
  satisfies spec row q = matches_json eq q q.field (restricted_cell spec row q.field)

  -- `relevant.iter().all(…)`
  unfoldable pub satisfies_all : TableSpec → List (Qual N) → Row N F → Bool
  unfolding satisfies
  satisfies_all spec [] row = true
  satisfies_all spec (q ∷ qs) row = satisfies spec row q && satisfies_all spec qs row

module _ {N : Type 0} where
  unfoldable pub relevant : List Text → List (Qual N) → List (Qual N)
  unfolding is_supported
  relevant pushed quals = filter (λ (q : Qual N). contains pushed q.field && is_supported q) quals

module _ {N F : Type 0} (eq : Equality N) (num : Numbers N F) where
  unfoldable pub apply_post_filters :
      TableSpec → List (Row N F) → List (Qual N) → List Text → List (Row N F)
  unfolding relevant satisfies_all
  apply_post_filters spec rows quals pushed = elim (relevant pushed quals) [
    | [] ↦ rows
    | q ∷ qs ↦ filter (satisfies_all eq num spec (q ∷ qs)) rows
  ]
