-- ===== src/Tables.antt =====
-- pg/pg_mcp/src/tables/mod.rs: the columns, rows and contexts that every foreign table shares.
-- `N` is serde_json's number and `F` is `f64`; what the code asks of them is `Numbers`.
pub mod Specs
pub mod Registry
pub mod Catalog
pub mod ToolCalls
pub mod ReadThrough
pub mod PerTool
use elixir_mcp_lib.Base.{
  ℕ, zero, suc, ◌+◌, ◌-◌, ◌%◌, ◌^◌, Bool, true, false, Option, none, some, List, [], ◌∷◌, ◌++◌,
  if◌then◌else◌, ltb, Text, text_eq, codes, ℤ, pos, negsuc, length, replicate, ◌>>=◌,
}
use elixir_mcp_lib.Json.{Value, null, boolean, number, string}
use elixir_mcp_lib.Quals.{Qual, restricted_values}
use elixir_mcp_lib.Sessions.{Resolved}
use elixir_mcp_lib.Codegen.Table.{ColumnType}

pub data Source : Type 0 where
  server_identity initialize : Source
  list read_through : Text → Source
  invocation local : Source

pub record ColumnSpec : Type 0 where
  pub name : Text
  pub pg_type : ColumnType
  pub source : Source

pub record TableSpec : Type 0 where
  pub name : Text
  pub columns : List ColumnSpec

abbrev pub arity : TableSpec → ℕ
arity spec = length spec.columns

-- the position of the first column of that name, counted from `at`
abbrev pub position_from : ℕ → List ColumnSpec → Text → Option ℕ
position_from at [] column = none
position_from at (c ∷ cs) column =
    if text_eq c.name column then some at else position_from (suc at) cs column

-- the number of a column, from 1
abbrev pub attno : TableSpec → Text → Option ℕ
attno spec column = position_from 1 spec.columns column

abbrev pub nth {ℓ} : {A : Type ℓ} → List A → ℕ → Option A
nth [] i = none
nth (x ∷ xs) zero = some x
nth (x ∷ xs) (suc i) = nth xs i

abbrev pub column : TableSpec → ℕ → Option ColumnSpec
column spec index = nth spec.columns index

-- `Uuid` holds the 16 bytes, `Bytea` bytes, `TimestampTz` microseconds, `Date` its wire text.
pub data Cell (N F : Type 0) : Type 0 where
  text : Text → Cell N F
  json : Value N → Cell N F
  bool : Bool → Cell N F
  int4 int8 : ℤ → Cell N F
  bytea uuid : List ℕ → Cell N F
  timestamp_tz : ℤ → Cell N F
  float8 : F → Cell N F
  date : Text → Cell N F

-- `Number::from` and `Number::from_f64` of serde_json
pub record Numbers (N F : Type 0) : Type 0 where
  pub of_i64 : ℤ → N
  pub from_f64 : F → Option N

-- `n as i32`: the low 32 bits, read as a signed number
abbrev pub as_i32 : ℕ → ℤ
as_i32 n = let low = n % 2 ^ 32 in if ltb low (2 ^ 31) then pos low else negsuc (2 ^ 32 - 1 - low)

-- `n as i32` of an `i64`
abbrev pub int_as_i32 : ℤ → ℤ
int_as_i32 (pos n) = as_i32 n
int_as_i32 (negsuc n) = as_i32 (2 ^ 32 - 1 - n % 2 ^ 32)

module _ {N F : Type 0} where
  unfoldable pub as_json : Numbers N F → Cell N F → Value N
  as_json num (text s) = string s
  as_json num (json v) = v
  as_json num (bool b) = boolean b
  as_json num (int4 i) = number (num.of_i64 i)
  as_json num (int8 i) = number (num.of_i64 i)
  as_json num (float8 f) = elim (num.from_f64 f) [ none ↦ null | some n ↦ number n ]
  as_json num (date d) = string d
  as_json num (bytea bytes) = null
  as_json num (uuid bytes) = null
  as_json num (timestamp_tz t) = null

-- one cell for each column; `none` is NULL
abbrev pub Row : Type 0 → Type 0 → Type 0
Row N F = List (Option (Cell N F))

module _ (N F : Type 0) where
  abbrev pub empty_row : TableSpec → Row N F
  empty_row spec = replicate (arity spec) none

module _ {A : Type 0} where
  -- `row[index] = cell`: nothing past the end, where the source panics
  abbrev pub put : List A → ℕ → A → List A
  put [] i a = []
  put (x ∷ xs) zero a = a ∷ xs
  put (x ∷ xs) (suc i) a = x ∷ put xs i a

pub record InsertRow (N F : Type 0) : Type 0 where
  pub spec : TableSpec
  pub cells : Row N F

module _ {N F : Type 0} where
  -- `self.cells.get(idx)?.as_ref()`
  abbrev pub get_cell : Row N F → ℕ → Option (Cell N F)
  get_cell cells index = nth cells index >>= (λ cell. cell)

  unfoldable pub value : InsertRow N F → Text → Option (Cell N F)
  value input column = attno input.spec column >>= (λ number. get_cell input.cells (number - 1))

-- `server_oid` and `user_oid` are the key of `resolved`.
pub record TableContext : Type 0 where
  pub spec : TableSpec
  pub server_name : Text
  pub resolved : Resolved
  pub table_options : List (Text × Text)

abbrev pub find_option : List (Text × Text) → Text → Option Text
find_option [] key = none
find_option ((k, v) ∷ rest) key = if text_eq k key then some v else find_option rest key

abbrev pub table_option : TableContext → Text → Option Text
table_option ctx key = find_option ctx.table_options key

-- `parse_u64` is `|v| v.trim().parse::<u64>().ok()`.
abbrev pub table_ttl_ms : (Text → Option ℕ) → TableContext → Option ℕ
table_ttl_ms parse_u64 ctx = table_option ctx (codes "cache_ttl_ms") >>= parse_u64

abbrev pub upstream : TableContext → Option Text
upstream ctx = table_option ctx (codes "upstream")

-- the time to live that a scan of the table uses
abbrev pub effective_ttl_ms : (Text → Option ℕ) → TableContext → ℕ
effective_ttl_ms parse_u64 ctx = elim (table_ttl_ms parse_u64 ctx) [
  | none ↦ ctx.resolved.options.cache_ttl_ms
  | some ms ↦ ms
]

pub record ScanContext (N : Type 0) : Type 0 where
  pub base : TableContext
  pub quals : List (Qual N)

module _ {N : Type 0} where
  -- what the restrictions of one column allow, in their order
  unfoldable pub values_of : List (Qual N) → Text → List (Value N)
  unfolding restricted_values
  values_of [] column = []
  values_of (q ∷ qs) column =
      let rest = values_of qs column in
      if text_eq q.field column then restricted_values q ++ rest else rest
