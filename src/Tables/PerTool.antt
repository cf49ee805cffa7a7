-- ===== src/Tables/PerTool.antt =====
-- pg/pg_mcp/src/tables/per_tool.rs: the table that is generated for a tool, and its cells.
-- PostgreSQL's input functions and serde_json's numbers and printing are the record `Reader`.
pub mod Shape
pub mod Equalities
pub mod Filtered
pub mod Scan
pub mod Typed
pub mod Returned
pub mod Refused
pub mod Bound
mod Tests
use elixir_mcp_lib.Base.{
  ℕ, ◌^◌, Bool, true, false, Option, none, some, List, [], ◌∷◌, ◌++◌, if◌then◌else◌, ◌==◌, ltb,
  Text, codes, ℤ, pos, negsuc,
}
use elixir_mcp_lib.Json.{Value, null, as_str, as_bool}
use elixir_mcp_lib.Errors.{McpError, invalid_params, McpResult, ok, err}
use elixir_mcp_lib.Cache.{Caches}
use elixir_mcp_lib.Quals.{Qual}
use elixir_mcp_lib.Sessions.{Resolved, Sessions}
use elixir_mcp_lib.Codegen.Table.{ColumnType}
use elixir_mcp_lib.Tables.{Cell, text, json, bool, int4, int8, uuid, timestamp_tz, float8, date}
use elixir_mcp_lib.Tables.Catalog.{value_as_i64}

pub record PerToolTarget : Type 0 where
  pub tool : Text
  pub invoke_on_select : Bool
  pub cache_ttl_ms : Option ℕ

pub record PerToolContext (N : Type 0) : Type 0 where
  pub target : PerToolTarget
  pub table_qual : Text
  pub server_name : Text
  pub resolved : Resolved
  pub quals : List (Qual N)

-- What a scan or an insert leaves: the sessions, the catalog cache and the world behind the server.
pub record ToolState (N W : Type 0) : Type 0 where
  pub sessions : Sessions N
  pub caches : Caches (Value N)
  pub world : W

-- A result, an error of the code's own, or one that passes through it: a panic, or an error that an
-- input function of PostgreSQL raises.
pub data Outcome {ℓ} (A : Type ℓ) : Type ℓ where
  done : A → Outcome A
  refused : McpError → Outcome A
  thrown : Outcome A

abbrev pub from_result {ℓ} : {A : Type ℓ} → McpResult A → Outcome A
from_result (ok a) = done a
from_result (err e) = refused e

infixl 5 ◌>>=◌
abbrev pub ◌>>=◌ : {A B : Type 0} → Outcome A → (A → Outcome B) → Outcome B
◌>>=◌ (done a) f = f a
◌>>=◌ (refused e) f = refused e
◌>>=◌ thrown f = thrown

-- What an input function gives: a datum, none, or an error that it raises.
pub data Input (A : Type 0) : Type 0 where
  datum : A → Input A
  no_datum raises : Input A

pub record Reader (N F : Type 0) : Type 0 where
  pub as_i64 : N → Option ℤ
  pub as_f64 : N → Option F
  pub print : Value N → Text
  pub timestamptz_in : Text → Input ℤ
  pub uuid_in : Text → Input (List ℕ)
  pub date_in : Text → Input (Unit {0})

-- `text.replace('\0', "")`
abbrev pub without_nul : Text → Text
without_nul [] = []
without_nul (c ∷ s) = let rest = without_nul s in if c == 0 then rest else c ∷ rest

-- A date that the input function does not refuse is accepted, whatever datum it gives.
abbrev pub accepted_date : Input (Unit {0}) → Input (Unit {0})
accepted_date (datum u) = datum tt
accepted_date no_datum = datum tt
accepted_date raises = raises

abbrev pub fits_i32 : ℤ → Bool
fits_i32 (pos n) = ltb n (2 ^ 31)
fits_i32 (negsuc n) = ltb n (2 ^ 31)

module _ {N F : Type 0} (reader : Reader N F) where
  unfoldable pub parse_timestamptz : Text → Input ℤ
  parse_timestamptz s = reader.timestamptz_in (without_nul s)

  unfoldable pub parse_uuid : Text → Input (List ℕ)
  parse_uuid s = reader.uuid_in (without_nul s)

  unfoldable pub parse_date : Text → Input (Unit {0})
  parse_date s = accepted_date (reader.date_in (without_nul s))

  unfoldable pub type_error : {A : Type 0} → Value N → Text → Text → Outcome A
  type_error v column expected = refused (
      invalid_params (
        codes "value "
        ++ reader.print v
        ++ codes " for argument \""
        ++ column
        ++ codes "\" is not a valid "
        ++ expected
        ++ codes " (PRD-8 §4.1)"))

  -- a cell of the value, where there is one
  abbrev pub cell_or :
      {A : Type 0}
      → (A → Cell N F)
      → Outcome (Option (Cell N F))
      → Option A
      → Outcome (Option (Cell N F))
  cell_or f error none = error
  cell_or f error (some a) = done (some (f a))

  abbrev pub read_or :
      {A : Type 0}
      → (A → Cell N F)
      → Outcome (Option (Cell N F))
      → Option (Input A)
      → Outcome (Option (Cell N F))
  read_or f error none = error
  read_or f error (some (datum a)) = done (some (f a))
  read_or f error (some no_datum) = error
  read_or f error (some raises) = thrown

  abbrev pub as_i32_of : Value N → Option ℤ
  as_i32_of v = elim (value_as_i64 reader.as_i64 v) [
    | none ↦ none
    | some i ↦ if fits_i32 i then some i else none
  ]

  abbrev pub value_as_f64 : Value N → Option F
  value_as_f64 (Value.number n) = reader.as_f64 n
  value_as_f64 _ = none

  abbrev pub text_of : Value N → Text
  text_of (Value.string s) = s
  text_of v = reader.print v

  abbrev map_text : {A : Type 0} → (Text → Input A) → Option Text → Option (Input A)
  map_text f none = none
  map_text f (some s) = some (f s)

  -- the cell of a value that is not null
  unfoldable pub typed_cell : Value N → ColumnType → Text → Outcome (Option (Cell N F))
  unfolding parse_timestamptz parse_uuid parse_date type_error
  typed_cell v ColumnType.text column = done (some (text (text_of v)))
  typed_cell v ColumnType.jsonb column = done (some (json v))
  typed_cell v ColumnType.boolean column =
      cell_or bool (type_error v column (codes "boolean")) (as_bool v)
  typed_cell v ColumnType.int4 column =
      cell_or int4 (type_error v column (codes "integer")) (as_i32_of v)
  typed_cell v ColumnType.int8 column =
      cell_or int8 (type_error v column (codes "bigint")) (value_as_i64 reader.as_i64 v)
  typed_cell v ColumnType.float8 column =
      cell_or float8 (type_error v column (codes "double precision")) (value_as_f64 v)
  typed_cell v ColumnType.uuid column =
      read_or uuid (type_error v column (codes "uuid")) (map_text parse_uuid (as_str v))
  typed_cell v ColumnType.timestamp_tz column =
      read_or timestamp_tz (type_error v column (codes "timestamptz"))
        (map_text parse_timestamptz (as_str v))
  typed_cell v ColumnType.date column =
      read_or (λ u. date (text_of v)) (type_error v column (codes "date"))
        (map_text parse_date (as_str v))
  typed_cell v ColumnType.bytea column = type_error v column (codes "bytea")

  unfoldable pub json_to_cell : Value N → ColumnType → Text → Outcome (Option (Cell N F))
  unfolding typed_cell
  json_to_cell null ty column = done none
  json_to_cell v ty column = typed_cell v ty column
