-- ===== src/Codegen/Types.antt =====
-- pg/pg_mcp/src/codegen/types.rs: the PostgreSQL type of a JSON Schema property.
-- The text of a document that is no string (`Value::to_string`) is the parameter `render`.
pub mod Unions
mod Tests
use elixir_mcp_lib.Base.{
  Bool, true, false, ◌||◌, not, Option, none, some, List, [], ◌∷◌, ◌++◌, if◌then◌else◌, Text, codes,
  text_eq, join, ◌>>=◌,
}
use elixir_mcp_lib.Json.{
  Value, Fields, end, field, string, array, object, get, as_str, as_array, lookup_field, items,
}
use elixir_mcp_lib.Codegen.Table.{
  ColumnType, text, jsonb, boolean, int8, uuid, timestamp_tz, float8, date,
}

unfoldable pub string_type : Option Text → ColumnType
string_type none = text
string_type (some format) =
    if text_eq format (codes "date-time")
    then timestamp_tz
    else if text_eq format (codes "date")
    then date
    else if text_eq format (codes "uuid")
    then uuid
    else text

module _ {N : Type 0} where
  abbrev has_key : Fields N → Text → Bool
  has_key fs key = elim (lookup_field fs key) [ none ↦ false | some v ↦ true ]

  unfoldable pub map_named_type : Text → Value N → ColumnType
  unfolding string_type
  map_named_type t schema =
      if text_eq t (codes "string")
      then string_type (get schema (codes "format") >>= as_str)
      else if text_eq t (codes "integer")
      then int8
      else if text_eq t (codes "number")
      then float8
      else if text_eq t (codes "boolean")
      then boolean
      else jsonb

  -- `types.iter().filter_map(Value::as_str).filter(|t| *t != "null")`
  unfoldable pub named_types : List (Value N) → List Text
  named_types [] = []
  named_types (v ∷ vs) =
      let rest = named_types vs in
      elim (as_str v) [ none ↦ rest | some t ↦ if text_eq t (codes "null") then rest else t ∷ rest ]

  unfoldable pub only_type : List Text → Value N → ColumnType
  only_type (only ∷ []) schema = map_named_type only schema
  only_type _ schema = jsonb

  -- the `match` on `obj.get("type")`
  unfoldable pub map_type_field : Option (Value N) → Value N → ColumnType
  unfolding map_named_type named_types only_type
  map_type_field (some (string t)) schema = map_named_type t schema
  map_type_field (some (array types)) schema = only_type (named_types (items types)) schema
  map_type_field _ schema = jsonb

  unfoldable pub is_composed : Fields N → Bool
  is_composed fs =
      has_key fs (codes "$ref")
      || has_key fs (codes "oneOf")
      || has_key fs (codes "anyOf")
      || has_key fs (codes "allOf")

  unfoldable pub map_type : Value N → ColumnType
  unfolding is_composed map_type_field
  map_type (object fs) =
      if is_composed fs then jsonb else map_type_field (lookup_field fs (codes "type")) (object fs)
  map_type _ = jsonb

  -- `filter_map(Value::as_str)`
  unfoldable pub strings : List (Value N) → List Text
  strings [] = []
  strings (v ∷ vs) = let rest = strings vs in elim (as_str v) [ none ↦ rest | some t ↦ t ∷ rest ]

  unfoldable pub required_list : Value N → List Text
  unfolding strings
  required_list schema = elim (get schema (codes "required") >>= as_array) [
    | none ↦ []
    | some vs ↦ strings vs
  ]

  -- The same entries as a set: only membership in it is asked.
  unfoldable pub required_set : Value N → List Text
  unfolding required_list
  required_set schema = required_list schema

  abbrev pub entries : Fields N → List (Text × Value N)
  entries end = []
  entries (field k v fs) = (k, v) ∷ entries fs

  unfoldable pub object_entries : Value N → Option (List (Text × Value N))
  object_entries (object fs) = some (entries fs)
  object_entries _ = none

  unfoldable pub properties : Value N → Option (List (Text × Value N))
  unfolding object_entries
  properties schema = get schema (codes "properties") >>= object_entries

  module _ (render : Value N → Text) where
    unfoldable pub rendered : List (Value N) → List Text
    rendered [] = []
    rendered (v ∷ vs) =
        let rest = rendered vs in elim (as_str v) [ none ↦ render v ∷ rest | some s ↦ s ∷ rest ]

    abbrev hint : List (Value N) → Option Text
    hint [] = none
    hint (v ∷ vs) = some (codes "Permitted values: " ++ join (rendered (v ∷ vs)) (codes ", "))

    unfoldable pub enum_hint : Value N → Option Text
    unfolding rendered
    enum_hint schema = (get schema (codes "enum") >>= as_array) >>= hint
