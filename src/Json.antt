-- ===== src/Json.antt =====
-- The JSON documents of pg/pg_mcp (serde_json's `Value`), and the accessors that the source calls.
-- The type `N` of numbers is a parameter: what a function needs of a number is an argument.
-- An object is its entries in published order; a key stands in it once.
use elixir_mcp_lib.Base.{
  Bool, true, false, Option, none, some, List, [], ◌∷◌, if◌then◌else◌, Text, text_eq,
}

mutual
  pub data Value (N : Type 0) : Type 0 where
    null : Value N
    boolean : Bool → Value N
    number : N → Value N
    string : Text → Value N
    array : Items N → Value N
    object : Fields N → Value N

  pub data Items (N : Type 0) : Type 0 where
    nil : Items N
    cons : Value N → Items N → Items N

  pub data Fields (N : Type 0) : Type 0 where
    end : Fields N
    field : Text → Value N → Fields N → Fields N

module _ {N : Type 0} where
  abbrev pub lookup_field : Fields N → Text → Option (Value N)
  lookup_field end key = none
  lookup_field (field k v fs) key = if text_eq k key then some v else lookup_field fs key

  -- `value.get("key")`: nothing on what is no object
  abbrev pub get : Value N → Text → Option (Value N)
  get (object fs) key = lookup_field fs key
  get _ key = none

  abbrev pub as_str : Value N → Option Text
  as_str (string s) = some s
  as_str _ = none

  abbrev pub as_bool : Value N → Option Bool
  as_bool (boolean b) = some b
  as_bool _ = none

  abbrev pub items : Items N → List (Value N)
  items nil = []
  items (cons v vs) = v ∷ items vs

  abbrev pub as_array : Value N → Option (List (Value N))
  as_array (array vs) = some (items vs)
  as_array _ = none

  abbrev pub is_null : Value N → Bool
  is_null null = true
  is_null _ = false

  -- `map.insert(key, value)`: in place where the key stands, else at the end
  abbrev pub insert_field : Fields N → Text → Value N → Fields N
  insert_field end key w = field key w end
  insert_field (field k v fs) key w =
      if text_eq k key then field k w fs else field k v (insert_field fs key w)
