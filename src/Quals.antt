-- ===== src/Quals.antt =====
-- pg/pg_mcp/src/quals.rs: restrictions on one column, as the planner hook hands them over.
-- Rust's `==` on documents and `as_f64` on numbers are the parameters of `Equality`.
pub mod Matching
mod Tests
use elixir_mcp_lib.Base.{
  ℕ, Bool, true, false, ◌&&◌, ◌||◌, not, Option, none, some, List, [], ◌∷◌, if◌then◌else◌, Text,
  text_eq,
}
use elixir_mcp_lib.Json.{
  Value, Items, nil, cons, null, boolean, number, string, array, object, items, as_array, is_null,
}

pub data Operator : Type 0 where
  equal any_equal : Operator

pub record Qual (N : Type 0) : Type 0 where
  pub field : Text
  pub operator : Operator
  pub value : Value N
  pub use_or : Bool

-- What the comparison asks of serde_json: `x.as_f64() == y.as_f64()`, and `a == b` on documents.
pub record Equality (N : Type 0) : Type 0 where
  pub same_f64 : N → N → Bool
  pub same_value : Value N → Value N → Bool

module _ {N : Type 0} where
  -- `Value::Array(values)`
  abbrev pub to_items : List (Value N) → Items N
  to_items [] = nil
  to_items (v ∷ vs) = cons v (to_items vs)

  unfoldable pub qual_equal : Text → Value N → Qual N
  qual_equal name v = record { field = name; operator = equal; value = v; use_or = false }

  unfoldable pub qual_any_equal : Text → List (Value N) → Qual N
  qual_any_equal name vs = record {
    field = name;
    operator = any_equal;
    value = array (to_items vs);
    use_or = false;
  }

  unfoldable pub is_qual_primitive : Value N → Bool
  is_qual_primitive (string s) = true
  is_qual_primitive (number n) = true
  is_qual_primitive (boolean b) = true
  is_qual_primitive _ = false

  unfoldable pub all_primitive : List (Value N) → Bool
  unfolding is_qual_primitive
  all_primitive [] = true
  all_primitive (v ∷ vs) = is_qual_primitive v && all_primitive vs

  -- the `match` on the operator, in the order of the source
  unfoldable pub supported_value : Operator → Value N → Bool
  unfolding all_primitive
  supported_value equal v = not (is_null v)
  supported_value any_equal (array vs) = all_primitive (items vs)
  supported_value any_equal _ = false

  unfoldable pub is_supported : Qual N → Bool
  unfolding supported_value
  is_supported q = if text_eq q.field [] then false else supported_value q.operator q.value

  unfoldable pub restricted : Operator → Value N → List (Value N)
  restricted equal v = v ∷ []
  restricted any_equal (array vs) = items vs
  restricted any_equal _ = []

  unfoldable pub restricted_values : Qual N → List (Value N)
  unfolding restricted
  restricted_values q = restricted q.operator q.value

module _ {N : Type 0} (eq : Equality N) where
  unfoldable pub json_equal : Value N → Value N → Bool
  json_equal null b = false
  json_equal (number x) null = false
  json_equal (number x) (number y) = eq.same_f64 x y
  json_equal (number x) b = eq.same_value (number x) b
  json_equal a null = false
  json_equal a b = eq.same_value a b

  unfoldable pub any_json_equal : List (Value N) → Value N → Bool
  unfolding json_equal
  any_json_equal [] candidate = false
  any_json_equal (v ∷ vs) candidate = json_equal v candidate || any_json_equal vs candidate

  unfoldable pub matches_operator : Operator → Value N → Value N → Bool
  unfolding any_json_equal
  matches_operator equal v candidate = json_equal v candidate
  matches_operator any_equal (array vs) candidate = any_json_equal (items vs) candidate
  matches_operator any_equal _ candidate = false

  unfoldable pub matches_json : Qual N → Text → Value N → Bool
  unfolding matches_operator
  matches_json q column candidate =
      if text_eq column q.field then matches_operator q.operator q.value candidate else true

  -- `values.contains(&candidate)`
  abbrev pub contains_value : List (Value N) → Value N → Bool
  contains_value [] candidate = false
  contains_value (v ∷ vs) candidate = eq.same_value v candidate || contains_value vs candidate
