-- ===== src/Codegen/Types/Unions.antt =====
-- A type in a union with "null" is mapped like the type alone.
use elixir_mcp_lib.Base.{◌≡◌, refl, false, Text, codes, text_eq}
use elixir_mcp_lib.Json.{Value, Fields, nil, cons, field, string, array, object}
use elixir_mcp_lib.Codegen.Types.{map_named_type, map_type}

module _ {N : Type 0} where
  -- a property with this "type" in front of its other keywords
  abbrev pub typed : Value N → Fields N → Value N
  typed t rest = object (field (codes "type") t rest)

  abbrev pub two : Value N → Value N → Value N
  two a b = array (cons a (cons b nil))

  named-same :
      (t : Text) (v w : Value N) (rest : Fields N)
      → map_named_type t (typed v rest) ≡ map_named_type t (typed w rest)
  unfolding map_named_type
  named-same t v w rest = refl

  -- A property of a union of one type other than "null" and of "null", in either order, has the
  -- column type of that type alone, whatever its other keywords are.
  pub map_type_nullable :
      (t : Text) (rest : Fields N)
      → text_eq t (codes "null") ≡ false
      → (map_type (typed (two (string t) (string (codes "null"))) rest)
          ≡ map_type (typed (string t) rest))
        × (map_type (typed (two (string (codes "null")) (string t)) rest)
            ≡ map_type (typed (string t) rest))
  unfolding map_type
  map_type_nullable t rest other = (rw other, rw other)
