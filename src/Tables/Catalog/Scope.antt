-- ===== src/Tables/Catalog/Scope.antt =====
-- pg/pg_mcp/src/tables/catalog.rs: the slice of a list that belongs to one upstream of an engine.
use elixir_mcp_lib.Base.{
  Bool, true, false, ◌||◌, not, Option, none, some, List, [], ◌∷◌, ◌++◌, if◌then◌else◌, Text, codes,
  ◌==◌, ◌>>=◌,
}
use elixir_mcp_lib.Json.{Value, string, object, get, as_str, insert_field}
use elixir_mcp_lib.Tables.Catalog.Filters.{filter}

-- `n.contains('.')`
abbrev pub has_dot : Text → Bool
has_dot [] = false
has_dot (c ∷ s) = (c == b'.') || has_dot s

-- `name.strip_prefix(&prefix)`
abbrev pub strip_prefix : Text → Text → Option Text
strip_prefix s [] = some s
strip_prefix [] (d ∷ t) = none
strip_prefix (c ∷ s) (d ∷ t) = if c == d then strip_prefix s t else none

-- `map(…).unwrap_or(true)` on the name
abbrev pub local_name : Option Text → Bool
local_name none = true
local_name (some n) = not (has_dot n)

module _ {N : Type 0} where
  abbrev pub name_of : Value N → Option Text
  name_of item = get item (codes "name") >>= as_str

  -- `item["name"] = name`; only an object has a name
  abbrev pub rename : Value N → Text → Value N
  rename (object fs) name = object (insert_field fs (codes "name") (string name))
  rename v name = v

  abbrev pub scoped_name : Text → Value N → Option Text
  scoped_name prefix item = name_of item >>= (λ n. strip_prefix n prefix)

  unfoldable pub strip_all : Text → List (Value N) → List (Value N)
  strip_all prefix [] = []
  strip_all prefix (v ∷ vs) =
      let rest = strip_all prefix vs in
      elim (scoped_name prefix v) [ none ↦ rest | some local ↦ rename v local ∷ rest ]

  unfoldable pub scoped_items : Text → List (Value N) → List (Value N)
  unfolding strip_all
  scoped_items [] listed = filter (λ item. local_name (name_of item)) listed
  scoped_items (c ∷ u) listed = strip_all ((c ∷ u) ++ codes ".") listed

  abbrev pub prefixed : Text → Value N → Option Text → Value N
  prefixed prefix item none = item
  prefixed prefix item (some n) = rename item (prefix ++ n)

  -- the item under its full name
  abbrev pub with_prefix : Text → Value N → Value N
  with_prefix prefix item = prefixed prefix item (name_of item)
