-- ===== src/Tables/Catalog/Filtered.antt =====
-- What the restrictions that a catalog table takes over keep.
use elixir_mcp_lib.Base.{
  ◌≡◌, refl, arith, ap, Bool, true, false, ◌&&◌, Option, none, some, List, [], ◌∷◌, map, Text,
  codes, text_eq, contains, ◌>>=◌, Bool-cases, inl, inr, ◌∙◌,
}
use elixir_mcp_lib.Json.{Value, null, string, get, as_str, items}
use elixir_mcp_lib.Quals.{
  Equality, qual_any_equal, is_supported, supported_value, all_primitive, is_qual_primitive,
  matches_json, matches_operator, any_json_equal, json_equal, to_items,
}
use elixir_mcp_lib.Tables.{Cell, Numbers, as_json}
use elixir_mcp_lib.Tables.Specs.{tools_spec}
use elixir_mcp_lib.Tables.Catalog.{tools_row, set, text_at}
use elixir_mcp_lib.Tables.Catalog.Filters.{
  filter, json_of, restricted_cell, satisfies, satisfies_all, relevant, apply_post_filters,
}

abbrev pub name_is : Option Text → List Text → Bool
name_is none xs = false
name_is (some s) xs = contains xs s

module _ {N : Type 0} where
  items-to_items : (vs : List (Value N)) → items (to_items vs) ≡ vs
  items-to_items [] = refl
  items-to_items (v ∷ vs) = ap (λ ws. v ∷ ws) (items-to_items vs)

  abbrev pub texts : List Text → List (Value N)
  texts xs = map string xs

  -- The item has one of the names.
  abbrev pub is_named : List Text → Value N → Bool
  is_named xs item = name_is (get item (codes "name") >>= as_str) xs

module _ (N : Type 0) where
  all_primitive-texts : (xs : List Text) → all_primitive {N = N} (texts xs) ≡ true
  unfolding all_primitive is_qual_primitive
  all_primitive-texts [] = refl
  all_primitive-texts (x ∷ xs) = all_primitive-texts xs

module _ {N F : Type 0} (eq : Equality N) (num : Numbers N F) where
  abbrev pub ComparesTexts : Type 0
  ComparesTexts = (a b : Text) → eq.same_value (string a) (string b) ≡ text_eq a b

  any_json_equal-null : (xs : List Text) → any_json_equal eq (texts xs) null ≡ false
  unfolding any_json_equal json_equal
  any_json_equal-null [] = refl
  any_json_equal-null (x ∷ xs) = any_json_equal-null xs

  any_json_equal-text :
      (xs : List Text) (s : Text)
      → ComparesTexts
      → any_json_equal eq (texts xs) (string s) ≡ contains xs s
  unfolding any_json_equal json_equal
  any_json_equal-text [] s same = refl
  any_json_equal-text (x ∷ xs) s same = rw (same x s, any_json_equal-text xs s same) refl

  any_json_equal-name :
      (xs : List Text) (name : Option Text)
      → ComparesTexts
      → any_json_equal eq (texts xs) (json_of eq num (name >>= (λ s. some (Cell.text s))))
        ≡ name_is name xs
  unfolding as_json
  any_json_equal-name xs none same = any_json_equal-null xs
  any_json_equal-name xs (some s) same = any_json_equal-text xs s same

  and_true : {a b : Bool} → a ≡ b → (a && true) ≡ b
  and_true h = ground arith

  satisfies-tools_row :
      (xs : List Text) (item : Value N)
      → ComparesTexts
      → satisfies_all eq num tools_spec
          (qual_any_equal (codes "name") (texts xs) ∷ [])
          (tools_row N F tools_spec item)
        ≡ is_named xs item
  unfolding satisfies_all satisfies restricted_cell tools_spec tools_row set text_at qual_any_equal
      matches_json matches_operator
  satisfies-tools_row xs item same =
      ap (λ vs. any_json_equal eq vs (json_of eq num (text_at item (codes "name"))) && true)
        (items-to_items (texts xs))
      ∙ and_true (any_json_equal-name xs (get item (codes "name") >>= as_str) same)

  relevant-names :
      (xs : List Text)
      → relevant {N = N} (codes "name" ∷ []) (qual_any_equal (codes "name") (texts xs) ∷ [])
        ≡ qual_any_equal (codes "name") (texts xs) ∷ []
  unfolding relevant is_supported supported_value qual_any_equal
  relevant-names xs = rw (items-to_items {N = N} (texts xs), all_primitive-texts N xs) refl

  filter-tools :
      (xs : List Text) (listed : List (Value N))
      → ComparesTexts
      → filter
          (satisfies_all eq num tools_spec (qual_any_equal (codes "name") (texts xs) ∷ []))
          (map (tools_row N F tools_spec) listed)
        ≡ map (tools_row N F tools_spec) (filter (is_named xs) listed)
  filter-tools xs [] same = refl
  filter-tools xs (v ∷ vs) same = elim (Bool-cases (is_named xs v)) [
    | inl named ↦ rw (satisfies-tools_row xs v same, named, filter-tools xs vs same) refl
    | inr other ↦ rw (satisfies-tools_row xs v same, other, filter-tools xs vs same) refl
  ]

  -- Where equality of JSON texts is equality of the texts: under `name IN (…)` the table `tools` keeps
  -- the rows of the tools with one of the names, in the server's order, and no others.
  pub apply_post_filters-names :
      (xs : List Text) (listed : List (Value N))
      → ComparesTexts
      → apply_post_filters eq num tools_spec
          (map (tools_row N F tools_spec) listed)
          (qual_any_equal (codes "name") (texts xs) ∷ [])
          (codes "name" ∷ [])
        ≡ map (tools_row N F tools_spec) (filter (is_named xs) listed)
  unfolding apply_post_filters
  apply_post_filters-names xs listed same =
      rw (relevant-names xs, apply_post_filters) (filter-tools xs listed same)
