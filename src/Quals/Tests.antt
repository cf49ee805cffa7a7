-- ===== src/Quals/Tests.antt =====
-- A set restriction on one column, and the theorems at it.
use elixir_mcp_lib.Base.{In, ◌↔◌, ℕ, ◌≡◌, refl, Bool, true, false, [], ◌∷◌, codes, text_eq, ◌==◌}
use elixir_mcp_lib.Json.{Value, string}
use elixir_mcp_lib.Quals.{
  Qual, Equality, qual_any_equal, json_equal, matches_json, restricted_values,
}
use elixir_mcp_lib.Quals.Matching.{matches-restricted_values}

abbrev same_string : Value ℕ → Value ℕ → Bool
same_string (string s) (string t) = text_eq s t
same_string _ _ = false

abbrev equality : Equality ℕ
equality = record { same_f64 = λ x y. x == y; same_value = same_string }

abbrev two_uris : Qual ℕ
unfolding qual_any_equal
two_uris = qual_any_equal (codes "uri") (string (codes "a") ∷ string (codes "b") ∷ [])

passes : matches_json equality two_uris (codes "uri") (string (codes "b")) ≡ true
unfolding matches_json qual_any_equal
passes = refl

matches-restricted_values_example :
    (matches_json equality two_uris two_uris.field (string (codes "b")) ≡ true) ↔ (
      (v : Value ℕ) × In v (restricted_values two_uris)
      × (json_equal equality v (string (codes "b")) ≡ true))
matches-restricted_values_example = matches-restricted_values equality two_uris (string (codes "b"))
