-- ===== src/Quals/Matching.antt =====
-- A row passes the filter exactly when its cell is among the values that the requests were made for.
use elixir_mcp_lib.Base.{
  ◌∙◌, ◌≡◌, refl, arith, false, List, [], ◌∷◌, Text, text_eq, text_eq_refl, text_eq_sound, not, ap,
  Bool-cases, inl, inr, true, ◌↔◌, In, in_head, in_tail,
}
use elixir_mcp_lib.Json.{Value, null, boolean, number, string, array, object}
use elixir_mcp_lib.Quals.{
  Qual, Operator, equal, any_equal, Equality, any_json_equal, matches_operator, matches_json,
  restricted, restricted_values, json_equal,
}

module _ {N : Type 0} (eq : Equality N) where
  -- the text of the source: one side of the comparison is the list of values
  matches-any_json_equal :
      (q : Qual N) (candidate : Value N)
      → matches_json eq q q.field candidate ≡ any_json_equal eq (restricted_values q) candidate
  unfolding matches_json restricted_values
  matches-any_json_equal q candidate = rw text_eq_refl (by_operator q.operator q.value)
    where
      by_operator :
          (o : Operator) (v : Value N)
          → matches_operator eq o v candidate ≡ any_json_equal eq (restricted o v) candidate
      by_operator equal v = ground arith
      by_operator any_equal (array vs) = refl
      by_operator any_equal _ = refl

  listed :
      (vs : List (Value N)) (candidate : Value N)
      → any_json_equal eq vs candidate ≡ true
      → (v : Value N) × In v vs × (json_equal eq v candidate ≡ true)
  unfolding any_json_equal
  listed [] candidate h = cc
  listed (v ∷ vs) candidate h = elim (Bool-cases (json_equal eq v candidate)) [
    | inl same ↦ (v, in_head, same)
    | inr other ↦ let (w, m, same) = listed vs candidate (rw other at h) in (w, in_tail m, same)
  ]

  found_in :
      (vs : List (Value N)) (v candidate : Value N)
      → In v vs
      → json_equal eq v candidate ≡ true
      → any_json_equal eq vs candidate ≡ true
  unfolding any_json_equal
  found_in [] v candidate m same = elim m [ ]
  found_in (_ ∷ vs) v candidate in_head same = rw same refl
  found_in (u ∷ vs) v candidate (in_tail m) same = ground (arith, found_in vs v candidate m same)

  -- A cell passes a restriction on its own column exactly when one of the values that
  -- `restricted_values` lists for the restriction equals it.
  pub matches-restricted_values :
      (q : Qual N) (candidate : Value N)
      → (matches_json eq q q.field candidate ≡ true)
        ↔ ((v : Value N) × In v (restricted_values q) × (json_equal eq v candidate ≡ true))
  matches-restricted_values q candidate = rw (matches-any_json_equal q candidate) (
    listed (restricted_values q) candidate,
    λ h. found_in (restricted_values q) h.0 candidate h.1 h.2,
  )

  any_null : (vs : List (Value N)) → any_json_equal eq vs null ≡ false
  unfolding any_json_equal
  any_null [] = refl
  any_null (null ∷ vs) = any_null vs
  any_null (boolean b ∷ vs) = any_null vs
  any_null (number n ∷ vs) = any_null vs
  any_null (string s ∷ vs) = any_null vs
  any_null (array xs ∷ vs) = any_null vs
  any_null (object fs ∷ vs) = any_null vs

  -- A missing cell (SQL NULL) passes a restriction exactly when it is on another column.
  pub matches-null :
      (q : Qual N) (column : Text) → matches_json eq q column null ≡ not (text_eq column q.field)
  matches-null q column = elim (Bool-cases (text_eq column q.field)) [
    | inl same ↦ rw same (
        ap (λ c. matches_json eq q c null) (text_eq_sound column q.field same)
        ∙ matches-any_json_equal q null
        ∙ any_null (restricted_values q))
    | inr other ↦ rw other (unfold matches_json in rw other refl)
  ]
