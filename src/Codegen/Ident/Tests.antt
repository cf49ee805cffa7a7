-- ===== src/Codegen/Ident/Tests.antt =====
-- Runs of the derivation, and the theorems at names that meet their hypotheses.
use elixir_mcp_lib.Base.{
  ◌≡◌, true, refl, arith, List, [], ◌∷◌, some, Text, codes, map, All, to_ascii_lowercase, len,
  slice_to, to_string,
}
use elixir_mcp_lib.Codegen.Sha256.{sha_suffix}
use elixir_mcp_lib.Codegen.Ident.{derive, dedup}
use elixir_mcp_lib.Codegen.Ident.Reserved.{is_lower}
use elixir_mcp_lib.Codegen.Ident.Bounds.{IsFragment, IsIdent, derive-IsIdent}
use elixir_mcp_lib.Codegen.Ident.Dedup.{originals, sql_names, Distinct, dedup-Distinct}

abbrev ascii_lower : Text → Text
ascii_lower = map to_ascii_lowercase

acronym : derive ascii_lower (codes "getHTTPResponse") [] ≡ some (codes "get_http_response")
unfolding derive len slice_to
acronym = refl

leading_digit : derive ascii_lower (codes "--3d.model!") (codes "p_") ≡ some (codes "p__3d_model")
unfolding derive len slice_to
leading_digit = refl

abbrev colliding : List Text
colliding = codes "a-b" ∷ codes "a_b" ∷ codes "a_b" ∷ []

collisions :
    dedup ascii_lower colliding []
    ≡ some (
        (codes "a-b", codes "a_b")
        ∷ (codes "a_b", codes "a_b_648fa9b")
        ∷ (codes "a_b", codes "a_b_648fa9b_2")
        ∷ [])
unfolding dedup len slice_to sha_suffix to_string
collisions = refl

empty-IsFragment : IsFragment []
empty-IsFragment = record { chars = tt; head = refl }

derive-IsIdent_example : (r : Text) × (derive ascii_lower (codes "getX") [] ≡ some r) × IsIdent r
derive-IsIdent_example = derive-IsIdent ascii_lower (codes "getX") [] empty-IsFragment

dedup-Distinct_example :
    (out : List (Text × Text)) × (dedup ascii_lower colliding [] ≡ some out)
    × (originals out ≡ colliding)
    × All IsIdent (sql_names out)
    × Distinct (sql_names out)
dedup-Distinct_example = dedup-Distinct ascii_lower colliding [] empty-IsFragment (omega arith)

-- lower-casing in ASCII keeps lower-case letters and underscores
ascii_lower_keeps : (s : Text) → is_lower s ≡ true → ascii_lower s ≡ s
ascii_lower_keeps [] h = refl
ascii_lower_keeps (c ∷ s) h = ground (arith, ascii_lower_keeps s)
