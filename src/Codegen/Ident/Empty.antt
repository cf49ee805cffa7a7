-- ===== src/Codegen/Ident/Empty.antt =====
-- Which names have no identifier at all.
use elixir_mcp_lib.Base.{
  ◌∙◌, ◌≡◌, refl, arith, Bool, true, false, ◌||◌, not, [], ◌∷◌, ◌++◌, Text, is_ascii_lowercase,
  is_ascii_digit, Bool-cases, inl, inr,
}
use elixir_mcp_lib.Codegen.Ident.{
  underscore, is_empty, collapse, strip_leading, strip_trailing, prefix_digit, base_of_lowered,
  split_case_boundaries, derive_base,
}

-- Does the text hold one of `[a-z0-9]`?
abbrev pub any_alphanumeric : Text → Bool
any_alphanumeric [] = false
any_alphanumeric (c ∷ s) = (is_ascii_lowercase c || is_ascii_digit c) || any_alphanumeric s

any-append : (s t : Text) → any_alphanumeric (s ++ t) ≡ any_alphanumeric s || any_alphanumeric t
any-append [] t = refl
any-append (c ∷ s) t = ground (arith, any-append s t)

any-collapse :
    (out : Text) (last : Bool) (s : Text)
    → any_alphanumeric (collapse out last s) ≡ any_alphanumeric out || any_alphanumeric s
unfolding collapse
any-collapse out last [] = ground arith
any-collapse out last (c ∷ s) = ground (
  arith,
  any-collapse (out ++ c ∷ []) false s,
  any-collapse (out ++ underscore ∷ []) true s,
  any-collapse out last s,
  any-append out (c ∷ []),
  any-append out (underscore ∷ []),
)

any-strip_leading : (s : Text) → any_alphanumeric (strip_leading s) ≡ any_alphanumeric s
unfolding strip_leading
any-strip_leading [] = refl
any-strip_leading (c ∷ s) = ground (arith, any-strip_leading s)

any-strip_trailing : (s : Text) → any_alphanumeric (strip_trailing s) ≡ any_alphanumeric s
unfolding strip_trailing
any-strip_trailing [] = refl
any-strip_trailing (c ∷ s) = ground (arith, any-strip_trailing s)

any-prefix_digit : (s : Text) → any_alphanumeric (prefix_digit s) ≡ any_alphanumeric s
unfolding prefix_digit
any-prefix_digit [] = refl
any-prefix_digit (c ∷ s) = ground arith

any-base_of_lowered : (s : Text) → any_alphanumeric (base_of_lowered s) ≡ any_alphanumeric s
unfolding base_of_lowered
any-base_of_lowered s =
    let run = collapse [] false s in
    let bare = strip_leading run in
    any-prefix_digit (strip_trailing bare)
    ∙ any-strip_trailing bare
    ∙ any-strip_leading run
    ∙ any-collapse [] false s

-- separators in front of the first kept character are dropped
collapse_nothing : (s : Text) → any_alphanumeric s ≡ false → collapse [] false s ≡ []
unfolding collapse
collapse_nothing [] h = refl
collapse_nothing (c ∷ s) h = ground (arith, collapse_nothing s)

base_of_nothing : (s : Text) → any_alphanumeric s ≡ false → base_of_lowered s ≡ []
unfolding base_of_lowered
base_of_nothing s h = rw (collapse_nothing s h)

is_empty_of_any : (s : Text) → any_alphanumeric s ≡ true → is_empty s ≡ false
is_empty_of_any [] h = cc
is_empty_of_any (c ∷ s) h = refl

-- The derived base is empty exactly when the lowered name holds no ASCII letter or digit.
pub derive_base-is_empty :
    (to_lowercase : Text → Text) (name : Text)
    → is_empty (derive_base to_lowercase name)
      ≡ not (any_alphanumeric (to_lowercase (split_case_boundaries name)))
unfolding derive_base
derive_base-is_empty to_lowercase name =
    let lowered = to_lowercase (split_case_boundaries name) in
    elim (Bool-cases (any_alphanumeric lowered)) [
      | inl some_kept ↦
          rw some_kept
            (is_empty_of_any (base_of_lowered lowered) (any-base_of_lowered lowered ∙ some_kept))
      | inr none_kept ↦ rw (none_kept, base_of_nothing lowered none_kept)
    ]
