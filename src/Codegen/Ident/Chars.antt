-- ===== src/Codegen/Ident/Chars.antt =====
-- The characters of a derived name.
use elixir_mcp_lib.Base.{
  ℕ, ◌≡◌, refl, arith, Bool, true, false, ◌||◌, [], ◌∷◌, ◌++◌, Text, All, All-append, IsAscii,
  is_ascii_lowercase, is_ascii_digit, ◌==◌,
}
use elixir_mcp_lib.Codegen.Sha256.Hex.{IsHexDigit}
use elixir_mcp_lib.Codegen.Ident.{
  underscore, collapse, strip_leading, strip_trailing, prefix_digit, base_of_lowered, derive_base,
  split_case_boundaries,
}

-- `[a-z0-9_]`
abbrev pub IsIdentChar : ℕ → Type 0
IsIdentChar c = (is_ascii_lowercase c || is_ascii_digit c || (c == underscore)) ≡ true

abbrev pub starts_with_digit : Text → Bool
starts_with_digit [] = false
starts_with_digit (c ∷ s) = is_ascii_digit c

pub IsIdentChar-IsAscii : (c : ℕ) → IsIdentChar c → IsAscii c
IsIdentChar-IsAscii c h = ground arith

pub IsHexDigit-IsIdentChar : (c : ℕ) → IsHexDigit c → IsIdentChar c
IsHexDigit-IsIdentChar c h = ground arith

All-collapse :
    (out : Text) (last : Bool) (s : Text)
    → All IsIdentChar out
    → All IsIdentChar (collapse out last s)
unfolding collapse
All-collapse out last [] h = h
All-collapse out last (c ∷ s) h = ground (
  arith,
  All-collapse (out ++ c ∷ []) false s,
  All-collapse (out ++ underscore ∷ []) true s,
  All-collapse out last s,
  All-append IsIdentChar out (c ∷ []) h,
  All-append IsIdentChar out (underscore ∷ []) h,
)

All-strip_leading : (s : Text) → All IsIdentChar s → All IsIdentChar (strip_leading s)
unfolding strip_leading
All-strip_leading [] h = tt
All-strip_leading (c ∷ s) (p, h) = ground (arith, All-strip_leading s h)

All-strip_trailing : (s : Text) → All IsIdentChar s → All IsIdentChar (strip_trailing s)
unfolding strip_trailing
All-strip_trailing [] h = tt
All-strip_trailing (c ∷ s) (p, h) = ground (arith, All-strip_trailing s h)

All-prefix_digit : (s : Text) → All IsIdentChar s → All IsIdentChar (prefix_digit s)
unfolding prefix_digit
All-prefix_digit [] h = tt
All-prefix_digit (c ∷ s) (p, h) = ground arith

starts_with_digit-prefix_digit : (s : Text) → starts_with_digit (prefix_digit s) ≡ false
unfolding prefix_digit
starts_with_digit-prefix_digit [] = refl
starts_with_digit-prefix_digit (c ∷ s) = ground arith

All-base_of_lowered : (s : Text) → All IsIdentChar (base_of_lowered s)
unfolding base_of_lowered
All-base_of_lowered s =
    let run = collapse [] false s in
    let bare = strip_leading run in
    All-prefix_digit (strip_trailing bare)
      (All-strip_trailing bare (All-strip_leading run (All-collapse [] false s tt)))

starts_with_digit-base_of_lowered : (s : Text) → starts_with_digit (base_of_lowered s) ≡ false
unfolding base_of_lowered
starts_with_digit-base_of_lowered s =
    starts_with_digit-prefix_digit (strip_trailing (strip_leading (collapse [] false s)))

module _ (to_lowercase : Text → Text) (name : Text) where
  pub All-derive_base : All IsIdentChar (derive_base to_lowercase name)
  unfolding derive_base
  All-derive_base = All-base_of_lowered (to_lowercase (split_case_boundaries name))

  pub starts_with_digit-derive_base : starts_with_digit (derive_base to_lowercase name) ≡ false
  unfolding derive_base
  starts_with_digit-derive_base =
      starts_with_digit-base_of_lowered (to_lowercase (split_case_boundaries name))
