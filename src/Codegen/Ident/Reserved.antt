-- ===== src/Codegen/Ident/Reserved.antt =====
-- The reserved words of PostgreSQL, and what `derive` does with them. The binary search on the sorted
-- list is a search through the whole list.
use elixir_mcp_lib.Base.{
  ◌≡◌, refl, ap, sym, ◌∙◌, arith, Bool, true, false, ◌&&◌, ◌||◌, some, List, [], ◌∷◌, Text, codes,
  text_eq, text_eq_sound, contains, leb, len, is_ascii_lowercase, ◌==◌, Bool-cases, inl, inr,
}
use elixir_mcp_lib.Codegen.Ident.{
  underscore, max_bytes, split_case_boundaries, base_of_lowered, derive_base, enforce_length,
  derive,
}

unfoldable pub reserved : List Text
reserved =
    codes "all"
    ∷ codes "analyse"
    ∷ codes "analyze"
    ∷ codes "and"
    ∷ codes "any"
    ∷ codes "array"
    ∷ codes "as"
    ∷ codes "asc"
    ∷ codes "asymmetric"
    ∷ codes "binary"
    ∷ codes "both"
    ∷ codes "case"
    ∷ codes "cast"
    ∷ codes "check"
    ∷ codes "collate"
    ∷ codes "collation"
    ∷ codes "column"
    ∷ codes "concurrently"
    ∷ codes "constraint"
    ∷ codes "create"
    ∷ codes "current_catalog"
    ∷ codes "current_date"
    ∷ codes "current_role"
    ∷ codes "current_time"
    ∷ codes "current_timestamp"
    ∷ codes "current_user"
    ∷ codes "default"
    ∷ codes "deferrable"
    ∷ codes "desc"
    ∷ codes "distinct"
    ∷ codes "do"
    ∷ codes "else"
    ∷ codes "end"
    ∷ codes "except"
    ∷ codes "false"
    ∷ codes "fetch"
    ∷ codes "filter"
    ∷ codes "for"
    ∷ codes "foreign"
    ∷ codes "freeze"
    ∷ codes "from"
    ∷ codes "full"
    ∷ codes "grant"
    ∷ codes "group"
    ∷ codes "having"
    ∷ codes "ilike"
    ∷ codes "in"
    ∷ codes "initially"
    ∷ codes "inner"
    ∷ codes "intersect"
    ∷ codes "into"
    ∷ codes "is"
    ∷ codes "isnull"
    ∷ codes "join"
    ∷ codes "lateral"
    ∷ codes "leading"
    ∷ codes "left"
    ∷ codes "like"
    ∷ codes "limit"
    ∷ codes "localtime"
    ∷ codes "localtimestamp"
    ∷ codes "natural"
    ∷ codes "not"
    ∷ codes "notnull"
    ∷ codes "null"
    ∷ codes "offset"
    ∷ codes "on"
    ∷ codes "only"
    ∷ codes "or"
    ∷ codes "order"
    ∷ codes "outer"
    ∷ codes "overlaps"
    ∷ codes "placing"
    ∷ codes "primary"
    ∷ codes "references"
    ∷ codes "returning"
    ∷ codes "right"
    ∷ codes "select"
    ∷ codes "session_user"
    ∷ codes "similar"
    ∷ codes "some"
    ∷ codes "symmetric"
    ∷ codes "table"
    ∷ codes "tablesample"
    ∷ codes "then"
    ∷ codes "to"
    ∷ codes "trailing"
    ∷ codes "true"
    ∷ codes "union"
    ∷ codes "unique"
    ∷ codes "user"
    ∷ codes "using"
    ∷ codes "variadic"
    ∷ codes "verbose"
    ∷ codes "when"
    ∷ codes "where"
    ∷ codes "window"
    ∷ codes "with"
    ∷ []

unfoldable pub is_reserved : Text → Bool
unfolding reserved
is_reserved name = contains reserved name

-- a text of lower-case ASCII letters and underscores
abbrev pub is_lower : Text → Bool
is_lower [] = true
is_lower (c ∷ s) = (is_ascii_lowercase c || (c == underscore)) && is_lower s

-- nothing in the word is to be changed
abbrev is_settled : Text → Bool
is_settled w =
    is_lower w
    && text_eq (split_case_boundaries w) w
    && text_eq (base_of_lowered w) w
    && leb (len w) max_bytes

abbrev all_settled : List Text → Bool
all_settled [] = true
all_settled (w ∷ ws) = is_settled w && all_settled ws

reserved_settled : all_settled reserved ≡ true
unfolding reserved split_case_boundaries base_of_lowered len
reserved_settled = refl

and_left : (a b : Bool) → a && b ≡ true → a ≡ true
and_left true b h = refl
and_left false b h = h

and_right : (a b : Bool) → a && b ≡ true → b ≡ true
and_right true b h = h
and_right false b h = cc

settled_member :
    (ws : List Text) (name : Text)
    → all_settled ws ≡ true
    → contains ws name ≡ true
    → is_settled name ≡ true
settled_member [] name h there = cc
settled_member (w ∷ ws) name h there = elim (Bool-cases (text_eq w name)) [
  | inl same ↦
      ap is_settled (sym (text_eq_sound w name same)) ∙ and_left (is_settled w) (all_settled ws) h
  | inr other ↦
      settled_member ws name (and_right (is_settled w) (all_settled ws) h) (rw other at there)
]

short_kept : (w : Text) → is_settled w ≡ true → enforce_length w ≡ some w
unfolding enforce_length
short_kept w h = ground arith

module _ (to_lowercase : Text → Text) where
  derive_base_settled :
      (w : Text)
      → ((s : Text) → is_lower s ≡ true → to_lowercase s ≡ s)
      → is_settled w ≡ true
      → derive_base to_lowercase w ≡ w
  unfolding derive_base
  derive_base_settled w keeps h =
      let lower : is_lower w ≡ true = ground (arith, h) in
      let split : text_eq (split_case_boundaries w) w ≡ true = ground (arith, h) in
      let base : text_eq (base_of_lowered w) w ≡ true = ground (arith, h) in
      ap (λ s. base_of_lowered (to_lowercase s)) (text_eq_sound (split_case_boundaries w) w split)
      ∙ ap base_of_lowered (keeps w lower)
      ∙ text_eq_sound (base_of_lowered w) w base

  -- A reserved word is derived to itself: no word is renamed, if Rust's lower-casing keeps texts of
  -- lower-case ASCII letters and underscores.
  pub derive-is_reserved :
      (name : Text)
      → ((s : Text) → is_lower s ≡ true → to_lowercase s ≡ s)
      → is_reserved name ≡ true
      → derive to_lowercase name [] ≡ some name
  unfolding is_reserved derive
  derive-is_reserved name keeps there =
      let settled = settled_member reserved name reserved_settled there in
      ap enforce_length (derive_base_settled name keeps settled) ∙ short_kept name settled
