-- ===== src/Tables/PerTool/Filtered.antt =====
-- What the filter behind a call lets through.
use elixir_mcp_lib.Base.{
  ℕ, suc, ◌+◌, ◌≡◌, ◌⊎◌, refl, ap, sym, ◌∙◌, arith, true, false, ◌&&◌, Option, none, some, List, [],
  ◌∷◌, ◌++◌, length, if◌then◌else◌, Text, codes, text_eq, text_eq_iff, text_eq_sound, text_eq_refl,
  All, Bool-cases, inl, inr, In, in_head, in_tail,
}
use elixir_mcp_lib.Json.{Value}
use elixir_mcp_lib.Quals.{Qual, equal, Equality, json_equal, matches_json, restricted_values}
use elixir_mcp_lib.Quals.Matching.{matches-restricted_values, matches-null}
use elixir_mcp_lib.Codegen.Table.{Column, PlannedTool, output_columns}
use elixir_mcp_lib.Tables.{Cell, Row, Numbers, as_json, get_cell}
use elixir_mcp_lib.Tables.PerTool.Equalities.{is_equal_sound}
use elixir_mcp_lib.Tables.PerTool.Shape.{
  is_equal, has_name, name_position, place_of, candidate_of, row_passes, post_filter,
}

-- the names of the cells behind those of the inputs
abbrev pub names_of : List Column → List Text
names_of [] = codes "content" ∷ codes "is_error" ∷ []
names_of (c ∷ cs) = c.sql_name ∷ names_of cs

position : ℕ → List Text → Text → Option ℕ
position at [] name = none
position at (n ∷ ns) name = if text_eq n name then some at else position (suc at) ns name

in_text_eq : (n name : Text) → n ≡ name → text_eq n name ≡ true
in_text_eq n name e = (text_eq_iff n name).1 e

position_there :
    (at : ℕ) (before after : List Text) (name : Text)
    → (In name before → ⊥)
    → position at (before ++ name ∷ after) name ≡ some (at + length before)
unfolding position
position_there at [] after name h = rw (text_eq_refl name) (ap some (omega arith))
position_there at (n ∷ before) after name h = elim (Bool-cases (text_eq n name)) [
  | inl same ↦ absurd (h (first_In n name before (text_eq_sound n name same)))
  | inr other ↦
      rw other
        (position_there (suc at) before after name (λ m. h (in_tail m)) ∙ ap some (omega arith))
]
  where
    first_In : (n name : Text) (ns : List Text) → n ≡ name → In name (n ∷ ns)
    first_In n name ns e = rw e in_head

text_eq_swap : (a b : Text) → text_eq a b ≡ text_eq b a
text_eq_swap a b = elim (Bool-cases (text_eq a b)) [
  | inl same ↦ rw same (sym (in_text_eq b a (sym (text_eq_sound a b same))))
  | inr other ↦ elim (Bool-cases (text_eq b a)) [
    | inl back ↦ rw (in_text_eq a b (sym (text_eq_sound b a back)), back) refl
    | inr apart ↦ rw (other, apart) refl
  ]
]

place_by_names :
    (at : ℕ) (cs : List Column) (name : Text) (total : ℕ)
    → at + length cs ≡ total
    → ◌≡◌ {A = Option ℕ}
        (elim (name_position at cs name) [
          | some i ↦ some i
          | none ↦
              if text_eq name (codes "content")
              then some total
              else if text_eq name (codes "is_error")
              then some (total + 1)
              else none
        ])
        (position at (names_of cs) name)
unfolding position
place_by_names at [] name total e =
    let same : total ≡ at = omega arith in
    let next : at + 1 ≡ suc at = omega arith in
    rw (text_eq_swap name (codes "content"), text_eq_swap name (codes "is_error"), same, next) refl
place_by_names at (c ∷ cs) name total e = elim (Bool-cases (text_eq c.sql_name name)) [
  | inl here ↦ rw here refl
  | inr other ↦ rw other (place_by_names (suc at) cs name total (omega arith))
]

outside :
    (n name : Text) (ns : List Text)
    → text_eq n name ≡ false
    → (In name ns → ⊥)
    → In name (n ∷ ns)
    → ⊥
outside n _ ns other rest in_head = false_not_true (rw (text_eq_refl n) at other)
  where
    false_not_true : true ≡ false → ⊥
    false_not_true e = cc
outside n name ns other rest (in_tail m) = rest m

first_split :
    (names : List Text) (name : Text)
    → (In name names → ⊥)
      ⊎ ((before : List Text) × (after : List Text) × (names ≡ before ++ name ∷ after)
          × (In name before → ⊥))
first_split [] name = inl (λ m. elim m [ ])
first_split (n ∷ ns) name = elim (Bool-cases (text_eq n name)) [
  | inl same ↦ inr ([], ns, ap (λ m. m ∷ ns) (text_eq_sound n name same), λ m. elim m [ ])
  | inr other ↦ elim (first_split ns name) [
    | inl absent ↦ inl (outside n name ns other absent)
    | inr (before, after, split, first) ↦
        inr (n ∷ before, after, ap (λ ms. n ∷ ms) split, outside n name before other first)
  ]
]

module _ {N F : Type 0} (eq : Equality N) (num : Numbers N F) where
  -- Whether a row keeps a restriction: it was sent as an argument; or it is on a column that the row has
  -- not, or on an input column only; or the first cell of that name behind the input cells equals a
  -- value that it lists.
  abbrev pub Respects : PlannedTool → Row N F → Qual N → Type 0
  Respects tool row q =
      ((c : Column) × In c tool.inputs × (c.sql_name ≡ q.field) × (q.operator ≡ equal))
      ⊎ ((In q.field (names_of (output_columns tool)) → ⊥)
          ⊎ ((before : List Text) × (after : List Text) × (names_of (output_columns tool)
                ≡ before ++ q.field ∷ after)
              × (In q.field before → ⊥)
              × (cell : Cell N F) × (get_cell row (length tool.inputs + length before) ≡ some cell)
              × (v : Value N) × In v (restricted_values q)
              × (json_equal eq v (as_json num cell) ≡ true)))

  some_passes :
      (tool : PlannedTool) (row : Row N F) (q : Qual N) (before after : List Text)
      (o : Option (Cell N F))
      → names_of (output_columns tool) ≡ before ++ q.field ∷ after
      → (In q.field before → ⊥)
      → get_cell row (length tool.inputs + length before) ≡ o
      → matches_json eq q q.field (candidate_of eq num o) ≡ true
      → Respects tool row q
  some_passes tool row q before after none split first at h =
      absurd (false_not_true (rw (matches-null eq q q.field, text_eq_refl q.field) at h))
    where
      false_not_true : false ≡ true → ⊥
      false_not_true e = cc
  some_passes tool row q before after (some cell) split first at h =
      let (v, m, same) = (matches-restricted_values eq q (as_json num cell)).0 h in
      inr (inr (before, after, split, first, cell, at, v, m, same))

  place_found :
      (tool : PlannedTool) (name : Text) (before after : List Text)
      → names_of (output_columns tool) ≡ before ++ name ∷ after
      → (In name before → ⊥)
      → place_of eq num tool name ≡ some (length tool.inputs + length before)
  place_found tool name before after split first =
      place_by_names (length tool.inputs) (output_columns tool) name
        (length tool.inputs + length (output_columns tool)) refl
      ∙ ap (λ ns. position (length tool.inputs) ns name) split
      ∙ position_there (length tool.inputs) before after name first

  has_name_sound :
      (cs : List Column) (name : Text)
      → has_name cs name ≡ true
      → (c : Column) × In c cs × (c.sql_name ≡ name)
  has_name_sound [] name h = cc
  has_name_sound (c ∷ cs) name h = elim (Bool-cases (text_eq c.sql_name name)) [
    | inl same ↦ (c, in_head, text_eq_sound c.sql_name name same)
    | inr other ↦ let (d, m, e) = has_name_sound cs name (rw other at h) in (d, in_tail m, e)
  ]

  consumed :
      (inputs : List Column) (q : Qual N)
      → (has_name inputs q.field && is_equal q.operator) ≡ true
      → (c : Column) × In c inputs × (c.sql_name ≡ q.field) × (q.operator ≡ equal)
  consumed inputs q h = elim (Bool-cases (has_name inputs q.field)) [
    | inl named ↦
        let (c, m, e) = has_name_sound inputs q.field named in
        (c, m, e, is_equal_sound q.operator (rw named at h))
    | inr other ↦ cc (rw other at h)
  ]

  row_passes-Respects :
      (tool : PlannedTool) (row : Row N F) (q : Qual N)
      → row_passes eq num tool row q ≡ true
      → Respects tool row q
  unfolding row_passes
  row_passes-Respects tool row q h =
      elim (Bool-cases (has_name tool.inputs q.field && is_equal q.operator)) [
        | inl sent ↦ inl (consumed tool.inputs q sent)
        | inr free ↦ elim (first_split (names_of (output_columns tool)) q.field) [
          | inl absent ↦ inr (inl absent)
          | inr (before, after, split, first) ↦
              some_passes tool row q before after
                (get_cell row (length tool.inputs + length before)) split first refl
                (rw (free, place_found tool q.field before after split first, row_passes) at h)
        ]
      ]

  pub post_filter-Respects :
      (tool : PlannedTool) (quals : List (Qual N)) (row : Row N F)
      → post_filter eq num tool quals row ≡ true
      → All (Respects tool row) quals
  unfolding post_filter
  post_filter-Respects tool [] row h = tt
  post_filter-Respects tool (q ∷ qs) row h = elim (Bool-cases (row_passes eq num tool row q)) [
    | inl passes ↦
        (row_passes-Respects tool row q passes, post_filter-Respects tool qs row (rw passes at h))
    | inr fails ↦ cc (rw fails at h)
  ]
