-- ===== src/Codegen/Plan/Params.antt =====
-- The parameters of a tool's function, and the columns of its inputs.
use elixir_mcp_lib.Base.{
  ◌≡◌, refl, ap, arith, true, Option, none, some, List, [], ◌∷◌, ◌++◌, Text, text_eq, text_eq_refl,
  contains, All, All-append, All-imp, Bool-cases, inl, inr,
}
use elixir_mcp_lib.Json.{Value}
use elixir_mcp_lib.Codegen.Table.{Column, PlannedTool}
use elixir_mcp_lib.Codegen.Types.{required_list}
use elixir_mcp_lib.Codegen.Plan.{
  InvokeOnSelect, Planned, planned, find_property, required_params, optional_params,
  input_schema_of, plan_with, plan_one,
}

abbrev pub column_names : List Column → List Text
column_names [] = []
column_names (c ∷ cs) = c.sql_name ∷ column_names cs

abbrev IsColumnOf : List Column → Text → Type 0
IsColumnOf cs name = contains (column_names cs) name ≡ true

find_property_sound :
    (cs : List Column) (name : Text) (c : Column)
    → find_property cs name ≡ some c
    → IsColumnOf cs c.sql_name
unfolding find_property
find_property_sound [] name c h = cc
find_property_sound (d ∷ cs) name c h = elim (Bool-cases (text_eq d.property name)) [
  | inl same ↦ ground (arith, rw same at h, text_eq_refl d.sql_name)
  | inr other ↦ ground (arith, find_property_sound cs name c (rw other at h))
]

-- one more required name, with a column or without
with_found :
    (inputs : List Column) (o : Option Column) (rest : List Text)
    → ((c : Column) → o ≡ some c → IsColumnOf inputs c.sql_name)
    → All (IsColumnOf inputs) rest
    → All (IsColumnOf inputs) (elim o [ none ↦ rest | some c ↦ c.sql_name ∷ rest ])
with_found inputs none rest found h = h
with_found inputs (some c) rest found h = (found c refl, h)

required_params_sound :
    (inputs : List Column) (names : List Text)
    → All (IsColumnOf inputs) (required_params inputs names)
unfolding required_params
required_params_sound inputs [] = tt
required_params_sound inputs (name ∷ names) =
    with_found inputs (find_property inputs name) (required_params inputs names)
      (find_property_sound inputs name) (required_params_sound inputs names)

weaken :
    (c : Column) (cs : List Column) (names : List Text)
    → All (IsColumnOf cs) names
    → All (IsColumnOf (c ∷ cs)) names
weaken c cs names h =
    All-imp (IsColumnOf cs) (IsColumnOf (c ∷ cs)) (λ name there. ground (arith, there)) names h

optional_params_sound : (cs : List Column) → All (IsColumnOf cs) (optional_params cs)
unfolding optional_params
optional_params_sound [] = tt
optional_params_sound (c ∷ cs) =
    let rest = weaken c cs (optional_params cs) (optional_params_sound cs) in
    elim (Bool-cases c.required) [
      | inl needed ↦ rw needed rest
      | inr free ↦ rw free ((ground (arith, text_eq_refl c.sql_name), rest))
    ]

-- what a plan says of its parameters
plan_of : Planned → Option (List Column × List Text)
plan_of (planned p) = some (p.inputs, p.params)
plan_of _ = none

module _ {N : Type 0} (to_lowercase : Text → Text) (render : Value N → Text) where
  params_of :
      (tool : Value N) (local_name sql_name target_schema : Text) (gate : InvokeOnSelect)
      (p : PlannedTool)
      → plan_one to_lowercase render tool local_name sql_name target_schema gate ≡ planned p
      → p.params
        ≡ required_params p.inputs (required_list (input_schema_of tool))
          ++ optional_params p.inputs
  unfolding plan_one plan_with plan_of
  params_of tool local_name sql_name target_schema gate p h = ground (arith, ap plan_of h)

  -- Every parameter of a planned tool's function is the name of one of its input columns, also where
  -- the schema requires properties that it does not declare.
  pub params_sound :
      (tool : Value N) (local_name sql_name target_schema : Text) (gate : InvokeOnSelect)
      (p : PlannedTool)
      → plan_one to_lowercase render tool local_name sql_name target_schema gate ≡ planned p
      → All (λ name. contains (column_names p.inputs) name ≡ true) p.params
  params_sound tool local_name sql_name target_schema gate p h =
      rw (params_of tool local_name sql_name target_schema gate p h) (
        All-append (IsColumnOf p.inputs)
          (required_params p.inputs (required_list (input_schema_of tool)))
          (optional_params p.inputs)
          (required_params_sound p.inputs (required_list (input_schema_of tool)))
          (optional_params_sound p.inputs))
