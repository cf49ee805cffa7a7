-- ===== src/Tables/Registry.antt =====
-- pg/pg_mcp/src/tables/mod.rs: the registry of tables and handlers, and what is looked up in it.
use mathlib.Core.Path.{subst}
use elixir_mcp_lib.Base.{
  ℕ, suc, ◌≡◌, Bool, true, Option, none, some, List, [], ◌∷◌, if◌then◌else◌, Text, codes, text_eq,
  text_eq_sound, contains, All, map, Bool-cases, inl, inr, ap, sym, ◌∙◌,
}
use elixir_mcp_lib.Tables.{ColumnSpec, TableSpec, attno}
use elixir_mcp_lib.Tables.Specs.{
  server_spec, tools_spec, prompts_spec, prompt_arguments_spec, resources_spec,
  resource_templates_spec, resource_contents_spec, prompt_messages_spec, completions_spec,
  tool_calls_spec,
}

-- the static handlers
pub data Handler : Type 0 where
  server_table tools_table prompts_table prompt_arguments_table resources_table : Handler
  resource_templates_table resource_contents_table prompt_messages_table : Handler
  completions_table tool_calls_table : Handler

-- `pushdown_columns` of the handlers that take restrictions over
abbrev pub tools_pushed : List Text
tools_pushed = codes "name" ∷ []

abbrev pub prompts_pushed : List Text
prompts_pushed = codes "name" ∷ []

abbrev pub prompt_arguments_pushed : List Text
prompt_arguments_pushed = codes "prompt" ∷ []

abbrev pub resource_contents_pushed : List Text
resource_contents_pushed = codes "uri" ∷ []

abbrev pub prompt_messages_pushed : List Text
prompt_messages_pushed = codes "prompt" ∷ codes "arguments" ∷ []

abbrev pub completions_pushed : List Text
completions_pushed = codes "ref" ∷ codes "argument_name" ∷ codes "argument_value" ∷ []

abbrev pub tool_calls_pushed : List Text
tool_calls_pushed = codes "tool" ∷ codes "id" ∷ []

-- The trait's default is no column.
unfoldable pub pushdown_columns : Handler → List Text
pushdown_columns tools_table = tools_pushed
pushdown_columns prompts_table = prompts_pushed
pushdown_columns prompt_arguments_table = prompt_arguments_pushed
pushdown_columns resource_contents_table = resource_contents_pushed
pushdown_columns prompt_messages_table = prompt_messages_pushed
pushdown_columns completions_table = completions_pushed
pushdown_columns tool_calls_table = tool_calls_pushed
pushdown_columns _ = []

pub record TableEntry : Type 0 where
  pub spec : TableSpec
  pub handler : Handler

abbrev entry_of : TableSpec → Handler → TableEntry
entry_of spec handler = record { spec = spec; handler = handler }

unfoldable pub registry : List TableEntry
unfolding server_spec tools_spec prompts_spec prompt_arguments_spec resources_spec
    resource_templates_spec resource_contents_spec prompt_messages_spec completions_spec
    tool_calls_spec
registry =
    entry_of server_spec server_table
    ∷ entry_of tools_spec tools_table
    ∷ entry_of prompts_spec prompts_table
    ∷ entry_of prompt_arguments_spec prompt_arguments_table
    ∷ entry_of resources_spec resources_table
    ∷ entry_of resource_templates_spec resource_templates_table
    ∷ entry_of resource_contents_spec resource_contents_table
    ∷ entry_of prompt_messages_spec prompt_messages_table
    ∷ entry_of completions_spec completions_table
    ∷ entry_of tool_calls_spec tool_calls_table
    ∷ []

abbrev pub find_in : List TableEntry → Text → Option TableEntry
find_in [] name = none
find_in (e ∷ es) name = if text_eq e.spec.name name then some e else find_in es name

unfoldable pub find : Text → Option TableEntry
unfolding registry
find name = find_in registry name

-- Each column of the list has the number at which it stands, from `at`.
abbrev pub Numbered : TableSpec → ℕ → List ColumnSpec → Type 0
Numbered spec at [] = Unit
Numbered spec at (c ∷ cs) = (attno spec c.name ≡ some at) × Numbered spec (suc at) cs

abbrev pub has_column : TableSpec → Text → Bool
has_column spec name = contains (map (λ (c : ColumnSpec). c.name) spec.columns) name

-- The table is found under its name, each column by its own, and a handler takes over restrictions of
-- columns that the table has.
abbrev pub IsConsistent : TableEntry → Type 0
IsConsistent e =
    (find e.spec.name ≡ some e)
    × Numbered e.spec 1 e.spec.columns
    × All (λ c. has_column e.spec c ≡ true) (pushdown_columns e.handler)

some_entry : {x e : TableEntry} → ◌≡◌ {A = Option TableEntry} (some x) (some e) → x ≡ e
some_entry h = cc

find_in-All :
    (P : TableEntry → Type 0) (es : List TableEntry) (name : Text) (e : TableEntry)
    → All P es
    → find_in es name ≡ some e
    → P e
find_in-All P [] name e h found = cc
find_in-All P (x ∷ es) name e (p, h) found = elim (Bool-cases (text_eq x.spec.name name)) [
  | inl here ↦ subst P (some_entry (rw here at found)) p
  | inr other ↦ find_in-All P es name e h (rw other at found)
]

find_in-name :
    (es : List TableEntry) (name : Text) (e : TableEntry)
    → find_in es name ≡ some e
    → e.spec.name ≡ name
find_in-name [] name e h = cc
find_in-name (x ∷ es) name e h = elim (Bool-cases (text_eq x.spec.name name)) [
  | inl here ↦
      ap (λ (e : TableEntry). e.spec.name) (sym (some_entry (rw here at h)))
      ∙ text_eq_sound x.spec.name name here
  | inr other ↦ find_in-name es name e (rw other at h)
]

registry-IsConsistent : All IsConsistent registry
unfolding registry find pushdown_columns
registry-IsConsistent = search tt

-- What is found under a name is the table of that name: it is found again under it, each of its
-- columns has its own number, counted from 1, and its handler takes over restrictions of columns that
-- it has.
pub find-IsConsistent :
    (name : Text) (e : TableEntry) → find name ≡ some e → (e.spec.name ≡ name) × IsConsistent e
unfolding find
find-IsConsistent name e h = (
  find_in-name registry name e h,
  find_in-All IsConsistent registry name e registry-IsConsistent h,
)
