-- ===== src/Codegen/Plan/Tests.antt =====
-- The plan of one tool, and the theorems at it.
use elixir_mcp_lib.Base.{
  arith, some, List, ℕ, ◌≡◌, ◌↔◌, ◌⊎◌, refl, true, false, none, [], ◌∷◌, Text, codes, map,
  to_ascii_lowercase, len, slice_to,
}
use elixir_mcp_lib.Json.{Value, boolean, string, object, end, field}
use elixir_mcp_lib.Codegen.Ident.{derive}
use elixir_mcp_lib.Codegen.Table.{PlannedTool, no_output, int8}
use elixir_mcp_lib.Codegen.Types.{properties, map_type, required_list, required_set, enum_hint}
use elixir_mcp_lib.Codegen.Plan.{read_only, all_tools, plan_one, planned, input_schema_of}
use elixir_mcp_lib.Codegen.Ident.Bounds.{IsFragment}
use elixir_mcp_lib.Errors.{ok}
use elixir_mcp_lib.Codegen.Plan.Batch.{GenerationPlan, per_upstream, plan}
use elixir_mcp_lib.Codegen.Plan.Counted.{plan_accounts}
use elixir_mcp_lib.Codegen.Plan.Gate.{DeclaresReadOnly, invoke_on_select_iff}
use elixir_mcp_lib.Codegen.Plan.Inputs.{column_facts, property_facts, plan_one_inputs}

abbrev ascii_lower : Text → Text
ascii_lower = map to_ascii_lowercase

abbrev no_text : Value ℕ → Text
no_text v = []

-- a read-only tool with one parameter
abbrev get_issue : Value ℕ
get_issue = object (
    field (codes "name") (string (codes "get_issue")) (
      field (codes "annotations") (object (field (codes "readOnlyHint") (boolean true) end)) (
        field (codes "inputSchema")
          (object (
            field (codes "properties")
              (object (
                field (codes "issueId")
                  (object (field (codes "type") (string (codes "integer")) end)) end))
              end))
          end)))

abbrev plan_of_get_issue : PlannedTool
plan_of_get_issue = record {
  tool_name = codes "get_issue";
  sql_name = codes "get_issue";
  schema = codes "mcp";
  read_only = true;
  invoke_on_select = true;
  inputs =
      record {
        property = codes "issueId";
        sql_name = codes "issue_id";
        pg_type = int8;
        required = false;
        enum_hint = none;
      }
      ∷ [];
  output = no_output;
  params = codes "issue_id" ∷ [];
  title = none;
  description = none;
}

plans :
    plan_one ascii_lower no_text get_issue
      (codes "get_issue")
      (codes "get_issue")
      (codes "mcp")
      read_only
    ≡ planned plan_of_get_issue
unfolding plan_one derive len slice_to map_type required_list required_set properties enum_hint
plans = refl

invoke_on_select_iff_example :
    ((plan_of_get_issue.invoke_on_select ≡ true)
      ↔ ((read_only ≡ all_tools) ⊎ ((read_only ≡ read_only) × DeclaresReadOnly get_issue)))
    × ((plan_of_get_issue.read_only ≡ true) ↔ DeclaresReadOnly get_issue)
invoke_on_select_iff_example =
    invoke_on_select_iff ascii_lower no_text get_issue (codes "get_issue") (codes "get_issue")
      (codes "mcp") read_only plan_of_get_issue plans

abbrev issue_properties : List (Text × Value ℕ)
issue_properties =
    (codes "issueId", object (field (codes "type") (string (codes "integer")) end)) ∷ []

plan_one_inputs_example :
    column_facts plan_of_get_issue.inputs
    ≡ property_facts (required_set (input_schema_of get_issue)) issue_properties
unfolding properties
plan_one_inputs_example =
    plan_one_inputs ascii_lower no_text get_issue (codes "get_issue") (codes "get_issue")
      (codes "mcp") read_only plan_of_get_issue issue_properties refl plans

empty-IsFragment : IsFragment []
empty-IsFragment = record { chars = tt; head = refl }

-- one tool that is planned, and one without a name
abbrev batch : List (Value ℕ)
batch = get_issue ∷ object end ∷ []

plan_accounts_example :
    (p : GenerationPlan) × (plan ascii_lower no_text batch (codes "mcp") [] read_only per_upstream
      ≡ some (ok p))
    × (map (λ (t : PlannedTool). t.tool_name) p.tools ≡ codes "get_issue" ∷ [])
    × (p.skipped ≡ [])
unfolding properties
plan_accounts_example =
    plan_accounts ascii_lower no_text batch b'm' (codes "cp") [] read_only per_upstream
      empty-IsFragment (omega arith)
