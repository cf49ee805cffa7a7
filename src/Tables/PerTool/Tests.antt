-- ===== src/Tables/PerTool/Tests.antt =====
-- The table of a tool that the cache holds, scanned and filled.
use elixir_mcp_lib.Tables.PerTool.Equalities.{IsSent}
use elixir_mcp_lib.Base.{
  inr, in_head, ℕ, ◌+◌, ◌≡◌, refl, ◌==◌, if◌then◌else◌, true, false, none, some, List, [], ◌∷◌,
  Text, codes, pos, map, to_ascii_lowercase, len, contains_str,
}
use elixir_mcp_lib.Base.Assoc
use elixir_mcp_lib.Json.{Value, lookup_field, cons, nil, string, object, boolean, end, field, null}
use elixir_mcp_lib.Errors.{McpError, ok}
use elixir_mcp_lib.Quals.{Qual, Equality, qual_equal}
use elixir_mcp_lib.Cache.{tools, store, fresh_items, entry}
use elixir_mcp_lib.Codegen.Types.{properties, map_type, required_set, enum_hint, required_list}
use elixir_mcp_lib.Options.{auto, no_auth}
use elixir_mcp_lib.Client.Wire.{dispatch, finish, Env, HttpOutcome, response, unreachable, read_all}
use elixir_mcp_lib.Sse.Frames.{calm}
use elixir_mcp_lib.Client.Session.{McpSession}
use elixir_mcp_lib.Codegen.Table.{Column, PlannedTool, no_output, int8}
use elixir_mcp_lib.Tables.{Cell, Numbers}
use elixir_mcp_lib.Tables.PerTool.{PerToolContext, ToolState, done, refused, no_datum, Reader}
use elixir_mcp_lib.Tables.PerTool.Scan.{and_then, resolve_tool, begin_scan, insert_row}
use elixir_mcp_lib.Tables.PerTool.Shape.{arguments_from_quals}
use elixir_mcp_lib.Tables.PerTool.Bound.{arguments_from_quals-IsSent}
use elixir_mcp_lib.Tables.PerTool.Typed.{Gives, IsToolRow}
use elixir_mcp_lib.Tables.PerTool.Returned.{
  Resolves, AreScanned, begin_scan-AreScanned, insert_row-IsToolRow,
}
use elixir_mcp_lib.Tables.PerTool.Refused.{begin_scan-refused}

abbrev ascii_lower : Text → Text
ascii_lower = map to_ascii_lowercase

abbrev no_text : Value ℕ → Text
no_text v = []

-- a tool with one required parameter
abbrev get_issue : Value ℕ
get_issue = object (
    field (codes "name") (string (codes "get_issue")) (
      field (codes "inputSchema")
        (object (
          field (codes "properties")
            (object (
              field (codes "issueId") (object (field (codes "type") (string (codes "integer")) end))
                end))
            (field (codes "required") (Value.array (cons (string (codes "issueId")) nil)) end)))
        end))

abbrev issue_id : Column
issue_id = record {
  property = codes "issueId";
  sql_name = codes "issue_id";
  pg_type = int8;
  required = true;
  enum_hint = none;
}

abbrev plan_of_get_issue : PlannedTool
plan_of_get_issue = record {
  tool_name = codes "get_issue";
  sql_name = codes "get_issue";
  schema = codes "pg_mcp_runtime";
  read_only = false;
  invoke_on_select = false;
  inputs = issue_id ∷ [];
  output = no_output;
  params = codes "issue_id" ∷ [];
  title = none;
  description = none;
}

abbrev answer : Value ℕ
answer = object (field (codes "id") (boolean true) (field (codes "result") (object end) end))

abbrev body : HttpOutcome
body = response (record {
  status = 200;
  session_header = none;
  content_type = some (codes "application/json");
  text = read_all (codes "answer");
  stream = calm [];
})

abbrev server : Env ℕ ℕ
server = record {
  decoder = record { from_str = λ t. some answer; as_i64 = λ n. none; parse_i64 = λ t. none };
  of_ℕ = λ n. n;
  client_version = codes "0.1.0";
  check = λ w. none;
  encode_error = λ v. none;
  send = λ q w. (if w == 0 then body else unreachable (codes "ConnectionFailed"), w + 1);
}

abbrev session : McpSession ℕ
session = record {
  url = codes "http://a";
  session_id = none;
  protocol_version = codes "2025-11-25";
  server_info = null;
  capabilities = null;
  next_id = 2;
  initialize_count = 1;
  tools_list_changed = false;
}

abbrev context : List (Qual ℕ) → PerToolContext ℕ
context restrictions = record {
  target = record { tool = codes "get_issue"; invoke_on_select = true; cache_ttl_ms = none };
  table_qual = codes "mcp.tool_get_issue";
  server_name = codes "a";
  resolved = record {
    key = (1, 10);
    options = record {
      url = codes "http://a";
      mode = auto;
      timeout_ms = 1000;
      auth = no_auth;
      max_unqualified_reads = pos 0;
      audit_table = none;
      cache_ttl_ms = 60_000;
    };
    bearer = none;
  };
  quals = restrictions;
}

abbrev state : ToolState ℕ ℕ
state = record {
  sessions = ((1, 10), session) ∷ [];
  caches = store [] (1, 10) tools (record { fetched_at = 5; items = get_issue ∷ [] });
  world = 0;
}

abbrev reader : Reader ℕ ℕ
reader = record {
  as_i64 = λ n. some (pos n);
  as_f64 = λ n. some n;
  print = no_text;
  timestamptz_in = λ t. no_datum;
  uuid_in = λ t. no_datum;
  date_in = λ t. no_datum;
}

abbrev comparison : Equality ℕ
comparison = record { same_f64 = λ a b. a == b; same_value = λ a b. false }

abbrev numbers : Numbers ℕ ℕ
numbers = record { of_i64 = λ i. 0; from_f64 = λ f. some f }

resolves :
    resolve_tool server ascii_lower no_text 6 7 (context []) state ≡ (done plan_of_get_issue, state)
unfolding resolve_tool and_then fresh_items entry store Assoc.insert len properties map_type
    required_set enum_hint required_list
resolves = refl

begin_scan-refused_example :
    (e : McpError) × (begin_scan server ascii_lower no_text reader 6 7 comparison numbers
        (context [])
        state
      ≡ (refused e, state))
begin_scan-refused_example =
    begin_scan-refused server ascii_lower no_text reader 6 7 comparison numbers (context []) state
      state (inr (plan_of_get_issue, issue_id, refl, resolves, in_head, refl, λ q m. elim m [ ]))

abbrev bound : List (Qual ℕ)
bound = qual_equal (codes "issue_id") (Value.number 7) ∷ []

begin_scan-AreScanned_example :
    Gives
      (AreScanned server ascii_lower no_text reader 6 7 comparison numbers (context bound) state)
      (begin_scan server ascii_lower no_text reader 6 7 comparison numbers (context bound) state).0
begin_scan-AreScanned_example =
    begin_scan-AreScanned server ascii_lower no_text reader 6 7 comparison numbers (context bound)
      state

-- The row of the call: the number asked for, no content, no error.
scan_returns :
    (begin_scan server ascii_lower no_text reader 6 7 comparison numbers (context bound) state).0
    ≡ done ((some (Cell.int8 (pos 7)) ∷ none ∷ some (Cell.bool false) ∷ []) ∷ [])
unfolding begin_scan and_then fresh_items entry store Assoc.insert len properties qual_equal
    dispatch contains_str finish map_type required_set enum_hint required_list
scan_returns = refl

insert_row-IsToolRow_example :
    Gives
      (λ row.
        (tool : PlannedTool) × Resolves server ascii_lower no_text reader 6 7
          (context [])
          state
          tool
        × IsToolRow tool row)
      (insert_row server ascii_lower no_text reader 6 7
        (context [])
        ((codes "issue_id", some (Value.number 7)) ∷ [])
        state).0
insert_row-IsToolRow_example =
    insert_row-IsToolRow server ascii_lower no_text reader 6 7 (context [])
      ((codes "issue_id", some (Value.number 7)) ∷ []) state

arguments_run :
    arguments_from_quals plan_of_get_issue bound ≡ ok (field (codes "issueId") (Value.number 7) end)
unfolding arguments_from_quals qual_equal
arguments_run = refl

arguments_from_quals-IsSent_example :
    IsSent bound plan_of_get_issue.inputs
      (codes "issueId")
      (lookup_field (field (codes "issueId") (Value.number 7) end) (codes "issueId"))
arguments_from_quals-IsSent_example =
    arguments_from_quals-IsSent plan_of_get_issue bound
      (field (codes "issueId") (Value.number 7) end) (codes "issueId") arguments_run (refl, tt)
