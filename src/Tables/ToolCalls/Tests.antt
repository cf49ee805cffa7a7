-- ===== src/Tables/ToolCalls/Tests.antt =====
-- Two logged calls, an insert, and a failing one.
use elixir_mcp_lib.Base.{
  contains_str, ℕ, ◌+◌, ◌≡◌, refl, ◌⊎◌, ◌==◌, if◌then◌else◌, true, false, none, some, List, [], ◌∷◌,
  take, Text, codes, pos, split_once,
}
use elixir_mcp_lib.Base.Assoc
use elixir_mcp_lib.Json.{Value, object, boolean, end, field, null}
use elixir_mcp_lib.Quals.{Equality}
use elixir_mcp_lib.Errors.{ok, err, is_transport}
use elixir_mcp_lib.Cache.{CacheKey}
use elixir_mcp_lib.Options.{auto, no_auth}
use elixir_mcp_lib.Client.Wire.{dispatch, finish, Env, HttpOutcome, response, unreachable, read_all}
use elixir_mcp_lib.Sse.Frames.{calm}
use elixir_mcp_lib.Client.Session.{McpSession, request}
use elixir_mcp_lib.Sessions.{session_for}
use elixir_mcp_lib.Tables.{Cell, Row, text, InsertRow, TableContext}
use elixir_mcp_lib.Tables.Specs.{tool_calls_spec}
use elixir_mcp_lib.Tables.Catalog.Conform.{Conforms}
use elixir_mcp_lib.Tables.ToolCalls.{CallRecord, log_cap, snapshot, row_from_record, log_scan}
use elixir_mcp_lib.Tables.ToolCalls.Audit.{Spi, answered, failed, audit_append}
use elixir_mcp_lib.Tables.ToolCalls.Audited.{IsAuditTable, audit_append_safe}
use elixir_mcp_lib.Tables.ToolCalls.History.{logs_of, calls_of, snapshot-Refines}
use elixir_mcp_lib.Tables.ToolCalls.Insert.{Reading, Backend, completed, insert, tool_missing}
use elixir_mcp_lib.Tables.ToolCalls.Logged.{unrestricted, insert-scanned, insert_failed}

abbrev call_of : Text → CallRecord ℕ
call_of tool = record {
  id = 1 ∷ [];
  tool = tool;
  arguments = object end;
  content = none;
  structured = none;
  is_error = false;
  error = none;
  called_at = pos 0;
  duration_ms = pos 1;
}

abbrev history : List (CacheKey × CallRecord ℕ)
history =
    ((1, 10), call_of (codes "b"))
    ∷ ((1, 11), call_of (codes "x"))
    ∷ ((1, 10), call_of (codes "a"))
    ∷ []

snapshot-Refines_example :
    snapshot (1, 10) (logs_of history) ≡ take log_cap (calls_of (1, 10) history)
snapshot-Refines_example = snapshot-Refines history (1, 10)

-- A database without the audit table.
abbrev no_table : Spi ℕ
no_table = record {
  get_one = λ query db. answered none;
  run = λ query db. (answered tt, db + 1);
  read_listing = λ raw. failed (codes "no listing");
}

audit_append_safe_example :
    ((schema : Text) × (table : Text) × (split_once (codes "mcp.audit") b'.' ≡ some (schema, table))
      × IsAuditTable no_table schema table 0)
    ⊎ ((audit_append
          (λ v. [])
          no_table
          (some (codes "mcp.audit"))
          (codes "a")
          (call_of (codes "b"))
          0).1
        ≡ 0)
audit_append_safe_example =
    audit_append_safe (λ (v : Value ℕ). []) no_table (codes "mcp.audit") (codes "a")
      (call_of (codes "b")) 0

abbrev answer : Value ℕ
answer = object (field (codes "id") (boolean true) (field (codes "result") (object end) end))

abbrev body : HttpOutcome
body = response (record {
  status = 200;
  session_header = none;
  content_type = some (codes "application/json");
  text = read_all (codes "answer");
  stream = calm [];
})

-- the first request is answered, no other one is
abbrev server : Env ℕ ℕ
server = record {
  decoder = record { from_str = λ t. some answer; as_i64 = λ n. none; parse_i64 = λ t. none };
  of_ℕ = λ n. n;
  client_version = codes "0.1.0";
  check = λ w. none;
  encode_error = λ v. none;
  send = λ q w. (if w == 0 then body else unreachable (codes "ConnectionFailed"), w + 1);
}

abbrev session : McpSession ℕ
session = record {
  url = codes "http://a";
  session_id = none;
  protocol_version = codes "2025-11-25";
  server_info = null;
  capabilities = null;
  next_id = 2;
  initialize_count = 1;
  tools_list_changed = false;
}

abbrev context : TableContext
context = record {
  spec = tool_calls_spec;
  server_name = codes "a";
  resolved = record {
    key = (1, 10);
    options = record {
      url = codes "http://a";
      mode = auto;
      timeout_ms = 1000;
      auth = no_auth;
      max_unqualified_reads = pos 0;
      audit_table = none;
      cache_ttl_ms = 60_000;
    };
    bearer = none;
  };
  table_options = [];
}

abbrev reading : Reading
reading = record {
  called_at = pos 7;
  elapsed_ms = 3;
  random = none;
  now_bytes = 1 ∷ 2 ∷ 3 ∷ 4 ∷ 5 ∷ 6 ∷ 7 ∷ 8 ∷ 9 ∷ [];
}

abbrev input : InsertRow ℕ ℕ
input = record { spec = tool_calls_spec; cells = none ∷ some (text (codes "b")) ∷ none ∷ [] }

abbrev backend : ℕ → Backend ℕ ℕ ℕ
backend w = record {
  sessions = ((1, 10), session) ∷ [];
  logs = logs_of history;
  world = w;
  database = 0;
}

abbrev print : Value ℕ → Text
print v = []

abbrev debug : Cell ℕ ℕ → Text
debug c = []

abbrev returned : Row ℕ ℕ
returned = row_from_record (completed reading (codes "b") (object end) (object end))

insert_returns :
    (insert server no_table print debug reading context input (backend 0)).0 ≡ ok returned
unfolding insert Assoc.find Assoc.remove is_transport tool_calls_spec request session_for dispatch
    contains_str finish
insert_returns = refl

-- A scan without restrictions compares nothing.
abbrev comparison : Equality ℕ
comparison = record { same_f64 = λ a b. true; same_value = λ a b. true }

abbrev other_role : TableContext
other_role = record context { resolved = record context.resolved { key = (1, 11) } }

insert-scanned_example :
    Conforms tool_calls_spec.columns returned
    × (log_scan {F = ℕ} comparison
          (unrestricted context)
          (insert server no_table print debug reading context input (backend 0)).1.logs
        ≡ take log_cap (returned ∷ log_scan comparison (unrestricted context) (logs_of history)))
    × (log_scan {F = ℕ} comparison
          (unrestricted other_role)
          (insert server no_table print debug reading context input (backend 0)).1.logs
        ≡ log_scan comparison (unrestricted other_role) (logs_of history))
insert-scanned_example =
    insert-scanned server no_table print debug comparison reading context input (backend 0) returned
      other_role refl insert_returns

-- A row without a tool.
abbrev nameless : InsertRow ℕ ℕ
nameless = record { spec = tool_calls_spec; cells = [] }

insert_fails :
    (insert server no_table print debug reading context nameless (backend 0)).0
    ≡ err (tool_missing debug)
unfolding insert tool_calls_spec
insert_fails = refl

insert_failed_example :
    ((insert server no_table print debug reading context nameless (backend 0)).1.logs
      ≡ logs_of history)
    × ((insert server no_table print debug reading context nameless (backend 0)).1.database ≡ 0)
insert_failed_example =
    insert_failed server no_table print debug reading context nameless (backend 0)
      (tool_missing debug) refl insert_fails
